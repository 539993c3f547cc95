-- ===== src/Matching/Fair/Quoted.antt =====
-- What a fair probability of `fair_for_outcome` rests on.
use mathlib.Core.Path.{subst}
use sportsbetting.Base.{
  ℕ, ◌≤◌, ◌≡◌, ◌⊎◌, inl, inr, refl, arith, String, Bool, true, false, Option, none, some, List, [],
  ◌∷◌, leb, ◌==◌, if◌then◌else◌, Bool-cases,
}
use sportsbetting.Base.Dict.{Dict}
use sportsbetting.Base.Result.{Result, ok, value_error, map_ok, >>=-eq-ok, ok_inj}
use sportsbetting.Float.{Float}
use sportsbetting.Odds.Convert.{american_to_prob}
use sportsbetting.Odds.Devig.{devig, is_method}
use sportsbetting.Odds.Consensus.{FairProb, consensus}
use sportsbetting.Edge.Types.{PmMarket, PmOutcome}
use sportsbetting.Matching.Match.{BookGame}
use sportsbetting.Matching.Fair.{
  BookOutcome, BookQuote, book_key_of, book_outcomes, pair_for_book, quote_prob, first_prob,
  sample_of_pair, add_sample, collect_samples, line_of, fair_of, fair_for_outcome,
}
use sportsbetting.Matching.Fair.Sides.{IsOffered, IsOpposed}
use sportsbetting.Matching.Fair.Pair.{
  book_outcomes-IsOffered, IsOffered-book_outcomes, pair_for_book-IsOpposed, pair_for_book-none,
}

module _ {F : Type 0} ⦃fl : Float F⦄ where
  -- The probability of the first of two sides after the margin is taken out of their odds.
  abbrev pub IsDevigged : String → BookOutcome F → BookOutcome F → F → Type 0
  IsDevigged method this opp prob =
      (p q : F) × (rest : List F) × (american_to_prob this.price_american ≡ ok p)
      × (american_to_prob opp.price_american ≡ ok q)
      × (devig method (p ∷ q ∷ []) ≡ ok (prob ∷ rest))

  quote_prob-IsDevigged :
      (method : String) (this opp : BookOutcome F) {prob : F}
      → quote_prob method (this, opp) ≡ ok prob
      → IsDevigged method this opp prob
  unfolding quote_prob
  quote_prob-IsDevigged method this opp {prob} e =
      let (p, is_p, e₁) = >>=-eq-ok (american_to_prob this.price_american) _ e in
      let (q, is_q, e₂) = >>=-eq-ok (american_to_prob opp.price_american) _ e₁ in
      let (probs, is_probs, e₃) = >>=-eq-ok (devig method (p ∷ q ∷ [])) _ e₂ in
      first probs p q is_p is_q is_probs e₃
    where
      first :
          (probs : List F) (p q : F)
          → american_to_prob this.price_american ≡ ok p
          → american_to_prob opp.price_american ≡ ok q
          → devig method (p ∷ q ∷ []) ≡ ok probs
          → first_prob probs ≡ ok prob
          → IsDevigged method this opp prob
      first [] p q a b d g = cc
      first (x ∷ xs) p q a b d g = let same : x ≡ prob = ok_inj g in (p, q, xs, a, b, rw (← same) d)

  module _ (market : PmMarket F) (outcome other : PmOutcome F) (game : BookGame) where
    -- Two outcomes that a book offers and that are the two sides of the bet.
    abbrev pub AreOffered : BookQuote F → BookOutcome F → BookOutcome F → Type 0
    AreOffered quote this opp =
        IsOffered market.market_type quote this
        × IsOffered market.market_type quote opp
        × IsOpposed market.market_type market outcome other game this opp

    module _ (method : String) where
      abbrev pair_at : BookQuote F → Option (BookOutcome F × BookOutcome F)
      pair_at quote =
          pair_for_book market outcome other game
            (book_outcomes quote (book_key_of market.market_type))

      -- A book that gives no sample: it does not offer both sides, or the math rejects its odds.
      abbrev pub IsUnusable : BookQuote F → Type 0
      IsUnusable quote =
          ((this opp : BookOutcome F) → ¬ AreOffered quote this opp)
          ⊎ ((this opp : BookOutcome F) × AreOffered quote this opp
              × (quote_prob method (this, opp) ≡ value_error)
              × (is_method method ≡ true))

      -- The samples of the books: one for each book that quotes both sides at the line, with the
      -- de-vigged probability of this side.
      pub data AreQuoted : List (BookQuote F) → List (String × F) → Type 0 where
        no_books : AreQuoted [] []
        unusable :
            {quotes : List (BookQuote F)} {samples : List (String × F)} (quote : BookQuote F)
            → IsUnusable quote
            → AreQuoted quotes samples
            → AreQuoted (quote ∷ quotes) samples
        quoted :
            {quotes : List (BookQuote F)} {samples : List (String × F)} (quote : BookQuote F)
            (this opp : BookOutcome F) (prob : F)
            → AreOffered quote this opp
            → IsDevigged method this opp prob
            → AreQuoted quotes samples
            → AreQuoted (quote ∷ quotes) ((quote.bookmaker, prob) ∷ samples)

      pair_at-AreOffered :
          (quote : BookQuote F) {this opp : BookOutcome F}
          → pair_at quote ≡ some (this, opp)
          → AreOffered quote this opp
      pair_at-AreOffered quote e =
          let (m, n, opposed) =
            pair_for_book-IsOpposed market outcome other game
              (book_outcomes quote (book_key_of market.market_type)) e in
          (
            book_outcomes-IsOffered market.market_type quote m,
            book_outcomes-IsOffered market.market_type quote n,
            opposed,
          )

      pair_at-none :
          (quote : BookQuote F) (this opp : BookOutcome F)
          → pair_at quote ≡ none
          → ¬ AreOffered quote this opp
      pair_at-none quote this opp e (m, n, opposed) =
          pair_for_book-none market outcome other game
            (book_outcomes quote (book_key_of market.market_type)) e
            (IsOffered-book_outcomes market.market_type quote m)
            (IsOffered-book_outcomes market.market_type quote n) opposed

      one_book :
          (quote : BookQuote F) (quotes : List (BookQuote F))
          (sides : Option (BookOutcome F × BookOutcome F)) (rest : Result (List (String × F)))
          {samples : List (String × F)}
          → pair_at quote ≡ sides
          → ((found : List (String × F)) → rest ≡ ok found → AreQuoted quotes found)
          → sample_of_pair method quote.bookmaker sides rest ≡ ok samples
          → AreQuoted (quote ∷ quotes) samples
      one_book quote quotes none rest p ih e =
          AreQuoted.unusable quote (inl (λ this opp. pair_at-none quote this opp p)) (ih _ e)
      one_book quote quotes (some (this, opp)) rest {samples} p ih e =
          with_prob (quote_prob method (this, opp)) (is_method method) refl refl e
        where
          with_prob :
              (call : Result F) (known : Bool)
              → quote_prob method (this, opp) ≡ call
              → is_method method ≡ known
              → add_sample known quote.bookmaker call rest ≡ ok samples
              → AreQuoted (quote ∷ quotes) samples
          with_prob (ok prob) known c k f = with_rest rest refl f
            where
              with_rest :
                  (call : Result (List (String × F)))
                  → rest ≡ call
                  → map_ok (λ found. (quote.bookmaker, prob) ∷ found) call ≡ ok samples
                  → AreQuoted (quote ∷ quotes) samples
              with_rest value_error r g = cc
              with_rest (ok found) r g = subst (AreQuoted (quote ∷ quotes)) (ok_inj g) (
                  AreQuoted.quoted quote this opp prob (pair_at-AreOffered quote p)
                    (quote_prob-IsDevigged method this opp c) (ih found r))
          with_prob value_error true c k f =
              AreQuoted.unusable quote (inr (this, opp, pair_at-AreOffered quote p, c, k))
                (ih samples f)
          with_prob value_error false c k f = cc

      collect_samples-AreQuoted :
          (quotes : List (BookQuote F)) {samples : List (String × F)}
          → collect_samples method market outcome other game quotes ≡ ok samples
          → AreQuoted quotes samples
      unfolding collect_samples
      collect_samples-AreQuoted [] e = subst (AreQuoted []) (ok_inj e) AreQuoted.no_books
      collect_samples-AreQuoted (quote ∷ quotes) e =
          one_book quote quotes (pair_at quote)
            (collect_samples method market outcome other game quotes) refl
            (λ found f. collect_samples-AreQuoted quotes f) e

  -- The outcome of an index and the other one.
  abbrev pub side_at : PmMarket F → ℕ → PmOutcome F
  side_at market index = if index == 0 then market.outcome_a else market.outcome_b

  abbrev pub other_at : PmMarket F → ℕ → PmOutcome F
  other_at market index = if index == 0 then market.outcome_b else market.outcome_a

  -- A fair probability of an outcome is the consensus of one sample from each book that offers two
  -- opposed outcomes of the market's type, with odds that the math accepts: the probability of that
  -- side after the margin is taken out. The two are the two teams, the two teams at the points that
  -- the market's line gives them, or over and under at the line, points to nine decimals. A book is
  -- left out only where it offers no such two, or where the math rejects the odds of two such.
  pub fair_for_outcome_sound :
      (market : PmMarket F) (index : ℕ) (game : BookGame) (books : List (BookQuote F))
      (weights : Dict F) (method : String) (default_weight : F) {fair : FairProb F}
      → fair_for_outcome market index game books weights method default_weight ≡ ok (some fair)
      → (index ≤ 1)
        × (samples : List (String × F)) × AreQuoted market
            (side_at market index)
            (other_at market index)
            game
            method
            books
            samples
        × (consensus samples weights default_weight method (line_of market.market_type market.line)
            ≡ ok (some fair))
  unfolding fair_for_outcome
  fair_for_outcome_sound market index game books weights method default_weight {fair} e =
      elim (Bool-cases (leb index 1)) [
        | inr big ↦ let e' : value_error ≡ ok (some fair) = rw big at e in cc
        | inl small ↦
            let (samples, collected, e') =
              >>=-eq-ok
                (collect_samples method market (side_at market index) (other_at market index) game
                  books)
                (λ found.
                  fair_of found weights default_weight method
                    (line_of market.market_type market.line))
                (rw small at e) in
            (
              ground (arith, small),
              samples,
              collect_samples-AreQuoted market (side_at market index) (other_at market index) game
                  method books collected,
              given samples e',
            )
      ]
    where
      given :
          (samples : List (String × F))
          → fair_of samples weights default_weight method (line_of market.market_type market.line)
            ≡ ok (some fair)
          → consensus samples weights default_weight method (line_of market.market_type market.line)
            ≡ ok (some fair)
      given [] e = cc
      given (sample ∷ samples) e = e
