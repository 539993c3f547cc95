-- ===== src/Matching/Fair/Pair.antt =====
-- `_pair_for_book` finds the two sides of a bet in a book exactly where the book offers them.
use mathlib.Core.List.{Memᴰ}
use mathlib.Core.List.Memᴰ
use sportsbetting.Base.{
  ◌≡◌, inl, inr, refl, String, true, Option, none, some, List, [], ◌∷◌, ◌++◌, str_eq, str_eq_refl,
  eq_iff, Bool-cases,
}
use sportsbetting.Float.{Float, neg}
use sportsbetting.Edge.Types.{PmMarket, PmOutcome, MarketType, moneyline, spread, total}
use sportsbetting.Matching.Match.{BookGame}
use sportsbetting.Matching.Fair.{
  BookOutcome, BookMarket, BookQuote, book_key_of, opposite_side, outcomes_in, book_outcomes,
  find_first, both, total_side, opp_key_of, on_team, on_team_at, on_side, required_point,
  spread_pair, total_pair, pair_by, pair_for_book,
}
use sportsbetting.Matching.Fair.Sides.{
  IsKey, IsOffered, IsOpposed, is_team_iff, on_team_at_iff, on_side_iff, both-found, both-fails,
  opp_key_of-IsOpponent, IsOpponent-opp_key_of, required_point-IsPoint, IsPoint-required_point,
  total_side-AreSides, AreSides-total_side,
}

IsKey-book_key_of : (kind : MarketType) {key : String} → IsKey kind key → key ≡ book_key_of kind
IsKey-book_key_of moneyline h = h
IsKey-book_key_of spread h = h
IsKey-book_key_of total h = h

book_key_of-IsKey : (kind : MarketType) {key : String} → key ≡ book_key_of kind → IsKey kind key
book_key_of-IsKey moneyline h = h
book_key_of-IsKey spread h = h
book_key_of-IsKey total h = h

module _ {F : Type 0} where
  outcomes_in-found :
      (markets : List (BookMarket F)) (key : String) {o : BookOutcome F}
      → Memᴰ o (outcomes_in markets key)
      → (m : BookMarket F) × Memᴰ m markets × (m.key ≡ key) × Memᴰ o m.outcomes
  outcomes_in-found [] key m = elim m [ ]
  outcomes_in-found (market ∷ markets) key {o} m = elim (Bool-cases (str_eq market.key key)) [
    | inl here ↦
        let m' : Memᴰ o (market.outcomes ++ outcomes_in markets key) = rw here at m in
        elim (Memᴰ.append_cases market.outcomes m') [
          | inl own ↦ (market, Memᴰ.head refl, (eq_iff market.key key).0 here, own)
          | inr rest ↦
              let (n, i, k, own) = outcomes_in-found markets key rest in (n, Memᴰ.tail i, k, own)
        ]
    | inr there ↦
        let m' : Memᴰ o (outcomes_in markets key) = rw there at m in
        let (n, i, k, own) = outcomes_in-found markets key m' in (n, Memᴰ.tail i, k, own)
  ]

  found-outcomes_in :
      (markets : List (BookMarket F)) (key : String) {o : BookOutcome F} (m : BookMarket F)
      → Memᴰ m markets
      → m.key ≡ key
      → Memᴰ o m.outcomes
      → Memᴰ o (outcomes_in markets key)
  found-outcomes_in [] key m i k own = elim i [ ]
  found-outcomes_in (market ∷ markets) key {o} m (Memᴰ.head e) k own =
      let here : str_eq market.key key ≡ true = rw (← e, k) (str_eq_refl key) in
      let mine : Memᴰ o market.outcomes = rw (← e) own in
      rw here (Memᴰ.append_left (outcomes_in markets key) mine)
  found-outcomes_in (market ∷ markets) key {o} m (Memᴰ.tail i) k own =
      let rest = found-outcomes_in markets key m i k own in
      elim (Bool-cases (str_eq market.key key)) [
        | inl here ↦ rw here (Memᴰ.append_right market.outcomes rest)
        | inr there ↦ rw there rest
      ]

  pub book_outcomes-IsOffered :
      (kind : MarketType) (quote : BookQuote F) {o : BookOutcome F}
      → Memᴰ o (book_outcomes quote (book_key_of kind))
      → IsOffered kind quote o
  unfolding book_outcomes
  book_outcomes-IsOffered kind quote m =
      let (market, i, k, own) = outcomes_in-found quote.markets (book_key_of kind) m in
      (market, i, book_key_of-IsKey kind k, own)

  pub IsOffered-book_outcomes :
      (kind : MarketType) (quote : BookQuote F) {o : BookOutcome F}
      → IsOffered kind quote o
      → Memᴰ o (book_outcomes quote (book_key_of kind))
  unfolding book_outcomes
  IsOffered-book_outcomes kind quote (market, i, k, own) =
      found-outcomes_in quote.markets (book_key_of kind) market i (IsKey-book_key_of kind k) own

module _ {F : Type 0} ⦃fl : Float F⦄ where
  module _ (market : PmMarket F) (outcome other : PmOutcome F) (game : BookGame)
      (os : List (BookOutcome F)) where
    pair_by-IsOpposed :
        (kind : MarketType) (key : Option String) {this opp : BookOutcome F}
        → outcome.team_key ≡ key
        → pair_by kind key market outcome other game os ≡ some (this, opp)
        → Memᴰ this os × Memᴰ opp os × IsOpposed kind market outcome other game this opp
    pair_by-IsOpposed moneyline none k e = cc
    pair_by-IsOpposed moneyline (some key) {this} {opp} k e =
        let opp_key = opp_key_of key other.team_key game in
        let ((m, t), (n, u)) = both-found (on_team key) (on_team opp_key) os e in
        (
          m,
          n,
          (
            key,
            opp_key,
            k,
            opp_key_of-IsOpponent key other game,
            (is_team_iff key this.team_key).0 t,
            (is_team_iff opp_key opp.team_key).0 u,
          ),
        )
    pair_by-IsOpposed spread none k e = cc
    pair_by-IsOpposed spread (some key) {this} {opp} k e =
        at_point (required_point key other.team_key market.line market.line_team_key) refl e
      where
        at_point :
            (required : Option F)
            → required_point key other.team_key market.line market.line_team_key ≡ required
            → spread_pair key (opp_key_of key other.team_key game) required os ≡ some (this, opp)
            → Memᴰ this os × Memᴰ opp os × IsOpposed spread market outcome other game this opp
        at_point none r f = cc
        at_point (some point) r f =
            let opp_key = opp_key_of key other.team_key game in
            let ((m, t), (n, u)) =
              both-found (on_team_at key point) (on_team_at opp_key (neg point)) os f in
            let (team, here) = (on_team_at_iff key point this).0 t in
            let (opp_team, there) = (on_team_at_iff opp_key (neg point) opp).0 u in
            (
              m,
              n,
              (
                key,
                opp_key,
                point,
                k,
                opp_key_of-IsOpponent key other game,
                required_point-IsPoint market key other r,
                team,
                here,
                opp_team,
                there,
              ),
            )
    pair_by-IsOpposed total key {this} {opp} k e =
        at_line (total_side outcome) market.line refl refl e
      where
        at_line :
            (s : Option String) (l : Option F)
            → total_side outcome ≡ s
            → market.line ≡ l
            → total_pair s l os ≡ some (this, opp)
            → Memᴰ this os × Memᴰ opp os × IsOpposed total market outcome other game this opp
        at_line none l p q f = cc
        at_line (some side) none p q f = cc
        at_line (some side) (some line) p q f =
            let opp_side = opposite_side side in
            let ((m, t), (n, u)) = both-found (on_side side line) (on_side opp_side line) os f in
            let (name, here) = (on_side_iff side line this).0 t in
            let (opp_name, there) = (on_side_iff opp_side line opp).0 u in
            let (word, sides) = total_side-AreSides outcome p in
            (m, n, (side, opp_side, line, word, sides, q, name, here, opp_name, there))

    pair_by-none :
        (kind : MarketType) (key : Option String) {this opp : BookOutcome F}
        → outcome.team_key ≡ key
        → pair_by kind key market outcome other game os ≡ none
        → Memᴰ this os
        → Memᴰ opp os
        → ¬ IsOpposed kind market outcome other game this opp
    pair_by-none moneyline none k e m n (key, opp_key, k', o, t, u) = cc
    pair_by-none moneyline (some key') {this} {opp} k e m n (key, opp_key, k', o, t, u) =
        let same : key' ≡ key = cc in
        let opp_same = IsOpponent-opp_key_of key other game o in
        let e' : both (find_first (on_team key) os) (find_first (on_team opp_key) os) ≡ none =
          rw (same, opp_same) at e in
        both-fails (on_team key) (on_team opp_key) os e' m n ((is_team_iff key this.team_key).1 t)
          ((is_team_iff opp_key opp.team_key).1 u)
    pair_by-none spread none k e m n (key, opp_key, point, k', _, _, _, _, _, _) = cc
    pair_by-none spread (some key') {this} {opp} k e m n
          (key, opp_key, point, k', o, r, t, here, u, there) =
        let same : key' ≡ key = cc in
        let opp_same = IsOpponent-opp_key_of key other game o in
        let required = IsPoint-required_point market key other r in
        let e' : both (find_first (on_team_at key point) os)
              (find_first (on_team_at opp_key (neg point)) os)
            ≡ none =
          rw (same, opp_same, required) at e in
        both-fails (on_team_at key point) (on_team_at opp_key (neg point)) os e' m n
          ((on_team_at_iff key point this).1 (t, here))
          ((on_team_at_iff opp_key (neg point) opp).1 (u, there))
    pair_by-none total key' {this} {opp} k e m n
          (side, opp_side, line, w, sides, l, t, here, u, there) =
        let (found, opp_same) = AreSides-total_side outcome w sides in
        let e' : both (find_first (on_side side line) os) (find_first (on_side opp_side line) os)
            ≡ none =
          rw (found, l, opp_same) at e in
        both-fails (on_side side line) (on_side opp_side line) os e' m n
          ((on_side_iff side line this).1 (t, here)) ((on_side_iff opp_side line opp).1 (u, there))

    pub pair_for_book-IsOpposed :
        {this opp : BookOutcome F}
        → pair_for_book market outcome other game os ≡ some (this, opp)
        → Memᴰ this os
          × Memᴰ opp os
          × IsOpposed market.market_type market outcome other game this opp
    unfolding pair_for_book
    pair_for_book-IsOpposed e = pair_by-IsOpposed market.market_type outcome.team_key refl e

    pub pair_for_book-none :
        {this opp : BookOutcome F}
        → pair_for_book market outcome other game os ≡ none
        → Memᴰ this os
        → Memᴰ opp os
        → ¬ IsOpposed market.market_type market outcome other game this opp
    unfolding pair_for_book
    pair_for_book-none e m n = pair_by-none market.market_type outcome.team_key refl e m n
