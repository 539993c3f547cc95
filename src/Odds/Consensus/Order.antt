-- ===== src/Odds/Consensus/Order.antt =====
-- The order in which the bookmakers come does not change the consensus.
use mathlib.Core.List.{Permᴰ}
use mathlib.Core.List.Permᴰ
use sportsbetting.Base.{
  String, Bool, true, false, not, Option, none, some, List, [], ◌∷◌, map, ◌≡◌, refl, sym, ap, ◌∙◌,
  arith, if◌then◌else◌, Bool-cases, inl, inr,
}
use sportsbetting.Base.Dict
use sportsbetting.Base.Dict.{Dict}
use sportsbetting.Base.Result.{Result, ok, value_error, ◌>>=◌, map_ok}
use sportsbetting.Base.Sort.{sort_by, insert_by, sort_by_congr}
use sportsbetting.Base.Text.{
  compare_text-eq, compare_text_refl, compare_text_total, compare_text_asymm, compare_text_trans,
}
use sportsbetting.Float.{Float, float, le, lt, eq}
use sportsbetting.Float.Laws.{IsFloat, le_of_not-le}
use sportsbetting.Odds.Devig.{is_open_prob}
use sportsbetting.Odds.Consensus.{
  FairProb, Used, name_le, used_le, collect, summarise, summarise_used, consensus,
}

module _ {F : Type 0} ⦃fl : Float F⦄ where
  abbrev pair_le : String × F → String × F → Bool
  pair_le p q = name_le p.0 q.0 (le p.1 q.1)

  module _ (laws : IsFloat F) where
    open laws use {le_trans, le_antisym}

    pair_le_total : (p q : String × F) → pair_le p q ≡ false → pair_le q p ≡ true
    pair_le_total (s, x) (t, y) h = ground (
      arith,
      compare_text_total s t,
      compare_text_asymm t s,
      le_of_not-le laws x y,
      compare_text_total t s,
      compare_text_asymm s t,
    )

    pair_le_antisym : (p q : String × F) → pair_le p q ≡ true → pair_le q p ≡ true → p ≡ q
    pair_le_antisym (s, x) (t, y) h k =
        ground (
          arith,
          compare_text_asymm s t,
          compare_text_asymm t s,
          compare_text-eq s t,
          le_antisym x y,
        )

    pair_le_trans :
        (p q r : String × F) → pair_le p q ≡ true → pair_le q r ≡ true → pair_le p r ≡ true
    pair_le_trans (s, x) (t, y) (u, z) h k = ground (
      arith,
      compare_text-eq s t,
      compare_text-eq t u,
      compare_text_trans s t u,
      le_trans x y z,
      compare_text_refl s,
    )

  module _ (weights : Dict F) (default_weight : F) where
    abbrev weight_of : String → F
    weight_of bookmaker = Dict.get_or bookmaker default_weight weights

    abbrev attach : String × F → Used F
    attach p = record { bookmaker = p.0; prob = p.1; weight = weight_of p.0 }

    -- What one sample contributes, and how it joins the rest.
    abbrev contribution : String × F → Result (Option (String × F))
    contribution (bookmaker, prob) =
        if not (is_open_prob prob)
        then value_error
        else if lt (weight_of bookmaker) (float 0)
        then value_error
        else if eq (weight_of bookmaker) (float 0)
        then ok none
        else ok (some (bookmaker, prob))

    abbrev join :
        Result (Option (String × F)) → Result (List (String × F)) → Result (List (String × F))
    join value_error r = value_error
    join (ok none) r = r
    join (ok (some p)) r = map_ok (λ ps. p ∷ ps) r

    abbrev pairs : List (String × F) → Result (List (String × F))
    pairs [] = ok []
    pairs (s ∷ samples) = join (contribution s) (pairs samples)

    map-attach-join :
        (c : Result (Option (String × F))) (r : Result (List (String × F)))
        → map_ok (map attach) (join c r) ≡ elim c [
          | value_error ↦ value_error
          | ok none ↦ map_ok (map attach) r
          | ok (some p) ↦ map_ok (λ us. attach p ∷ us) (map_ok (map attach) r)
        ]
    map-attach-join value_error r = refl
    map-attach-join (ok none) r = refl
    map-attach-join (ok (some p)) value_error = refl
    map-attach-join (ok (some p)) (ok ps) = refl

    collect-eq-pairs :
        (samples : List (String × F))
        → collect weights default_weight samples ≡ map_ok (map attach) (pairs samples)
    unfolding collect
    collect-eq-pairs [] = refl
    collect-eq-pairs ((bookmaker, prob) ∷ samples) =
        rw (map-attach-join (contribution (bookmaker, prob)) (pairs samples))
          (ground (arith, collect-eq-pairs samples))

    -- Two results with the same pairs in some order.
    abbrev SamePairs : Result (List (String × F)) → Result (List (String × F)) → Type 0
    SamePairs (ok ps) (ok qs) = Permᴰ ps qs
    SamePairs value_error value_error = Unit
    SamePairs _ _ = ⊥

    SamePairs-refl : (r : Result (List (String × F))) → SamePairs r r
    SamePairs-refl (ok ps) = Permᴰ.refl ps
    SamePairs-refl value_error = tt

    SamePairs-trans :
        (r s t : Result (List (String × F))) → SamePairs r s → SamePairs s t → SamePairs r t
    SamePairs-trans (ok a) (ok b) (ok c) h k = Permᴰ.trans h k
    SamePairs-trans value_error value_error value_error h k = tt
    SamePairs-trans (ok a) (ok b) value_error h k = elim k [ ]
    SamePairs-trans (ok a) value_error t h k = elim h [ ]
    SamePairs-trans value_error (ok b) t h k = elim h [ ]
    SamePairs-trans value_error value_error (ok c) h k = elim k [ ]

    join-SamePairs :
        (c : Result (Option (String × F))) (r s : Result (List (String × F)))
        → SamePairs r s
        → SamePairs (join c r) (join c s)
    join-SamePairs value_error r s h = tt
    join-SamePairs (ok none) r s h = h
    join-SamePairs (ok (some p)) (ok a) (ok b) h = Permᴰ.cons refl h
    join-SamePairs (ok (some p)) value_error value_error h = tt
    join-SamePairs (ok (some p)) (ok a) value_error h = elim h [ ]
    join-SamePairs (ok (some p)) value_error (ok b) h = elim h [ ]

    join-swap :
        (c d : Result (Option (String × F))) (r : Result (List (String × F)))
        → SamePairs (join c (join d r)) (join d (join c r))
    join-swap value_error value_error r = tt
    join-swap value_error (ok none) r = tt
    join-swap value_error (ok (some q)) r = tt
    join-swap (ok none) value_error r = tt
    join-swap (ok none) (ok none) r = SamePairs-refl r
    join-swap (ok none) (ok (some q)) r = SamePairs-refl (map_ok (λ ps. q ∷ ps) r)
    join-swap (ok (some p)) value_error r = tt
    join-swap (ok (some p)) (ok none) r = SamePairs-refl (map_ok (λ ps. p ∷ ps) r)
    join-swap (ok (some p)) (ok (some q)) value_error = tt
    join-swap (ok (some p)) (ok (some q)) (ok ps) = Permᴰ.swap refl refl

    pairs-SamePairs : {xs ys : List (String × F)} → Permᴰ xs ys → SamePairs (pairs xs) (pairs ys)
    pairs-SamePairs Permᴰ.nil = Permᴰ.nil
    pairs-SamePairs (Permᴰ.cons {a = a} {l₁ = l₁} {l₂ = l₂} e p) =
        rw (← e) (join-SamePairs (contribution a) (pairs l₁) (pairs l₂) (pairs-SamePairs p))
    pairs-SamePairs (Permᴰ.swap {a = a} {b = b} {l = l} e f) =
        rw (← e, ← f) (join-swap (contribution a) (contribution b) (pairs l))
    pairs-SamePairs (Permᴰ.trans {l₁ = l₁} {l₂ = l₂} {l₃ = l₃} p q) =
        SamePairs-trans (pairs l₁) (pairs l₂) (pairs l₃) (pairs-SamePairs p) (pairs-SamePairs q)

    -- The sort sees the pairs only.
    insert_by-attach :
        (p : String × F) (ps : List (String × F))
        → insert_by used_le (attach p) (map attach ps) ≡ map attach (insert_by pair_le p ps)
    unfolding used_le
    insert_by-attach p [] = refl
    insert_by-attach p (q ∷ ps) = elim (Bool-cases (pair_le p q)) [
      | inl e ↦ rw e
      | inr e ↦ rw e (ap (λ us. attach q ∷ us) (insert_by-attach p ps))
    ]

    sort_by-attach :
        (ps : List (String × F)) → sort_by used_le (map attach ps) ≡ map attach (sort_by pair_le ps)
    unfolding sort_by
    sort_by-attach [] = refl
    sort_by-attach (p ∷ ps) =
        ap (insert_by used_le (attach p)) (sort_by-attach ps)
        ∙ insert_by-attach p (sort_by pair_le ps)

  module _ (method : String) (line : Option F) where
    abbrev finish : List (Used F) → Option (FairProb F)
    finish [] = none
    finish (u ∷ us) = some (summarise method line (u ∷ us))

    finish-insert_by :
        (u : Used F) (us : List (Used F))
        → finish (insert_by used_le u us) ≡ some (summarise method line (insert_by used_le u us))
    finish-insert_by u [] = refl
    finish-insert_by u (v ∷ us) = elim (Bool-cases (used_le u v)) [ inl e ↦ rw e | inr e ↦ rw e ]

    summarise_used-eq-finish :
        (used : List (Used F)) → summarise_used method line used ≡ finish (sort_by used_le used)
    unfolding summarise_used sort_by
    summarise_used-eq-finish [] = refl
    summarise_used-eq-finish (u ∷ us) = sym (finish-insert_by u (sort_by used_le us))

  module _ (laws : IsFloat F) (weights : Dict F) (default_weight : F) (method : String)
      (line : Option F) where
    summary : Result (List (String × F)) → Result (Option (FairProb F))
    summary r = map_ok (λ ps. summarise_used method line (map (attach weights default_weight) ps)) r

    summary_congr :
        (r s : Result (List (String × F)))
        → SamePairs weights default_weight r s
        → summary r ≡ summary s
    unfolding summary
    summary_congr (ok ps) (ok qs) p =
        let used = λ (xs : List (String × F)). map (attach weights default_weight) xs in
        let sorted : sort_by used_le (used ps) ≡ sort_by used_le (used qs) =
          sort_by-attach weights default_weight ps
          ∙ ap used (
              sort_by_congr pair_le (pair_le_trans laws) (pair_le_total laws) (pair_le_antisym laws)
                p)
          ∙ sym (sort_by-attach weights default_weight qs) in
        ap ok (
          summarise_used-eq-finish method line (used ps)
          ∙ ap (finish method line) sorted
          ∙ sym (summarise_used-eq-finish method line (used qs)))
    summary_congr value_error value_error p = refl
    summary_congr (ok ps) value_error p = elim p [ ]
    summary_congr value_error (ok qs) p = elim p [ ]

    collected :
        (samples : List (String × F))
        → (collect weights default_weight samples >>= λ used. ok (summarise_used method line used))
          ≡ summary (pairs weights default_weight samples)
    unfolding summary
    collected samples = rw collect-eq-pairs (step (pairs weights default_weight samples))
      where
        step :
            (r : Result (List (String × F)))
            → (map_ok (map (attach weights default_weight)) r >>= λ used.
                ok (summarise_used method line used))
              ≡ map_ok (λ ps. summarise_used method line (map (attach weights default_weight) ps)) r
        step (ok ps) = refl
        step value_error = refl

    -- Equal samples in another order give the same result: the same error, the same answer that no
    -- book qualifies, or the same probability with the same books listed in the same order.
    pub consensus_congr :
        (xs ys : List (String × F))
        → Permᴰ xs ys
        → consensus xs weights default_weight method line
          ≡ consensus ys weights default_weight method line
    unfolding consensus
    consensus_congr xs ys p = rw (
      collected xs,
      collected ys,
      summary_congr (pairs weights default_weight xs) (pairs weights default_weight ys)
          (pairs-SamePairs weights default_weight p),
    )
