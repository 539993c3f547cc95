-- ===== src/Strategies/Null/Total.antt =====
-- The null of the search over rules that have picks.
use sportsbetting.Base.{
  ℕ, zero, suc, ◌≤◌, ◌≡◌, refl, arith, inl, inr, Bool, Option, none, List, [], ◌∷◌, map, filter,
  length, leb, Bool-cases, All,
}
use sportsbetting.Base.Result.{ok}
use sportsbetting.Base.Sort.{sort_by}
use sportsbetting.Float.{Float, le}
use sportsbetting.Backtest.Sample.{Sample}
use sportsbetting.Strategies.Rules.{Strategy, picks}
use sportsbetting.Strategies.Null.{
  best_of, add_best, outcomes_of, win_pnl_of, permutation_band, shuffled_wins, repeat_null,
  permutation_null,
}

abbrev HasPicks : List ℕ → Type 0
HasPicks indexes = 1 ≤ length indexes

many-HasPicks :
    (min_n : ℕ) (chosen : List (List ℕ))
    → 1 ≤ min_n
    → All HasPicks (filter (λ indexes. leb min_n (length indexes)) chosen)
many-HasPicks min_n [] h = tt
many-HasPicks min_n (indexes ∷ chosen) h = elim (Bool-cases (leb min_n (length indexes))) [
  | inl many ↦ rw many (ground (arith, many, h), many-HasPicks min_n chosen h)
  | inr few ↦ rw few (many-HasPicks min_n chosen h)
]

module _ {F : Type 0} ⦃fl : Float F⦄ where
  best_of_total :
      (outcomes : List F) (eligible : List (List ℕ)) (best : Option F)
      → All HasPicks eligible
      → (found : Option F) × (best_of outcomes eligible best ≡ ok found)
  best_of_total outcomes [] best h = (best, refl)
  best_of_total outcomes ([] ∷ rest) best (h, hs) = absurd (omega (arith, h))
  best_of_total outcomes ((i ∷ indexes) ∷ rest) best (h, hs) = best_of_total outcomes rest _ hs

  module _ {R : Type 0} (shuffle : R → List Bool → List Bool × R) where
    repeat_null_total :
        (rows : List (Sample F)) (win_pnl : List F) (eligible : List (List ℕ)) (reps : ℕ) (r : R)
        → All HasPicks eligible
        → (null : List F) × (repeat_null shuffle rows win_pnl eligible reps r ≡ ok null)
    unfolding repeat_null
    repeat_null_total rows win_pnl eligible zero r h = ([], refl)
    repeat_null_total rows win_pnl eligible (suc reps) r h =
        let (wons, r') = shuffled_wins shuffle rows r permutation_band in
        let (best, e) = best_of_total (outcomes_of win_pnl wons) eligible none h in
        let (null, e') = repeat_null_total rows win_pnl eligible reps r' h in
        (add_best best null, rw e (rw e' refl))

    -- Where the minimum number of picks is positive, no repetition divides by zero.
    pub permutation_null_total :
        (rows : List (Sample F)) (strategies : List (Strategy F)) (fee_rate : F) (reps min_n : ℕ)
        (seed : R)
        → 1 ≤ min_n
        → (null : List F) × (permutation_null shuffle rows strategies fee_rate reps min_n seed
            ≡ ok null)
    unfolding permutation_null
    permutation_null_total rows strategies fee_rate reps min_n seed h =
        let chosen = map (λ s. picks s rows) strategies in
        let (null, e) =
          repeat_null_total rows (map (win_pnl_of fee_rate) rows)
            (filter (λ indexes. leb min_n (length indexes)) chosen) reps seed
            (many-HasPicks min_n chosen h) in
        (sort_by le null, rw e refl)
