-- ===== src/Strategies/Null.antt =====
-- `shuffled_wins` and `permutation_null` of app/services/strategies.py. The generator is a parameter:
-- `shuffle r xs` is `rng.shuffle(xs)` at the state `r` and the state that follows.
pub mod Bands
pub mod Wins
pub mod Total
use sportsbetting.Base.{
  ℕ, zero, suc, String, Bool, true, false, not, ◌&&◌, ◌||◌, Option, none, some, List, [], ◌∷◌, ◌++◌,
  map, filter, length, get_elem?, leb, if◌then◌else◌,
}
use sportsbetting.Base.Result.{Result, ok, value_error, ◌>>=◌, map_ok}
use sportsbetting.Base.Sort.{sort_by}
use sportsbetting.Float.{Float, float, decimal, ◌⊖◌, ◌⊘◌, le, lt, eq, floor, sum}
use sportsbetting.Backtest.Sample.{Sample}
use sportsbetting.Strategies.Rules.{Strategy, picks, at_indexes, effective_cost}

-- `PERMUTATION_BAND`
abbrev pub permutation_band : {F : Type 0} ⦃fl : Float F⦄ → F
permutation_band = decimal 2 2

-- `out[i] = value`
abbrev pub set_at : List Bool → ℕ → Bool → List Bool
set_at [] i value = []
set_at (x ∷ xs) zero value = value ∷ xs
set_at (x ∷ xs) (suc i) value = x ∷ set_at xs i value

-- The loop over `zip(members, values, strict=True)`; a shuffle in place keeps the length.
abbrev pub write_all : List ℕ → List Bool → List Bool → List Bool
write_all [] values out = out
write_all (i ∷ members) [] out = out
write_all (i ∷ members) (value ∷ values) out = write_all members values (set_at out i value)

-- `[False] * len(rows)`
abbrev pub falses : {A : Type 0} → List A → List Bool
falses [] = []
falses (x ∷ xs) = false ∷ falses xs

module _ {R : Type 0} (shuffle : R → List Bool → List Bool × R) where
  -- The loop over the groups, on their indexes.
  abbrev pub write_groups :
      {K : Type 0} → List (K × List ℕ) → List Bool → R → List Bool → List Bool × R
  write_groups [] wons r out = (out, r)
  write_groups ((band, members) ∷ groups) wons r out =
      let (values, r') = shuffle r (at_indexes wons members) in
      write_groups groups wons r' (write_all members values out)

module _ {F : Type 0} ⦃fl : Float F⦄ where
  -- `groups.setdefault(band, []).append(i)`
  abbrev pub add_index : F → ℕ → List (F × List ℕ) → List (F × List ℕ)
  add_index band i [] = (band, i ∷ []) ∷ []
  add_index band i ((b, members) ∷ groups) =
      if eq b band
      then (b, members ++ (i ∷ [])) ∷ groups
      else (b, members) ∷ add_index band i groups

  -- `int(row.close_price / band)`: prices are positive, where `int` is `floor`.
  abbrev band_of_price : F → Sample F → F
  band_of_price band row = floor (row.close_price ⊘ band)

  abbrev pub group_from : F → ℕ → List (Sample F) → List (F × List ℕ) → List (F × List ℕ)
  group_from band i [] groups = groups
  group_from band i (row ∷ rows) groups =
      group_from band (suc i) rows (add_index (band_of_price band row) i groups)

  unfoldable pub bands_by_price : F → List (Sample F) → List (F × List ℕ)
  bands_by_price band rows = group_from band 0 rows []

  abbrev pub win_pnl_of : F → Sample F → F
  win_pnl_of fee_rate row =
      let cost = effective_cost row.close_price fee_rate in
      if lt (float 0) cost && lt cost (float 1) then (float 1 ⊖ cost) ⊘ cost else float 0 ⊖ float 1

  abbrev pub outcomes_of : List F → List Bool → List F
  outcomes_of (pnl ∷ pnls) (won ∷ wons) =
      (if won then pnl else float 0 ⊖ float 1) ∷ outcomes_of pnls wons
  outcomes_of pnls wons = []

  -- One rule on shuffled results; a rule without picks is a division by zero.
  abbrev pub roi_on : List F → List ℕ → Result F
  roi_on outcomes [] = value_error
  roi_on outcomes (i ∷ indexes) =
      ok (sum (at_indexes outcomes (i ∷ indexes)) ⊘ float (length (i ∷ indexes)))

  abbrev pub better : Option F → F → Option F
  better none roi = some roi
  better (some best) roi = if lt best roi then some roi else some best

  abbrev pub best_of : List F → List (List ℕ) → Option F → Result (Option F)
  best_of outcomes [] best = ok best
  best_of outcomes (indexes ∷ rest) best =
      roi_on outcomes indexes >>= λ roi. best_of outcomes rest (better best roi)

  abbrev pub add_best : Option F → List F → List F
  add_best none rest = rest
  add_best (some best) rest = best ∷ rest

  module _ {R : Type 0} (shuffle : R → List Bool → List Bool × R) where
    unfoldable pub shuffled_wins : List (Sample F) → R → F → List Bool × R
    unfolding bands_by_price
    shuffled_wins rows r band =
        write_groups shuffle (bands_by_price band rows) (map (λ row. row.won) rows) r (falses rows)

    unfoldable pub repeat_null : List (Sample F) → List F → List (List ℕ) → ℕ → R → Result (List F)
    unfolding shuffled_wins
    repeat_null rows win_pnl eligible zero r = ok []
    repeat_null rows win_pnl eligible (suc reps) r =
        let (wons, r') = shuffled_wins rows r permutation_band in
        best_of (outcomes_of win_pnl wons) eligible none >>= λ best.
        map_ok (add_best best) (repeat_null rows win_pnl eligible reps r')

    -- `seed` is the generator that `random.Random(seed)` makes.
    unfoldable pub permutation_null :
        List (Sample F) → List (Strategy F) → F → ℕ → ℕ → R → Result (List F)
    unfolding repeat_null
    permutation_null rows strategies fee_rate reps min_n seed =
        let chosen = map (λ s. picks s rows) strategies in
        let eligible = filter (λ indexes. leb min_n (length indexes)) chosen in
        map_ok (sort_by le) (repeat_null rows (map (win_pnl_of fee_rate) rows) eligible reps seed)
