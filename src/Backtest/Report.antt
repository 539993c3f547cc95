-- ===== src/Backtest/Report.antt =====
-- `normal_cdf`, `significance`, `paired_only` and `report` of app/services/backtest.py. `erf` is
-- `math.erf`; a query is a filter on the table.
pub mod Pairs
use sportsbetting.Base.{
  ℕ, suc, zero, String, Bool, true, false, not, ◌&&◌, ◌||◌, Option, none, some, List, [], ◌∷◌, ◌++◌,
  map, filter, length, str_eq, if◌then◌else◌,
}
use sportsbetting.Base.Group.{group_by}
use sportsbetting.Base.Result.{Result, ok, value_error, ◌>>=◌, map_ok}
use sportsbetting.Float.{Float, float, decimal, ◌⊕◌, ◌⊖◌, ◌⊗◌, ◌⊘◌, le, lt, abs, max, sum, sqrt}
use sportsbetting.Edge.Value.{taker_fee_per_share}
use sportsbetting.Backtest.Sample.{Sample}

-- One line of the report; a band without outcomes has no figures.
pub record Figures (F : Type 0) : Type 0 where
  pub wins : ℕ
  pub implied : F
  pub actual : F
  pub calibration : F
  pub roi_gross : F
  pub roi_net : F
  pub std_error : F
  pub z : F
  pub p_value : F
  pub significant : Bool

pub record Band (F : Type 0) : Type 0 where
  pub low : F
  pub high : F
  pub n : ℕ
  pub figures : Option (Figures F)

module _ {F : Type 0} ⦃fl : Float F⦄ where
  abbrev pub believable : F → List (Sample F) → Bool
  believable max_pair_error (a ∷ b ∷ []) =
      not (lt max_pair_error (abs (sum (a.close_price ∷ b.close_price ∷ []) ⊖ float 1)))
  believable max_pair_error sides = false

  unfoldable pub keep_pairs : F → List (String × List (Sample F)) → List (Sample F)
  keep_pairs max_pair_error [] = []
  keep_pairs max_pair_error ((id, sides) ∷ groups) =
      let rest = keep_pairs max_pair_error groups in
      if believable max_pair_error sides then sides ++ rest else rest

  unfoldable pub paired_only : List (Sample F) → F → List (Sample F)
  unfolding keep_pairs group_by
  paired_only rows max_pair_error = keep_pairs max_pair_error (group_by (λ r. r.market_id) [] rows)

  abbrev pub paired_if : Option F → List (Sample F) → List (Sample F)
  paired_if none rows = rows
  paired_if (some error) rows = paired_only rows error

  -- A row without an age is filtered out, as SQL compares NULL.
  abbrev pub is_fresh : F → Option F → Bool
  is_fresh limit none = false
  is_fresh limit (some age) = le age limit

  -- The filters of the query: a league or type of "" is no filter, and so is an age of `none`.
  abbrev pub is_wanted : String → String → Option F → Sample F → Bool
  is_wanted league kind none row =
      (str_eq league "" || str_eq row.league league)
      && (str_eq kind "" || str_eq row.market_type kind)
  is_wanted league kind (some age) row =
      (str_eq league "" || str_eq row.league league)
      && (str_eq kind "" || str_eq row.market_type kind)
      && is_fresh age row.close_age_hours

  -- `((1.0 - cost) / cost) if won else -1.0`
  abbrev pub return_of : F → Bool → F
  return_of cost won = if won then (float 1 ⊖ cost) ⊘ cost else float 0 ⊖ float 1

  unfoldable pub net_values : F → List (Sample F) → Result (List F)
  net_values fee_rate [] = ok []
  net_values fee_rate (row ∷ rows) = taker_fee_per_share row.close_price fee_rate >>= λ fee.
      map_ok (λ rest. return_of (row.close_price ⊕ fee) row.won ∷ rest) (net_values fee_rate rows)

  module _ (erf : F → F) where
    unfoldable pub normal_cdf : F → F
    normal_cdf z = decimal 5 1 ⊗ (float 1 ⊕ erf (z ⊘ sqrt (float 2)))

    abbrev two_sided : F → F
    two_sided z = float 2 ⊗ (float 1 ⊖ normal_cdf (abs z))

    -- Standard error, z and p.
    unfoldable pub significance : ℕ → ℕ → F → F × F × F
    unfolding normal_cdf
    significance zero wins implied = (float 0, float 0, float 1)
    significance (suc m) wins implied =
        let n = suc m in
        let se = sqrt (max (implied ⊗ (float 1 ⊖ implied)) (float 0) ⊘ float n) in
        if le se (float 0)
        then (float 0, float 0, float 1)
        else let z = (float wins ⊘ float n ⊖ implied) ⊘ se in (se, z, two_sided z)

    abbrev figures_of : List (Sample F) → List F → Figures F
    figures_of band net =
        let n = length band in
        let wins = length (filter (λ r. r.won) band) in
        let implied = sum (map (λ r. r.close_price) band) ⊘ float n in
        let (se, z, p) = significance n wins implied in
        record {
          wins = wins;
          implied = implied;
          actual = float wins ⊘ float n;
          calibration = float wins ⊘ float n ⊖ implied;
          roi_gross = sum (map (λ r. return_of r.close_price r.won) band) ⊘ float n;
          roi_net = sum net ⊘ float (length net);
          std_error = se;
          z = z;
          p_value = p;
          significant = lt p (decimal 5 2);
        }

    unfoldable pub band_of : F → List (Sample F) → F × F → Result (Band F)
    unfolding significance
    band_of fee_rate rows (low, high) =
        let band = filter (λ r. le low r.close_price && lt r.close_price high) rows in
        elim band [
          | [] ↦ ok (record { low = low; high = high; n = 0; figures = none })
          | r ∷ rs ↦ net_values fee_rate (r ∷ rs) >>= λ net. ok (record {
            low = low;
            high = high;
            n = length (r ∷ rs);
            figures = some (figures_of (r ∷ rs) net);
          })
        ]

    unfoldable pub bands_of : F → List (Sample F) → List (F × F) → Result (List (Band F))
    unfolding band_of
    bands_of fee_rate rows [] = ok []
    bands_of fee_rate rows (bounds ∷ rest) = band_of fee_rate rows bounds >>= λ band.
        map_ok (λ bands. band ∷ bands) (bands_of fee_rate rows rest)

    -- The rows that are used, and the bands; `pairs` is the pair error where only pairs count.
    unfoldable pub report :
        List (Sample F)
        → String
        → String
        → List (F × F)
        → F
        → Option F
        → Option F
        → Result (List (Sample F) × List (Band F))
    unfolding bands_of
    report table league kind bands fee_rate max_age pairs =
        let wanted = filter (is_wanted league kind max_age) table in
        let used = paired_if pairs wanted in
        bands_of fee_rate used bands >>= λ found. ok (used, found)
