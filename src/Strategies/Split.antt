-- ===== src/Strategies/Split.antt =====
-- `split_by_date` of app/services/strategies.py.
pub mod Halves
use sportsbetting.Base.{
  ℕ, ◌/◌, String, Bool, true, false, not, Option, none, some, List, [], ◌∷◌, ◌++◌, filter, length,
  get_elem?, ltb, leb,
}
use sportsbetting.Base.Group.{Groups, group_by}
use sportsbetting.Base.Sort.{sort_by}
use sportsbetting.Backtest.Sample.{Sample}

abbrev add_start : Option ℕ → List ℕ → List ℕ
add_start none rest = rest
add_start (some start) rest = start ∷ rest

abbrev started_before : ℕ → Option ℕ → Bool
started_before cut none = false
started_before cut (some start) = ltb start cut

module _ {F : Type 0} where
  abbrev pub starts_of : List (Sample F) → List ℕ
  starts_of [] = []
  starts_of (row ∷ rows) = add_start row.game_start (starts_of rows)

  -- `starts[len(starts) // 2]`, `none` without starts.
  unfoldable pub median_start : List (Sample F) → Option ℕ
  median_start rows =
      let starts = sort_by leb (starts_of rows) in get_elem? starts (length starts / 2)

  abbrev pub is_early : Option ℕ → Sample F → Bool
  is_early none row = false
  is_early (some cut) row = started_before cut row.game_start

  abbrev pub early_rows : List (Sample F) → List (Sample F)
  early_rows rows = filter (is_early (median_start rows)) rows

  abbrev pub late_rows : List (Sample F) → List (Sample F)
  late_rows rows = filter (λ row. not (is_early (median_start rows) row)) rows

  abbrev add_halves :
      List (Sample F) → List (Sample F) × List (Sample F) → List (Sample F) × List (Sample F)
  add_halves rows (early, late) = (early_rows rows ++ early, late_rows rows ++ late)

  abbrev pub split_groups : Groups (Sample F) → List (Sample F) × List (Sample F)
  split_groups [] = ([], [])
  split_groups ((league, rows) ∷ groups) = add_halves rows (split_groups groups)

  unfoldable pub split_by_date : List (Sample F) → List (Sample F) × List (Sample F)
  split_by_date rows = split_groups (group_by (λ r. r.league) [] rows)
