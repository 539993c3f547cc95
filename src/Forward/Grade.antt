-- ===== src/Forward/Grade.antt =====
-- `pending_market_ids`, `settle` and `prune_market` of app/services/forward.py, on the table of samples.
pub mod Once
use sportsbetting.Base.{
  ℕ, suc, zero, ◌+◌, ◌-◌, String, Bool, true, false, not, ◌&&◌, ◌||◌, Option, none, some, List, [],
  ◌∷◌, map, filter, str_eq, leb, ◌==◌, any, take_first, if◌then◌else◌,
}
use sportsbetting.Float.{Float, float, ◌⊖◌, ◌⊘◌}
use sportsbetting.Edge.Types.{PmMarket}
use sportsbetting.Forward.Record.{ForwardSample}

-- `SETTLE_AFTER_START`, in microseconds, and `MAX_SETTLE_PER_SCAN`
abbrev pub settle_after_start : ℕ
settle_after_start = 10_800_000_000

abbrev pub max_settle_per_scan : ℕ
max_settle_per_scan = 250

-- `.distinct()`, in the order of the last occurrences; SQL promises none.
abbrev distinct : List String → List String
distinct [] = []
distinct (x ∷ xs) = let rest = distinct xs in if any (λ y. str_eq y x) rest then rest else x ∷ rest

module _ {F : Type 0} where
  abbrev pub is_ungraded : ForwardSample F → Bool
  is_ungraded row = elim row.won [ none ↦ true | some won ↦ false ]

  -- `game_start is not None and game_start <= now - SETTLE_AFTER_START`
  abbrev pub is_due : ℕ → ForwardSample F → Bool
  is_due now row = elim row.game_start [
    | none ↦ false
    | some start ↦ leb (start + settle_after_start) now
  ]

  unfoldable pub pending_market_ids : List (ForwardSample F) → ℕ → List String
  pending_market_ids table now =
      take_first max_settle_per_scan
        (distinct (map (λ r. r.market_id) (filter (λ r. is_ungraded r && is_due now r) table)))

  unfoldable pub prune_market : List (ForwardSample F) → String → List (ForwardSample F)
  prune_market table id = filter (λ r. not (str_eq r.market_id id)) table

module _ {F : Type 0} ⦃fl : Float F⦄ where
  abbrev pub graded_return : F → Bool → F
  graded_return price won = if won then (float 1 ⊖ price) ⊘ price else float 0 ⊖ float 1

  -- The assignments to one pending row.
  abbrev pub grade : ℕ → ℕ → ForwardSample F → ForwardSample F
  grade winner now row =
      let won = row.outcome_index == winner in
      record row {
        won = some won;
        settled_at = some now;
        pnl_per_dollar = some (graded_return row.effective_price won);
      }

  abbrev pub is_in_market : String → ForwardSample F → Bool
  is_in_market id row = str_eq row.market_id id && is_ungraded row

  -- The rows of one resolved market, and how many were graded.
  unfoldable pub settle_rows : String → ℕ → ℕ → List (ForwardSample F) → List (ForwardSample F) × ℕ
  settle_rows id winner now [] = ([], 0)
  settle_rows id winner now (row ∷ rows) =
      let (rest, graded) = settle_rows id winner now rows in
      if is_in_market id row
      then (grade winner now row ∷ rest, suc graded)
      else (row ∷ rest, graded)

  abbrev pub settle_market :
      String → Option ℕ → ℕ → List (ForwardSample F) → List (ForwardSample F) × ℕ
  settle_market id none now table = (table, 0)
  settle_market id (some winner) now table = settle_rows id winner now table

  -- `markets_by_id.items()` is a list of pairs.
  unfoldable pub settle :
      List (String × PmMarket F) → ℕ → List (ForwardSample F) → List (ForwardSample F) × ℕ
  unfolding settle_rows
  settle [] now table = (table, 0)
  settle ((id, market) ∷ markets) now table =
      let (first, graded) = settle_market id market.resolved_outcome_index now table in
      let (rest, more) = settle markets now first in (rest, graded + more)
