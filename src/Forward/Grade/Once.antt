-- ===== src/Forward/Grade/Once.antt =====
-- What one `settle` does to each sample, and that another one with the same markets does nothing.
use sportsbetting.Base.{
  ℕ, String, Bool, true, false, ◌&&◌, Option, none, some, List, [], ◌∷◌, map, filter, length,
  str_eq, if◌then◌else◌,
}
use sportsbetting.Float.{Float}
use sportsbetting.Edge.Types.{PmMarket}
use sportsbetting.Forward.Record.{ForwardSample}
use sportsbetting.Forward.Grade.{is_ungraded, grade, is_in_market}

-- The result among the markets: of the first one of that id that has resolved.
abbrev pub or_else : Option ℕ → Option ℕ → Option ℕ
or_else none later = later
or_else (some winner) later = some winner

abbrev pub result_of : {F : Type 0} → String → List (String × PmMarket F) → Option ℕ
result_of id [] = none
result_of id ((j, market) ∷ markets) =
    if str_eq id j
    then or_else market.resolved_outcome_index (result_of id markets)
    else result_of id markets

abbrev pub is_known : Option ℕ → Bool
is_known none = false
is_known (some winner) = true

module _ {F : Type 0} ⦃fl : Float F⦄ where
  abbrev pub grade_with : Option ℕ → ℕ → ForwardSample F → ForwardSample F
  grade_with none now row = row
  grade_with (some winner) now row = if is_ungraded row then grade winner now row else row

  -- A sample after a settlement.
  abbrev pub settled_row : List (String × PmMarket F) → ℕ → ForwardSample F → ForwardSample F
  settled_row markets now row = grade_with (result_of row.market_id markets) now row

  abbrev pub can_settle : List (String × PmMarket F) → ForwardSample F → Bool
  can_settle markets row = is_ungraded row && is_known (result_of row.market_id markets)

  abbrev in_one : String → ℕ → ℕ → ForwardSample F → ForwardSample F
  in_one id winner now row = if is_in_market id row then grade winner now row else row

  -- All samples after a settlement, and how many it grades.
  abbrev pub settled_all :
      List (String × PmMarket F) → ℕ → List (ForwardSample F) → List (ForwardSample F) × ℕ
  settled_all markets now table =
      (map (settled_row markets now) table, length (filter (can_settle markets) table))
