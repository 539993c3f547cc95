-- ===== src/Strategies/Run/Picks.antt =====
-- The rows of `pick_table`.
use sportsbetting.Base.{
  ℕ, suc, ◌<◌, ◌≤◌, ◌≡◌, inl, inr, refl, arith, String, Bool, false, List, [], ◌∷◌, map, filter,
  any, ◌==◌, Bool-cases,
}
use sportsbetting.Float.{Float}
use sportsbetting.Backtest.Sample.{Sample}
use sportsbetting.Strategies.Rules.{Strategy, picks, picks_from}
use sportsbetting.Strategies.Run.{Pick, bought, pick_of, picks_table, pick_table}

module _ {F : Type 0} where
  -- The keys of the rules that select a row.
  abbrev pub rules_for : List (Strategy F) → Sample F → List String
  rules_for strategies row = map (λ s. s.key) (filter (λ s. s.select row) strategies)

  -- `i` is the place of `row` in `rows`, counted from `from`.
  data IsAt (row : Sample F) : ℕ → ℕ → List (Sample F) → Type 0 where
    here : {from : ℕ} {rest : List (Sample F)} → IsAt row from from (row ∷ rest)
    there :
        {from i : ℕ} {first : Sample F} {rest : List (Sample F)}
        → IsAt row (suc from) i rest
        → IsAt row from i (first ∷ rest)

  IsAt-le : {row : Sample F} {from i : ℕ} {rows : List (Sample F)} → IsAt row from i rows → from ≤ i
  IsAt-le IsAt.here = omega arith
  IsAt-le (IsAt.there at) = omega (arith, IsAt-le at)

  not_picked :
      (select : Sample F → Bool) (i from : ℕ) (rows : List (Sample F))
      → i < from
      → any (λ j. j == i) (picks_from select from rows) ≡ false
  not_picked select i from [] h = refl
  not_picked select i from (row ∷ rows) h = ground (arith, h, not_picked select i (suc from) rows)

  picked :
      (select : Sample F → Bool) {row : Sample F} {from i : ℕ} {rows : List (Sample F)}
      → IsAt row from i rows
      → any (λ j. j == i) (picks_from select from rows) ≡ select row
  picked select (IsAt.here {from = from} {rest = rest}) =
      ground (arith, not_picked select from (suc from) rest)
  picked select (IsAt.there {from = from} {i = i} {rest = rest} at) =
      ground (arith, IsAt-le at, picked select at)

  bought-rules_for :
      (strategies : List (Strategy F)) {row : Sample F} {i : ℕ} {rows : List (Sample F)}
      → IsAt row 0 i rows
      → bought rows i strategies ≡ rules_for strategies row
  unfolding picks
  bought-rules_for [] at = refl
  bought-rules_for (s ∷ strategies) {row = row} at = elim (Bool-cases (s.select row)) [
    | inl chosen ↦ rw (picked s.select at, chosen, bought-rules_for strategies at) refl
    | inr passed ↦ rw (picked s.select at, passed) (bought-rules_for strategies at)
  ]

module _ {F : Type 0} ⦃fl : Float F⦄ (stamp : ℕ → String) (strategies : List (Strategy F))
    (fee_rate : F) where
  -- What the row of one outcome says.
  abbrev pub row_for : Sample F → Pick F
  row_for row = record (pick_of stamp [] strategies fee_rate 0 row) {
    rules = rules_for strategies row;
  }

  picks_table-row_for :
      (rows : List (Sample F)) (n : ℕ) (rest : List (Sample F))
      → ((row : Sample F) (i : ℕ) → IsAt row n i rest → IsAt row 0 i rows)
      → picks_table stamp rows strategies fee_rate n rest ≡ map row_for rest
  picks_table-row_for rows n [] inside = refl
  picks_table-row_for rows n (row ∷ rest) inside =
      rw
        (
          bought-rules_for strategies (inside row n IsAt.here),
          picks_table-row_for rows (suc n) rest (λ r i at. inside r i (IsAt.there at)),
        )
        refl

  -- The table has one row for each outcome, in their order, and names in it the rules that select that
  -- outcome, each once, in the order of the rules.
  pub pick_table_correct :
      (rows : List (Sample F)) → pick_table stamp rows strategies fee_rate ≡ map row_for rows
  unfolding pick_table
  pick_table_correct rows = picks_table-row_for rows 0 rows (λ r i at. at)
