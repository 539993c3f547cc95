-- ===== src/Edge/Ladder.antt =====
-- The two walks up the ask ladder: `walk_asks` and `edge_clearing_depth` of app/core/edge.py.
pub mod Depth
use sportsbetting.Base.{
  ℕ, Bool, true, false, not, ◌&&◌, Option, none, some, List, [], ◌∷◌, if◌then◌else◌,
}
use sportsbetting.Base.Result.{Result, ok, value_error, ◌>>=◌, ◌>>◌, require}
use sportsbetting.Base.Sort.{sort_by}
use sportsbetting.Float.{Float, float, decimal, ◌⊕◌, ◌⊖◌, ◌⊗◌, ◌⊘◌, le, lt, eq}
use sportsbetting.Edge.Types.{BookLevel}
use sportsbetting.Edge.Value.{effective_price}

-- What the loop of `walk_asks` leaves in its variables.
pub record Walk (F : Type 0) : Type 0 where
  pub spent : F
  pub shares : F
  pub fully_filled : Bool

module _ {F : Type 0} ⦃fl : Float F⦄ where
  -- `sorted(asks, key=lambda lvl: lvl.price)`
  unfoldable pub by_price : List (BookLevel F) → List (BookLevel F)
  by_price = sort_by (λ a b. le a.price b.price)

  -- What one share of a level costs; `none` for a level that both loops pass over: it has no
  -- shares, or its shares cost nothing.
  unfoldable pub unit_cost : F → BookLevel F → Result (Option F)
  unit_cost fee_rate level =
      if le level.size (float 0)
      then ok none
      else effective_price level.price fee_rate >>= λ cost.
          ok (if le cost (float 0) then none else some cost)

  unfoldable pub walk_loop : F → List (BookLevel F) → F → F → F → Result (Walk F)
  walk_loop fee_rate [] remaining spent shares =
      ok (record { spent = spent; shares = shares; fully_filled = false })
  walk_loop fee_rate (level ∷ levels) remaining spent shares = unit_cost fee_rate level >>= λ unit.
      elim unit [
        | none ↦ walk_loop fee_rate levels remaining spent shares
        | some cost ↦ elim (le remaining (level.size ⊗ cost)) [
          | true ↦ ok (record {
            spent = spent ⊕ remaining;
            shares = shares ⊕ remaining ⊘ cost;
            fully_filled = true;
          })
          | false ↦
              walk_loop fee_rate levels (remaining ⊖ level.size ⊗ cost) (spent ⊕ level.size ⊗ cost)
                (shares ⊕ level.size)
        ]
      ]

  -- The average price, the shares, and whether all the money was spent.
  unfoldable pub walk_asks : List (BookLevel F) → F → F → Result (F × F × Bool)
  unfolding walk_loop
  walk_asks asks usd fee_rate =
      if lt usd (float 0)
      then value_error
      else if eq usd (float 0)
      then ok (float 0, float 0, true)
      else walk_loop fee_rate (by_price asks) usd (float 0) (float 0) >>= λ w.
          ok (
            if lt (float 0) w.shares then w.spent ⊘ w.shares else float 0,
            w.shares,
            w.fully_filled,
          )

  -- `EDGE_EPS`, 1e-12.
  abbrev pub edge_eps : F
  edge_eps = decimal 1 12

  -- `not (fair - cost < min_edge - EDGE_EPS)`
  abbrev pub clears : F → F → F → Bool
  clears fair min_edge cost = not (lt (fair ⊖ cost) (min_edge ⊖ edge_eps))

  unfoldable pub depth_loop : F → F → F → List (BookLevel F) → F → F → Result (F × F × Bool)
  depth_loop fair min_edge fee_rate [] usd shares = ok (usd, shares, true)
  depth_loop fair min_edge fee_rate (level ∷ levels) usd shares =
      unit_cost fee_rate level >>= λ unit. elim unit [
        | none ↦ depth_loop fair min_edge fee_rate levels usd shares
        | some cost ↦ elim (clears fair min_edge cost) [
          | true ↦
              depth_loop fair min_edge fee_rate levels (usd ⊕ level.size ⊗ cost)
                (shares ⊕ level.size)
          | false ↦ ok (usd, shares, false)
        ]
      ]

  unfoldable pub edge_clearing_depth : List (BookLevel F) → F → F → F → Result (F × F × Bool)
  unfolding depth_loop
  edge_clearing_depth asks fair min_edge fee_rate =
      depth_loop fair min_edge fee_rate (by_price asks) (float 0) (float 0)
