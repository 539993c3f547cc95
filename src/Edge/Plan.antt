-- ===== src/Edge/Plan.antt =====
-- `plan_stake`, `limit_price_for_edge` and `resting_limit_price` of app/core/edge.py.
pub mod Safe
pub mod Resting
use sportsbetting.Base.{
  ℕ, Bool, true, false, not, ◌&&◌, Option, none, some, List, [], ◌∷◌, if◌then◌else◌,
}
use sportsbetting.Base.Result.{Result, ok, value_error, ◌>>=◌, ◌>>◌, require}
use sportsbetting.Float.{Float, float, decimal, ◌⊕◌, ◌⊖◌, ◌⊗◌, ◌⊘◌, le, lt, eq, min, round, floor}
use sportsbetting.Edge.Types.{
  Prefs, BookLevel, StakePlan, Note, edge_capped, no_edge_depth, min_order,
}
use sportsbetting.Edge.Value.{stake_for, min_stake_usd}
use sportsbetting.Edge.Ladder.{walk_asks, edge_clearing_depth}

module _ {F : Type 0} ⦃fl : Float F⦄ where
  abbrev pub no_stake : Option (Note F) → StakePlan F
  no_stake note = record {
    stake = float 0;
    fill_price = none;
    fill_complete = true;
    fill_usd = none;
    note = note;
  }

  -- `math.floor(x * 10**2) / 10**2`
  abbrev pub floor_cents : F → F
  floor_cents x = floor (x ⊗ float 100) ⊘ float 100

  abbrev pub below_minimum : Option F → F → Bool
  below_minimum none shares = false
  below_minimum (some size) shares = lt (float 0) size && lt shares size

  abbrev pub minimum_note : Option F → F → Option (Note F)
  minimum_note none shares = none
  minimum_note (some size) shares = some (min_order shares size)

  -- The two last returns, of a stake that is capped by the edge and of one that is not.
  abbrev pub filled : F → F → F → Bool → Bool → StakePlan F
  filled stake price shares complete true = record {
    stake = stake;
    fill_price = some price;
    fill_complete = false;
    fill_usd = some (round stake 2);
    note = some edge_capped;
  }
  filled stake price shares complete false = record {
    stake = stake;
    fill_price = some price;
    fill_complete = complete;
    fill_usd = if complete then none else some (round (price ⊗ shares) 2);
    note = none;
  }

  -- From the second walk on: the stake is settled, and `capped` says whether the edge cut it.
  unfoldable pub fill_plan : List (BookLevel F) → F → Option F → F → Bool → Result (StakePlan F)
  fill_plan asks fee_rate min_order_size stake capped = do
    (fill_price, shares, complete) ← walk_asks asks stake fee_rate
    ok (
        if below_minimum min_order_size shares
        then no_stake (minimum_note min_order_size shares)
        else filled stake fill_price shares complete capped)

  -- From the first walk on, which found `clearing_usd` and whether the ladder was exhausted.
  unfoldable pub cut_plan :
      List (BookLevel F) → F → Option F → F → F × F × Bool → Result (StakePlan F)
  unfolding fill_plan
  cut_plan asks fee_rate min_order_size wanted (clearing_usd, clearing_shares, exhausted) =
      if not exhausted && lt clearing_usd wanted
      then (if lt (floor_cents clearing_usd) min_stake_usd
          then ok (no_stake (some no_edge_depth))
          else fill_plan asks fee_rate min_order_size (floor_cents clearing_usd) true)
      else fill_plan asks fee_rate min_order_size wanted false

  unfoldable pub plan_stake :
      List (BookLevel F) → F → F → F → Prefs F → Option F → Result (StakePlan F)
  unfolding cut_plan
  plan_stake asks fair kelly fee_rate prefs min_order_size =
      stake_for prefs.bankroll kelly prefs.kelly_fraction prefs.max_stake_pct min_stake_usd
      >>= λ wanted.
          if le wanted (float 0)
          then ok (no_stake none)
          else edge_clearing_depth asks fair prefs.min_edge fee_rate
            >>= cut_plan asks fee_rate min_order_size wanted

  unfoldable pub limit_price_for_edge : F → F → F → Result (Option F)
  limit_price_for_edge fair min_edge tick =
      if le tick (float 0)
      then value_error
      else let ticks = floor ((fair ⊖ min_edge) ⊘ tick ⊕ decimal 1 9) in
        let price = round (ticks ⊗ tick) 10 in ok (if lt (float 0) price then some price else none)

  -- The price, capped one tick below the best ask.
  abbrev pub rest_below : Option F → F → Option F → Option F
  rest_below none tick best_ask = none
  rest_below (some price) tick none = some price
  rest_below (some price) tick (some ask) =
      let ceiling = round (ask ⊖ tick) 10 in
      if le ceiling (float 0) then none else some (min price ceiling)

  unfoldable pub resting_limit_price : F → F → Option F → F → Result (Option F)
  unfolding limit_price_for_edge
  resting_limit_price fair min_edge best_ask tick = do
    price ← limit_price_for_edge fair min_edge tick
    ok (rest_below price tick best_ask)
