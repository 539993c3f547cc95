-- ===== src/Edge/Value.antt =====
-- Fees, value, Kelly and `stake_for` of app/core/edge.py; `clv` and `clv_decimal` of
-- app/core/clv.py.
pub mod Bounds
use sportsbetting.Base.{ℕ, Bool, true, false, not, ◌&&◌, Option, none, some, if◌then◌else◌}
use sportsbetting.Base.Result.{Result, ok, value_error, ◌>>=◌, ◌>>◌, require}
use sportsbetting.Float.{Float, float, decimal, ◌⊕◌, ◌⊖◌, ◌⊗◌, ◌⊘◌, le, lt, min, max, round}
use sportsbetting.Edge.Types.{Prefs}

module _ {F : Type 0} ⦃fl : Float F⦄ where
  unfoldable pub taker_fee_per_share : F → F → Result F
  taker_fee_per_share price fee_rate = do
    require (le (float 0) price && le price (float 1))
    require (not (lt fee_rate (float 0)))
    ok (fee_rate ⊗ price ⊗ (float 1 ⊖ price))

  unfoldable pub effective_price : F → F → Result F
  unfolding taker_fee_per_share
  effective_price price fee_rate = do fee ← taker_fee_per_share price fee_rate; ok (price ⊕ fee)

  unfoldable pub edge : F → F → F
  edge fair cost = fair ⊖ cost

  unfoldable pub ev_per_dollar : F → F → Result F
  ev_per_dollar fair cost = if le cost (float 0) then value_error else ok (fair ⊘ cost ⊖ float 1)

  unfoldable pub kelly_fraction : F → F → Result F
  kelly_fraction fair cost =
      if le cost (float 0)
      then value_error
      else if le (float 1) cost
      then ok (float 0)
      else ok (max (float 0) ((fair ⊖ cost) ⊘ (float 1 ⊖ cost)))

  -- `STAKE_DECIMALS` is 2, `MIN_STAKE` 1.0.
  abbrev pub min_stake_usd : F
  min_stake_usd = float 1

  unfoldable pub stake_for : F → F → F → F → F → Result F
  stake_for bankroll kelly fraction max_stake_pct min_stake = do
    require (not (lt bankroll (float 0)))
    require (not (lt kelly (float 0)))
    require (not (lt fraction (float 0)))
    require (not (lt max_stake_pct (float 0)))
    require (not (lt min_stake (float 0)))
    let raw = bankroll ⊗ kelly ⊗ fraction
    let cap = bankroll ⊗ max_stake_pct ⊘ float 100
    let stake = round (min raw cap) 2
    ok (if le min_stake stake then stake else float 0)

  unfoldable pub resolve_fee_rate : Option F → Prefs F → F
  resolve_fee_rate none prefs = prefs.taker_fee_rate
  resolve_fee_rate (some market_fee) prefs =
      if not prefs.use_market_fee then prefs.taker_fee_rate else market_fee

  unfoldable pub clv : F → F → F
  clv closing_fair cost = closing_fair ⊖ cost

  unfoldable pub clv_decimal : F → F → Result F
  clv_decimal closing_fair cost =
      if le cost (float 0) then value_error else ok (closing_fair ⊘ cost ⊖ float 1)
