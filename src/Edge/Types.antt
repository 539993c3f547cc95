-- ===== src/Edge/Types.antt =====
-- The records of app/core/types.py that pricing reads, and `StakePlan` of app/core/edge.py.
-- A datetime is its instant, in microseconds since year 1 (`_as_utc` reads a naive one as UTC).
use sportsbetting.Base.{ℕ, String, Bool, Option, List}
use sportsbetting.Odds.Consensus.{FairProb}

-- `PrefsLike`, with `use_market_fee`.
pub record Prefs (F : Type 0) : Type 0 where
  pub bankroll : F
  pub kelly_fraction : F
  pub max_stake_pct : F
  pub min_edge : F
  pub taker_fee_rate : F
  pub min_liquidity_usd : F
  pub use_market_fee : Bool

pub record BookLevel (F : Type 0) : Type 0 where
  pub price : F
  pub size : F

pub record OrderBook (F : Type 0) : Type 0 where
  pub token_id : String
  pub bids : List (BookLevel F)
  pub asks : List (BookLevel F)

pub record PmOutcome (F : Type 0) : Type 0 where
  pub token_id : String
  pub name : String
  pub team_key : Option String
  pub last_price : Option F

pub data MarketType : Type 0 where
  moneyline spread total : MarketType

-- `outcomes` is a pair: its two fields are `outcome_a` and `outcome_b`.
pub record PmMarket (F : Type 0) : Type 0 where
  pub market_id : String
  pub question : String
  pub league : String
  pub market_type : MarketType
  pub line : Option F
  pub line_team_key : Option String
  pub outcome_a : PmOutcome F
  pub outcome_b : PmOutcome F
  pub game_start : Option ℕ
  pub home_team_key : Option String
  pub away_team_key : Option String
  pub accepting_orders : Bool
  pub closed : Bool
  pub resolved_outcome_index : Option ℕ
  pub tick_size : Option F
  pub min_order_size : Option F
  pub liquidity : Option F
  pub taker_fee_rate : Option F

-- Why a stake is not what Kelly asked for.
pub data Note (F : Type 0) : Type 0 where
  edge_capped no_edge_depth : Note F
  min_order : F → F → Note F

pub record StakePlan (F : Type 0) : Type 0 where
  pub stake : F
  pub fill_price : Option F
  pub fill_complete : Bool
  pub fill_usd : Option F
  pub note : Option (Note F)

-- The fields of `Opportunity` that the assembly computes.
pub record Opportunity (F : Type 0) : Type 0 where
  pub market : PmMarket F
  pub outcome_index : ℕ
  pub ask : F
  pub effective_price : F
  pub fair : FairProb F
  pub edge : F
  pub ev_per_dollar : F
  pub kelly : F
  pub suggested_stake : F
  pub fill_price : Option F
  pub fill_complete : Bool
  pub limit_price : Option F
  pub computed_at : ℕ
  pub fill_usd : Option F
