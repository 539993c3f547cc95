-- ===== src/Backtest/Sample.antt =====
-- `HistoricalSample` of app/models.py, and the decoded rows of the two feeds that it is made from.
-- Times are whole microseconds.
use sportsbetting.Base.{ℕ, String, Bool, Option, List}

pub record Sample (F : Type 0) : Type 0 where
  pub market_id : String
  pub condition_id : String
  pub league : String
  pub market_type : String
  pub line : Option F
  pub question : String
  pub outcome_index : ℕ
  pub outcome_name : String
  pub game_start : Option ℕ
  pub close_price : F
  pub close_trade_at : ℕ
  pub close_age_hours : Option F
  pub n_trades_pre : ℕ
  pub won : Bool

-- One trade of the feed: `none` for a field that is missing or that `int` or `float` refuses.
pub record Trade (F : Type 0) : Type 0 where
  pub outcome_index : Option ℕ
  pub timestamp : Option ℕ
  pub price : Option F

-- A market of an event of the feed, with the texts that `json.loads` opens already opened.
pub record GammaMarket (F : Type 0) : Type 0 where
  pub id : String
  pub condition_id : String
  pub sports_market_type : String
  pub closed : Bool
  pub game_start_time : Option ℕ
  pub outcome_prices : Option (List (Option F))
  pub outcomes : List String
  pub line : Option F
  pub question : String

pub record Event (F : Type 0) : Type 0 where
  pub title : String
  pub markets : List (GammaMarket F)
