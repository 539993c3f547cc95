-- ===== src/Forward/Record.antt =====
-- `ForwardSample` of app/models.py, `_top_ask_usd` and `record_sample` of app/services/forward.py. The
-- database gives a row its `id`, which is an argument here; so are the other arguments, as of the code.
pub mod Offered
use sportsbetting.Base.{
  ℕ, ◌-◌, String, Bool, true, false, not, ◌&&◌, ◌||◌, Option, none, some, List, [], ◌∷◌, map,
  filter, leb, ◌==◌, if◌then◌else◌,
}
use sportsbetting.Base.Result.{Result, ok, value_error, ◌>>=◌}
use sportsbetting.Float.{Float, float, decimal, ◌⊕◌, ◌⊖◌, ◌⊗◌, ◌⊘◌, le, min, sum, round}
use sportsbetting.Odds.Consensus.{FairProb}
use sportsbetting.Edge.Types.{BookLevel, OrderBook, PmMarket, PmOutcome, MarketType}
use sportsbetting.Edge.Value.{effective_price}
use sportsbetting.Edge.Opportunity.{has_started, best_ask, asks_of}

pub record ForwardSample (F : Type 0) : Type 0 where
  pub id : ℕ
  pub scan_id : ℕ
  pub market_id : String
  pub token : String
  pub outcome_index : ℕ
  pub outcome_name : String
  pub outcome_key : Option String
  pub league : String
  pub market_type : MarketType
  pub line : Option F
  pub ask : F
  pub effective_price : F
  pub fee_rate : F
  pub top_ask_usd : Option F
  pub liquidity : Option F
  pub fair_prob : F
  pub fair_method : String
  pub n_books : ℕ
  pub books_used : List String
  pub edge : F
  pub game_start : Option ℕ
  pub hours_to_start : Option F
  pub sampled_at : ℕ
  pub won : Option Bool
  pub settled_at : Option ℕ
  pub pnl_per_dollar : Option F
  pub closing_pm_price : Option F
  pub clv : Option F

module _ {F : Type 0} ⦃fl : Float F⦄ where
  abbrev min_price : F → List (BookLevel F) → F
  min_price best [] = best
  min_price best (level ∷ levels) = min_price (min best level.price) levels

  -- `_top_ask_usd`
  unfoldable pub top_ask_usd : List (BookLevel F) → Option F
  top_ask_usd [] = none
  top_ask_usd (level ∷ levels) =
      let best = min_price level.price levels in
      let top = filter (λ l. le l.price (best ⊕ decimal 1 12)) (level ∷ levels) in
      some (round (sum (map (λ l. l.price ⊗ l.size) top)) 2)

  abbrev pub fee_rate_of : Option F → F → Bool → F
  fee_rate_of none prefs_fee_rate use_market_fee = prefs_fee_rate
  fee_rate_of (some market_fee) prefs_fee_rate use_market_fee =
      if use_market_fee then market_fee else prefs_fee_rate

  -- The start is after `now` here.
  abbrev hours_of : Option ℕ → ℕ → Option F
  hours_of none now = none
  hours_of (some start) now = some (round (float (start - now) ⊘ float 1_000_000 ⊘ float 3600) 3)

  -- `market.outcomes[outcome_index]`, of an index that is 0 or 1.
  abbrev pub outcome_at : PmMarket F → ℕ → PmOutcome F
  outcome_at market index = if index == 0 then market.outcome_a else market.outcome_b

  module _ (id scan_id : ℕ) (market : PmMarket F) (outcome_index : ℕ) (book : Option (OrderBook F))
      (fair : FairProb F) (prefs_fee_rate : F) (now : ℕ) (prefs_use_market_fee : Bool) where
    abbrev pub sample_row : F → F → ForwardSample F
    sample_row ask cost =
        let outcome = outcome_at market outcome_index in
        record {
          id = id;
          scan_id = scan_id;
          market_id = market.market_id;
          token = outcome.token_id;
          outcome_index = outcome_index;
          outcome_name = outcome.name;
          outcome_key = outcome.team_key;
          league = market.league;
          market_type = market.market_type;
          line = market.line;
          ask = ask;
          effective_price = cost;
          fee_rate = fee_rate_of market.taker_fee_rate prefs_fee_rate prefs_use_market_fee;
          top_ask_usd = top_ask_usd (asks_of book);
          liquidity = market.liquidity;
          fair_prob = fair.value;
          fair_method = fair.method;
          n_books = fair.n_books;
          books_used = fair.books_used;
          edge = fair.value ⊖ cost;
          game_start = market.game_start;
          hours_to_start = hours_of market.game_start now;
          sampled_at = now;
          won = none;
          settled_at = none;
          pnl_per_dollar = none;
          closing_pm_price = none;
          clv = none;
        }

    unfoldable pub record_at : F → Result (Option (ForwardSample F))
    unfolding effective_price top_ask_usd
    record_at ask =
        if le ask (float 0) || le (float 1) ask
        then ok none
        else effective_price ask
            (fee_rate_of market.taker_fee_rate prefs_fee_rate prefs_use_market_fee)
          >>= λ cost. ok (some (sample_row ask cost))

    unfoldable pub record_sample : Result (Option (ForwardSample F))
    unfolding record_at
    record_sample =
        if not (leb outcome_index 1)
        then value_error
        else if market.closed || not market.accepting_orders
        then ok none
        else if has_started market.game_start now
        then ok none
        else elim (best_ask book) [ none ↦ ok none | some ask ↦ record_at ask ]
