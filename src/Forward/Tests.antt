-- ===== src/Forward/Tests.antt =====
-- The forward test at concrete inputs: samples of one market, graded and reported.
use sportsbetting.Base.{ℕ, ◌≡◌, refl, true, false, none, some, List, [], ◌∷◌}
use sportsbetting.Base.Int.{ℤ, pos, ◌+ℤ◌, ◌-ℤ◌}
use sportsbetting.Base.Result.{ok}
use sportsbetting.Base.Sort.{IsSorted, sort_by}
use sportsbetting.Float.{float, decimal}
use sportsbetting.Float.Fixed.{fixed}
use sportsbetting.Odds.Consensus.{FairProb}
use sportsbetting.Edge.Types.{Prefs, OrderBook, PmOutcome, MarketType, PmMarket, Opportunity}
use sportsbetting.Edge.Value.{
  taker_fee_per_share, effective_price, edge, ev_per_dollar, kelly_fraction, stake_for,
  resolve_fee_rate,
}
use sportsbetting.Edge.Ladder.{by_price, unit_cost, walk_asks, edge_clearing_depth}
use sportsbetting.Edge.Plan.{plan_stake, resting_limit_price}
use sportsbetting.Edge.Opportunity.{build_opportunity}
use sportsbetting.Forward.Record.{ForwardSample, record_sample}
use sportsbetting.Forward.Record.Offered.{record_sample-build_opportunity}
use sportsbetting.Forward.Grade.{settle}
use sportsbetting.Forward.Closing.{capture_closing}
use sportsbetting.Forward.Closing.Latest.{AreClosed, capture_closing-AreClosed}
use sportsbetting.Forward.Report.{one_bet_per_token, sampled_first}
use sportsbetting.Forward.Report.OneBet.{of_token, first_only, cleared, one_bet_per_token_first}

abbrev prefs : Prefs ℤ
prefs = record {
  bankroll = float 1000;
  kelly_fraction = pos 250_000;
  max_stake_pct = float 5;
  min_edge = pos 20_000;
  taker_fee_rate = float 0;
  min_liquidity_usd = float 100;
  use_market_fee = true;
}

abbrev outcome : PmOutcome ℤ
outcome = record { token_id = "t1"; name = "Chiefs"; team_key = some "KC"; last_price = none }

abbrev market : PmMarket ℤ
market = record {
  market_id = "m1";
  question = "Chiefs win?";
  league = "nfl";
  market_type = MarketType.moneyline;
  line = none;
  line_team_key = none;
  outcome_a = outcome;
  outcome_b = outcome;
  game_start = some 1000;
  home_team_key = some "KC";
  away_team_key = some "BUF";
  accepting_orders = true;
  closed = false;
  resolved_outcome_index = none;
  tick_size = none;
  min_order_size = none;
  liquidity = none;
  taker_fee_rate = none;
}

abbrev fair : FairProb ℤ
fair = record {
  value = pos 500_000;
  method = "power";
  n_books = 1;
  books_used = "pinnacle" ∷ [];
  line = none;
  per_book = ("pinnacle", pos 500_000) ∷ [];
}

abbrev book : OrderBook ℤ
book = record {
  token_id = "t1";
  bids = [];
  asks =
      record { price = pos 400_000; size = float 10 }
      ∷ record { price = pos 600_000; size = float 100 }
      ∷ [];
}

abbrev offered : Opportunity ℤ
offered = record {
  market = market;
  outcome_index = 0;
  ask = pos 400_000;
  effective_price = pos 400_000;
  fair = fair;
  edge = pos 100_000;
  ev_per_dollar = pos 250_000;
  kelly = pos 166_666;
  suggested_stake = float 4;
  fill_price = some (pos 400_000);
  fill_complete = false;
  limit_price = some (pos 390_000);
  computed_at = 900;
  fill_usd = some (float 4);
}

record_sample-build_opportunity_example :
    (row : ForwardSample ℤ) × (record_sample 7 3 market 0 (some book) fair (float 0) 900 true
      ≡ ok (some row))
    × (row.ask ≡ pos 400_000)
    × (row.effective_price ≡ pos 400_000)
    × (row.edge ≡ pos 100_000)
unfolding build_opportunity plan_stake stake_for kelly_fraction edge_clearing_depth walk_asks
    by_price sort_by unit_cost effective_price taker_fee_per_share edge ev_per_dollar
    resolve_fee_rate resting_limit_price ◌+ℤ◌ ◌-ℤ◌
record_sample-build_opportunity_example =
    record_sample-build_opportunity 7 3 market 0 (some book) fair prefs 900 {o = offered} refl refl

abbrev sample : ℕ → ℕ → ℤ → ForwardSample ℤ
sample id time ask = record {
  id = id;
  scan_id = 3;
  market_id = "m1";
  token = "t1";
  outcome_index = 0;
  outcome_name = "Over";
  outcome_key = none;
  league = "mlb";
  market_type = MarketType.total;
  line = none;
  ask = ask;
  effective_price = ask;
  fee_rate = float 0;
  top_ask_usd = none;
  liquidity = none;
  fair_prob = decimal 5 1;
  fair_method = "power";
  n_books = 1;
  books_used = [];
  edge = decimal 2 2;
  game_start = some 5000;
  hours_to_start = none;
  sampled_at = time;
  won = none;
  settled_at = none;
  pnl_per_dollar = none;
  closing_pm_price = none;
  clv = none;
}

abbrev samples : List (ForwardSample ℤ)
samples = sample 1 100 (decimal 4 1) ∷ sample 2 200 (decimal 5 1) ∷ []

abbrev resolved : PmMarket ℤ
resolved = record market { resolved_outcome_index = some 0 }

both_are_graded : (settle (("m1", resolved) ∷ []) 9000 samples).1 ≡ 2
unfolding settle
both_are_graded = refl

capture_closing-AreClosed_example :
    AreClosed "m1" samples samples
      (capture_closing ("m1" ∷ []) samples).0
      (capture_closing ("m1" ∷ []) samples).1
capture_closing-AreClosed_example = capture_closing-AreClosed "m1" samples

one_bet_per_token_first_example :
    (of_token "t1" (one_bet_per_token samples (decimal 1 2))
      ≡ first_only (of_token "t1" (cleared (decimal 1 2) (sort_by sampled_first samples))))
    × IsSorted sampled_first (sort_by sampled_first samples)
one_bet_per_token_first_example = one_bet_per_token_first (decimal 1 2) samples "t1"
