-- ===== src/Edge/Tests.antt =====
-- Pricing at concrete inputs, in millionths.
use sportsbetting.Base.{◌≤◌, ◌≡◌, ◌⊎◌, refl, Bool, true, false, none, some, List, [], ◌∷◌}
use sportsbetting.Base.Int.{ℤ, pos, ◌+ℤ◌, ◌-ℤ◌}
use sportsbetting.Base.Result.{ok}
use sportsbetting.Base.Sort.{sort_by}
use sportsbetting.Float.{float, ◌≼◌, ◌≺◌, ◌⊖◌, ◌⊗◌, round}
use sportsbetting.Float.Fixed.{fixed, fixed-IsFloat}
use sportsbetting.Odds.Consensus.{FairProb}
use sportsbetting.Edge.Types.{
  Prefs, BookLevel, OrderBook, PmOutcome, MarketType, PmMarket, StakePlan, Opportunity, edge_capped,
}
use sportsbetting.Edge.Value.{
  taker_fee_per_share, effective_price, edge, ev_per_dollar, kelly_fraction, stake_for,
  min_stake_usd, resolve_fee_rate,
}
use sportsbetting.Edge.Value.Bounds.{stake_for_bounds, cap_of}
use sportsbetting.Edge.Ladder.{by_price, unit_cost, walk_asks, edge_clearing_depth}
use sportsbetting.Edge.Ladder.Depth.{Offer, IsDepth, edge_clearing_depth_correct}
use sportsbetting.Edge.Plan.{plan_stake, resting_limit_price}
use sportsbetting.Edge.Plan.Safe.{IsWhole, IsCut, IsBought, plan_stake_safe}
use sportsbetting.Edge.Plan.Resting.{IsWithinEdge, resting_limit_price_below}
use sportsbetting.Edge.Opportunity.{
  has_started, best_ask, asks_of, build_opportunity, IsPriced, build_opportunity_sound,
}

abbrev ladder : List (BookLevel ℤ)
ladder =
    record { price = pos 600_000; size = float 100 }
    ∷ record { price = pos 400_000; size = float 10 }
    ∷ []

abbrev prefs : Prefs ℤ
prefs = record {
  bankroll = float 1000;
  kelly_fraction = pos 250_000;
  max_stake_pct = float 5;
  min_edge = pos 20_000;
  taker_fee_rate = float 0;
  min_liquidity_usd = float 100;
  use_market_fee = true;
}

stake_for_bounds_example :
    (pos 41_670_000 ≡ float 0)
    ⊎ ((float 1 ≼ pos 41_670_000)
        × (pos 41_670_000 ≼ round (cap_of fixed-IsFloat (float 1000) (float 5)) 2)
        × (pos 41_670_000 ≼ round (float 1000 ⊗ pos 166_666 ⊗ pos 250_000) 2))
unfolding stake_for ◌+ℤ◌ ◌-ℤ◌
stake_for_bounds_example =
    stake_for_bounds fixed-IsFloat (float 1000) (pos 166_666) (pos 250_000) (float 5) (float 1) refl

abbrev offers : List (Offer ℤ)
offers =
    record { cost = pos 400_000; size = float 10 }
    ∷ record { cost = pos 600_000; size = float 100 }
    ∷ []

-- Ten shares at 40 cents clear the edge, the level at 60 cents does not.
edge_clearing_depth_correct_example :
    (result : ℤ × ℤ × Bool) × (edge_clearing_depth ladder (pos 500_000) (pos 20_000) (float 0)
      ≡ ok result)
    × IsDepth (pos 500_000) (pos 20_000) (float 0) offers (float 0) (float 0) result
unfolding by_price sort_by unit_cost effective_price taker_fee_per_share ◌+ℤ◌ ◌-ℤ◌
edge_clearing_depth_correct_example =
    edge_clearing_depth_correct (pos 500_000) (pos 20_000) (float 0) ladder offers refl

abbrev plan : StakePlan ℤ
plan = record {
  stake = float 4;
  fill_price = some (pos 400_000);
  fill_complete = false;
  fill_usd = some (float 4);
  note = some edge_capped;
}

plan_stake_safe_example :
    (pos 4_000_000 ≡ float 0)
    ⊎ ((wanted : ℤ) × (depth : ℤ × ℤ × Bool) × (stake_for
            (float 1000)
            (pos 166_666)
            (pos 250_000)
            (float 5)
            min_stake_usd
          ≡ ok wanted)
        × (edge_clearing_depth ladder (pos 500_000) (pos 20_000) (float 0) ≡ ok depth)
        × (IsWhole wanted depth plan ⊎ IsCut wanted depth plan)
        × IsBought ladder (float 0) none plan)
unfolding plan_stake stake_for edge_clearing_depth walk_asks by_price sort_by unit_cost
    effective_price taker_fee_per_share ◌+ℤ◌ ◌-ℤ◌
plan_stake_safe_example =
    plan_stake_safe ladder (float 0) none (pos 500_000) (pos 166_666) prefs refl

resting_limit_price_below_example :
    (float 0 ≺ pos 390_000)
    × (pos 390_000 ≼ round (pos 400_000 ⊖ pos 10_000) 10)
    × IsWithinEdge (pos 500_000) (pos 20_000) (pos 10_000) (pos 390_000)
unfolding resting_limit_price ◌+ℤ◌ ◌-ℤ◌
resting_limit_price_below_example =
    resting_limit_price_below fixed-IsFloat (pos 500_000) (pos 20_000) (pos 400_000) (pos 10_000)
      refl

abbrev outcome : PmOutcome ℤ
outcome = record { token_id = "t1"; name = "Chiefs"; team_key = some "KC"; last_price = none }

abbrev market : PmMarket ℤ
market = record {
  market_id = "m1";
  question = "Chiefs win?";
  league = "nfl";
  market_type = MarketType.moneyline;
  line = none;
  line_team_key = none;
  outcome_a = outcome;
  outcome_b = outcome;
  game_start = some 1000;
  home_team_key = some "KC";
  away_team_key = some "BUF";
  accepting_orders = true;
  closed = false;
  resolved_outcome_index = none;
  tick_size = none;
  min_order_size = none;
  liquidity = none;
  taker_fee_rate = none;
}

abbrev fair : FairProb ℤ
fair = record {
  value = pos 500_000;
  method = "power";
  n_books = 1;
  books_used = "pinnacle" ∷ [];
  line = none;
  per_book = ("pinnacle", pos 500_000) ∷ [];
}

abbrev book : OrderBook ℤ
book = record {
  token_id = "t1";
  bids = [];
  asks =
      record { price = pos 400_000; size = float 10 }
      ∷ record { price = pos 600_000; size = float 100 }
      ∷ [];
}

abbrev offered : Opportunity ℤ
offered = record {
  market = market;
  outcome_index = 0;
  ask = pos 400_000;
  effective_price = pos 400_000;
  fair = fair;
  edge = pos 100_000;
  ev_per_dollar = pos 250_000;
  kelly = pos 166_666;
  suggested_stake = float 4;
  fill_price = some (pos 400_000);
  fill_complete = false;
  limit_price = some (pos 390_000);
  computed_at = 900;
  fill_usd = some (float 4);
}

build_opportunity_sound_example :
    (0 ≤ 1)
    × (false ≡ false)
    × (true ≡ true)
    × (has_started (some 1000) 900 ≡ false)
    × (ask : ℤ) × (best_ask (some book) ≡ some ask)
    × (float 0 ≺ ask)
    × IsPriced market fair prefs (asks_of (some book)) ask offered
unfolding build_opportunity plan_stake stake_for kelly_fraction edge_clearing_depth walk_asks
    by_price sort_by unit_cost effective_price taker_fee_per_share edge ev_per_dollar
    resolve_fee_rate resting_limit_price ◌+ℤ◌ ◌-ℤ◌
build_opportunity_sound_example = build_opportunity_sound market fair prefs 0 (some book) 900 refl
