-- ===== src/Bets/Tests.antt =====
-- The ledger at concrete inputs, in millionths.
use sportsbetting.Base.{ℕ, ◌≡◌, refl, String, true, false, Option, none, some, [], ◌∷◌, All}
use sportsbetting.Base.Dict.{Dict}
use sportsbetting.Base.Int.{ℤ, pos, ◌+ℤ◌, ◌-ℤ◌}
use sportsbetting.Base.Result.{ok}
use sportsbetting.Float.{float}
use sportsbetting.Float.Fixed.{fixed}
use sportsbetting.Edge.Types.{PmOutcome, MarketType, PmMarket}
use sportsbetting.Edge.Value.{taker_fee_per_share}
use sportsbetting.Bets.Ledger.{taker, won, pending, settled, Bet, MarketRow, Ledger}
use sportsbetting.Bets.Settle.{apply_result, settle_open_bets, verdict, is_push}
use sportsbetting.Bets.Settle.Final.{IsBooked, settle_open_bets_idempotent}
use sportsbetting.Bets.Settle.Graded.{AreGraded, settle_open_bets-AreGraded}
use sportsbetting.Bets.Create.{OpportunityRow, create_bet, terms_of, fee_rate_for, latest_best_ask}
use sportsbetting.Bets.Create.Sound.{IsLogged, create_bet_sound}
use sportsbetting.Bets.Reach.{IsReachable, reachable-IsBooked}

-- Ten dollars at 40 cents, without a fee.
abbrev bet_one : Bet ℤ
bet_one = record {
  id = 1;
  market_id = "m1";
  token = "t1";
  mode = taker;
  price = pos 400_000;
  shares = float 25;
  stake_usd = float 10;
  fee_usd = float 0;
  fair_at_bet = some (pos 500_000);
  edge_at_bet = some (pos 100_000);
  placed_at = 5;
  status = pending;
  settled_at = none;
  pnl_usd = none;
  clv = none;
}

abbrev rows : Dict MarketRow
rows = ("m1", record { closed = false; accepting_orders = true; resolved_outcome = none }) ∷ []

abbrev empty : Ledger ℤ
empty = record { bets = []; markets = rows }

abbrev ledger : Ledger ℤ
ledger = record { bets = bet_one ∷ []; markets = rows }

abbrev row : OpportunityRow ℤ
row = record {
  market_id = "m1";
  token = "t1";
  ask = some (pos 400_000);
  effective_price = some (pos 400_000);
  fair_prob = some (pos 500_000);
}

abbrev opportunities : ℕ → Option (OpportunityRow ℤ)
opportunities id = some row

abbrev won_bet : Bet ℤ
won_bet = record {
  id = 1;
  market_id = "m1";
  token = "t1";
  mode = taker;
  price = pos 400_000;
  shares = float 25;
  stake_usd = float 10;
  fee_usd = float 0;
  fair_at_bet = some (pos 500_000);
  edge_at_bet = some (pos 100_000);
  placed_at = 5;
  status = settled won;
  settled_at = some 9;
  pnl_usd = some (float 15);
  clv = none;
}

abbrev outcome : String → PmOutcome ℤ
outcome token = record { token_id = token; name = "side"; team_key = none; last_price = none }

abbrev resolved : PmMarket ℤ
resolved = record {
  market_id = "m1";
  question = "Chiefs win?";
  league = "nfl";
  market_type = MarketType.moneyline;
  line = none;
  line_team_key = none;
  outcome_a = outcome "t1";
  outcome_b = outcome "t2";
  game_start = some 1000;
  home_team_key = some "KC";
  away_team_key = some "BUF";
  accepting_orders = false;
  closed = true;
  resolved_outcome_index = some 0;
  tick_size = none;
  min_order_size = none;
  liquidity = none;
  taker_fee_rate = none;
}

abbrev feed : Dict (PmMarket ℤ)
feed = ("m1", resolved) ∷ []

abbrev settled_ledger : Ledger ℤ
settled_ledger = record {
  bets = won_bet ∷ [];
  markets =
      ("m1", record { closed = true; accepting_orders = false; resolved_outcome = some "a" }) ∷ [];
}

scan_settles : settle_open_bets ledger feed 9 ≡ ok (settled_ledger, 1)
unfolding settle_open_bets verdict is_push apply_result ◌+ℤ◌ ◌-ℤ◌
scan_settles = refl

create_bet_sound_example :
    (r : OpportunityRow ℤ) × (some row ≡ some r)
    × IsLogged empty [] (float 0) 1 r (float 10) (pos 400_000) "taker" 5 ledger bet_one
unfolding create_bet terms_of fee_rate_for taker_fee_per_share latest_best_ask ◌+ℤ◌ ◌-ℤ◌
create_bet_sound_example =
    create_bet_sound empty opportunities [] (float 0) 1 7 (float 10) (pos 400_000) "taker" 5 refl

settle_open_bets-AreGraded_example : AreGraded feed 9 ledger.bets settled_ledger.bets 1
settle_open_bets-AreGraded_example = settle_open_bets-AreGraded ledger feed 9 scan_settles

settle_open_bets_idempotent_example :
    settle_open_bets settled_ledger feed 20 ≡ ok (settled_ledger, 0)
settle_open_bets_idempotent_example = settle_open_bets_idempotent ledger feed 9 20 scan_settles

ledger-IsReachable : IsReachable ledger
unfolding create_bet terms_of fee_rate_for taker_fee_per_share latest_best_ask ◌+ℤ◌ ◌-ℤ◌
ledger-IsReachable =
    IsReachable.logged opportunities [] (float 0) 1 7 (float 10) (pos 400_000) "taker" 5
      (IsReachable.fresh rows) refl

settled_ledger-IsReachable : IsReachable settled_ledger
settled_ledger-IsReachable = IsReachable.settled_by_scan feed 9 ledger-IsReachable scan_settles

reachable-IsBooked_example : All IsBooked settled_ledger.bets
reachable-IsBooked_example = reachable-IsBooked settled_ledger-IsReachable
