-- ===== src/Backtest/Tests.antt =====
-- The back test at concrete inputs: one market, its trades, and one harvest of it.
use sportsbetting.Base.{
  ◌*◌, ◌/◌, ◌^◌, map, ℕ, zero, suc, ◌≤◌, ◌≡◌, ◌⊎◌, refl, String, Bool, true, false, Option, none,
  some, List, [], ◌∷◌, length, arith, inr,
}
use sportsbetting.Base.Int.{ℤ, pos, pos_part, leb_ℤ, ◌+ℤ◌, ◌-ℤ◌}
use sportsbetting.Float.{Float, float, decimal}
use sportsbetting.Backtest.Sample.{Sample, Trade, GammaMarket, Event}
use sportsbetting.Backtest.Close.{closing_trade, closing_loop, resolved_index}
use sportsbetting.Backtest.Close.Latest.{eligible, IsIn, IsLast, closing_trade_latest}
use sportsbetting.Backtest.Fetch.{
  Answer, rows, failed, fetch_trades, fetch_loop, is_rate_limited, iter_resolved_markets,
  pages_from, resolved_events, resolved_in, resolved_market,
}
use sportsbetting.Backtest.Fetch.Backoff.{IsRetried, fetch_trades_correct}
use sportsbetting.Backtest.Harvest.{
  harvest, visit_leagues, visit_league, visit_all, visit, store_market, settle_turn, samples_of,
  sample_of,
}
use sportsbetting.Backtest.Harvest.Extension.{IsExtension, state_of, stored_rows}
use sportsbetting.Backtest.Harvest.Unique.{harvest-IsExtension}
use sportsbetting.Backtest.Report.{paired_only}
use sportsbetting.Backtest.Report.Pairs.{sides_of, pair_or_none, paired_only_correct}

-- Positive billionths, which is what these runs compute with: they tell 1e-9 from 0.
instance abbrev billionths : Float ℤ
billionths = record {
  decimal = λ m e. pos (m * 1_000_000_000 / 10 ^ e);
  add = ◌+ℤ◌;
  sub = ◌-ℤ◌;
  mul = λ x y. pos (pos_part x * pos_part y / 1_000_000_000);
  div = λ x y. pos (pos_part x * 1_000_000_000 / pos_part y);
  le = leb_ℤ;
  round = λ x n. x;
  floor = λ x. x;
  pow = λ x y. x;
  sqrt = λ x. x;
}

abbrev trade : ℕ → ℕ → ℤ → Option (Trade ℤ)
trade index time price =
    some (record { outcome_index = some index; timestamp = some time; price = some price })

-- An early trade, the last one before the kickoff at 100, and one after it.
abbrev trades : List (Option (Trade ℤ))
trades =
    trade 0 10 (decimal 4 1)
    ∷ trade 1 20 (decimal 6 1)
    ∷ trade 0 90 (decimal 45 2)
    ∷ trade 0 120 (decimal 9 1)
    ∷ none
    ∷ []

closes_at_90 : closing_trade trades 0 100 ≡ some (decimal 45 2, 90, 2)
unfolding closing_trade closing_loop
closes_at_90 = refl

closing_trade_latest_example :
    ((eligible 0 100 trades ≡ []) × (closing_trade trades 0 100 ≡ none))
    ⊎ ((t : ℤ × ℕ) × (closing_trade trades 0 100 ≡ some (t.0, t.1, length (eligible 0 100 trades)))
        × IsIn 0 100 t (eligible 0 100 trades)
        × IsLast 0 100 t (eligible 0 100 trades))
closing_trade_latest_example = closing_trade_latest 0 100 trades

-- Two refusals, then the rows.
abbrev answers : ℕ → Answer (Option (Trade ℤ))
answers zero = failed 429
answers (suc zero) = failed 429
answers (suc (suc n)) = rows trades

asks_three_times : fetch_trades answers ≡ (rows trades, 3, 25)
unfolding fetch_trades fetch_loop
asks_three_times = refl

fetch_trades_correct_example :
    (m total : ℕ) × (fetch_trades answers ≡ (answers m, suc m, total))
    × IsRetried answers m
    × (m ≤ 3)
    × (total ≤ 85)
    × ((is_rate_limited (answers m) ≡ false) ⊎ (m ≡ 3))
fetch_trades_correct_example = fetch_trades_correct answers

abbrev market : String → GammaMarket ℤ
market id = record {
  id = id;
  condition_id = "c";
  sports_market_type = "moneyline";
  closed = true;
  game_start_time = some 100;
  outcome_prices = some (some (float 1) ∷ some (float 0) ∷ []);
  outcomes = "home" ∷ "away" ∷ [];
  line = none;
  question = "Who wins?";
}

abbrev pages : String → ℕ → Answer (Event ℤ)
pages league zero =
    rows (record { title = "Game"; markets = market "m1" ∷ market "m2" ∷ market "m1" ∷ [] } ∷ [])
pages league (suc n) = rows []

abbrev network : String → ℕ → Answer (Option (Trade ℤ))
network condition n = rows trades

abbrev sample : String → ℕ → ℤ → Bool → Sample ℤ
sample id index price won = record {
  market_id = id;
  condition_id = "c";
  league = "mlb";
  market_type = "moneyline";
  line = none;
  question = "Who wins?";
  outcome_index = index;
  outcome_name = "side";
  game_start = some 100;
  close_price = price;
  close_trade_at = 90;
  close_age_hours = some (float 0);
  n_trades_pre = 1;
  won = won;
}

abbrev table : List (Sample ℤ)
table = sample "m1" 0 (decimal 45 2) true ∷ sample "m1" 1 (decimal 55 2) false ∷ []

-- The market on file is left out, the other one adds its two sides.
adds_two_rows :
    map
      (λ r. r.market_id)
      (stored_rows (state_of (harvest network pages 3 (some 5) none ("mlb" ∷ []) table)))
    ≡ "m1" ∷ "m1" ∷ "m2" ∷ "m2" ∷ []
unfolding harvest visit_leagues visit_league visit_all visit store_market settle_turn samples_of
    sample_of closing_trade closing_loop fetch_trades fetch_loop iter_resolved_markets pages_from
    resolved_events resolved_in resolved_market resolved_index ◌+ℤ◌ ◌-ℤ◌
adds_two_rows = refl

harvest-IsExtension_example :
    IsExtension table (state_of (harvest network pages 3 (some 5) none ("mlb" ∷ []) table))
harvest-IsExtension_example =
    harvest-IsExtension network pages 3 (some 5) none ("mlb" ∷ []) table
      ((inr (ground arith), tt), (tt, tt))

paired_only_correct_example :
    sides_of "m1" (paired_only table (decimal 3 2))
    ≡ pair_or_none (decimal 3 2) (sides_of "m1" table)
paired_only_correct_example = paired_only_correct table (decimal 3 2) "m1"
