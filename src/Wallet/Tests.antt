-- ===== src/Wallet/Tests.antt =====
-- The wallet import at a concrete input: an order in two fills, and a sale.
use sportsbetting.Base.{ℕ, ◌≡◌, refl, String, some, List, [], ◌∷◌}
use sportsbetting.Base.Int.{ℤ, ◌+ℤ◌, ◌-ℤ◌}
use sportsbetting.Base.Result.{ok}
use sportsbetting.Base.Sort.{sort_by}
use sportsbetting.Base.Text.{compare_text}
use sportsbetting.Float.{float, decimal}
use sportsbetting.Float.Fixed.{fixed}
use sportsbetting.Edge.Value.{taker_fee_per_share}
use sportsbetting.Wallet.Fill.{RawTrade, Fill, parse_fill, group_fills, import_key}
use sportsbetting.Wallet.Import.{
  SkipReason, Priced, Tracked, ImportedBet, ImportResult, fair_at, bet_of, import_order,
  import_orders, import_fills, import_at_rate,
}
use sportsbetting.Wallet.Import.Unique.{IsNew, import_fills-IsNew, import_fills_again}

abbrev raw : String → ℤ → ℤ → ℕ → RawTrade ℤ
raw side price size time = record {
  transaction_hash = " 0xAB ";
  asset = "77";
  condition_id = "C1";
  side = side;
  price = some price;
  size = some size;
  timestamp = some time;
  title = "Chiefs win?";
}

abbrev raws : List (RawTrade ℤ)
raws =
    raw "buy" (decimal 4 1) (float 10) 50
    ∷ raw "sell" (decimal 5 1) (float 1) 60
    ∷ raw "BUY" (decimal 6 1) (float 10) 40
    ∷ []

abbrev market : Tracked
market = record {
  id = "m1";
  condition_id = "c1";
  outcome_a_token = "76";
  outcome_a_name = "Bills";
  outcome_a_key = some "BUF";
  outcome_b_token = "77";
  outcome_b_name = "Chiefs";
  outcome_b_key = some "KC";
  kickoff = some 100;
}

abbrev sample : Priced ℤ
sample = record { token = "77"; priced_at = 30; id = 1; fair_prob = decimal 55 2 }

abbrev sale : Fill ℤ
sale = record {
  tx = "0xab";
  asset = "77";
  condition_id = "c1";
  side = "SELL";
  price = decimal 5 1;
  size = float 1;
  when = 60;
  title = "Chiefs win?";
  mode = "taker";
}

-- Twenty shares at 50 cents, with a fee of 1.25 cents on each.
abbrev bet : ImportedBet ℤ
bet = record {
  market_id = "m1";
  token = "77";
  outcome_key = some "KC";
  outcome_name = "Chiefs";
  mode = "taker";
  price = decimal 5 1;
  shares = float 20;
  stake_usd = decimal 1025 2;
  fee_usd = decimal 25 2;
  fair_at_bet = some (decimal 55 2);
  edge_at_bet = some (decimal 375 4);
  placed_at = 40;
  n_fills = 2;
  import_key = "0xab:77";
}

abbrev result : ImportResult ℤ
result = record {
  fetched = 3;
  imported = 1;
  already = 0;
  skipped_counts = SkipReason.sell ∷ [];
  skipped = (SkipReason.sell, some sale) ∷ [];
  known_keys = "0xab:77" ∷ "0xcd:77" ∷ [];
  new_bets = bet ∷ [];
}

imports_one :
    import_fills (market ∷ []) (sample ∷ []) [] (float 0) (decimal 5 2) raws ("0xcd:77" ∷ [])
    ≡ ok result
unfolding import_fills import_at_rate import_orders import_order bet_of fair_at import_key
    parse_fill group_fills sort_by compare_text taker_fee_per_share ◌+ℤ◌ ◌-ℤ◌
imports_one = refl

import_fills-IsNew_example : IsNew ("0xcd:77" ∷ []) result
import_fills-IsNew_example =
    import_fills-IsNew (market ∷ []) (sample ∷ []) [] (float 0) (decimal 5 2) raws ("0xcd:77" ∷ [])
      imports_one

import_fills_again_example :
    (again : ImportResult ℤ) × (import_fills
        (market ∷ [])
        (sample ∷ [])
        []
        (float 0)
        (decimal 5 2)
        raws
        ("0xab:77" ∷ "0xcd:77" ∷ [])
      ≡ ok again)
    × (again.imported ≡ 0)
    × (again.new_bets ≡ [])
import_fills_again_example =
    import_fills_again (market ∷ []) (sample ∷ []) [] (float 0) (decimal 5 2) raws ("0xcd:77" ∷ [])
      imports_one
