-- ===== src/Strategies/Tests.antt =====
-- The bake-off at concrete inputs: three outcomes of two leagues, and two of the rules.
use sportsbetting.Base.{
  ℕ, suc, ◌≡◌, refl, String, Bool, true, false, none, some, List, [], ◌∷◌, map,
}
use sportsbetting.Base.Int.{ℤ}
use sportsbetting.Base.Sort.{sort_by}
use sportsbetting.Base.Words.{strip, lower}
use sportsbetting.Base.Group.{group_by}
use sportsbetting.Float.{float, decimal}
use sportsbetting.Float.Fixed.{fixed}
use sportsbetting.Backtest.Sample.{Sample}
use sportsbetting.Strategies.Rules.{strategies}
use sportsbetting.Strategies.Score.{Score}
use sportsbetting.Strategies.Split.{split_by_date, median_start}
use sportsbetting.Strategies.Run.{Run, pick_table}
use sportsbetting.Strategies.Run.Picks.{row_for, pick_table_correct}

abbrev outcome : String → String → ℕ → ℤ → Bool → Sample ℤ
outcome id league start price won = record {
  market_id = id;
  condition_id = "c";
  league = league;
  market_type = "totals";
  line = none;
  question = "How many?";
  outcome_index = 0;
  outcome_name = " Over ";
  game_start = some start;
  close_price = price;
  close_trade_at = 1;
  close_age_hours = some (float 1);
  n_trades_pre = 60;
  won = won;
}

abbrev early_mlb : Sample ℤ
early_mlb = outcome "m1" "mlb" 100 (decimal 605 3) true

abbrev late_mlb : Sample ℤ
late_mlb = outcome "m2" "mlb" 200 (decimal 61 2) false

abbrev nfl : Sample ℤ
nfl = outcome "m3" "nfl" 300 (decimal 4 1) true

abbrev rows : List (Sample ℤ)
rows = late_mlb ∷ nfl ∷ early_mlb ∷ []

-- An error function for the tests.
abbrev erf : ℤ → ℤ
erf x = x

-- The state of the generator is a number, and a shuffle changes the first two places over.
abbrev swap_two : List Bool → List Bool
swap_two [] = []
swap_two (a ∷ []) = a ∷ []
swap_two (a ∷ b ∷ rest) = b ∷ a ∷ rest

abbrev shuffle : ℕ → List Bool → List Bool × ℕ
shuffle n xs = (swap_two xs, suc n)

abbrev stamp : ℕ → String
stamp time = "2026-09-21 18:00"

stripped : lower (strip nfl.outcome_name) ≡ "over"
stripped = refl

mlb_is_cut : split_by_date rows ≡ (early_mlb ∷ [], late_mlb ∷ nfl ∷ [])
unfolding split_by_date median_start group_by sort_by
mlb_is_cut = refl

pick_table_correct_example :
    pick_table stamp rows strategies (decimal 695 4)
    ≡ map (row_for stamp strategies (decimal 695 4)) rows
pick_table_correct_example = pick_table_correct stamp strategies (decimal 695 4) rows
