-- ===== src/Strategies/Null/Wins.antt =====
-- What `shuffled_wins` keeps: how many outcomes of each price band won.
use sportsbetting.Base.{◌≡◌, Bool, List, length}
use sportsbetting.Float.{Float}
use sportsbetting.Backtest.Sample.{Sample}
use sportsbetting.Strategies.Score.{count_true}

-- A shuffle in place keeps the length and the number of winners.
pub record IsShuffle {R : Type 0} (shuffle : R → List Bool → List Bool × R) : Type 0 where
  pub keeps_length : (r : R) (xs : List Bool) → length (shuffle r xs).0 ≡ length xs
  pub keeps_wins : (r : R) (xs : List Bool) → count_true (shuffle r xs).0 ≡ count_true xs
