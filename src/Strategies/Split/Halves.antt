-- ===== src/Strategies/Split/Halves.antt =====
-- Which rows `split_by_date` puts in which half.
use sportsbetting.Base.{String, List}
use sportsbetting.Base.Group.{with_key}
use sportsbetting.Backtest.Sample.{Sample}

module _ {F : Type 0} where
  abbrev pub in_league : String → List (Sample F) → List (Sample F)
  in_league league rows = with_key (λ r. r.league) league rows
