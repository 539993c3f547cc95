-- ===== src/Strategies/Run/Best.antt =====
-- The rule that `run` reports as the best one.
use sportsbetting.Base.{ℕ, ◌≡◌, ◌⊎◌, true, false, Option, none, some, List, leb, All}
use sportsbetting.Float.{Float}
use sportsbetting.Backtest.Sample.{Sample}
use sportsbetting.Strategies.Score.{Score, ranks_before}
use sportsbetting.Strategies.Run.{Run}

module _ {F : Type 0} ⦃fl : Float F⦄ where
  -- The best score: enough picks, and no score with enough picks ranks before it.
  abbrev pub IsBest : ℕ → Option (Score F) → List (Score F) → Type 0
  IsBest min_n none scores = All (λ t. leb min_n t.n ≡ false) scores
  IsBest min_n (some s) scores =
      (leb min_n s.n ≡ true) × All (λ t. (leb min_n t.n ≡ false) ⊎ (ranks_before s t ≡ true)) scores
