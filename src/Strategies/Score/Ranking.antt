-- ===== src/Strategies/Score/Ranking.antt =====
-- What `bakeoff` returns: one score for each rule, over the rows that the rule selects, best first.
use sportsbetting.Base.{List, [], ◌∷◌, map, filter}
use sportsbetting.Float.{Float}
use sportsbetting.Backtest.Sample.{Sample}
use sportsbetting.Strategies.Rules.{Strategy, pnl_per_dollar}
use sportsbetting.Strategies.Score.{Score, full_score, empty_score}

module _ {F : Type 0} ⦃fl : Float F⦄ (erf : F → F) where
  -- The returns on one dollar in each row.
  abbrev pub returns_of : F → List (Sample F) → List F
  returns_of fee_rate rows = map (λ r. pnl_per_dollar r.close_price r.won fee_rate) rows

  -- The score of a rule, over the rows that it selects.
  abbrev pub score_over : Strategy F → F → List (Sample F) → Score F
  score_over strategy fee_rate [] = empty_score erf strategy.key strategy.label
  score_over strategy fee_rate (row ∷ rows) =
      full_score erf strategy.key strategy.label (map (λ r. r.close_price) (row ∷ rows))
        (map (λ r. r.won) (row ∷ rows)) (returns_of fee_rate (row ∷ rows))

  abbrev pub scores_of : List (Sample F) → F → List (Strategy F) → List (Score F)
  scores_of rows fee_rate strategies =
      map (λ s. score_over s fee_rate (filter s.select rows)) strategies
