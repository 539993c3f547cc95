-- ===== src/Strategies/Score.antt =====
-- `_calibration_p`, `_roi_p`, `score_picks`, `_by_return` and `bakeoff` of app/services/strategies.py.
pub mod Ranking
use sportsbetting.Base.{
  ℕ, suc, zero, ◌-◌, String, Bool, true, false, not, Option, none, some, List, [], ◌∷◌, map, filter,
  length, if◌then◌else◌,
}
use sportsbetting.Base.Result.{Result, ok, value_error, ◌>>=◌, map_ok}
use sportsbetting.Base.Sort.{sort_by}
use sportsbetting.Float.{Float, float, ◌⊖◌, ◌⊗◌, ◌⊘◌, le, abs, neg, sqrt, sum, round}
use sportsbetting.Backtest.Sample.{Sample}
use sportsbetting.Backtest.Report.{normal_cdf}
use sportsbetting.Strategies.Rules.{Strategy, picks, at_indexes, pnl_per_dollar}

pub record Score (F : Type 0) : Type 0 where
  pub key : String
  pub label : String
  pub n : ℕ
  pub wins : ℕ
  pub win_rate : Option F
  pub implied : Option F
  pub roi : Option F
  pub total_pnl : Option F
  pub calib_p : Option F
  pub roi_p : Option F

abbrev pub count_true : List Bool → ℕ
count_true [] = 0
count_true (b ∷ bs) = if b then suc (count_true bs) else count_true bs

module _ {F : Type 0} ⦃fl : Float F⦄ where
  -- The comprehension over `zip(prices, wons, strict=True)`.
  unfoldable pub pnls_of : F → List F → List Bool → Result (List F)
  pnls_of fee_rate [] [] = ok []
  pnls_of fee_rate [] (won ∷ wons) = value_error
  pnls_of fee_rate (price ∷ prices) [] = value_error
  pnls_of fee_rate (price ∷ prices) (won ∷ wons) =
      map_ok (λ rest. pnl_per_dollar price won fee_rate ∷ rest) (pnls_of fee_rate prices wons)

  -- `_by_return`, and the order of its pairs.
  abbrev pub by_return : Score F → Bool × F
  by_return score = elim score.roi [ none ↦ (true, neg (float 0)) | some roi ↦ (false, neg roi) ]

  abbrev pub key_le : Bool × F → Bool × F → Bool
  key_le (false, x) (false, y) = le x y
  key_le (false, x) (true, y) = true
  key_le (true, x) (false, y) = false
  key_le (true, x) (true, y) = le x y

  abbrev pub ranks_before : Score F → Score F → Bool
  ranks_before s t = key_le (by_return s) (by_return t)

  abbrev squared : F → F
  squared x = fl.pow x (float 2)

  module _ (erf : F → F) where
    abbrev p_of : F → F
    p_of z = float 2 ⊗ (float 1 ⊖ normal_cdf erf (abs z))

    unfoldable pub calibration_p : List F → ℕ → Option F
    calibration_p [] wins = none
    calibration_p (price ∷ rest) wins =
        let prices = price ∷ rest in
        let expected = sum prices in
        let variance = sum (map (λ p. p ⊗ (float 1 ⊖ p)) prices) in
        if le variance (float 0)
        then none
        else some (p_of ((float wins ⊖ expected) ⊘ sqrt variance))

    unfoldable pub roi_p : List F → Option F
    roi_p [] = none
    roi_p (pnl ∷ []) = none
    roi_p (first ∷ second ∷ rest) =
        let pnls = first ∷ second ∷ rest in
        let n = length pnls in
        let mean = sum pnls ⊘ float n in
        let variance = sum (map (λ value. squared (value ⊖ mean)) pnls) ⊘ float (n - 1) in
        if le variance (float 0) then none else some (p_of (mean ⊘ sqrt (variance ⊘ float n)))

    abbrev full_score : String → String → List F → List Bool → List F → Score F
    full_score key label prices wons pnls =
        let n = float (length prices) in
        record {
          key = key;
          label = label;
          n = length prices;
          wins = count_true wons;
          win_rate = some (float (count_true wons) ⊘ n);
          implied = some (sum prices ⊘ n);
          roi = some (sum pnls ⊘ n);
          total_pnl = some (round (sum pnls) 2);
          calib_p = calibration_p prices (count_true wons);
          roi_p = roi_p pnls;
        }

    abbrev empty_score : String → String → Score F
    empty_score key label = record {
      key = key;
      label = label;
      n = 0;
      wins = 0;
      win_rate = none;
      implied = none;
      roi = none;
      total_pnl = none;
      calib_p = none;
      roi_p = none;
    }

    unfoldable pub score_picks : String → String → List F → List Bool → F → Result (Score F)
    unfolding pnls_of calibration_p roi_p
    score_picks key label [] wons fee_rate = ok (empty_score key label)
    score_picks key label (price ∷ rest) wons fee_rate =
        map_ok (full_score key label (price ∷ rest) wons) (pnls_of fee_rate (price ∷ rest) wons)

    unfoldable pub score_rule : List (Sample F) → F → Strategy F → Result (Score F)
    unfolding score_picks picks
    score_rule rows fee_rate strategy =
        let bought = at_indexes rows (picks strategy rows) in
        score_picks strategy.key strategy.label (map (λ r. r.close_price) bought)
          (map (λ r. r.won) bought) fee_rate

    unfoldable pub score_rules : List (Sample F) → F → List (Strategy F) → Result (List (Score F))
    unfolding score_rule
    score_rules rows fee_rate [] = ok []
    score_rules rows fee_rate (strategy ∷ rest) = score_rule rows fee_rate strategy >>= λ score.
        map_ok (λ scores. score ∷ scores) (score_rules rows fee_rate rest)

    unfoldable pub bakeoff : List (Sample F) → List (Strategy F) → F → Result (List (Score F))
    unfolding score_rules
    bakeoff rows strategies fee_rate =
        map_ok (sort_by ranks_before) (score_rules rows fee_rate strategies)
