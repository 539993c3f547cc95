-- ===== src/Strategies/Run.antt =====
-- `run` and `pick_table` of app/services/strategies.py. `erf` is `math.erf`, `shuffle` the generator's
-- and `stamp` the first sixteen characters of a time as text.
pub mod Best
pub mod Picks
use sportsbetting.Base.{
  ℕ, suc, zero, ◌/◌, max, min, String, Bool, true, false, Option, none, some, List, [], ◌∷◌, ◌++◌,
  map, filter, length, str_eq, leb, ◌==◌, any, take_first, if◌then◌else◌,
}
use sportsbetting.Base.Group.{group_by}
use sportsbetting.Base.Result.{Result, ok, ◌>>=◌, map_ok}
use sportsbetting.Base.Sort.{sort_by}
use sportsbetting.Base.Words.{strip}
use sportsbetting.Float.{Float, float, ◌⊘◌, le, round}
use sportsbetting.Backtest.Sample.{Sample}
use sportsbetting.Backtest.Report.{is_wanted, paired_if}
use sportsbetting.Strategies.Rules.{Strategy, picks, effective_cost, pnl_per_dollar}
use sportsbetting.Strategies.Score.{Score, ranks_before, bakeoff}
use sportsbetting.Strategies.Null.{permutation_null}
use sportsbetting.Strategies.Split.{split_by_date, starts_of}

-- One rule of the holdout; `none` where the late half has no score of that key.
pub record Holdout (F : Type 0) : Type 0 where
  pub key : String
  pub label : String
  pub early : Score F
  pub late : Option (Score F)

pub record Run (F : Type 0) : Type 0 where
  pub rows : List (Sample F)
  pub n_outcomes : ℕ
  pub n_markets : ℕ
  pub league : String
  pub fee_rate : F
  pub paired : Bool
  pub max_close_age_hours : Option F
  pub span : Option (ℕ × ℕ)
  pub min_n : ℕ
  pub scores : List (Score F)
  pub best : Option (Score F)
  pub null : List F
  pub search_p : Option F
  pub holdout : List (Holdout F)
  pub n_early : ℕ
  pub n_late : ℕ

-- One row of the picks.
pub record Pick (F : Type 0) : Type 0 where
  pub game_start : String
  pub league : String
  pub market_type : String
  pub question : String
  pub side : String
  pub price : F
  pub cost_with_fee : F
  pub trades_pre : ℕ
  pub close_age_hours : Option F
  pub won : ℕ
  pub pnl_per_dollar : F
  pub rules : List String

abbrev pub first_of : {A : Type 0} → List A → Option A
first_of [] = none
first_of (x ∷ xs) = some x

abbrev min_max : List ℕ → Option (ℕ × ℕ)
min_max [] = none
min_max (t ∷ ts) = elim (min_max ts) [
  | none ↦ some (t, t)
  | some (low, high) ↦ some (min t low, max t high)
]

abbrev start_text : (ℕ → String) → Option ℕ → String
start_text stamp none = ""
start_text stamp (some start) = stamp start

abbrev is_some : {A : Type 0} → Option A → Bool
is_some none = false
is_some (some a) = true

module _ {F : Type 0} where
  -- `{score.key: score}.get(key)`: the last score of a key.
  abbrev later_first : Option (Score F) → String → Score F → Option (Score F)
  later_first (some found) key score = some found
  later_first none key score = if str_eq score.key key then some score else none

  abbrev pub by_key : String → List (Score F) → Option (Score F)
  by_key key [] = none
  by_key key (score ∷ scores) = later_first (by_key key scores) key score

  -- The first score with enough picks.
  abbrev pub enough : ℕ → List (Score F) → List (Score F)
  enough min_n scores = filter (λ s. leb min_n s.n) scores

  abbrev holdout_of : List (Score F) → Score F → Holdout F
  holdout_of late score = record {
    key = score.key;
    label = score.label;
    early = score;
    late = by_key score.key late;
  }

  abbrev pub bought : List (Sample F) → ℕ → List (Strategy F) → List String
  bought rows i [] = []
  bought rows i (s ∷ strategies) =
      let rest = bought rows i strategies in
      if any (λ j. j == i) (picks s rows) then s.key ∷ rest else rest

module _ {F : Type 0} ⦃fl : Float F⦄ where
  abbrev roi_or_zero : Score F → F
  roi_or_zero score = elim score.roi [ none ↦ float 0 | some roi ↦ roi ]

  -- The share of the repetitions that matched or beat the best rule.
  abbrev pub search_p_of : Option (Score F) → List F → Option F
  search_p_of none null = none
  search_p_of (some best) [] = none
  search_p_of (some best) (value ∷ values) =
      let null = value ∷ values in
      some (float (length (filter (λ v. le (roi_or_zero best) v) null)) ⊘ float (length null))

  module _ (erf : F → F) {R : Type 0} (shuffle : R → List Bool → List Bool × R) where
    abbrev pub report_run :
        List (Sample F)
        → String
        → F
        → Option F
        → Option F
        → ℕ
        → List (Score F)
        → List F
        → List (Sample F) × List (Sample F)
        → List (Score F)
        → List (Score F)
        → Run F
    report_run rows league fee_rate max_age paired min_n scores null (early, late) early_scores
          late_scores =
        let best = first_of (enough min_n scores) in
        record {
          rows = rows;
          n_outcomes = length rows;
          n_markets = length (group_by (λ r. r.market_id) [] rows);
          league = if str_eq league "" then "all" else league;
          fee_rate = fee_rate;
          paired = is_some paired;
          max_close_age_hours = max_age;
          span = min_max (starts_of rows);
          min_n = min_n;
          scores = scores;
          best = best;
          null = null;
          search_p = search_p_of best null;
          holdout =
              map (holdout_of late_scores)
                (take_first 5 (enough (max (min_n / 2) 1) (sort_by ranks_before early_scores)));
          n_early = length early;
          n_late = length late;
        }

    -- A league of "" is none; `paired` is the pair error where only pairs count.
    unfoldable pub run :
        List (Sample F)
        → String
        → F
        → Option F
        → Option F
        → ℕ
        → ℕ
        → R
        → List (Strategy F)
        → Result (Run F)
    unfolding bakeoff permutation_null split_by_date
    run table league fee_rate max_age paired reps min_n seed strategies =
        let rows = paired_if paired (filter (is_wanted league "" max_age) table) in
        let halves = split_by_date rows in
        bakeoff erf rows strategies fee_rate >>= λ scores.
        permutation_null shuffle rows strategies fee_rate reps min_n seed >>= λ null.
        bakeoff erf halves.0 strategies fee_rate >>= λ early.
        bakeoff erf halves.1 strategies fee_rate >>= λ late.
        ok (report_run rows league fee_rate max_age paired min_n scores null halves early late)

  module _ (stamp : ℕ → String) where
    -- The texts of `rules` are kept as a list.
    abbrev pub pick_of : List (Sample F) → List (Strategy F) → F → ℕ → Sample F → Pick F
    pick_of rows strategies fee_rate i row = record {
      game_start = start_text stamp row.game_start;
      league = row.league;
      market_type = row.market_type;
      question = strip row.question;
      side = strip row.outcome_name;
      price = round row.close_price 4;
      cost_with_fee = round (effective_cost row.close_price fee_rate) 4;
      trades_pre = row.n_trades_pre;
      close_age_hours = row.close_age_hours;
      won = if row.won then 1 else 0;
      pnl_per_dollar = round (pnl_per_dollar row.close_price row.won fee_rate) 4;
      rules = bought rows i strategies;
    }

    abbrev pub picks_table :
        List (Sample F) → List (Strategy F) → F → ℕ → List (Sample F) → List (Pick F)
    picks_table rows strategies fee_rate i [] = []
    picks_table rows strategies fee_rate i (row ∷ rest) =
        pick_of rows strategies fee_rate i row ∷ picks_table rows strategies fee_rate (suc i) rest

    unfoldable pub pick_table : List (Sample F) → List (Strategy F) → F → List (Pick F)
    unfolding picks
    pick_table rows strategies fee_rate = picks_table rows strategies fee_rate 0 rows
