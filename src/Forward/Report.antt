-- ===== src/Forward/Report.antt =====
-- `_one_bet_per_token` and `report` of app/services/forward.py.
pub mod OneBet
use sportsbetting.Base.{
  ℕ, zero, suc, String, Bool, true, false, not, ◌&&◌, ◌||◌, Option, none, some, List, [], ◌∷◌, map,
  filter, length, str_eq, leb, ltb, ◌==◌, if◌then◌else◌,
}
use sportsbetting.Base.Dict.{Dict, get, set}
use sportsbetting.Base.Sort.{sort_by}
use sportsbetting.Base.Group.{group_by}
use sportsbetting.Float.{Float, float, ◌⊘◌, le, sum, round}
use sportsbetting.Forward.Record.{ForwardSample}
use sportsbetting.Forward.Grade.{is_ungraded}

pub record Bucket (F : Type 0) : Type 0 where
  pub threshold : F
  pub n : ℕ
  pub wins : ℕ
  pub win_rate : Option F
  pub roi : Option F
  pub total_pnl_per_dollar : Option F
  pub avg_clv : Option F

pub record ForwardReport (F : Type 0) : Type 0 where
  pub graded : ℕ
  pub outcomes : ℕ
  pub pending : ℕ
  pub league : String
  pub buckets : List (Bucket F)

-- `dict.setdefault(key, row)`
abbrev pub set_default : {A : Type 0} → String → A → Dict A → Dict A
set_default key row d = elim (get key d) [ none ↦ set key row d | some old ↦ d ]

abbrev pub values : {A : Type 0} → Dict A → List A
values d = map (λ e. e.1) d

abbrev keep_some : {A : Type 0} → List (Option A) → List A
keep_some [] = []
keep_some (none ∷ xs) = keep_some xs
keep_some (some x ∷ xs) = x ∷ keep_some xs

module _ {F : Type 0} where
  -- The order of the pairs `(sampled_at, id)`.
  abbrev pub sampled_first : ForwardSample F → ForwardSample F → Bool
  sampled_first r s =
      ltb r.sampled_at s.sampled_at || (r.sampled_at == s.sampled_at && leb r.id s.id)

  -- A row that was graded as a win.
  abbrev has_won : ForwardSample F → Bool
  has_won row = elim row.won [ none ↦ false | some won ↦ won ]

module _ {F : Type 0} ⦃fl : Float F⦄ where
  unfoldable pub first_bets :
      F → Dict (ForwardSample F) → List (ForwardSample F) → Dict (ForwardSample F)
  first_bets threshold first [] = first
  first_bets threshold first (row ∷ rows) =
      if le threshold row.edge
      then first_bets threshold (set_default row.token row first) rows
      else first_bets threshold first rows

  -- `_one_bet_per_token`
  unfoldable pub one_bet_per_token : List (ForwardSample F) → F → List (ForwardSample F)
  unfolding first_bets
  one_bet_per_token rows threshold = values (first_bets threshold [] (sort_by sampled_first rows))

  abbrev mean_of : List F → Option F
  mean_of [] = none
  mean_of (x ∷ xs) = some (sum (x ∷ xs) ⊘ float (length (x ∷ xs)))

  abbrev total_of : List F → Option F
  total_of [] = none
  total_of (x ∷ xs) = some (round (sum (x ∷ xs)) 4)

  abbrev rate_of : ℕ → ℕ → Option F
  rate_of zero wins = none
  rate_of (suc n) wins = some (float wins ⊘ float (suc n))

  unfoldable pub bucket_of : List (ForwardSample F) → F → Bucket F
  unfolding one_bet_per_token
  bucket_of graded threshold =
      let taken = one_bet_per_token graded threshold in
      let wins = length (filter has_won taken) in
      let pnls = keep_some (map (λ r. r.pnl_per_dollar) taken) in
      let clvs = keep_some (map (λ r. r.clv) taken) in
      record {
        threshold = threshold;
        n = length taken;
        wins = wins;
        win_rate = rate_of (length taken) wins;
        roi = mean_of pnls;
        total_pnl_per_dollar = total_of pnls;
        avg_clv = mean_of clvs;
      }

  -- A league of "" is none; the pending rows are counted over all leagues.
  unfoldable pub report : List (ForwardSample F) → List F → String → ForwardReport F
  unfolding bucket_of
  report table thresholds league =
      let graded =
        filter (λ r. not (is_ungraded r) && (str_eq league "" || str_eq r.league league)) table in
      record {
        graded = length graded;
        outcomes = length (group_by (λ r. r.token) [] graded);
        pending = length (filter is_ungraded table);
        league = if str_eq league "" then "all" else league;
        buckets = map (bucket_of graded) thresholds;
      }
