-- ===== src/Matching/Fair.antt =====
-- `_book_outcomes`, `_find_team`, `_find_side`, `_total_side`, `_pair_for_book` and `fair_for_outcome`
-- of app/core/matching.py. The books of a game are an argument of their own.
pub mod Sides
pub mod Pair
pub mod Quoted
use sportsbetting.Base.{
  ℕ, String, Bool, true, false, not, ◌&&◌, ◌||◌, Option, none, some, List, [], ◌∷◌, ◌++◌, str_eq,
  leb, ◌==◌, if◌then◌else◌,
}
use sportsbetting.Base.Dict.{Dict}
use sportsbetting.Base.Int.{ℤ}
use sportsbetting.Base.Result.{Result, ok, value_error, ◌>>=◌, map_ok}
use sportsbetting.Base.Words.{strip, lower}
use sportsbetting.Float.{Float, decimal, ◌⊖◌, lt, abs, neg}
use sportsbetting.Odds.Convert.{american_to_prob}
use sportsbetting.Odds.Devig.{devig, is_method}
use sportsbetting.Odds.Consensus.{FairProb, consensus}
use sportsbetting.Edge.Types.{PmMarket, PmOutcome, MarketType, moneyline, spread, total}
use sportsbetting.Matching.Match.{BookGame}
use sportsbetting.Matching.Names.{normalize_name, first_word}

pub record BookOutcome (F : Type 0) : Type 0 where
  pub name : String
  pub team_key : Option String
  pub price_american : ℤ
  pub point : Option F

pub record BookMarket (F : Type 0) : Type 0 where
  pub key : String
  pub outcomes : List (BookOutcome F)

pub record BookQuote (F : Type 0) : Type 0 where
  pub bookmaker : String
  pub markets : List (BookMarket F)

-- `MARKET_TYPE_TO_BOOK_KEY`
abbrev pub book_key_of : MarketType → String
book_key_of moneyline = "h2h"
book_key_of spread = "spreads"
book_key_of total = "totals"

abbrev pub is_team : String → Option String → Bool
is_team team none = false
is_team team (some key) = str_eq key team

abbrev pub opposite_side : String → String
opposite_side side = if str_eq side "over" then "under" else "over"

-- `opp_key`
abbrev pub opp_key_of : String → Option String → BookGame → String
opp_key_of this_key (some key) game = key
opp_key_of this_key none game =
    if str_eq this_key game.home_team_key then game.away_team_key else game.home_team_key

module _ {F : Type 0} where
  abbrev pub outcomes_in : List (BookMarket F) → String → List (BookOutcome F)
  outcomes_in [] key = []
  outcomes_in (market ∷ markets) key =
      let rest = outcomes_in markets key in
      if str_eq market.key key then market.outcomes ++ rest else rest

  unfoldable pub book_outcomes : BookQuote F → String → List (BookOutcome F)
  book_outcomes quote key = outcomes_in quote.markets key

  -- `for outcome in outcomes: if test(outcome): return outcome`
  abbrev pub find_first : (BookOutcome F → Bool) → List (BookOutcome F) → Option (BookOutcome F)
  find_first test [] = none
  find_first test (o ∷ os) = let rest = find_first test os in if test o then some o else rest

  abbrev pub both :
      Option (BookOutcome F) → Option (BookOutcome F) → Option (BookOutcome F × BookOutcome F)
  both (some this) (some opp) = some (this, opp)
  both (some this) none = none
  both none opp = none

  unfoldable pub total_side : PmOutcome F → Option String
  unfolding normalize_name
  total_side outcome =
      let word = first_word (normalize_name outcome.name) in
      if str_eq word "over" || str_eq word "under" then some word else none

module _ {F : Type 0} ⦃fl : Float F⦄ where
  abbrev pub same_point : Option F → Option F → Bool
  same_point none b = false
  same_point (some a) none = false
  same_point (some a) (some b) = lt (abs (a ⊖ b)) (decimal 1 9)

  -- The tests of `_find_team`, without and with a point, and of `_find_side`.
  abbrev pub on_team : String → BookOutcome F → Bool
  on_team team o = is_team team o.team_key

  abbrev pub on_team_at : String → F → BookOutcome F → Bool
  on_team_at team point o = is_team team o.team_key && same_point o.point (some point)

  abbrev pub on_side : String → F → BookOutcome F → Bool
  on_side side point o = str_eq (lower (strip o.name)) side && same_point o.point (some point)

  -- `required`, where the line belongs to one of the two outcomes.
  abbrev pub required_point : String → Option String → Option F → Option String → Option F
  required_point this_key other_key (some line) (some line_team) =
      if str_eq line_team this_key then some line else elim other_key [
        | none ↦ some (neg line)
        | some key ↦ if str_eq line_team key then some (neg line) else none
      ]
  required_point this_key other_key none line_team = none
  required_point this_key other_key (some line) none = none

  abbrev pub spread_pair :
      String → String → Option F → List (BookOutcome F) → Option (BookOutcome F × BookOutcome F)
  spread_pair this_key opp_key none outcomes = none
  spread_pair this_key opp_key (some required) outcomes =
      both (find_first (on_team_at this_key required) outcomes)
        (find_first (on_team_at opp_key (neg required)) outcomes)

  abbrev pub total_pair :
      Option String → Option F → List (BookOutcome F) → Option (BookOutcome F × BookOutcome F)
  total_pair none line outcomes = none
  total_pair (some side) none outcomes = none
  total_pair (some side) (some line) outcomes =
      both (find_first (on_side side line) outcomes)
        (find_first (on_side (opposite_side side) line) outcomes)

  abbrev pub pair_by :
      MarketType
      → Option String
      → PmMarket F
      → PmOutcome F
      → PmOutcome F
      → BookGame
      → List (BookOutcome F)
      → Option (BookOutcome F × BookOutcome F)
  pair_by total key market outcome other game outcomes =
      total_pair (total_side outcome) market.line outcomes
  pair_by moneyline none market outcome other game outcomes = none
  pair_by moneyline (some key) market outcome other game outcomes =
      both (find_first (on_team key) outcomes)
        (find_first (on_team (opp_key_of key other.team_key game)) outcomes)
  pair_by spread none market outcome other game outcomes = none
  pair_by spread (some key) market outcome other game outcomes =
      spread_pair key (opp_key_of key other.team_key game)
        (required_point key other.team_key market.line market.line_team_key) outcomes

  unfoldable pub pair_for_book :
      PmMarket F
      → PmOutcome F
      → PmOutcome F
      → BookGame
      → List (BookOutcome F)
      → Option (BookOutcome F × BookOutcome F)
  unfolding total_side
  pair_for_book market outcome other game outcomes =
      pair_by market.market_type outcome.team_key market outcome other game outcomes

  abbrev pub first_prob : List F → Result F
  first_prob [] = value_error
  first_prob (p ∷ ps) = ok p

  -- `devigged[0]`; `devig` answers as many as it is given.
  unfoldable pub quote_prob : String → BookOutcome F × BookOutcome F → Result F
  quote_prob method (this, opp) = american_to_prob this.price_american >>= λ p.
      american_to_prob opp.price_american >>= λ q. devig method (p ∷ q ∷ []) >>= first_prob

  -- An error of the math skips the book, unless the method is unknown.
  abbrev pub add_sample :
      Bool → String → Result F → Result (List (String × F)) → Result (List (String × F))
  add_sample known bookmaker (ok prob) rest = map_ok (λ samples. (bookmaker, prob) ∷ samples) rest
  add_sample true bookmaker value_error rest = rest
  add_sample false bookmaker value_error rest = value_error

  abbrev pub sample_of_pair :
      String
      → String
      → Option (BookOutcome F × BookOutcome F)
      → Result (List (String × F))
      → Result (List (String × F))
  sample_of_pair method bookmaker none rest = rest
  sample_of_pair method bookmaker (some pair) rest =
      add_sample (is_method method) bookmaker (quote_prob method pair) rest

  unfoldable pub collect_samples :
      String
      → PmMarket F
      → PmOutcome F
      → PmOutcome F
      → BookGame
      → List (BookQuote F)
      → Result (List (String × F))
  unfolding pair_for_book book_outcomes quote_prob
  collect_samples method market outcome other game [] = ok []
  collect_samples method market outcome other game (quote ∷ quotes) =
      sample_of_pair method quote.bookmaker
        (pair_for_book market outcome other game
          (book_outcomes quote (book_key_of market.market_type)))
        (collect_samples method market outcome other game quotes)

  abbrev pub line_of : MarketType → Option F → Option F
  line_of moneyline line = none
  line_of spread line = line
  line_of total line = line

  abbrev pub fair_of :
      List (String × F) → Dict F → F → String → Option F → Result (Option (FairProb F))
  fair_of [] weights default_weight method line = ok none
  fair_of (sample ∷ samples) weights default_weight method line =
      consensus (sample ∷ samples) weights default_weight method line

  unfoldable pub fair_for_outcome :
      PmMarket F
      → ℕ
      → BookGame
      → List (BookQuote F)
      → Dict F
      → String
      → F
      → Result (Option (FairProb F))
  unfolding collect_samples
  fair_for_outcome market index game books weights method default_weight =
      if not (leb index 1)
      then value_error
      else let outcome = if index == 0 then market.outcome_a else market.outcome_b in
        let other = if index == 0 then market.outcome_b else market.outcome_a in
        collect_samples method market outcome other game books >>= λ samples.
        fair_of samples weights default_weight method (line_of market.market_type market.line)
