-- ===== src/Matching/Match.antt =====
-- `_within_league_window`, `_market_pair`, `_index_games`, `_match_one`, `match_games` and
-- `unmatched_reasons`. Times are whole microseconds; the caller's window is one too. A frozenset of
-- two keys is a pair that is compared in both orders. `game_day` is the calendar day in US Eastern
-- time, which the time zone database decides.
pub mod Nearest
use sportsbetting.Base.{
  ℕ, ◌+◌, ◌-◌, String, Bool, true, false, not, ◌&&◌, ◌||◌, Option, none, some, List, [], ◌∷◌, ◌++◌,
  str_eq, ltb, leb, ◌==◌, if◌then◌else◌,
}
use sportsbetting.Base.Dict
use sportsbetting.Base.Dict.{Dict}
use sportsbetting.Edge.Types.{PmMarket, MarketType, moneyline, spread, total}

-- `BookGame` of app/core/types.py, as far as matching reads it.
pub record BookGame : Type 0 where
  pub game_id : String
  pub league : String
  pub home_team_key : String
  pub away_team_key : String
  pub commence_time : Option ℕ

-- A key of the index: a league and two different teams, in no order.
pub record Pairing : Type 0 where
  pub league : String
  pub one : String
  pub other : String

abbrev pub same_pairing : Pairing → Pairing → Bool
same_pairing p q =
    str_eq p.league q.league
    && (str_eq p.one q.one && str_eq p.other q.other
        || str_eq p.one q.other && str_eq p.other q.one)

-- `SERIES_WINDOW_HOURS`
abbrev pub series_window : String → Option ℕ
series_window league =
    if str_eq league "mlb" || str_eq league "nba" then some 21_600_000_000 else none

-- `abs(a - b)`
abbrev pub distance : ℕ → ℕ → ℕ
distance a b = (a - b) + (b - a)

unfoldable pub within_league_window : (ℕ → ℕ) → String → ℕ → ℕ → ℕ → Bool
within_league_window game_day league start commence window =
    let delta = distance commence start in
    if ltb window delta then false else elim (series_window league) [
      | none ↦ true
      | some tight ↦ leb delta tight || game_day start == game_day commence
    ]

-- Two keys of a set comprehension that drops the falsy ones, if they are two.
abbrev pub pair_of : String → Option String → Option String → Option Pairing
pair_of league (some a) (some b) =
    if str_eq a "" || str_eq b "" || str_eq a b
    then none
    else some (record { league = league; one = a; other = b })
pair_of league none b = none
pair_of league (some a) none = none

abbrev names_teams : MarketType → Bool
names_teams moneyline = true
names_teams spread = true
names_teams total = false

-- `_market_pair`, with the league of the market.
unfoldable pub market_pair : {F : Type 0} → PmMarket F → Option Pairing
market_pair market = elim (pair_of market.league market.home_team_key market.away_team_key) [
  | some pair ↦ some pair
  | none ↦
      if names_teams market.market_type
      then pair_of market.league market.outcome_a.team_key market.outcome_b.team_key
      else none
]

abbrev pub Index : Type 0
Index = List (Pairing × List BookGame)

-- `index.setdefault(key, []).append(game)`
abbrev pub add_game : Pairing → BookGame → Index → Index
add_game key game [] = (key, game ∷ []) ∷ []
add_game key game ((k, games) ∷ index) =
    if same_pairing k key
    then (k, games ++ (game ∷ [])) ∷ index
    else (k, games) ∷ add_game key game index

-- `index.get(key, ())`
abbrev pub candidates : Pairing → Index → List BookGame
candidates key [] = []
candidates key ((k, games) ∷ index) = if same_pairing k key then games else candidates key index

abbrev pub pairing_of : BookGame → Pairing
pairing_of game = record {
  league = game.league;
  one = game.home_team_key;
  other = game.away_team_key;
}

unfoldable pub index_from : Index → List BookGame → Index
index_from index [] = index
index_from index (game ∷ games) =
    index_from
      (if str_eq game.home_team_key game.away_team_key
        then index
        else add_game (pairing_of game) game index)
      games

unfoldable pub index_games : List BookGame → Index
unfolding index_from
index_games games = index_from [] games

pub data Reason : Type 0 where
  no_teams no_book_game no_start_time outside_match_window different_game_day : Reason

pub data Match : Type 0 where
  found : BookGame → Match
  missed : Reason → Match

-- What the loop of `_match_one` keeps: the best game with its distance, and `in_window`.
abbrev pub Best : Type 0
Best = Option (BookGame × ℕ) × Bool

abbrev pub closer : Option (BookGame × ℕ) → ℕ → Bool
closer none delta = true
closer (some (game, best_delta)) delta = ltb delta best_delta

module _ (game_day : ℕ → ℕ) where
  -- One turn of the loop, for a game with a start time.
  abbrev pub turn : String → ℕ → ℕ → BookGame → ℕ → Best → Best
  turn league start window game commence (best, in_window) =
      let delta = distance commence start in
      (
        if within_league_window game_day league start commence window && closer best delta
            then some (game, delta)
            else best,
        leb delta window || in_window,
      )

  abbrev pub look : String → ℕ → ℕ → BookGame → Best → Best
  look league start window game best = elim game.commence_time [
    | none ↦ best
    | some commence ↦ turn league start window game commence best
  ]

  unfoldable pub nearest : String → ℕ → ℕ → List BookGame → Best → Best
  nearest league start window [] best = best
  nearest league start window (game ∷ games) best =
      nearest league start window games (look league start window game best)

  abbrev pub outcome_of : Best → Match
  outcome_of (some (game, delta), in_window) = found game
  outcome_of (none, in_window) =
      missed (if in_window then different_game_day else outside_match_window)

  abbrev pub only_one : List BookGame → Match
  only_one [] = missed no_book_game
  only_one (game ∷ []) = found game
  only_one (game ∷ another ∷ games) = missed no_start_time

  abbrev pub match_among : String → Option ℕ → ℕ → List BookGame → Match
  match_among league start window [] = missed no_book_game
  match_among league none window (game ∷ games) = only_one (game ∷ games)
  match_among league (some start) window (game ∷ games) =
      outcome_of (nearest league start window (game ∷ games) (none, false))

  -- `_match_one`
  unfoldable pub match_one : {F : Type 0} → PmMarket F → Index → ℕ → Match
  unfolding market_pair nearest
  match_one market index window = elim (market_pair market) [
    | none ↦ missed no_teams
    | some pair ↦ match_among market.league market.game_start window (candidates pair index)
  ]

  abbrev keep_match : String → Match → Dict BookGame → Dict BookGame
  keep_match market_id (found game) matched = Dict.set market_id game matched
  keep_match market_id (missed reason) matched = matched

  unfoldable pub match_loop :
      {F : Type 0} → List (PmMarket F) → Index → ℕ → Dict BookGame → Dict BookGame
  unfolding match_one
  match_loop [] index window matched = matched
  match_loop (market ∷ markets) index window matched =
      match_loop markets index window
        (keep_match market.market_id (match_one market index window) matched)

  unfoldable pub match_games : {F : Type 0} → List (PmMarket F) → List BookGame → ℕ → Dict BookGame
  unfolding match_loop index_games
  match_games markets games window = match_loop markets (index_games games) window []

  abbrev with_reason :
      {F : Type 0} → PmMarket F → Match → List (PmMarket F × Reason) → List (PmMarket F × Reason)
  with_reason market (found game) rest = rest
  with_reason market (missed reason) rest = (market, reason) ∷ rest

  -- One entry for each unmatched market; its four text fields are those of the market.
  unfoldable pub unmatched_from :
      {F : Type 0} → List (PmMarket F) → Index → ℕ → List (PmMarket F × Reason)
  unfolding match_one
  unmatched_from [] index window = []
  unmatched_from (market ∷ markets) index window =
      with_reason market (match_one market index window) (unmatched_from markets index window)

  unfoldable pub unmatched_reasons :
      {F : Type 0} → List (PmMarket F) → List BookGame → ℕ → List (PmMarket F × Reason)
  unfolding unmatched_from index_games
  unmatched_reasons markets games window = unmatched_from markets (index_games games) window
