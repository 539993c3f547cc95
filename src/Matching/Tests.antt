-- ===== src/Matching/Tests.antt =====
-- Matching at concrete inputs: two games of one series, a day apart, and the books of a winner.
use mathlib.Core.List.{Memᴰ}
use sportsbetting.Base.{ℕ, ◌/◌, ◌≤◌, ◌≡◌, refl, String, true, false, none, some, List, [], ◌∷◌, All}
use sportsbetting.Base.Int.{ℤ, pos, negsuc, ◌+ℤ◌, ◌-ℤ◌}
use sportsbetting.Base.Result.{ok}
use sportsbetting.Base.Sort.{sort_by}
use sportsbetting.Float.{float, decimal}
use sportsbetting.Float.Fixed.{fixed}
use sportsbetting.Odds.Convert.{american_to_prob}
use sportsbetting.Odds.Devig.{devig, additive_devig, validate_probs}
use sportsbetting.Odds.Consensus.{FairProb, consensus, collect, summarise_used, summarise, used_le}
use sportsbetting.Matching.Names.{normalize_name}
use sportsbetting.Matching.Fair.{
  BookQuote, book_outcomes, total_side, pair_for_book, quote_prob, collect_samples,
  fair_for_outcome,
}
use sportsbetting.Matching.Fair.Quoted.{AreQuoted, side_at, other_at, fair_for_outcome_sound}
use sportsbetting.Edge.Types.{PmOutcome, MarketType, PmMarket}
use sportsbetting.Matching.Match.{
  BookGame, within_league_window, market_pair, index_games, nearest, match_one, match_games,
  unmatched_reasons,
}
use sportsbetting.Matching.Match.Nearest.{reach_of, IsNoNearer, match_among_nearest}

-- Days of 24 hours, in microseconds.
abbrev day_of : ℕ → ℕ
day_of time = time / 86_400_000_000

abbrev game : String → ℕ → BookGame
game id start = record {
  game_id = id;
  league = "mlb";
  home_team_key = "NYY";
  away_team_key = "BOS";
  commence_time = some start;
}

abbrev monday : BookGame
monday = game "monday" 3_600_000_000

abbrev tuesday : BookGame
tuesday = game "tuesday" 90_000_000_000

abbrev window_36_hours : ℕ
window_36_hours = 129_600_000_000

abbrev outcome : PmOutcome ℤ
outcome = record { token_id = "t"; name = "side"; team_key = none; last_price = none }

abbrev market : PmMarket ℤ
market = record {
  market_id = "m1";
  question = "Who wins?";
  league = "mlb";
  market_type = MarketType.total;
  line = none;
  line_team_key = none;
  outcome_a = outcome;
  outcome_b = outcome;
  game_start = some 90_000_000_001;
  home_team_key = some "BOS";
  away_team_key = some "NYY";
  accepting_orders = true;
  closed = false;
  resolved_outcome_index = none;
  tick_size = none;
  min_order_size = none;
  liquidity = none;
  taker_fee_rate = none;
}

matches_tuesday :
    match_games day_of (market ∷ []) (monday ∷ tuesday ∷ []) window_36_hours ≡ ("m1", tuesday) ∷ []
unfolding match_games match_one market_pair index_games nearest within_league_window
matches_tuesday = refl

all_matched : unmatched_reasons day_of (market ∷ []) (monday ∷ tuesday ∷ []) window_36_hours ≡ []
unfolding unmatched_reasons match_one market_pair index_games nearest within_league_window
all_matched = refl

match_among_nearest_example :
    Memᴰ tuesday (monday ∷ tuesday ∷ [])
    × (delta : ℕ) × (reach_of day_of "mlb" 90_000_000_001 window_36_hours tuesday ≡ some delta)
    × All (IsNoNearer day_of "mlb" 90_000_000_001 window_36_hours delta) (monday ∷ tuesday ∷ [])
unfolding nearest within_league_window
match_among_nearest_example =
    match_among_nearest day_of "mlb" 90_000_000_001 window_36_hours (monday ∷ tuesday ∷ []) refl

abbrev team : String → PmOutcome ℤ
team key = record { token_id = "t"; name = key; team_key = some key; last_price = none }

abbrev winner_market : PmMarket ℤ
winner_market = record market {
  market_type = MarketType.moneyline;
  outcome_a = team "BOS";
  outcome_b = team "NYY";
}

abbrev quote : String → ℤ → ℤ → BookQuote ℤ
quote bookmaker boston new_york = record {
  bookmaker = bookmaker;
  markets =
      record {
        key = "h2h";
        outcomes =
            record {
              name = "Red Sox";
              team_key = some "BOS";
              price_american = boston;
              point = none;
            }
            ∷ record {
              name = "Yankees";
              team_key = some "NYY";
              price_american = new_york;
              point = none;
            }
            ∷ [];
      }
      ∷ [];
}

over_is_a_side : total_side (record outcome { name = "The Over (45.5)" }) ≡ some "over"
unfolding total_side normalize_name
over_is_a_side = refl

-- The second book's odds are none.
abbrev quotes : List (BookQuote ℤ)
quotes = quote "pinnacle" (pos 100) (negsuc 149) ∷ quote "espn" (pos 50) (pos 50) ∷ []

abbrev fair : FairProb ℤ
fair = record {
  value = decimal 45 2;
  method = "additive";
  n_books = 1;
  books_used = "pinnacle" ∷ [];
  line = none;
  per_book = ("pinnacle", decimal 45 2) ∷ [];
}

prices_boston :
    fair_for_outcome winner_market 0 monday quotes [] "additive" (float 1) ≡ ok (some fair)
unfolding fair_for_outcome collect_samples pair_for_book book_outcomes total_side normalize_name
    quote_prob american_to_prob devig additive_devig validate_probs consensus collect summarise_used
    summarise used_le sort_by ◌+ℤ◌ ◌-ℤ◌
prices_boston = refl

fair_for_outcome_sound_example :
    (0 ≤ 1)
    × (samples : List (String × ℤ)) × AreQuoted winner_market
        (side_at winner_market 0)
        (other_at winner_market 0)
        monday
        "additive"
        quotes
        samples
    × (consensus samples [] (float 1) "additive" none ≡ ok (some fair))
fair_for_outcome_sound_example =
    fair_for_outcome_sound winner_market 0 monday quotes [] "additive" (float 1) prices_boston
