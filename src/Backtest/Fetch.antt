-- ===== src/Backtest/Fetch.antt =====
-- `_fetch_trades` and `iter_resolved_markets` of app/services/backtest.py. The network is a function of
-- the request: `answers n` is what the n-th call for the trades of a market gives.
pub mod Backoff
use sportsbetting.Base.{
  ℕ, suc, ◌+◌, String, Bool, true, false, not, ◌||◌, Option, none, some, List, [], ◌∷◌, ◌++◌,
  str_eq, if◌then◌else◌, ltb, zero, ◌==◌,
}
use sportsbetting.Float.{Float}
use sportsbetting.Backtest.Sample.{Trade, GammaMarket, Event}
use sportsbetting.Backtest.Close.{resolved_index}

-- What one request came to: rows, a body that is no list, or an exception with its HTTP status.
pub data Answer (A : Type 0) : Type 0 where
  rows : List A → Answer A
  no_list : Answer A
  failed : ℕ → Answer A

-- `_is_rate_limited`
abbrev pub is_rate_limited : {A : Type 0} → Answer A → Bool
is_rate_limited (rows xs) = false
is_rate_limited no_list = false
is_rate_limited (failed status) = status == 429

-- `RATE_LIMIT_BACKOFF_S`
abbrev pub rate_limit_backoff_s : List ℕ
rate_limit_backoff_s = 5 ∷ 20 ∷ 60 ∷ []

module _ {A : Type 0} (answers : ℕ → Answer A) where
  -- The loop over the delays: the answer, the calls made and the seconds slept.
  unfoldable pub fetch_loop : List ℕ → ℕ → ℕ → Answer A × ℕ × ℕ
  fetch_loop [] calls slept = (answers calls, suc calls, slept)
  fetch_loop (delay ∷ delays) calls slept = elim (is_rate_limited (answers calls)) [
    | true ↦ fetch_loop delays (suc calls) (slept + delay)
    | false ↦ (answers calls, suc calls, slept)
  ]

  unfoldable pub fetch_trades : Answer A × ℕ × ℕ
  unfolding fetch_loop
  fetch_trades = fetch_loop rate_limit_backoff_s 0 0

-- `GAME_MARKET_TYPES`
abbrev pub is_game_market : String → Bool
is_game_market kind = str_eq kind "moneyline" || str_eq kind "spreads" || str_eq kind "totals"

-- `since is not None and kickoff < since`
abbrev pub is_before : Option ℕ → ℕ → Bool
is_before none kickoff = false
is_before (some since) kickoff = ltb kickoff since

-- What is yielded: the event's title, the market, the winner and the kickoff.
abbrev pub Yield : Type 0 → Type 0
Yield F = String × GammaMarket F × ℕ × ℕ

abbrev put_before : {A B : Type 0} → List A → List A × B → List A × B
put_before first (rest, end) = (first ++ rest, end)

module _ {F : Type 0} ⦃fl : Float F⦄ (since : Option ℕ) where
  abbrev at_kickoff : String → GammaMarket F → Option ℕ → Option ℕ → List (Yield F)
  at_kickoff title market none winner = []
  at_kickoff title market (some kickoff) none = []
  at_kickoff title market (some kickoff) (some winner) =
      if is_before since kickoff then [] else (title, market, winner, kickoff) ∷ []

  -- The guards on one market.
  unfoldable pub resolved_market : String → GammaMarket F → List (Yield F)
  unfolding resolved_index
  resolved_market title market =
      if not (is_game_market market.sports_market_type) || not market.closed
      then []
      else at_kickoff title market market.game_start_time (resolved_index market.outcome_prices)

  unfoldable pub resolved_in : String → List (GammaMarket F) → List (Yield F)
  unfolding resolved_market
  resolved_in title [] = []
  resolved_in title (market ∷ markets) = resolved_market title market ++ resolved_in title markets

  unfoldable pub resolved_events : List (Event F) → List (Yield F)
  unfolding resolved_in
  resolved_events [] = []
  resolved_events (event ∷ events) = resolved_in event.title event.markets ++ resolved_events events

  -- The pages from `page` on, `left` of them at most; a page that is no list or is empty ends it. A
  -- request that fails ends it with the exception, here its status.
  unfoldable pub pages_from : (ℕ → Answer (Event F)) → ℕ → ℕ → List (Yield F) × Option ℕ
  unfolding resolved_events
  pages_from pages page zero = ([], none)
  pages_from pages page (suc left) = elim (pages page) [
    | rows [] ↦ ([], none)
    | rows (event ∷ events) ↦
        put_before (resolved_events (event ∷ events)) (pages_from pages (suc page) left)
    | no_list ↦ ([], none)
    | failed status ↦ ([], some status)
  ]

  unfoldable pub iter_resolved_markets : (ℕ → Answer (Event F)) → ℕ → List (Yield F) × Option ℕ
  unfolding pages_from
  iter_resolved_markets pages max_pages = pages_from pages 0 max_pages
