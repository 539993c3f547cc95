-- ===== src/Backtest/Harvest.antt =====
-- `harvest` of app/services/backtest.py as a machine over its variables and the table: `committed` are
-- the durable rows, `added` those of the open transaction.
pub mod Extension
pub mod Unique
use sportsbetting.Base.{
  ℕ, suc, ◌+◌, ◌-◌, String, Bool, true, false, not, ◌&&◌, ◌||◌, Option, none, some, List, [], ◌∷◌,
  ◌++◌, map, str_eq, ltb, leb, ◌==◌, get_elem?, any, length, if◌then◌else◌,
}
use sportsbetting.Float.{Float, float, ◌⊘◌, round}
use sportsbetting.Backtest.Sample.{Sample, Trade, GammaMarket, Event}
use sportsbetting.Backtest.Close.{closing_trade}
use sportsbetting.Backtest.Fetch.{
  Answer, rows, no_list, failed, fetch_trades, Yield, iter_resolved_markets,
}

-- `HarvestStats`
pub record Stats : Type 0 where
  pub events : ℕ
  pub markets_seen : ℕ
  pub resolved : ℕ
  pub stored : ℕ
  pub skipped_no_trades : ℕ
  pub skipped_existing : ℕ

abbrev pub no_stats : Stats
no_stats = record {
  events = 0;
  markets_seen = 0;
  resolved = 0;
  stored = 0;
  skipped_no_trades = 0;
  skipped_existing = 0;
}

pub record Harvest (F : Type 0) : Type 0 where
  pub stats : Stats
  pub last_commit : ℕ
  pub known : List String
  pub committed : List (Sample F)
  pub added : List (Sample F)

-- `COMMIT_EVERY`
abbrev pub commit_every : ℕ
commit_every = 50

abbrev pub has_market : String → List String → Bool
has_market id known = any (λ k. str_eq k id) known

abbrev pub stored_enough : Option ℕ → ℕ → Bool
stored_enough none stored = false
stored_enough (some limit) stored = leb limit stored

-- How a turn of the loop ends: with the next one, with `return stats`, or with an exception.
pub data Turn (F : Type 0) : Type 0 where
  next : Harvest F → Turn F
  returned : Harvest F → Turn F
  raised : Harvest F → Turn F

abbrev name_at : List String → ℕ → String
name_at names index = elim (get_elem? names index) [ none ↦ "" | some name ↦ name ]

abbrev question_of : String → String → String
question_of question title = if str_eq question "" then title else question

abbrev seen : Stats → Stats
seen s = record s { markets_seen = s.markets_seen + 1; resolved = s.resolved + 1 }

abbrev skip_existing : Stats → Stats
skip_existing s = record s { skipped_existing = s.skipped_existing + 1 }

abbrev skip_no_trades : Stats → Stats
skip_no_trades s = record s { skipped_no_trades = s.skipped_no_trades + 1 }

abbrev pub and_then : {F : Type 0} → Turn F → (Harvest F → Turn F) → Turn F
and_then (next h) rest = rest h
and_then (returned h) rest = returned h
and_then (raised h) rest = raised h

module _ {F : Type 0} ⦃fl : Float F⦄ where
  abbrev pub commit : Harvest F → Harvest F
  commit h = record h { committed = h.committed ++ h.added; added = [] }

  -- `(kickoff - when).total_seconds() / 3600.0`, to three places; `when` is before the kickoff.
  abbrev age_hours : ℕ → ℕ → F
  age_hours kickoff when = round (float (kickoff - when) ⊘ float 1_000_000 ⊘ float 3600) 3

  abbrev pub start_harvest : List (Sample F) → Harvest F
  start_harvest table = record {
    stats = no_stats;
    last_commit = 0;
    known = map (λ s. s.market_id) table;
    committed = table;
    added = [];
  }

  -- The last commit.
  abbrev pub finish_harvest : Turn F → Turn F
  finish_harvest (next h) = returned (commit h)
  finish_harvest (returned h) = returned h
  finish_harvest (raised h) = raised h

  -- `stored` for each row of a market; a market without rows counts as one without trades.
  abbrev pub count_stored : List (Sample F) → Stats → Stats
  count_stored [] s = skip_no_trades s
  count_stored (x ∷ xs) s = record s { stored = s.stored + length (x ∷ xs) }

  -- One side of a market: its row, if it traded before kickoff.
  unfoldable pub sample_of : String → Yield F → List (Option (Trade F)) → ℕ → List (Sample F)
  sample_of league (title, market, winner, kickoff) trades index =
      elim (closing_trade trades index kickoff) [
        | none ↦ []
        | some (price, when, n_pre) ↦
            record {
              market_id = market.id;
              condition_id = market.condition_id;
              league = league;
              market_type = market.sports_market_type;
              line = market.line;
              question = question_of market.question title;
              outcome_index = index;
              outcome_name = name_at market.outcomes index;
              game_start = some kickoff;
              close_price = price;
              close_trade_at = when;
              close_age_hours = some (age_hours kickoff when);
              n_trades_pre = n_pre;
              won = index == winner;
            }
            ∷ []
      ]

  -- The market's rows, once its trades are there.
  unfoldable pub samples_of : String → Yield F → List (Option (Trade F)) → List (Sample F)
  unfolding sample_of
  samples_of league y trades = sample_of league y trades 0 ++ sample_of league y trades 1

  -- The commit of every fifty rows or more.
  abbrev pub autocommit : Harvest F → Harvest F
  autocommit h =
      if ltb 0 h.stats.stored && leb commit_every (h.stats.stored - h.last_commit)
      then commit (record h { last_commit = h.stats.stored })
      else h

  abbrev pub stop_at : Option ℕ → Harvest F → Turn F
  stop_at limit h = if stored_enough limit h.stats.stored then returned (commit h) else next h

  -- The commits at the end of a turn, and the limit.
  unfoldable pub settle_turn : Option ℕ → Harvest F → Turn F
  settle_turn limit h = stop_at limit (autocommit h)

  -- The tail of a turn, once the trades of the market are asked for.
  unfoldable pub store_market :
      String → Option ℕ → Yield F → Answer (Option (Trade F)) → Harvest F → Turn F
  unfolding settle_turn
  store_market league limit y (failed status) h = raised h
  store_market league limit y no_list h =
      next (record h { stats = skip_no_trades h.stats; known = y.1.id ∷ h.known })
  store_market league limit y (rows []) h =
      next (record h { stats = skip_no_trades h.stats; known = y.1.id ∷ h.known })
  store_market league limit y (rows (trade ∷ trades)) h =
      let found = samples_of league y (trade ∷ trades) in
      settle_turn limit (record h {
        stats = count_stored found h.stats;
        known = y.1.id ∷ h.known;
        added = h.added ++ found;
      })

  abbrev pub end_pages : Option ℕ → Turn F → Turn F
  end_pages (some status) (next h) = raised h
  end_pages none turn = turn
  end_pages (some status) (returned h) = returned h
  end_pages (some status) (raised h) = raised h

  module _ (network : String → ℕ → Answer (Option (Trade F))) where
    unfoldable pub visit : String → Option ℕ → Yield F → Harvest F → Turn F
    unfolding store_market
    visit league limit y h₀ =
        let h = record h₀ { stats = seen h₀.stats } in
        if str_eq y.1.id ""
        then next h
        else if has_market y.1.id h.known
        then next (record h { stats = skip_existing h.stats })
        else if str_eq y.1.condition_id ""
        then next h
        else store_market league limit y (fetch_trades (network y.1.condition_id)).0 h

    unfoldable pub visit_all : String → Option ℕ → List (Yield F) → Harvest F → Turn F
    visit_all league limit [] h = next h
    visit_all league limit (y ∷ ys) h =
        and_then (visit league limit y h) (visit_all league limit ys)

    module _ (pages : String → ℕ → Answer (Event F)) (max_pages : ℕ) (since limit : Option ℕ) where
      unfoldable pub visit_league : String → Harvest F → Turn F
      unfolding visit_all
      visit_league league h =
          let (ys, end) = iter_resolved_markets since (pages league) max_pages in
          end_pages end (visit_all league limit ys h)

      unfoldable pub visit_leagues : List String → Harvest F → Turn F
      visit_leagues [] h = next h
      visit_leagues (league ∷ leagues) h = and_then (visit_league league h) (visit_leagues leagues)

      -- The rows on file at the start are all committed. An exception leaves the open transaction.
      unfoldable pub harvest : List String → List (Sample F) → Turn F
      unfolding visit_leagues
      harvest leagues table = finish_harvest (visit_leagues leagues (start_harvest table))
