-- ===== src/Backtest/Harvest/Unique.antt =====
-- A harvest stores no side of a market twice and leaves the rows on file as they are.
use mathlib.Core.List.{append_assoc, append-nil}
use sportsbetting.Base.{
  ℕ, ◌≡◌, inl, inr, refl, sym, arith, String, true, false, ◌&&◌, Option, none, some, List, [], ◌∷◌,
  ◌++◌, str_eq, Bool-cases, Option-cases, All, ltb, leb, ◌-◌,
}
use sportsbetting.Float.{Float}
use sportsbetting.Backtest.Sample.{Sample, Trade, Event}
use sportsbetting.Backtest.Close.{closing_trade}
use sportsbetting.Backtest.Fetch.{
  Answer, rows, no_list, failed, fetch_trades, Yield, iter_resolved_markets,
}
use sportsbetting.Backtest.Harvest.{
  Harvest, has_market, Turn, next, returned, raised, and_then, commit, sample_of, samples_of,
  autocommit, stop_at, commit_every, stored_enough, seen, count_stored, store_market, visit,
  visit_all, end_pages, visit_league, visit_leagues, start_harvest, finish_harvest, harvest,
}
use sportsbetting.Backtest.Harvest.Extension.{
  known_first, known_after, IsDistinct, ids, stored_rows, state_of, IsExtension, All-map, extend,
  keep, learn,
}

module _ {F : Type 0} ⦃fl : Float F⦄ where
  samples_of-own :
      (league : String) (y : Yield F) (trades : List (Option (Trade F)))
      → All (λ s. s.market_id ≡ y.1.id) (samples_of league y trades)
        × IsDistinct (samples_of league y trades)
  unfolding samples_of
  samples_of-own league (title, market, winner, kickoff) trades =
      elim (Option-cases (closing_trade trades 0 kickoff)) [
        | inl none₀ ↦ elim (Option-cases (closing_trade trades 1 kickoff)) [
          | inl none₁ ↦ rw (none₀, none₁, sample_of) (tt, tt)
          | inr (t₁, some₁) ↦ rw (none₀, some₁, sample_of) ((refl, tt), (tt, tt))
        ]
        | inr (t₀, some₀) ↦ elim (Option-cases (closing_trade trades 1 kickoff)) [
          | inl none₁ ↦ rw (some₀, none₁, sample_of) ((refl, tt), (tt, tt))
          | inr (t₁, some₁) ↦
              rw (some₀, some₁, sample_of) ((refl, (refl, tt)), ((inr (omega arith), tt), (tt, tt)))
        ]
      ]

  commit-rows : (h : Harvest F) → stored_rows (commit h) ≡ stored_rows h
  commit-rows h = append-nil (h.committed ++ h.added)

  autocommit-keeps :
      (h : Harvest F) {table : List (Sample F)}
      → IsExtension table h
      → IsExtension table (autocommit h)
  autocommit-keeps h x =
      elim (Bool-cases
        (ltb 0 h.stats.stored && leb commit_every (h.stats.stored - h.last_commit))) [
          | inl full ↦ rw full (keep (commit-rows h) refl x)
          | inr few ↦ rw few x
        ]

  stop_at-keeps :
      (limit : Option ℕ) (h : Harvest F) {table : List (Sample F)}
      → IsExtension table h
      → IsExtension table (state_of (stop_at limit h))
  stop_at-keeps limit h x = elim (Bool-cases (stored_enough limit h.stats.stored)) [
    | inl full ↦ rw full (keep (commit-rows h) refl x)
    | inr few ↦ rw few x
  ]

  store_market-keeps :
      (league : String) (limit : Option ℕ) (y : Yield F) (answer : Answer (Option (Trade F)))
      (h : Harvest F) {table : List (Sample F)}
      → has_market y.1.id h.known ≡ false
      → IsExtension table h
      → IsExtension table (state_of (store_market league limit y answer h))
  unfolding store_market
  store_market-keeps league limit y (failed status) h out x = x
  store_market-keeps league limit y no_list h out x = learn y.1.id refl refl x
  store_market-keeps league limit y (rows []) h out x = learn y.1.id refl refl x
  store_market-keeps league limit y (rows (trade ∷ trades)) h {table} out x =
      let found = samples_of league y (trade ∷ trades) in
      let (own, apart) = samples_of-own league y (trade ∷ trades) in
      let h' : Harvest F = record h {
        stats = count_stored found h.stats;
        known = y.1.id ∷ h.known;
        added = h.added ++ found;
      } in
      stop_at-keeps limit (autocommit h') (
        autocommit-keeps h' (
          extend y.1.id found own apart table out (sym (append_assoc h.committed h.added found))
            refl x))

  and_then-keeps :
      {table : List (Sample F)} (turn : Turn F) (rest : Harvest F → Turn F)
      → IsExtension table (state_of turn)
      → ((h : Harvest F) → IsExtension table h → IsExtension table (state_of (rest h)))
      → IsExtension table (state_of (and_then turn rest))
  and_then-keeps (next h) rest x keeps = keeps h x
  and_then-keeps (returned h) rest x keeps = x
  and_then-keeps (raised h) rest x keeps = x

  end_pages-keeps :
      {table : List (Sample F)} (end : Option ℕ) (turn : Turn F)
      → IsExtension table (state_of turn)
      → IsExtension table (state_of (end_pages end turn))
  end_pages-keeps none turn x = x
  end_pages-keeps (some status) (next h) x = x
  end_pages-keeps (some status) (returned h) x = x
  end_pages-keeps (some status) (raised h) x = x

  finish_harvest-keeps :
      {table : List (Sample F)} (turn : Turn F)
      → IsExtension table (state_of turn)
      → IsExtension table (state_of (finish_harvest turn))
  finish_harvest-keeps (next h) x = keep (commit-rows h) refl x
  finish_harvest-keeps (returned h) x = x
  finish_harvest-keeps (raised h) x = x

  each_known :
      (table : List (Sample F)) → All (λ s. has_market s.market_id (ids table) ≡ true) table
  each_known [] = tt
  each_known (s ∷ ss) = (
    known_first s.market_id (ids ss),
    All-map (λ t on. known_after s.market_id t.market_id (ids ss) on) ss (each_known ss),
  )

  start-IsExtension :
      (table : List (Sample F)) → IsDistinct table → IsExtension table (start_harvest table)
  start-IsExtension table d = record {
    fresh = [];
    rows_eq = refl;
    distinct = rw (append-nil table) d;
    covered = rw (append-nil table) (each_known table);
    unknown = tt;
    grows = λ i on. on;
  }

  module _ (network : String → ℕ → Answer (Option (Trade F))) where
    visit-keeps :
        (league : String) (limit : Option ℕ) (y : Yield F) (h : Harvest F) {table : List (Sample F)}
        → IsExtension table h
        → IsExtension table (state_of (visit network league limit y h))
    unfolding visit
    visit-keeps league limit y h₀ x =
        let h : Harvest F = record h₀ { stats = seen h₀.stats } in
        let x' : IsExtension _ h = keep refl refl x in
        elim (Bool-cases (str_eq y.1.id "")) [
          | inl empty ↦ rw empty x'
          | inr named ↦ elim (Bool-cases (has_market y.1.id h₀.known)) [
            | inl on ↦ rw (named, on) (keep refl refl x)
            | inr out ↦ elim (Bool-cases (str_eq y.1.condition_id "")) [
              | inl empty ↦ rw (named, out, empty) x'
              | inr asked ↦
                  rw (named, out, asked)
                    (store_market-keeps league limit y (fetch_trades (network y.1.condition_id)).0 h
                      out x')
            ]
          ]
        ]

    visit_all-keeps :
        (league : String) (limit : Option ℕ) (ys : List (Yield F)) (h : Harvest F)
        {table : List (Sample F)}
        → IsExtension table h
        → IsExtension table (state_of (visit_all network league limit ys h))
    unfolding visit_all
    visit_all-keeps league limit [] h x = x
    visit_all-keeps league limit (y ∷ ys) h {table} x =
        and_then-keeps (visit network league limit y h) (visit_all network league limit ys)
          (visit-keeps league limit y h x) (λ h' x'. visit_all-keeps league limit ys h' x')

    module _ (pages : String → ℕ → Answer (Event F)) (max_pages : ℕ) (since limit : Option ℕ) where
      visit_league-keeps :
          (league : String) (h : Harvest F) {table : List (Sample F)}
          → IsExtension table h
          → IsExtension table (state_of (visit_league network pages max_pages since limit league h))
      unfolding visit_league
      visit_league-keeps league h x =
          let found = iter_resolved_markets since (pages league) max_pages in
          end_pages-keeps found.1 (visit_all network league limit found.0 h)
            (visit_all-keeps league limit found.0 h x)

      visit_leagues-keeps :
          (leagues : List String) (h : Harvest F) {table : List (Sample F)}
          → IsExtension table h
          → IsExtension table
              (state_of (visit_leagues network pages max_pages since limit leagues h))
      unfolding visit_leagues
      visit_leagues-keeps [] h x = x
      visit_leagues-keeps (league ∷ leagues) h x =
          and_then-keeps (visit_league network pages max_pages since limit league h)
            (visit_leagues network pages max_pages since limit leagues)
            (visit_league-keeps league h x) (λ h' x'. visit_leagues-keeps leagues h' x')

      -- Whatever the feeds answer, and also where a request fails, a harvest over a table without
      -- repetitions leaves the rows on file in place and puts behind them rows of other markets only,
      -- no two of them for one side of one market.
      pub harvest-IsExtension :
          (leagues : List String) (table : List (Sample F))
          → IsDistinct table
          → IsExtension table (state_of (harvest network pages max_pages since limit leagues table))
      unfolding harvest
      harvest-IsExtension leagues table d =
          finish_harvest-keeps
            (visit_leagues network pages max_pages since limit leagues (start_harvest table))
            (visit_leagues-keeps leagues (start_harvest table) (start-IsExtension table d))
