-- ===== src/Lib.antt =====
-- A model of the pricing core, the bet ledger, the login and the history tests of a sports-betting
-- edge finder, with the theorems that they are meant to satisfy.
--
-- The program compares share prices of a prediction market with the de-vigged prices of
-- bookmakers. Bookmakers' odds become probabilities, the bookmaker's margin is taken out, and a
-- weighted mean over the books is the fair probability. An outcome whose cheapest share costs less
-- than that, fee included, is an opportunity; its stake follows Kelly's rule, capped by the
-- bankroll's limits and by the depth of the order book. Bets are logged from opportunities and
-- settled by hand or from the resolved markets. One password guards the site. A back test harvests
-- resolved markets into a table of samples, a bake-off scores betting rules over that table, and a
-- forward test records every outcome that can be priced and grades it when its market resolves.
--
-- Base: the shared library. Dict is a Python dict with text keys, Result a call that may raise
--   ValueError, Sort a stable sort by a key, Group rows gathered by a key, Text the order of texts, Words strip and
--   lower on ASCII, Int the signed integers.
-- Float: Python's float as a type F with the operations of the program. Laws holds the facts of
--   IEEE 754 arithmetic on finite doubles that the proofs use, as named hypotheses; Fixed is an
--   arithmetic that satisfies them and computes, for the concrete instances.
-- Odds: app/core/odds_math.py. Convert has american_to_prob, prob_to_american and decimal_to_prob,
--   Bisect _bisect, Devig the four methods and devig, Consensus consensus.
-- Edge: app/core/edge.py and app/core/clv.py. Types has the records of app/core/types.py, Value the
--   fees, Kelly's fraction and stake_for, Ladder walk_asks and edge_clearing_depth, Plan plan_stake
--   and the limit prices, Opportunity build_opportunity and stake_note.
-- Auth: app/routes/auth.py. Limiter is LoginLimiter with its two dicts as state, Login the handler
--   login_submit.
-- Bets: app/services/bets.py on the rows of app/models.py. Ledger is the two tables, Create has
--   create_bet, Settle settle_bet_manual and settle_open_bets, Summary ledger_summary; Settle/Verdict
--   and Settle/Graded describe a settlement without that code; Reach is the
--   relation of the ledgers that these operations can produce.
-- Matching: app/core/matching.py. Match goes from the index of the games to match_games and
--   unmatched_reasons, Names has normalize_name, Fair the pairing of the sides and fair_for_outcome; Fair/Sides
--   describes the two sides of a bet without that code.
--   The calendar day in US Eastern time is a parameter.
-- Backtest: app/services/backtest.py. Sample has HistoricalSample and the decoded rows of the feeds,
--   Close resolved_index and closing_trade, Fetch the paging and the backoff, Harvest the harvest as
--   a machine over its variables and the open transaction, Report the bands and paired_only. The
--   network is a function of the request; the decoding of its JSON is not modelled.
-- Strategies: app/services/strategies.py. Rules has the costs and the rules, Score the scores and
--   bakeoff, Null shuffled_wins and permutation_null, Split split_by_date, Run run and pick_table.
--   The generator is a parameter: a shuffle that keeps the length and the number of winners; so are
--   math.erf and the text of a time.
-- Forward: app/services/forward.py. Record has ForwardSample and record_sample, Grade settle and
--   pending_market_ids, Closing capture_closing, Report the report by thresholds.
-- Wallet: app/services/wallet_import.py. Fill has parse_fill and group_fills, Import fair_at and
--   import_fills, which reads the import keys of the ledger and returns the bets that it adds.
-- Scheduler: app/services/scheduler.py. Each call of scan_job is a thread with a phase, the lock is
--   shared, and a schedule is the order in which the threads move; Lock has what holds of all schedules.
-- Transport: app/clients/transport.py, the retry loop and the dispatch of the fixtures. The HTTP
--   library is a function of the attempt.
--
-- State is passed explicitly: an operation takes the state and returns the new one, and an
-- operation that raises changes nothing unless its result type says what it leaves (Recorded of
-- the limiter). A datetime is its instant as a natural number; the limiter's clock counts whole
-- nanoseconds, and each reading of it is an argument. The lock of the limiter and the commit of a
-- session make each method one step. Loops over sequences are structural recursion; the bisection
-- runs 200 rounds, the bound of the source, and needs no further fuel. The loop over the pages and
-- that over the repetitions count down the number that the source gives them.
--
-- NaN, infinities and overflow of floats are outside the model. Texts of messages and log lines are
-- not kept; mode and result of a bet are the words after strip and lower. Not modelled: the
-- network clients, the storage, the pages, the text tables of the reports, the tables of team
-- names, the scan and the import of the other exchange.
pub mod Base
pub mod Float
pub mod Odds
pub mod Edge
pub mod Auth
pub mod Bets
pub mod Matching
pub mod Backtest
pub mod Strategies
pub mod Forward
pub mod Wallet
pub mod Scheduler
pub mod Transport
