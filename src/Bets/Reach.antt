-- ===== src/Bets/Reach.antt =====
-- The ledgers that the operations can reach, and the books that they keep.
use sportsbetting.Base.{
  ℕ, ◌≡◌, String, Option, List, [], ◌∷◌, All, All-append, Bool-cases, inl, inr, ◌==◌,
}
use sportsbetting.Base.Dict.{Dict}
use sportsbetting.Base.Result.{ok}
use sportsbetting.Float.{Float}
use sportsbetting.Edge.Types.{PmMarket}
use sportsbetting.Bets.Ledger.{Bet, MarketRow, Ledger, put_bet}
use sportsbetting.Bets.Create.{OpportunityRow, QuoteRow, create_bet}
use sportsbetting.Bets.Create.Sound.{create_bet_sound}
use sportsbetting.Bets.Settle.{apply_result, settle_bet_manual, settle_open_bets}
use sportsbetting.Bets.Settle.Final.{
  IsBooked, apply_result-IsBooked, settle_bet_manual-inv, IsRun, settle_open_bets-IsRun,
}

module _ {F : Type 0} ⦃fl : Float F⦄ where
  -- A ledger without bets, and what the three operations make of a ledger. A market row may change
  -- at any time: the scan writes it.
  pub data IsReachable : Ledger F → Type 0 where
    fresh : (rows : Dict MarketRow) → IsReachable (record { bets = []; markets = rows })
    scanned :
        {ledger : Ledger F} (rows : Dict MarketRow)
        → IsReachable ledger
        → IsReachable (record { bets = ledger.bets; markets = rows })
    logged :
        {ledger after : Ledger F} {bet : Bet F} (opportunities : ℕ → Option (OpportunityRow F))
        (quotes : List (QuoteRow F)) (rate : F) (id opportunity_id : ℕ) (stake price : F)
        (word : String) (now : ℕ)
        → IsReachable ledger
        → create_bet ledger opportunities quotes rate id opportunity_id stake price word now
          ≡ ok (after, bet)
        → IsReachable after
    settled_by_hand :
        {ledger after : Ledger F} (id : ℕ) (word : String) (now : ℕ)
        → IsReachable ledger
        → settle_bet_manual ledger id word now ≡ ok after
        → IsReachable after
    settled_by_scan :
        {ledger after : Ledger F} {n : ℕ} (feed : Dict (PmMarket F)) (now : ℕ)
        → IsReachable ledger
        → settle_open_bets ledger feed now ≡ ok (after, n)
        → IsReachable after

  All-put_bet :
      (P : Bet F → Type 0) (new : Bet F) (bets : List (Bet F))
      → P new
      → All P bets
      → All P (put_bet new bets)
  All-put_bet P new [] p h = tt
  All-put_bet P new (b ∷ bets) p (q, h) = elim (Bool-cases (b.id == new.id)) [
    | inl here ↦ rw here (p, h)
    | inr there ↦ rw there (q, All-put_bet P new bets p h)
  ]

  run-IsBooked :
      {feed : Dict (PmMarket F)} {when n : ℕ} {bets after : List (Bet F)}
      → IsRun feed when bets after n
      → All IsBooked bets
      → All IsBooked after
  run-IsBooked IsRun.finished h = tt
  run-IsBooked (IsRun.passed why run) (p, h) = (p, run-IsBooked run h)
  run-IsBooked {when = when} (IsRun.graded {bet} result letter waiting v run) (p, h) =
      (apply_result-IsBooked bet result when, run-IsBooked run h)

  -- In every ledger that can be reached each bet is booked: while it is open it has no profit and no
  -- time of settlement, and once it is settled it has both, the profit being the one of its result,
  -- its shares and its stake, to the cent.
  pub reachable-IsBooked : {ledger : Ledger F} → IsReachable ledger → All IsBooked ledger.bets
  reachable-IsBooked (IsReachable.fresh rows) = tt
  reachable-IsBooked (IsReachable.scanned rows reach) = reachable-IsBooked reach
  reachable-IsBooked
        (IsReachable.logged {ledger} {after} {bet} opportunities quotes rate id oid stake price word
          now reach e) =
      let (row, _, l) =
        create_bet_sound ledger opportunities quotes rate id oid stake price word now e in
      rw l.bets_eq (
        All-append IsBooked ledger.bets (bet ∷ []) (reachable-IsBooked reach)
          (IsBooked.running l.columns.status_eq l.columns.pnl_eq l.columns.settled_eq, tt))
  reachable-IsBooked (IsReachable.settled_by_hand {ledger} {after} id word now reach e) =
      let (bet, result, _, written, _) = settle_bet_manual-inv ledger id word now e in
      rw written (
        All-put_bet IsBooked (apply_result bet result now) ledger.bets
          (apply_result-IsBooked bet result now) (reachable-IsBooked reach))
  reachable-IsBooked (IsReachable.settled_by_scan {ledger} feed now reach e) =
      run-IsBooked (settle_open_bets-IsRun ledger feed now e) (reachable-IsBooked reach)
