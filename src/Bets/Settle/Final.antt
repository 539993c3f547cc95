-- ===== src/Bets/Settle/Final.antt =====
-- Settlement is final: a bet is settled once, by either operation, and keeps its result.
use sportsbetting.Base.{
  ℕ, suc, ◌+◌, String, ◌≡◌, ◌⊎◌, inl, inr, refl, sym, ap, arith, true, false, Option, none, some,
  List, [], ◌∷◌, ◌==◌, Bool-cases, Option-cases,
}
use sportsbetting.Base.Dict
use sportsbetting.Base.Dict.{Dict}
use sportsbetting.Base.Result.{Result, ok, value_error, ◌>>=◌, >>=-eq-ok, ok_inj}
use sportsbetting.Float.{Float, round}
use sportsbetting.Edge.Types.{PmMarket}
use sportsbetting.Bets.Ledger.{
  Settlement, pending, settled, Bet, MarketRow, Ledger, is_pending, find_bet, put_bet,
}
use sportsbetting.Bets.Settle.{
  prepend, apply_result, pnl_of, settlement_of, settle_bet_manual, verdict, mark_resolved,
  settle_loop, settle_open_bets,
}

module _ {F : Type 0} where
  find_bet-id :
      (id : ℕ) (bets : List (Bet F)) {bet : Bet F} → find_bet id bets ≡ some bet → bet.id ≡ id
  find_bet-id id [] h = cc
  find_bet-id id (b ∷ bets) {bet} h = elim (Bool-cases (b.id == id)) [
    | inl here ↦
        let h' : some b ≡ some bet = rw here at h in
        let same : b.id ≡ id = ground arith in let e : bet ≡ b = cc in rw e same
    | inr there ↦ find_bet-id id bets (rw there at h)
  ]

  find_bet-put_bet :
      (new : Bet F) (bets : List (Bet F)) {bet : Bet F}
      → find_bet new.id bets ≡ some bet
      → find_bet new.id (put_bet new bets) ≡ some new
  find_bet-put_bet new [] h = cc
  find_bet-put_bet new (b ∷ bets) {bet} h = elim (Bool-cases (b.id == new.id)) [
    | inl here ↦ let self : (new.id == new.id) ≡ true = ground arith in rw (here, self) refl
    | inr there ↦
        let h' : find_bet new.id bets ≡ some bet = rw there at h in
        rw (there, there) (find_bet-put_bet new bets h')
  ]

cons_result :
    {A B : Type 0} (m : Result (List A × B × ℕ)) (a : A) {after : List A} {b : B} {total : ℕ}
    → (m >>= prepend a) ≡ ok (after, b, total)
    → (rest : List A) × (m ≡ ok (rest, b, total)) × (after ≡ a ∷ rest)
cons_result (ok (rest, b', n)) a {after} {b} {total} e =
    let e' : (a ∷ rest, b', n) ≡ (after, b, total) = ok_inj e in
    let same_b : b' ≡ b = ap (λ p. p.1) e' in
    let same_n : n ≡ total = ap (λ p. p.2) e' in
    (rest, rw (same_b, same_n) refl, sym (ap (λ p. p.0) e'))
cons_result value_error a e = cc

module _ {F : Type 0} ⦃fl : Float F⦄ where
  -- The books of a bet: open, with no profit and no time of settlement; or settled, with both.
  pub data IsBooked (bet : Bet F) : Type 0 where
    running : bet.status ≡ pending → bet.pnl_usd ≡ none → bet.settled_at ≡ none → IsBooked bet
    closed :
        (result : Settlement) (when : ℕ)
        → bet.status ≡ settled result
        → bet.pnl_usd ≡ some (round (pnl_of result bet.shares bet.stake_usd) 2)
        → bet.settled_at ≡ some when
        → IsBooked bet

  pub apply_result-IsBooked :
      (bet : Bet F) (result : Settlement) (when : ℕ) → IsBooked (apply_result bet result when)
  unfolding apply_result
  apply_result-IsBooked bet result when = IsBooked.closed result when refl refl refl

  -- What a manual settlement needs and does.
  pub settle_bet_manual-inv :
      (ledger : Ledger F) (id : ℕ) (word : String) (now : ℕ) {after : Ledger F}
      → settle_bet_manual ledger id word now ≡ ok after
      → (bet : Bet F) × (result : Settlement) × (find_bet id ledger.bets ≡ some bet)
        × (after.bets ≡ put_bet (apply_result bet result now) ledger.bets)
        × (after.markets ≡ ledger.markets)
  unfolding settle_bet_manual
  settle_bet_manual-inv ledger id word now {after} e =
      elim (Option-cases (find_bet id ledger.bets)) [
        | inl nothing ↦ let e' : value_error ≡ ok after = rw (nothing, settle_bet_manual) at e in cc
        | inr (bet, found) ↦ elim (Option-cases (settlement_of word)) [
          | inl no_word ↦
              let e' : value_error ≡ ok after = rw (found, no_word, settle_bet_manual) at e in cc
          | inr (result, is_word) ↦ elim (Bool-cases (is_pending bet.status)) [
            | inr over ↦
                let e' : value_error ≡ ok after =
                  rw (found, is_word, over, settle_bet_manual) at e in
                cc
            | inl waiting ↦
                let new : Ledger F = record {
                  bets = put_bet (apply_result bet result now) ledger.bets;
                  markets = ledger.markets;
                } in
                let e' : ok new ≡ ok after = rw (found, is_word, waiting, settle_bet_manual) at e in
                let same : after ≡ new = cc in
                (bet, result, found, ap (λ l. l.bets) same, ap (λ l. l.markets) same)
          ]
        ]
      ]

  -- A bet that was settled by hand cannot be settled by hand again, whatever the result asked for.
  settle_bet_manual_once :
      (ledger : Ledger F) (id : ℕ) (word : String) (now : ℕ) {after : Ledger F} (again : String)
      (later : ℕ)
      → settle_bet_manual ledger id word now ≡ ok after
      → settle_bet_manual after id again later ≡ value_error
  unfolding settle_bet_manual apply_result
  settle_bet_manual_once ledger id word now {after} again later e =
      let (bet, result, found, written, _) = settle_bet_manual-inv ledger id word now e in
      let same : bet.id ≡ id = find_bet-id id ledger.bets found in
      let found' : find_bet bet.id ledger.bets ≡ some bet = rw same found in
      let there = find_bet-put_bet (apply_result bet result now) ledger.bets found' in
      let there' : find_bet id after.bets ≡ some (apply_result bet result now) =
        rw (written, ← same) there in
      elim (Option-cases (settlement_of again)) [
        | inl no_word ↦ rw (there', no_word, settle_bet_manual) refl
        | inr (other, is_word) ↦ rw (there', is_word, settle_bet_manual) refl
      ]

  -- A run of the loop, bet by bet: it passes over a bet that is settled or has no verdict, and
  -- grades one that is open by the verdict on its market; the number counts the graded ones.
  pub data IsRun (feed : Dict (PmMarket F)) (when : ℕ)
      : List (Bet F) → List (Bet F) → ℕ → Type 0 where
    finished : IsRun feed when [] [] 0
    passed :
        {bet : Bet F} {bets after : List (Bet F)} {n : ℕ}
        → is_pending bet.status ≡ false ⊎ verdict (Dict.get bet.market_id feed) bet.token ≡ ok none
        → IsRun feed when bets after n
        → IsRun feed when (bet ∷ bets) (bet ∷ after) n
    graded :
        {bet : Bet F} {bets after : List (Bet F)} {n : ℕ} (result : Settlement)
        (letter : Option String)
        → is_pending bet.status ≡ true
        → verdict (Dict.get bet.market_id feed) bet.token ≡ ok (some (result, letter))
        → IsRun feed when bets after n
        → IsRun feed when (bet ∷ bets) (apply_result bet result when ∷ after) (suc n)

  run_eq :
      {feed : Dict (PmMarket F)} {when m n : ℕ} {bets x y : List (Bet F)}
      → x ≡ y
      → n ≡ m
      → IsRun feed when bets y m
      → IsRun feed when bets x n
  run_eq h k run = rw (h, k) run

  run_of :
      {feed : Dict (PmMarket F)} {when n : ℕ} {bets x y : List (Bet F)}
      → x ≡ y
      → IsRun feed when bets y n
      → IsRun feed when bets x n
  run_of h run = rw h run

  settle_loop-IsRun :
      (feed : Dict (PmMarket F)) (when : ℕ) (bets : List (Bet F)) (rows : Dict MarketRow)
      (count : ℕ) {after : List (Bet F)} {rows' : Dict MarketRow} {total : ℕ}
      → settle_loop feed when bets rows count ≡ ok (after, rows', total)
      → (n : ℕ) × (total ≡ count + n) × IsRun feed when bets after n
  unfolding settle_loop
  settle_loop-IsRun feed when [] rows count {after} {rows'} {total} e =
      let e' : ([], rows, count) ≡ (after, rows', total) = ok_inj e in
      let n_eq : count ≡ total = ap (λ p. p.2) e' in
      (0, omega (arith, n_eq), run_of (sym (ap (λ p. p.0) e')) IsRun.finished)
  settle_loop-IsRun feed when (bet ∷ bets) rows count {after} {rows'} {total} e =
      elim (Bool-cases (is_pending bet.status)) [
        | inr over ↦
            let (rest, r, same) =
              cons_result (settle_loop feed when bets rows count) bet
                (rw (over, settle_loop) at e) in
            let (n, n_eq, run) = settle_loop-IsRun feed when bets rows count r in
            (n, n_eq, run_of same (IsRun.passed (inl over) run))
        | inl waiting ↦
            let (found, v, e') =
              >>=-eq-ok (verdict (Dict.get bet.market_id feed) bet.token) _
                (rw (waiting, settle_loop) at e) in
            elim (Option-cases found) [
              | inl nothing ↦
                  let (rest, r, same) =
                    cons_result (settle_loop feed when bets rows count) bet (rw nothing at e') in
                  let (n, n_eq, run) = settle_loop-IsRun feed when bets rows count r in
                  (n, n_eq, run_of same (IsRun.passed (inr (rw nothing at v)) run))
              | inr ((result, letter), is_some) ↦
                  let rows₁ = mark_resolved bet.market_id letter rows in
                  let (rest, r, same) =
                    cons_result (settle_loop feed when bets rows₁ (suc count))
                      (apply_result bet result when) (rw is_some at e') in
                  let (n, n_eq, run) = settle_loop-IsRun feed when bets rows₁ (suc count) r in
                  (
                    suc n,
                    omega (arith, n_eq),
                    run_of same (IsRun.graded result letter waiting (rw is_some at v) run),
                  )
            ]
      ]

  pub settle_open_bets-IsRun :
      (ledger : Ledger F) (feed : Dict (PmMarket F)) (now : ℕ) {after : Ledger F} {n : ℕ}
      → settle_open_bets ledger feed now ≡ ok (after, n)
      → IsRun feed now ledger.bets after.bets n
  unfolding settle_open_bets
  settle_open_bets-IsRun ledger feed now {after} {n} e =
      let ((bets, rows, total), r, e') =
        >>=-eq-ok (settle_loop feed now ledger.bets ledger.markets 0) _ e in
      let (m, m_eq, run) = settle_loop-IsRun feed now ledger.bets ledger.markets 0 r in
      let same : (record { bets = bets; markets = rows }, total) ≡ (after, n) = ok_inj e' in
      run_eq (sym (ap (λ p. p.0.bets) same)) (ground (arith, ap (λ p. p.1) same, m_eq)) run

  rerun :
      (feed : Dict (PmMarket F)) (when later : ℕ) {bets after : List (Bet F)} {n : ℕ}
      → IsRun feed when bets after n
      → (rows : Dict MarketRow) → settle_loop feed later after rows 0 ≡ ok (after, rows, 0)
  unfolding settle_loop apply_result
  rerun feed when later IsRun.finished rows = refl
  rerun feed when later (IsRun.passed {bet} {bets} {after} why run) rows =
      let rest = rerun feed when later run rows in
      elim why [
        | inl over ↦ rw (over, settle_loop) (rw rest refl)
        | inr undecided ↦ elim (Bool-cases (is_pending bet.status)) [
          | inl waiting ↦ rw (waiting, undecided, settle_loop) (rw rest refl)
          | inr over ↦ rw (over, settle_loop) (rw rest refl)
        ]
      ]
  rerun feed when later (IsRun.graded result letter waiting v run) rows =
      rw (rerun feed when later run rows) refl

  -- Settling again with the same feed, at any later time, settles nothing and changes nothing.
  pub settle_open_bets_idempotent :
      (ledger : Ledger F) (feed : Dict (PmMarket F)) (now later : ℕ) {after : Ledger F} {n : ℕ}
      → settle_open_bets ledger feed now ≡ ok (after, n)
      → settle_open_bets after feed later ≡ ok (after, 0)
  unfolding settle_open_bets
  settle_open_bets_idempotent ledger feed now later {after} {n} e =
      rw (rerun feed now later (settle_open_bets-IsRun ledger feed now e) after.markets) refl
