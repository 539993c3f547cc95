-- ===== src/Bets/Settle.antt =====
-- Settlement in app/services/bets.py: `_apply_result`, `is_push`, `settle_bet_manual`,
-- `settle_open_bets`.
pub mod Final
pub mod Verdict
pub mod Graded
use sportsbetting.Base.{
  ℕ, zero, suc, String, Bool, true, false, not, ◌&&◌, ◌||◌, Option, none, some, List, [], ◌∷◌,
  str_eq, if◌then◌else◌,
}
use sportsbetting.Base.Dict
use sportsbetting.Base.Dict.{Dict}
use sportsbetting.Base.Result.{Result, ok, value_error, ◌>>=◌, ◌>>◌, require}
use sportsbetting.Float.{Float, float, decimal, ◌⊖◌, ◌⊗◌, le, lt, abs, neg, round}
use sportsbetting.Edge.Types.{PmMarket, PmOutcome}
use sportsbetting.Bets.Ledger.{
  Settlement, won, lost, void, push, Status, pending, settled, Bet, MarketRow, Ledger, is_pending,
  find_bet, put_bet,
}

-- The argument is the text after `(result or "").strip().lower()`.
abbrev pub settlement_of : String → Option Settlement
settlement_of word =
    if str_eq word "won"
    then some won
    else if str_eq word "lost"
    then some lost
    else if str_eq word "void"
    then some void
    else if str_eq word "push"
    then some push
    else none

-- `RESOLVED_LETTER.get(index)`
abbrev pub resolved_letter : ℕ → Option String
resolved_letter zero = some "a"
resolved_letter (suc zero) = some "b"
resolved_letter (suc (suc n)) = none

abbrev pub graded : Bool → Settlement
graded wins = if wins then won else lost

-- `row.closed = True` and the two lines after it, where the row exists.
abbrev pub mark_resolved : String → Option String → Dict MarketRow → Dict MarketRow
mark_resolved market_id letter rows = elim (Dict.get market_id rows) [
  | none ↦ rows
  | some row ↦
      Dict.set market_id
        (record { closed = true; accepting_orders = false; resolved_outcome = letter }) rows
]

abbrev pub prepend : {A B : Type 0} → A → List A × B × ℕ → Result (List A × B × ℕ)
prepend a (rest, b, n) = ok (a ∷ rest, b, n)

module _ {F : Type 0} ⦃fl : Float F⦄ where
  -- `PUSH_PAYOUT` and `PUSH_PRICE_TOL`.
  abbrev pub push_payout : F
  push_payout = decimal 5 1

  abbrev push_price_tol : F
  push_price_tol = decimal 1 6

  abbrev pub pnl_of : Settlement → F → F → F
  pnl_of won shares stake = shares ⊖ stake
  pnl_of lost shares stake = neg stake
  pnl_of push shares stake = push_payout ⊗ shares ⊖ stake
  pnl_of void shares stake = float 0

  -- `_apply_result`
  unfoldable pub apply_result : Bet F → Settlement → ℕ → Bet F
  apply_result bet result when = record {
    id = bet.id;
    market_id = bet.market_id;
    token = bet.token;
    mode = bet.mode;
    price = bet.price;
    shares = bet.shares;
    stake_usd = bet.stake_usd;
    fee_usd = bet.fee_usd;
    fair_at_bet = bet.fair_at_bet;
    edge_at_bet = bet.edge_at_bet;
    placed_at = bet.placed_at;
    status = settled result;
    settled_at = some when;
    pnl_usd = some (round (pnl_of result bet.shares bet.stake_usd) 2);
    clv = bet.clv;
  }

  abbrev pub pays_half : PmOutcome F → Bool
  pays_half outcome = elim outcome.last_price [
    | none ↦ false
    | some price ↦ le (abs (price ⊖ push_payout)) push_price_tol
  ]

  unfoldable pub is_push : PmMarket F → Bool
  is_push market = elim market.resolved_outcome_index [
    | some index ↦ false
    | none ↦ market.closed && (pays_half market.outcome_a && pays_half market.outcome_b)
  ]

  unfoldable pub settle_bet_manual : Ledger F → ℕ → String → ℕ → Result (Ledger F)
  settle_bet_manual ledger bet_id word now = elim (find_bet bet_id ledger.bets) [
    | none ↦ value_error
    | some bet ↦ elim (settlement_of word) [
      | none ↦ value_error
      | some result ↦
          if not (is_pending bet.status)
          then value_error
          else ok (record {
            bets = put_bet (apply_result bet result now) ledger.bets;
            markets = ledger.markets;
          })
    ]
  ]

  -- `tokens[index]`; the error stands for the IndexError of an index that names no outcome.
  abbrev pub token_at : PmMarket F → ℕ → Result String
  token_at market zero = ok market.outcome_a.token_id
  token_at market (suc zero) = ok market.outcome_b.token_id
  token_at market (suc (suc n)) = value_error

  abbrev pub is_outcome : PmMarket F → String → Bool
  is_outcome market token =
      str_eq market.outcome_a.token_id token || str_eq market.outcome_b.token_id token

  -- One turn of the loop of `settle_open_bets` up to the settlement: `none` for each `continue`,
  -- else the result and the letter that goes to the market's row.
  unfoldable pub verdict :
      Option (PmMarket F) → String → Result (Option (Settlement × Option String))
  unfolding is_push
  verdict none token = ok none
  verdict (some market) token =
      if not market.closed then ok none else elim market.resolved_outcome_index [
        | none ↦ ok (if is_push market && is_outcome market token then some (push, none) else none)
        | some index ↦
            if not (is_outcome market token)
            then ok none
            else token_at market index >>= λ winner.
                ok (some (graded (str_eq token winner), resolved_letter index))
      ]

  -- The loop over the open bets, in the order of the table; the others stand.
  unfoldable pub settle_loop :
      Dict (PmMarket F)
      → ℕ
      → List (Bet F)
      → Dict MarketRow
      → ℕ
      → Result (List (Bet F) × Dict MarketRow × ℕ)
  settle_loop feed when [] rows count = ok ([], rows, count)
  settle_loop feed when (bet ∷ bets) rows count = elim (is_pending bet.status) [
    | false ↦ settle_loop feed when bets rows count >>= prepend bet
    | true ↦ verdict (Dict.get bet.market_id feed) bet.token >>= λ found. elim found [
      | none ↦ settle_loop feed when bets rows count >>= prepend bet
      | some (result, letter) ↦
          settle_loop feed when bets (mark_resolved bet.market_id letter rows) (suc count)
          >>= prepend (apply_result bet result when)
    ]
  ]

  -- The ledger afterwards, and how many bets were settled.
  unfoldable pub settle_open_bets : Ledger F → Dict (PmMarket F) → ℕ → Result (Ledger F × ℕ)
  unfolding settle_loop
  settle_open_bets ledger feed now =
      settle_loop feed now ledger.bets ledger.markets 0 >>= λ (bets, rows, n).
      ok (record { bets = bets; markets = rows }, n)
