-- ===== src/Bets/Create/Sound.antt =====
-- What a bet that was logged satisfies.
use sportsbetting.Base.{
  ℕ, ◌≡◌, inl, inr, refl, ap, arith, String, true, false, not, Option, none, some, List, [], ◌∷◌,
  ◌++◌, Bool-cases, Option-cases, and_true,
}
use sportsbetting.Base.Dict
use sportsbetting.Base.Result.{ok, value_error, >>=-eq-ok, require-eq-ok, ok_inj}
use sportsbetting.Float.{Float, float, lt, ◌≺◌, ◌⊕◌, ◌⊖◌, ◌⊗◌, ◌⊘◌, max, round}
use sportsbetting.Edge.Value.{taker_fee_per_share}
use mathlib.Core.Path.{subst}
use sportsbetting.Bets.Ledger.{Mode, taker, maker, pending, Bet, MarketRow, Ledger}
use sportsbetting.Bets.Create.{
  OpportunityRow, QuoteRow, mode_of, is_price, latest_best_ask, fee_rate_for, crosses, terms_of,
  map_option, new_bet, log_bet, create_bet,
}

module _ {F : Type 0} ⦃fl : Float F⦄ where
  -- What the stake buys, by mode: the shares at the price with the taker fee on top, the fee being
  -- the rest of the stake; or the shares at the price, with no fee.
  pub data IsPriced (rate : F) (best_ask : Option F) (stake price : F)
      : Mode → F × F × F → Type 0 where
    taken :
        (fee cost : F)
        → taker_fee_per_share price rate ≡ ok fee
        → cost ≡ price ⊕ fee
        → IsPriced rate best_ask stake price taker
            (cost, stake ⊘ cost, stake ⊖ (stake ⊘ cost) ⊗ price)
    made :
        crosses best_ask price ≡ false
        → IsPriced rate best_ask stake price maker (price, stake ⊘ price, float 0)

  terms_of-IsPriced :
      (mode : Mode) (rate : F) (best_ask : Option F) (stake price : F) {terms : F × F × F}
      → terms_of mode rate best_ask stake price ≡ ok terms
      → IsPriced rate best_ask stake price mode terms
  unfolding terms_of
  terms_of-IsPriced taker rate best_ask stake price {terms} e =
      let (fee, f, e') = >>=-eq-ok (taker_fee_per_share price rate) _ e in
      subst (IsPriced rate best_ask stake price taker) (ok_inj e')
        (IsPriced.taken fee (price ⊕ fee) f refl)
  terms_of-IsPriced maker rate best_ask stake price {terms} e =
      elim (Bool-cases (crosses best_ask price)) [
        | inl over ↦ let e' : value_error ≡ ok terms = rw over at e in cc
        | inr below ↦
            let e' : ok (price, stake ⊘ price, float 0) ≡ ok terms = rw below at e in
            subst (IsPriced rate best_ask stake price maker) (ok_inj e') (IsPriced.made below)
      ]

  -- The columns of the logged bet.
  pub record IsRow (id : ℕ) (row : OpportunityRow F) (stake price : F) (word : String) (now : ℕ)
      (terms : F × F × F) (bet : Bet F) : Type 0 where
    pub id_eq : bet.id ≡ id
    pub market_eq : bet.market_id ≡ row.market_id
    pub token_eq : bet.token ≡ row.token
    pub mode_eq : mode_of word ≡ ok bet.mode
    pub price_eq : bet.price ≡ price
    pub shares_eq : bet.shares ≡ round terms.1 6
    pub stake_eq : bet.stake_usd ≡ round stake 2
    pub fee_eq : bet.fee_usd ≡ round (max terms.2 (float 0)) 4
    pub fair_eq : bet.fair_at_bet ≡ row.fair_prob
    pub edge_eq : bet.edge_at_bet ≡ map_option (λ fair. fair ⊖ terms.0) row.fair_prob
    pub placed_eq : bet.placed_at ≡ now
    pub status_eq : bet.status ≡ pending
    pub pnl_eq : bet.pnl_usd ≡ none
    pub settled_eq : bet.settled_at ≡ none
    pub clv_eq : bet.clv ≡ none

  -- What a logged bet rests on.
  pub record IsLogged (ledger : Ledger F) (quotes : List (QuoteRow F)) (default_rate : F) (id : ℕ)
      (row : OpportunityRow F) (stake price : F) (word : String) (now : ℕ) (after : Ledger F)
      (bet : Bet F) : Type 0 where
    pub market : MarketRow
    pub known : Dict.get row.market_id ledger.markets ≡ some market
    pub not_closed : market.closed ≡ false
    pub staked : float 0 ≺ stake
    pub above : float 0 ≺ price
    pub below : price ≺ float 1
    pub terms : F × F × F
    pub priced :
        IsPriced
          (fee_rate_for row.ask row.effective_price default_rate)
          (latest_best_ask quotes row.token)
          stake
          price
          bet.mode
          terms
    pub columns : IsRow id row stake price word now terms bet
    pub bets_eq : after.bets ≡ ledger.bets ++ (bet ∷ [])
    pub markets_eq : after.markets ≡ ledger.markets

  new_bet-IsRow :
      (id : ℕ) (row : OpportunityRow F) (mode : Mode) (stake price : F) (word : String) (now : ℕ)
      (terms : F × F × F)
      → mode_of word ≡ ok mode
      → IsRow id row stake price word now terms (new_bet id row mode stake price now terms)
  new_bet-IsRow id row mode stake price word now (cost, shares, fee) m = record {
    id_eq = refl;
    market_eq = refl;
    token_eq = refl;
    mode_eq = m;
    price_eq = refl;
    shares_eq = refl;
    stake_eq = refl;
    fee_eq = refl;
    fair_eq = refl;
    edge_eq = refl;
    placed_eq = refl;
    status_eq = refl;
    pnl_eq = refl;
    settled_eq = refl;
    clv_eq = refl;
  }

  logged :
      (ledger : Ledger F) (quotes : List (QuoteRow F)) (default_rate : F) (id : ℕ)
      (row : OpportunityRow F) (market : MarketRow) (mode : Mode) (stake price : F) (word : String)
      (now : ℕ) (terms : F × F × F) {after : Ledger F} {bet : Bet F}
      → Dict.get row.market_id ledger.markets ≡ some market
      → not market.closed ≡ true
      → float 0 ≺ stake
      → is_price price ≡ true
      → mode_of word ≡ ok mode
      → IsPriced
          (fee_rate_for row.ask row.effective_price default_rate)
          (latest_best_ask quotes row.token)
          stake
          price
          mode
          terms
      → log_bet ledger (new_bet id row mode stake price now terms) ≡ (after, bet)
      → IsLogged ledger quotes default_rate id row stake price word now after bet
  logged ledger quotes default_rate id row market mode stake price word now terms known p₁ staked p₄
        m priced same =
      let (above, below) = and_true (lt (float 0) price) (lt price (float 1)) p₄ in
      rw (← ap (λ p. p.0) same, ← ap (λ p. p.1) same)
        (record {
          market = market;
          known = known;
          not_closed = ground arith;
          staked = staked;
          above = above;
          below = below;
          terms = terms;
          priced = priced;
          columns = new_bet-IsRow id row mode stake price word now terms m;
          bets_eq = refl;
          markets_eq = refl;
        })

  -- A bet that is logged is on the opportunity's token in a market that is on file and not closed,
  -- for a positive stake at a price strictly between 0 and 1, as a maker below the newest ask if
  -- there is one. Its row has that price and mode, the stake rounded to cents, the shares that the
  -- unrounded stake buys to six decimals, the fee to four, which is the rest of the stake for a
  -- taker and none for a maker, and the edge at that cost; it is open, with no result, at the end of
  -- the ledger, and nothing else changes.
  pub create_bet_sound :
      (ledger : Ledger F) (opportunities : ℕ → Option (OpportunityRow F))
      (quotes : List (QuoteRow F)) (taker_fee_rate : F) (id opportunity_id : ℕ) (stake price : F)
      (word : String) (now : ℕ) {after : Ledger F} {bet : Bet F}
      → create_bet ledger opportunities quotes taker_fee_rate id opportunity_id stake price word now
        ≡ ok (after, bet)
      → (row : OpportunityRow F) × (opportunities opportunity_id ≡ some row)
        × IsLogged ledger quotes taker_fee_rate id row stake price word now after bet
  unfolding create_bet
  create_bet_sound ledger opportunities quotes rate id oid stake price word now {after} {bet} e =
      elim (Option-cases (opportunities oid)) [
        | inl nothing ↦ let e' : value_error ≡ ok (after, bet) = rw (nothing, create_bet) at e in cc
        | inr (row, found) ↦ elim (Option-cases (Dict.get row.market_id ledger.markets)) [
          | inl nothing ↦
              let e' : value_error ≡ ok (after, bet) = rw (found, nothing, create_bet) at e in cc
          | inr (market, known) ↦
              let e₀ = rw (found, known, create_bet) at e in
              let (p₁, e₁) = require-eq-ok (not market.closed) _ e₀ in
              let (mode, m, e₂) = >>=-eq-ok (mode_of word) _ e₁ in
              let (p₃, e₃) = require-eq-ok (lt (float 0) stake) _ e₂ in
              let (p₄, e₄) = require-eq-ok (is_price price) _ e₃ in
              let fee = fee_rate_for row.ask row.effective_price rate in
              let newest_ask = latest_best_ask quotes row.token in
              let (terms, t, e₅) = >>=-eq-ok (terms_of mode fee newest_ask stake price) _ e₄ in
              (
                row,
                found,
                logged ledger quotes rate id row market mode stake price word now terms known p₁ p₃
                    p₄ m (terms_of-IsPriced mode fee newest_ask stake price t) (ok_inj e₅),
              )
        ]
      ]
