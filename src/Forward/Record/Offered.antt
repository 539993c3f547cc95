-- ===== src/Forward/Record/Offered.antt =====
-- A sample for every opportunity: how `record_sample` follows `build_opportunity` of app/core/edge.py.
use sportsbetting.Base.{
  ℕ, ◌≡◌, inl, inr, refl, sym, ap, ◌∙◌, arith, true, false, not, ◌||◌, Option, none, some, leb,
  Bool-cases,
}
use sportsbetting.Base.Result.{ok}
use sportsbetting.Float.{Float, float, le, lt, ◌≺◌}
use sportsbetting.Odds.Consensus.{FairProb}
use sportsbetting.Edge.Types.{Prefs, OrderBook, PmMarket, Opportunity}
use sportsbetting.Edge.Value.{effective_price, edge, resolve_fee_rate}
use sportsbetting.Edge.Opportunity.{
  has_started, best_ask, build_opportunity, build_opportunity_sound,
}
use sportsbetting.Forward.Record.{ForwardSample, fee_rate_of, sample_row, record_at, record_sample}

module _ {F : Type 0} ⦃fl : Float F⦄ where
  resolve_fee_rate-fee_rate_of :
      (market_fee : Option F) (prefs : Prefs F)
      → resolve_fee_rate market_fee prefs
        ≡ fee_rate_of market_fee prefs.taker_fee_rate prefs.use_market_fee
  unfolding resolve_fee_rate
  resolve_fee_rate-fee_rate_of none prefs = refl
  resolve_fee_rate-fee_rate_of (some fee) prefs = elim (Bool-cases prefs.use_market_fee) [
    | inl used ↦ rw used refl
    | inr unused ↦ rw unused refl
  ]

  module _ (id scan_id : ℕ) (market : PmMarket F) (index : ℕ) (book : Option (OrderBook F))
      (fair : FairProb F) (prefs : Prefs F) (now : ℕ) where
    record_sample-open :
        (ask : F)
        → leb index 1 ≡ true
        → (market.closed || not market.accepting_orders) ≡ false
        → has_started market.game_start now ≡ false
        → best_ask book ≡ some ask
        → record_sample id scan_id market index book fair prefs.taker_fee_rate now
            prefs.use_market_fee
          ≡ record_at id scan_id market index book fair prefs.taker_fee_rate now
              prefs.use_market_fee ask
    unfolding record_sample
    record_sample-open ask small is_open waiting found = rw (small, is_open, waiting, found) refl

    record_at-priced :
        (ask cost : F)
        → (le ask (float 0) || le (float 1) ask) ≡ false
        → effective_price ask
            (fee_rate_of market.taker_fee_rate prefs.taker_fee_rate prefs.use_market_fee)
          ≡ ok cost
        → record_at id scan_id market index book fair prefs.taker_fee_rate now prefs.use_market_fee
            ask
          ≡ ok (
              some (
                sample_row id scan_id market index book fair prefs.taker_fee_rate now
                  prefs.use_market_fee ask cost))
    unfolding record_at
    record_at-priced ask cost between priced = rw (between, priced) refl

    -- For each outcome that `build_opportunity` offers at an ask below 1, `record_sample` records a
    -- sample, at the same ask, the same cost with the fee and the same edge.
    pub record_sample-build_opportunity :
        {o : Opportunity F}
        → build_opportunity market index book fair prefs now ≡ ok (some o)
        → lt o.ask (float 1) ≡ true
        → (row : ForwardSample F) × (record_sample id scan_id market index book fair
              prefs.taker_fee_rate now prefs.use_market_fee
            ≡ ok (some row))
          × (row.ask ≡ o.ask)
          × (row.effective_price ≡ o.effective_price)
          × (row.edge ≡ o.edge)
    unfolding edge
    record_sample-build_opportunity {o} offered below =
        let (small, not_closed, accepts, waiting, ask, found, positive, priced) =
          build_opportunity_sound market fair prefs index book now offered in
        let fee_eq = resolve_fee_rate-fee_rate_of market.taker_fee_rate prefs in
        let cost = o.effective_price in
        let cost_eq : effective_price ask
              (fee_rate_of market.taker_fee_rate prefs.taker_fee_rate prefs.use_market_fee)
            ≡ ok cost =
          sym (ap (effective_price ask) fee_eq) ∙ priced.cost_eq in
        let ask_eq = priced.ask_eq in
        (
          sample_row id scan_id market index book fair prefs.taker_fee_rate now prefs.use_market_fee
              ask cost,
          record_sample-open ask (ground (arith, small)) (ground (arith, not_closed, accepts))
                waiting found
              ∙ record_at-priced ask cost
                  (between ask positive (sym (ap (λ a. lt a (float 1)) ask_eq) ∙ below)) cost_eq,
          sym ask_eq,
          refl,
          sym priced.edge_eq,
        )
      where
        between :
            (ask : F)
            → float 0 ≺ ask
            → lt ask (float 1) ≡ true
            → (le ask (float 0) || le (float 1) ask) ≡ false
        between ask positive less = ground (arith, positive, less)
