-- ===== src/Edge/Opportunity.antt =====
-- `build_opportunity` and `stake_note` of app/core/edge.py.
use sportsbetting.Base.{
  ℕ, ◌≡◌, ◌≤◌, inl, inr, refl, arith, Bool, true, false, not, ◌||◌, Option, none, some, List, [],
  ◌∷◌, if◌then◌else◌, Bool-cases, Option-cases, leb, or_false, not-false,
}
use sportsbetting.Base.Result.{Result, ok, value_error, ◌>>=◌, >>=-eq-ok}
use sportsbetting.Float.{Float, float, decimal, le, lt, eq, ◌≼◌, ◌≺◌}
use sportsbetting.Odds.Consensus.{FairProb}
use sportsbetting.Edge.Types.{Prefs, BookLevel, OrderBook, PmMarket, StakePlan, Note, Opportunity}
use sportsbetting.Edge.Value.{
  effective_price, edge, ev_per_dollar, kelly_fraction, resolve_fee_rate,
}
use sportsbetting.Edge.Plan.{plan_stake, resting_limit_price}

-- `market.game_start is not None and _as_utc(market.game_start) <= _as_utc(now)`
abbrev pub has_started : Option ℕ → ℕ → Bool
has_started none now = false
has_started (some start) now = leb start now

module _ {F : Type 0} ⦃fl : Float F⦄ where
  abbrev best_ask_of : List (BookLevel F) → Option F
  best_ask_of [] = none
  best_ask_of (level ∷ levels) = some level.price

  -- `book is not None and book.asks`, and then `book.best_ask`.
  abbrev pub best_ask : Option (OrderBook F) → Option F
  best_ask none = none
  best_ask (some book) = best_ask_of book.asks

  abbrev pub asks_of : Option (OrderBook F) → List (BookLevel F)
  asks_of none = []
  asks_of (some book) = book.asks

  -- `market.liquidity is not None and market.liquidity < prefs.min_liquidity_usd`
  abbrev pub is_thin : Option F → F → Bool
  is_thin none limit = false
  is_thin (some liquidity) limit = lt liquidity limit

  -- `market.tick_size or DEFAULT_TICK`: a tick of 0 is false too.
  abbrev pub tick_of : Option F → F
  tick_of none = decimal 1 2
  tick_of (some tick) = if eq tick (float 0) then decimal 1 2 else tick

  -- From the fee on, when the market can be traded at `ask`.
  unfoldable pub price_ask :
      PmMarket F
      → ℕ
      → List (BookLevel F)
      → FairProb F
      → Prefs F
      → ℕ
      → F
      → Result (Option (Opportunity F))
  price_ask market outcome_index asks fair prefs now ask =
      let fee_rate = resolve_fee_rate market.taker_fee_rate prefs in
      effective_price ask fee_rate >>= λ cost.
      if lt (edge fair.value cost) prefs.min_edge
        || is_thin market.liquidity prefs.min_liquidity_usd
      then ok none
      else (do
        kelly ← kelly_fraction fair.value cost
        plan ← plan_stake asks fair.value kelly fee_rate prefs market.min_order_size
        ev ← ev_per_dollar fair.value cost
        limit ← resting_limit_price fair.value prefs.min_edge (some ask) (tick_of market.tick_size)
        ok (
            some (record {
              market = market;
              outcome_index = outcome_index;
              ask = ask;
              effective_price = cost;
              fair = fair;
              edge = edge fair.value cost;
              ev_per_dollar = ev;
              kelly = kelly;
              suggested_stake = plan.stake;
              fill_price = plan.fill_price;
              fill_complete = plan.fill_complete;
              limit_price = limit;
              computed_at = now;
              fill_usd = plan.fill_usd;
            })))

  -- The outcome index of the source can be any int; the model has no negative ones.
  unfoldable pub build_opportunity :
      PmMarket F
      → ℕ
      → Option (OrderBook F)
      → FairProb F
      → Prefs F
      → ℕ
      → Result (Option (Opportunity F))
  unfolding price_ask
  build_opportunity market outcome_index book fair prefs now =
      if not (leb outcome_index 1)
      then value_error
      else if market.closed || not market.accepting_orders
      then ok none
      else if has_started market.game_start now
      then ok none
      else elim (best_ask book) [
        | none ↦ ok none
        | some ask ↦
            if le ask (float 0)
            then ok none
            else price_ask market outcome_index (asks_of book) fair prefs now ask
      ]

  unfoldable pub stake_note :
      Opportunity F → Option (OrderBook F) → Prefs F → Result (Option (Note F))
  stake_note opportunity none prefs = ok none
  stake_note opportunity (some book) prefs = do
    let market = opportunity.market
    let fee_rate = resolve_fee_rate market.taker_fee_rate prefs
    plan ←
        plan_stake book.asks opportunity.fair.value opportunity.kelly fee_rate prefs
          market.min_order_size
    ok plan.note

  module _ (market : PmMarket F) (fair : FairProb F) (prefs : Prefs F) where
    -- What an offered opportunity rests on: its cost with the fee, and the plan of its stake.
    pub record IsPriced (asks : List (BookLevel F)) (ask : F) (o : Opportunity F) : Type 0 where
      pub ask_eq : o.ask ≡ ask
      pub cost_eq :
          effective_price ask (resolve_fee_rate market.taker_fee_rate prefs) ≡ ok o.effective_price
      pub worth : prefs.min_edge ≼ edge fair.value o.effective_price
      pub edge_eq : o.edge ≡ edge fair.value o.effective_price
      pub liquid : is_thin market.liquidity prefs.min_liquidity_usd ≡ false
      pub kelly_eq : kelly_fraction fair.value o.effective_price ≡ ok o.kelly
      pub plan : StakePlan F
      pub planned :
          plan_stake asks fair.value o.kelly
            (resolve_fee_rate market.taker_fee_rate prefs)
            prefs
            market.min_order_size
          ≡ ok plan
      pub stake_eq : o.suggested_stake ≡ plan.stake
      pub limit_eq :
          resting_limit_price fair.value prefs.min_edge (some ask) (tick_of market.tick_size)
          ≡ ok o.limit_price

    price_ask-IsPriced :
        (index : ℕ) (asks : List (BookLevel F)) (now : ℕ) (ask : F) {o : Opportunity F}
        → price_ask market index asks fair prefs now ask ≡ ok (some o)
        → IsPriced asks ask o
    unfolding price_ask
    price_ask-IsPriced index asks now ask {o} e =
        let fee_rate = resolve_fee_rate market.taker_fee_rate prefs in
        let (cost, priced, e₁) = >>=-eq-ok (effective_price ask fee_rate) _ e in
        let thin = is_thin market.liquidity prefs.min_liquidity_usd in
        elim (Bool-cases (lt (edge fair.value cost) prefs.min_edge || thin)) [
          | inl bad ↦ let e' : ok none ≡ ok (some o) = rw bad at e₁ in cc
          | inr good ↦
              let e₂ = rw good at e₁ in
              let (k, kelly_eq, e₃) = >>=-eq-ok (kelly_fraction fair.value cost) _ e₂ in
              let (plan, planned, e₄) =
                >>=-eq-ok (plan_stake asks fair.value k fee_rate prefs market.min_order_size) _
                  e₃ in
              let (ev, _, e₅) = >>=-eq-ok (ev_per_dollar fair.value cost) _ e₄ in
              let (limit, limit_eq, e₆) =
                >>=-eq-ok
                  (resting_limit_price fair.value prefs.min_edge (some ask)
                    (tick_of market.tick_size))
                  _ e₅ in
              let offer : Opportunity F = record {
                market = market;
                outcome_index = index;
                ask = ask;
                effective_price = cost;
                fair = fair;
                edge = edge fair.value cost;
                ev_per_dollar = ev;
                kelly = k;
                suggested_stake = plan.stake;
                fill_price = plan.fill_price;
                fill_complete = plan.fill_complete;
                limit_price = limit;
                computed_at = now;
                fill_usd = plan.fill_usd;
              } in
              let same : o ≡ offer = ground (arith, e₆) in
              let (worth, liquid) = or_false (lt (edge fair.value cost) prefs.min_edge) thin good in
              rw same (record {
                ask_eq = refl;
                cost_eq = priced;
                worth = not-false _ worth;
                edge_eq = refl;
                liquid = liquid;
                kelly_eq = kelly_eq;
                plan = plan;
                planned = planned;
                stake_eq = refl;
                limit_eq = limit_eq;
              })
        ]

    -- An opportunity is offered only for an outcome of an open market that takes orders and has not
    -- started, at a positive best ask; it is worth the minimum edge at its cost with the fee, the
    -- market is not known to be thin, and its Kelly fraction, stake and limit price are the ones
    -- that the other operations give at that cost.
    pub build_opportunity_sound :
        (index : ℕ) (book : Option (OrderBook F)) (now : ℕ) {o : Opportunity F}
        → build_opportunity market index book fair prefs now ≡ ok (some o)
        → (index ≤ 1)
          × (market.closed ≡ false)
          × (market.accepting_orders ≡ true)
          × (has_started market.game_start now ≡ false)
          × (ask : F) × (best_ask book ≡ some ask)
          × (float 0 ≺ ask)
          × IsPriced (asks_of book) ask o
    unfolding build_opportunity
    build_opportunity_sound index book now {o} e = elim (Bool-cases (leb index 1)) [
      | inr big ↦ let e' : value_error ≡ ok (some o) = rw big at e in cc
      | inl small ↦ elim (Bool-cases (market.closed || not market.accepting_orders)) [
        | inl shut ↦ let e' : ok none ≡ ok (some o) = rw (small, shut) at e in cc
        | inr is_open ↦
            let (not_closed, accepts) =
              or_false market.closed (not market.accepting_orders) is_open in
            elim (Bool-cases (has_started market.game_start now)) [
              | inl started ↦
                  let e' : ok none ≡ ok (some o) = rw (small, is_open, started) at e in cc
              | inr waiting ↦
                  let e₁ = rw (small, is_open, waiting) at e in
                  let (ask, found, positive, priced) = offered e₁ in
                  (
                    ground arith,
                    not_closed,
                    not-false market.accepting_orders accepts,
                    waiting,
                    ask,
                    found,
                    positive,
                    priced,
                  )
            ]
      ]
    ]
      where
        offered :
            (elim (best_ask book) [
              | none ↦ ok none
              | some ask ↦
                  if le ask (float 0)
                  then ok none
                  else price_ask market index (asks_of book) fair prefs now ask
            ])
              ≡ ok (some o)
            → (ask : F) × (best_ask book ≡ some ask)
              × (float 0 ≺ ask)
              × IsPriced (asks_of book) ask o
        offered h = elim (Option-cases (best_ask book)) [
          | inl nothing ↦ let h' : ok none ≡ ok (some o) = rw nothing at h in cc
          | inr (ask, found) ↦ elim (Bool-cases (le ask (float 0))) [
            | inl low ↦ let h' : ok none ≡ ok (some o) = rw (found, low) at h in cc
            | inr positive ↦
                let h' : price_ask market index (asks_of book) fair prefs now ask ≡ ok (some o) =
                  rw (found, positive) at h in
                (ask, found, rw positive refl, price_ask-IsPriced index (asks_of book) now ask h')
          ]
        ]
