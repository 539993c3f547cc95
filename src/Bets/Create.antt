-- ===== src/Bets/Create.antt =====
-- `create_bet`, `fee_rate_for`, `latest_best_ask` and `cost_per_share` of app/services/bets.py. The id
-- of the new row is the database's; the texts are those after `.strip().lower()`.
pub mod Sound
use sportsbetting.Base.{
  ℕ, String, Bool, true, false, not, ◌&&◌, ◌||◌, Option, none, some, List, [], ◌∷◌, ◌++◌, map,
  str_eq, ltb, ◌==◌, if◌then◌else◌,
}
use sportsbetting.Base.Dict
use sportsbetting.Base.Result.{Result, ok, value_error, ◌>>=◌, ◌>>◌, require}
use sportsbetting.Float.{Float, float, decimal, ◌⊕◌, ◌⊖◌, ◌⊗◌, ◌⊘◌, le, lt, abs, max, round}
use sportsbetting.Edge.Value.{taker_fee_per_share}
use sportsbetting.Bets.Ledger.{Mode, taker, maker, pending, Bet, Ledger}

-- The columns of an `Opportunity` row and of a `PmQuote` row that are read.
pub record OpportunityRow (F : Type 0) : Type 0 where
  pub market_id : String
  pub token : String
  pub ask : Option F
  pub effective_price : Option F
  pub fair_prob : Option F

pub record QuoteRow (F : Type 0) : Type 0 where
  pub id : ℕ
  pub token : String
  pub best_ask : Option F
  pub fetched_at : ℕ

abbrev pub mode_of : String → Result Mode
mode_of word =
    if str_eq word "taker" then ok taker else if str_eq word "maker" then ok maker else value_error

module _ {F : Type 0} ⦃fl : Float F⦄ where
  abbrev pub is_price : F → Bool
  is_price x = lt (float 0) x && lt x (float 1)

  -- `fee_rate_for`
  unfoldable pub fee_rate_for : Option F → Option F → F → F
  fee_rate_for none effective default_rate = default_rate
  fee_rate_for (some ask) none default_rate = default_rate
  fee_rate_for (some ask) (some effective) default_rate =
      let implied = (effective ⊖ ask) ⊘ (ask ⊗ (float 1 ⊖ ask)) in
      if not (is_price ask)
      then default_rate
      else if le (float 0) implied
          && lt implied (decimal 2 1)
          && lt (decimal 1 9) (abs (implied ⊖ default_rate))
      then round implied 6
      else default_rate

  -- The order of `order_by(PmQuote.fetched_at.desc(), PmQuote.id.desc())`.
  abbrev is_newer : QuoteRow F → QuoteRow F → Bool
  is_newer q r = ltb r.fetched_at q.fetched_at || (q.fetched_at == r.fetched_at && ltb r.id q.id)

  -- The newest quote for the token that has an ask, with that ask.
  abbrev newest : String → List (QuoteRow F) → Option (QuoteRow F × F)
  newest token [] = none
  newest token (q ∷ quotes) =
      let best = newest token quotes in
      elim q.best_ask [
        | none ↦ best
        | some ask ↦ if not (str_eq q.token token) then best else elim best [
          | none ↦ some (q, ask)
          | some (r, other) ↦ if is_newer r q then some (r, other) else some (q, ask)
        ]
      ]

  unfoldable pub latest_best_ask : List (QuoteRow F) → String → Option F
  latest_best_ask quotes token = elim (newest token quotes) [
    | none ↦ none
    | some (q, ask) ↦ some ask
  ]

  unfoldable pub cost_per_share : Bet F → F
  cost_per_share bet = if lt (float 0) bet.shares then bet.stake_usd ⊘ bet.shares else bet.price

  -- `ask is not None and price_value >= ask`
  abbrev pub crosses : Option F → F → Bool
  crosses none price = false
  crosses (some ask) price = le ask price

  -- The cost of a share, the shares and the fee, by mode.
  unfoldable pub terms_of : Mode → F → Option F → F → F → Result (F × F × F)
  terms_of taker rate best_ask stake price = do
    fee_per_share ← taker_fee_per_share price rate
    let cost = price ⊕ fee_per_share
    let shares = stake ⊘ cost
    ok (cost, shares, stake ⊖ shares ⊗ price)
  terms_of maker rate best_ask stake price =
      if crosses best_ask price then value_error else ok (price, stake ⊘ price, float 0)

  abbrev edge_of : F → F → F
  edge_of cost fair = fair ⊖ cost

  abbrev pub map_option : (F → F) → Option F → Option F
  map_option f none = none
  map_option f (some x) = some (f x)

  abbrev pub new_bet : ℕ → OpportunityRow F → Mode → F → F → ℕ → F × F × F → Bet F
  new_bet id row mode stake price now (cost, shares, fee_usd) = record {
    id = id;
    market_id = row.market_id;
    token = row.token;
    mode = mode;
    price = price;
    shares = round shares 6;
    stake_usd = round stake 2;
    fee_usd = round (max fee_usd (float 0)) 4;
    fair_at_bet = row.fair_prob;
    edge_at_bet = map_option (edge_of cost) row.fair_prob;
    placed_at = now;
    status = pending;
    settled_at = none;
    pnl_usd = none;
    clv = none;
  }

  -- `session.add(bet)` and the commit.
  abbrev pub log_bet : Ledger F → Bet F → Ledger F × Bet F
  log_bet ledger bet = (record { bets = ledger.bets ++ (bet ∷ []); markets = ledger.markets }, bet)

  -- The guards of `create_bet` in their order, then the row.
  unfoldable pub create_bet :
      Ledger F
      → (ℕ → Option (OpportunityRow F))
      → List (QuoteRow F)
      → F
      → ℕ
      → ℕ
      → F
      → F
      → String
      → ℕ
      → Result (Ledger F × Bet F)
  create_bet ledger opportunities quotes taker_fee_rate id opportunity_id stake price word now =
      elim (opportunities opportunity_id) [
        | none ↦ value_error
        | some row ↦ elim (Dict.get row.market_id ledger.markets) [
          | none ↦ value_error
          | some market ↦ (do
            require (not market.closed)
            mode ← mode_of word
            require (lt (float 0) stake)
            require (is_price price)
            terms ←
                terms_of mode (fee_rate_for row.ask row.effective_price taker_fee_rate)
                  (latest_best_ask quotes row.token) stake price
            ok (log_bet ledger (new_bet id row mode stake price now terms)))
        ]
      ]
