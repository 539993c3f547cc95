-- ===== src/Bets/Ledger.antt =====
-- The rows of app/models.py that the ledger keeps. A ledger is the committed tables: an operation
-- that raises commits nothing.
use sportsbetting.Base.{
  ℕ, String, Bool, true, false, Option, none, some, List, [], ◌∷◌, if◌then◌else◌, ◌==◌,
}
use sportsbetting.Base.Dict.{Dict}

pub data Mode : Type 0 where
  taker maker : Mode

-- The settled results, and the status of a bet: `open`, or one of them.
pub data Settlement : Type 0 where
  won lost void push : Settlement

pub data Status : Type 0 where
  pending : Status
  settled : Settlement → Status

-- `Bet`, without the labels that no operation reads.
pub record Bet (F : Type 0) : Type 0 where
  pub id : ℕ
  pub market_id : String
  pub token : String
  pub mode : Mode
  pub price : F
  pub shares : F
  pub stake_usd : F
  pub fee_usd : F
  pub fair_at_bet : Option F
  pub edge_at_bet : Option F
  pub placed_at : ℕ
  pub status : Status
  pub settled_at : Option ℕ
  pub pnl_usd : Option F
  pub clv : Option F

-- What settlement writes to a `Market` row.
pub record MarketRow : Type 0 where
  pub closed : Bool
  pub accepting_orders : Bool
  pub resolved_outcome : Option String

pub record Ledger (F : Type 0) : Type 0 where
  pub bets : List (Bet F)
  pub markets : Dict MarketRow

abbrev pub is_pending : Status → Bool
is_pending pending = true
is_pending (settled result) = false

module _ {F : Type 0} where
  -- `session.get(Bet, bet_id)`
  abbrev pub find_bet : ℕ → List (Bet F) → Option (Bet F)
  find_bet id [] = none
  find_bet id (bet ∷ bets) = if bet.id == id then some bet else find_bet id bets

  -- The row of a bet is written back under its primary key.
  abbrev pub put_bet : Bet F → List (Bet F) → List (Bet F)
  put_bet new [] = []
  put_bet new (bet ∷ bets) = if bet.id == new.id then new ∷ bets else bet ∷ put_bet new bets
