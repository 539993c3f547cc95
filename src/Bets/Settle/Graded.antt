-- ===== src/Bets/Settle/Graded.antt =====
-- `settle_open_bets` on every bet of the table, against the markets alone.
use sportsbetting.Base.{
  ℕ, suc, ◌≡◌, ◌≢◌, ◌⊎◌, inl, inr, refl, String, true, false, Option, none, some, List, [], ◌∷◌,
  Option-cases,
}
use sportsbetting.Base.Dict
use sportsbetting.Base.Dict.{Dict}
use sportsbetting.Base.Result.{ok}
use sportsbetting.Float.{Float, decimal, ◌⊖◌, ◌⊗◌, neg, round}
use sportsbetting.Edge.Types.{PmMarket}
use sportsbetting.Bets.Ledger.{
  Settlement, won, lost, void, push, Status, pending, settled, Bet, Ledger, is_pending,
}
use sportsbetting.Bets.Settle.{pnl_of, verdict, apply_result, settle_open_bets}
use sportsbetting.Bets.Settle.Verdict.{IsVerdict, verdict-IsVerdict, verdict-none}
use sportsbetting.Bets.Settle.Final.{IsRun, settle_open_bets-IsRun}

is_pending-pending : (s : Status) → is_pending s ≡ true → s ≡ pending
is_pending-pending pending h = refl
is_pending-pending (settled result) h = cc

module _ {F : Type 0} ⦃fl : Float F⦄ where
  -- What a bet made: the shares pay a dollar each, or nothing, or half a dollar, less the stake; a
  -- void bet pays the stake back.
  abbrev pub IsProfit : Settlement → F → F → F → Type 0
  IsProfit won shares stake profit = profit ≡ shares ⊖ stake
  IsProfit lost shares stake profit = profit ≡ neg stake
  IsProfit push shares stake profit = profit ≡ decimal 5 1 ⊗ shares ⊖ stake
  IsProfit void shares stake profit = profit ≡ decimal 0 0

  -- The second bet is the first one with its result.
  pub record IsSettled (bet : Bet F) (result : Settlement) (when : ℕ) (after : Bet F) : Type 0 where
    pub profit : F
    pub profit_is : IsProfit result bet.shares bet.stake_usd profit
    pub pnl_eq : after.pnl_usd ≡ some (round profit 2)
    pub status_eq : after.status ≡ settled result
    pub settled_eq : after.settled_at ≡ some when
    pub id_eq : after.id ≡ bet.id
    pub market_eq : after.market_id ≡ bet.market_id
    pub token_eq : after.token ≡ bet.token
    pub mode_eq : after.mode ≡ bet.mode
    pub price_eq : after.price ≡ bet.price
    pub shares_eq : after.shares ≡ bet.shares
    pub stake_eq : after.stake_usd ≡ bet.stake_usd
    pub fee_eq : after.fee_usd ≡ bet.fee_usd
    pub fair_eq : after.fair_at_bet ≡ bet.fair_at_bet
    pub edge_eq : after.edge_at_bet ≡ bet.edge_at_bet
    pub placed_eq : after.placed_at ≡ bet.placed_at
    pub clv_eq : after.clv ≡ bet.clv

  pnl_of-IsProfit :
      (result : Settlement) (shares stake : F)
      → IsProfit result shares stake (pnl_of result shares stake)
  pnl_of-IsProfit won shares stake = refl
  pnl_of-IsProfit lost shares stake = refl
  pnl_of-IsProfit push shares stake = refl
  pnl_of-IsProfit void shares stake = refl

  apply_result-IsSettled :
      (bet : Bet F) (result : Settlement) (when : ℕ)
      → IsSettled bet result when (apply_result bet result when)
  unfolding apply_result
  apply_result-IsSettled bet result when = record {
    profit = pnl_of result bet.shares bet.stake_usd;
    profit_is = pnl_of-IsProfit result bet.shares bet.stake_usd;
    pnl_eq = refl;
    status_eq = refl;
    settled_eq = refl;
    id_eq = refl;
    market_eq = refl;
    token_eq = refl;
    mode_eq = refl;
    price_eq = refl;
    shares_eq = refl;
    stake_eq = refl;
    fee_eq = refl;
    fair_eq = refl;
    edge_eq = refl;
    placed_eq = refl;
    clv_eq = refl;
  }

  -- Two tables, bet by bet: an open bet with a verdict on its market is settled by that verdict, and
  -- all others stand; the number counts the settled ones.
  pub data AreGraded (feed : Dict (PmMarket F)) (when : ℕ)
      : List (Bet F) → List (Bet F) → ℕ → Type 0 where
    finished : AreGraded feed when [] [] 0
    passed :
        {bets after : List (Bet F)} {n : ℕ} (bet : Bet F)
        → ((market : PmMarket F) (result : Settlement)
            → bet.status ≡ pending
            → Dict.get bet.market_id feed ≡ some market
            → ¬ IsVerdict market bet.token result)
        → AreGraded feed when bets after n
        → AreGraded feed when (bet ∷ bets) (bet ∷ after) n
    graded :
        {bets after : List (Bet F)} {n : ℕ} (bet new : Bet F) (market : PmMarket F)
        (result : Settlement)
        → bet.status ≡ pending
        → Dict.get bet.market_id feed ≡ some market
        → IsVerdict market bet.token result
        → IsSettled bet result when new
        → AreGraded feed when bets after n
        → AreGraded feed when (bet ∷ bets) (new ∷ after) (suc n)

  no_market :
      (found : Option (PmMarket F)) (token : String) {result : Settlement} {letter : Option String}
      → found ≡ none
      → verdict found token ≢ ok (some (result, letter))
  unfolding verdict
  no_market none token h e = cc
  no_market (some market) token h e = cc

  IsRun-AreGraded :
      {feed : Dict (PmMarket F)} {when n : ℕ} {bets after : List (Bet F)}
      → IsRun feed when bets after n
      → AreGraded feed when bets after n
  IsRun-AreGraded IsRun.finished = AreGraded.finished
  IsRun-AreGraded {feed} {when} (IsRun.passed {bet} {bets} {after} {n} why run) =
      AreGraded.passed bet (λ market result p known v. no_verdict market result p known v why)
        (IsRun-AreGraded run)
    where
      no_verdict :
          (market : PmMarket F) (result : Settlement)
          → bet.status ≡ pending
          → Dict.get bet.market_id feed ≡ some market
          → IsVerdict market bet.token result
          → (is_pending bet.status ≡ false)
            ⊎ (verdict (Dict.get bet.market_id feed) bet.token ≡ ok none)
          → ⊥
      no_verdict market result p known v (inl over) = let e : true ≡ false = rw p at over in cc
      no_verdict market result p known v (inr e) = verdict-none market bet.token (rw known at e) v
  IsRun-AreGraded {feed} {when}
        (IsRun.graded {bet} {bets} {after} {n} result letter waiting v run) =
      elim (Option-cases (Dict.get bet.market_id feed)) [
        | inl unknown ↦ absurd (no_market (Dict.get bet.market_id feed) bet.token unknown v)
        | inr (market, known) ↦
            AreGraded.graded bet (apply_result bet result when) market result
              (is_pending-pending bet.status waiting) known
              (verdict-IsVerdict market bet.token (rw known at v))
              (apply_result-IsSettled bet result when) (IsRun-AreGraded run)
      ]

  -- `settle_open_bets` settles each open bet by what its market says of its token, and leaves every
  -- other bet as it was, in their order; the number it returns counts the settled ones. A market
  -- settles a bet where it is closed and the token is one of its two outcomes: won or lost where it
  -- names its winner, and push where it names none and both outcomes stand at a half, to 1e-6.
  pub settle_open_bets-AreGraded :
      (ledger : Ledger F) (feed : Dict (PmMarket F)) (now : ℕ) {after : Ledger F} {n : ℕ}
      → settle_open_bets ledger feed now ≡ ok (after, n)
      → AreGraded feed now ledger.bets after.bets n
  settle_open_bets-AreGraded ledger feed now e =
      IsRun-AreGraded (settle_open_bets-IsRun ledger feed now e)
