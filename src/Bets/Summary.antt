-- ===== src/Bets/Summary.antt =====
-- `ledger_summary` of app/services/bets.py.
use sportsbetting.Base.{
  ℕ, Bool, true, false, not, Option, none, some, List, [], ◌∷◌, map, filter, length, if◌then◌else◌,
}
use sportsbetting.Float.{Float, float, ◌⊘◌, lt, round, sum}
use sportsbetting.Bets.Ledger.{won, lost, void, push, Status, settled, Bet, is_pending}

pub record Summary (F : Type 0) : Type 0 where
  pub n_open : ℕ
  pub n_settled : ℕ
  pub n_won : ℕ
  pub n_lost : ℕ
  pub n_push : ℕ
  pub total_staked : F
  pub total_pnl : F
  pub roi : F
  pub avg_clv : Option F
  pub n_clv_positive : ℕ
  pub n_clv_recorded : ℕ

abbrev pub is_won : Status → Bool
is_won (settled won) = true
is_won status = false

abbrev pub is_lost : Status → Bool
is_lost (settled lost) = true
is_lost status = false

abbrev pub is_pushed : Status → Bool
is_pushed (settled push) = true
is_pushed status = false

abbrev pub is_void : Status → Bool
is_void (settled void) = true
is_void status = false

-- `DECIDED_STATUSES`
abbrev pub is_decided : Status → Bool
is_decided (settled won) = true
is_decided (settled lost) = true
is_decided (settled push) = true
is_decided status = false

module _ {F : Type 0} ⦃fl : Float F⦄ where
  -- `b.pnl_usd or 0.0`
  abbrev pub pnl_or_zero : Bet F → F
  pnl_or_zero bet = elim bet.pnl_usd [ none ↦ float 0 | some pnl ↦ pnl ]

  -- `[b.clv for b in bets if b.clv is not None]`
  abbrev clvs_of : List (Bet F) → List F
  clvs_of [] = []
  clvs_of (bet ∷ bets) =
      let rest = clvs_of bets in elim bet.clv [ none ↦ rest | some clv ↦ clv ∷ rest ]

  abbrev average : List F → Option F
  average [] = none
  average (x ∷ xs) = some (sum (x ∷ xs) ⊘ float (length (x ∷ xs)))

  unfoldable pub ledger_summary : List (Bet F) → Summary F
  ledger_summary bets =
      let settled_bets = filter (λ b. not (is_pending b.status)) bets in
      let decided = filter (λ b. is_decided b.status) settled_bets in
      let total_staked = sum (map (λ b. b.stake_usd) decided) in
      let total_pnl = sum (map pnl_or_zero settled_bets) in
      let clvs = clvs_of bets in
      record {
        n_open = length (filter (λ b. is_pending b.status) bets);
        n_settled = length settled_bets;
        n_won = length (filter (λ b. is_won b.status) settled_bets);
        n_lost = length (filter (λ b. is_lost b.status) settled_bets);
        n_push = length (filter (λ b. is_pushed b.status) settled_bets);
        total_staked = round total_staked 2;
        total_pnl = round total_pnl 2;
        roi = if lt (float 0) total_staked then total_pnl ⊘ total_staked else float 0;
        avg_clv = average clvs;
        n_clv_positive = length (filter (λ c. lt (float 0) c) clvs);
        n_clv_recorded = length clvs;
      }
