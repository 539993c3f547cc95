-- ===== src/Bets/Settle/Verdict.antt =====
-- What the scan settles a bet as, described by the market alone, and that `settle_open_bets` does so
-- for each open bet.
use sportsbetting.Base.{
  ℕ, zero, suc, ◌≡◌, ◌≢◌, ◌⊎◌, inl, inr, refl, sym, arith, String, true, false, ◌&&◌, Option, none,
  some, str_eq, str_eq_refl, eq_iff, Bool-cases, Option-cases, and_true,
}
use sportsbetting.Base.Result.{ok, ◌>>=◌}
use sportsbetting.Float.{Float, decimal, ◌⊖◌, ◌≼◌, abs}
use sportsbetting.Edge.Types.{PmMarket, PmOutcome}
use sportsbetting.Bets.Ledger.{Settlement, won, lost, push}
use sportsbetting.Bets.Settle.{
  pays_half, is_push, is_outcome, graded, token_at, resolved_letter, verdict,
}

module _ {F : Type 0} ⦃fl : Float F⦄ where
  abbrev pub PaysHalf : PmOutcome F → Type 0
  PaysHalf o = (p : F) × (o.last_price ≡ some p) × (abs (p ⊖ decimal 5 1) ≼ decimal 1 6)

  abbrev pub IsSide : PmMarket F → String → Type 0
  IsSide market token = (market.outcome_a.token_id ≡ token) ⊎ (market.outcome_b.token_id ≡ token)

  abbrev pub IsWinner : PmMarket F → PmOutcome F → Type 0
  IsWinner market winner =
      ((market.resolved_outcome_index ≡ some 0) × (winner ≡ market.outcome_a))
      ⊎ ((market.resolved_outcome_index ≡ some 1) × (winner ≡ market.outcome_b))

  -- What a closed market says of a bet on one of its tokens: won or lost where it names its winner,
  -- push where it names none and both outcomes stand at a half.
  abbrev pub IsVerdict : PmMarket F → String → Settlement → Type 0
  IsVerdict market token result =
      (market.closed ≡ true)
      × IsSide market token
      × (((winner : PmOutcome F) × IsWinner market winner
            × (((winner.token_id ≡ token) × (result ≡ won))
                ⊎ ((winner.token_id ≢ token) × (result ≡ lost))))
          ⊎ ((market.resolved_outcome_index ≡ none)
              × PaysHalf market.outcome_a
              × PaysHalf market.outcome_b
              × (result ≡ push)))

  is_outcome-IsSide :
      (market : PmMarket F) (token : String) → is_outcome market token ≡ true → IsSide market token
  is_outcome-IsSide market token h = elim (Bool-cases (str_eq market.outcome_a.token_id token)) [
    | inl a ↦ inl ((eq_iff market.outcome_a.token_id token).0 a)
    | inr not_a ↦
        let h' : str_eq market.outcome_b.token_id token ≡ true = rw not_a at h in
        inr ((eq_iff market.outcome_b.token_id token).0 h')
  ]

  IsSide-is_outcome :
      (market : PmMarket F) (token : String) → IsSide market token → is_outcome market token ≡ true
  IsSide-is_outcome market token (inl a) = rw (a, str_eq_refl token) refl
  IsSide-is_outcome market token (inr b) =
      let h : str_eq market.outcome_b.token_id token ≡ true = rw b (str_eq_refl token) in
      elim (Bool-cases (str_eq market.outcome_a.token_id token)) [
        | inl a ↦ rw a refl
        | inr not_a ↦ rw (not_a, h) refl
      ]

  pays_half-PaysHalf : (o : PmOutcome F) → pays_half o ≡ true → PaysHalf o
  pays_half-PaysHalf o h = elim (Option-cases o.last_price) [
    | inl nothing ↦ let h' : false ≡ true = rw nothing at h in cc
    | inr (p, is_p) ↦ (p, is_p, rw is_p at h)
  ]

  PaysHalf-pays_half : (o : PmOutcome F) → PaysHalf o → pays_half o ≡ true
  PaysHalf-pays_half o (p, is_p, near) = rw (is_p, near) refl

  graded-IsVerdict :
      (market : PmMarket F) (token : String) (winner : PmOutcome F) {result : Settlement}
      → market.closed ≡ true
      → IsSide market token
      → IsWinner market winner
      → graded (str_eq token winner.token_id) ≡ result
      → IsVerdict market token result
  graded-IsVerdict market token winner {result} over side wins e =
      elim (Bool-cases (str_eq token winner.token_id)) [
        | inl same ↦
            let e' : won ≡ result = rw same at e in
            (
              over,
              side,
              inl (winner, wins, inl (sym ((eq_iff token winner.token_id).0 same), sym e')),
            )
        | inr other ↦
            let e' : lost ≡ result = rw other at e in
            (
              over,
              side,
              inl (winner, wins, inr (ground (arith, other, eq_iff token winner.token_id), sym e')),
            )
      ]

  named-IsVerdict :
      (market : PmMarket F) (token : String) (index : ℕ) {result : Settlement}
      {letter : Option String}
      → market.closed ≡ true
      → IsSide market token
      → market.resolved_outcome_index ≡ some index
      → ◌>>=◌ {B = Option (Settlement × Option String)}
          (token_at market index)
          (λ winner. ok (some (graded (str_eq token winner), resolved_letter index)))
        ≡ ok (some (result, letter))
      → IsVerdict market token result
  named-IsVerdict market token zero over side named e =
      graded-IsVerdict market token market.outcome_a over side (inl (named, refl)) cc
  named-IsVerdict market token (suc zero) over side named e =
      graded-IsVerdict market token market.outcome_b over side (inr (named, refl)) cc
  named-IsVerdict market token (suc (suc n)) over side named e = cc

  is_push-halves :
      (market : PmMarket F)
      → market.closed ≡ true
      → market.resolved_outcome_index ≡ none
      → is_push market ≡ (pays_half market.outcome_a && pays_half market.outcome_b)
  unfolding is_push
  is_push-halves market over nobody = rw (nobody, over) refl

  pub verdict-IsVerdict :
      (market : PmMarket F) (token : String) {result : Settlement} {letter : Option String}
      → verdict (some market) token ≡ ok (some (result, letter))
      → IsVerdict market token result
  unfolding verdict
  verdict-IsVerdict market token {result} {letter} e = elim (Bool-cases market.closed) [
    | inr running ↦ let e' : ok none ≡ ok (some (result, letter)) = rw (running, verdict) at e in cc
    | inl over ↦ elim (Option-cases market.resolved_outcome_index) [
      | inl nobody ↦
          let halves = pays_half market.outcome_a && pays_half market.outcome_b in
          elim (Bool-cases (halves && is_outcome market token)) [
            | inl split ↦
                let e' : ok (some (push, none)) ≡ ok (some (result, letter)) =
                  rw (over, nobody, is_push-halves market over nobody, split, verdict) at e in
                let (both, side) = and_true halves (is_outcome market token) split in
                let (a, b) =
                  and_true (pays_half market.outcome_a) (pays_half market.outcome_b) both in
                (
                  over,
                  is_outcome-IsSide market token side,
                  inr (
                    nobody,
                    pays_half-PaysHalf market.outcome_a a,
                    pays_half-PaysHalf market.outcome_b b,
                    cc,
                  ),
                )
            | inr not_split ↦
                let e' : ok none ≡ ok (some (result, letter)) =
                  rw (over, nobody, is_push-halves market over nobody, not_split, verdict) at e in
                cc
          ]
      | inr (index, named) ↦ elim (Bool-cases (is_outcome market token)) [
        | inr foreign ↦
            let e' : ok none ≡ ok (some (result, letter)) =
              rw (over, named, foreign, verdict) at e in
            cc
        | inl side ↦
            named-IsVerdict market token index over (is_outcome-IsSide market token side) named
              (rw (over, named, side, verdict) at e)
      ]
    ]
  ]

  -- A market with a verdict on the token is not passed over.
  pub verdict-none :
      (market : PmMarket F) (token : String) {result : Settlement}
      → verdict (some market) token ≡ ok none
      → ¬ IsVerdict market token result
  unfolding verdict
  verdict-none market token e (over, side, inl (winner, inl (named, same), _)) =
      let there = IsSide-is_outcome market token side in
      let e' : ok (some (graded (str_eq token market.outcome_a.token_id), resolved_letter 0))
          ≡ ok none =
        rw (over, named, there, verdict) at e in
      cc
  verdict-none market token e (over, side, inl (winner, inr (named, same), _)) =
      let there = IsSide-is_outcome market token side in
      let e' : ok (some (graded (str_eq token market.outcome_b.token_id), resolved_letter 1))
          ≡ ok none =
        rw (over, named, there, verdict) at e in
      cc
  verdict-none market token e (over, side, inr (nobody, a, b, _)) =
      let there = IsSide-is_outcome market token side in
      let pays_a = PaysHalf-pays_half market.outcome_a a in
      let pays_b = PaysHalf-pays_half market.outcome_b b in
      let e' : ok (some (push, none)) ≡ ok none =
        rw (over, nobody, is_push-halves market over nobody, pays_a, pays_b, there, verdict) at e in
      cc
