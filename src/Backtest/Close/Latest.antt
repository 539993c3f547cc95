-- ===== src/Backtest/Close/Latest.antt =====
-- What `closing_trade` returns: the last trade before kickoff, and how many there were.
use sportsbetting.Base.{
  ℕ, suc, ◌+◌, ◌≤◌, ◌≡◌, ◌⊎◌, inl, inr, refl, ap, ◌∙◌, arith, Option, none, some, List, [], ◌∷◌,
  Bool-cases, Option-cases, All, length, ltb,
}
use sportsbetting.Float.{Float}
use sportsbetting.Backtest.Sample.{Trade}
use sportsbetting.Backtest.Close.{counted, take, closing_loop, closed_at, closing_trade}

abbrev pub keep {ℓ} : {A : Type ℓ} → Option A → List A → List A
keep none rest = rest
keep (some a) rest = a ∷ rest

module _ {F : Type 0} ⦃fl : Float F⦄ (index kickoff : ℕ) where
  -- The trades that count, in the order of the feed: on the outcome, before kickoff, at a price
  -- strictly between 0 and 1.
  abbrev pub eligible : List (Option (Trade F)) → List (F × ℕ)
  eligible [] = []
  eligible (trade ∷ trades) = keep (counted index kickoff trade) (eligible trades)

  abbrev pub IsIn : F × ℕ → List (F × ℕ) → Type 0
  IsIn t [] = ⊥
  IsIn t (u ∷ us) = (t ≡ u) ⊎ IsIn t us

  abbrev pub IsLast : F × ℕ → List (F × ℕ) → Type 0
  IsLast t ts = All (λ u. u.1 ≤ t.1) ts

  -- The loop over the eligible trades alone.
  abbrev run : List (F × ℕ) → Option (F × ℕ) × ℕ → Option (F × ℕ) × ℕ
  run [] state = state
  run (t ∷ ts) state = run ts (take (some t) state)

  closing_loop-run :
      (trades : List (Option (Trade F))) (state : Option (F × ℕ) × ℕ)
      → closing_loop index kickoff trades state ≡ run (eligible trades) state
  unfolding closing_loop
  closing_loop-run [] state = refl
  closing_loop-run (trade ∷ trades) state = elim (Option-cases (counted index kickoff trade)) [
    | inl out ↦ rw out (closing_loop-run trades state)
    | inr (t, counts) ↦ rw counts (closing_loop-run trades (take (some t) state))
  ]

  -- From a best trade on, the loop ends with a last one of it and the rest.
  run-some :
      (ts : List (F × ℕ)) (best : F × ℕ) (count : ℕ)
      → (t : F × ℕ) × (run ts (some best, count) ≡ (some t, count + length ts))
        × ((t ≡ best) ⊎ IsIn t ts)
        × (best.1 ≤ t.1)
        × IsLast t ts
  run-some [] best count = (best, ground arith, inl refl, omega arith, tt)
  run-some (u ∷ ts) best count = elim (Bool-cases (ltb best.1 u.1)) [
    | inl newer ↦
        let (t, e, from, bound, last) = run-some ts u (suc count) in
        (t, rw newer (ground (arith, e)), inr from, ground (arith, newer, bound), (bound, last))
    | inr older ↦
        let (t, e, from, bound, last) = run-some ts best (suc count) in
        (t, rw older (ground (arith, e)), shift from, bound, (ground (arith, older, bound), last))
  ]
    where
      shift : {t : F × ℕ} → (t ≡ best) ⊎ IsIn t ts → (t ≡ best) ⊎ IsIn t (u ∷ ts)
      shift (inl e) = inl e
      shift (inr m) = inr (inr m)

  -- No trade counts and there is no answer; or the answer is a trade that counts, none that counts is
  -- later, and it comes with their number.
  pub closing_trade_latest :
      (trades : List (Option (Trade F)))
      → ((eligible trades ≡ []) × (closing_trade trades index kickoff ≡ none))
        ⊎ ((t : F × ℕ) × (closing_trade trades index kickoff
              ≡ some (t.0, t.1, length (eligible trades)))
            × IsIn t (eligible trades)
            × IsLast t (eligible trades))
  unfolding closing_trade
  closing_trade_latest trades =
      finish (eligible trades) (ap closed_at (closing_loop-run trades (none, 0)))
    where
      finish :
          (ts : List (F × ℕ)) {answer : Option (F × ℕ × ℕ)}
          → answer ≡ closed_at (run ts (none, 0))
          → ((ts ≡ []) × (answer ≡ none))
            ⊎ ((t : F × ℕ) × (answer ≡ some (t.0, t.1, length ts)) × IsIn t ts × IsLast t ts)
      finish [] e = inl (refl, e)
      finish (u ∷ ts) e =
          let (t, r, from, bound, last) = run-some ts u 1 in
          let n_eq : 1 + length ts ≡ suc (length ts) = omega arith in
          inr (t, e ∙ ap closed_at r ∙ ap (λ n. some (t.0, t.1, n)) n_eq, from, (bound, last))
