-- ===== src/Odds/Convert.antt =====
-- `american_to_prob`, `prob_to_american`, `decimal_to_prob`.
use sportsbetting.Base.{
  ℕ, suc, ◌≤◌, ◌≡◌, ◌⊎◌, inl, inr, sym, ◌∙◌, arith, not, ◌&&◌, if◌then◌else◌, Bool-cases, ltb,
}
use sportsbetting.Base.Int.{ℤ, pos, negsuc, pos_part, neg_part, ltb_ℤ, ◌≤ℤ◌}
use sportsbetting.Base.Result.{Result, ok, value_error}
use sportsbetting.Float.{Float, float, decimal, ◌⊕◌, ◌⊖◌, ◌⊗◌, ◌⊘◌, lt, ◌≼◌, ◌≺◌, floor, neg}
use sportsbetting.Float.Laws.{IsFloat, float_nonneg, float_pos, lt_of_lt-le}

module _ {F : Type 0} ⦃fl : Float F⦄ where
  -- The price is a Python int, `-odds` of a negative one its absolute value.
  unfoldable pub american_to_prob : ℤ → Result F
  american_to_prob odds =
      if ltb_ℤ (negsuc 99) odds && ltb_ℤ odds (pos 100)
      then value_error
      else if ltb_ℤ (pos 0) odds
      then ok (float 100 ⊘ (float (pos_part odds) ⊕ float 100))
      else ok (float (neg_part odds) ⊘ (float (neg_part odds) ⊕ float 100))

  -- `_round_half_up`, as the whole float that `int` takes over.
  unfoldable pub round_half_up : F → F
  round_half_up x = floor (x ⊕ decimal 5 1)

  unfoldable pub prob_to_american : F → Result F
  unfolding round_half_up
  prob_to_american p =
      if not (lt (float 0) p && lt p (float 1))
      then value_error
      else if lt (decimal 5 1) p
      then ok (neg (round_half_up (float 100 ⊗ p ⊘ (float 1 ⊖ p))))
      else ok (round_half_up (float 100 ⊗ (float 1 ⊖ p) ⊘ p))

  unfoldable pub decimal_to_prob : F → Result F
  decimal_to_prob d = if not (lt (float 1) d) then value_error else ok (float 1 ⊘ d)

-- No such price: strictly between -100 and +100.
abbrev pub IsNoPrice : ℤ → Type 0
IsNoPrice odds = (negsuc 98 ≤ℤ odds) × (odds ≤ℤ pos 99)

module _ {F : Type 0} ⦃fl : Float F⦄ where
  american_to_prob_fails : (odds : ℤ) → IsNoPrice odds → american_to_prob {F = F} odds ≡ value_error
  unfolding american_to_prob
  american_to_prob_fails (pos n) h = ground arith
  american_to_prob_fails (negsuc n) h = ground arith

  american-pos :
      (n : ℕ) → 100 ≤ n → american_to_prob {F = F} (pos n) ≡ ok (float 100 ⊘ (float n ⊕ float 100))
  unfolding american_to_prob
  american-pos n h = ground arith

  american-negsuc :
      (n : ℕ)
      → 99 ≤ n
      → american_to_prob {F = F} (negsuc n) ≡ ok (float (suc n) ⊘ (float (suc n) ⊕ float 100))
  unfolding american_to_prob
  american-negsuc n h = ground arith

  module _ (laws : IsFloat F) where
    open laws use {
      le_trans, add_nonneg, add_comm, div_nonneg, div_le_one, div_anti, add_mono, decimal_mono,
    }

    -- n + 100 is positive, at least n and at least 100.
    stake_pos : (n : ℕ) → ◌≺◌ {F = F} (float 0) (float n ⊕ float 100)
    stake_pos n =
        lt_of_lt-le laws (float 0) (float 100) (float n ⊕ float 100)
          (float_pos laws 100 (omega arith))
          (rw (add_comm (float n) (float 100))
            (add_nonneg (float 100) (float n) (float_nonneg laws n)))

    abbrev pub IsProb : F → Type 0
    IsProb p = (float 0 ≼ p) × (p ≼ float 1)

    share_IsProb : (x y : F) → float 0 ≼ x → x ≼ y → float 0 ≺ y → IsProb (x ⊘ y)
    share_IsProb x y h k p = (div_nonneg x y h p, div_le_one x y k p)

    -- American odds convert exactly when such a price exists, and then to a probability.
    pub american_to_prob_correct :
        (odds : ℤ)
        → (IsNoPrice odds × (american_to_prob {F = F} odds ≡ value_error))
          ⊎ (¬ IsNoPrice odds × (p : F) × (american_to_prob odds ≡ ok p) × IsProb p)
    american_to_prob_correct (pos n) = elim (Bool-cases (ltb n 100)) [
      | inl below ↦ inl ((ground arith), american_to_prob_fails (pos n) (ground arith))
      | inr above ↦ inr (
        ground arith,
        float 100 ⊘ (float n ⊕ float 100),
        american-pos n (ground arith),
        share_IsProb (float 100) (float n ⊕ float 100) (float_nonneg laws 100)
            (rw (add_comm (float n) (float 100))
              (add_nonneg (float 100) (float n) (float_nonneg laws n)))
            (stake_pos n),
      )
    ]
    american_to_prob_correct (negsuc n) = elim (Bool-cases (ltb n 99)) [
      | inl below ↦ inl ((ground arith), american_to_prob_fails (negsuc n) (ground arith))
      | inr above ↦ inr (
        ground arith,
        float (suc n) ⊘ (float (suc n) ⊕ float 100),
        american-negsuc n (ground arith),
        share_IsProb (float (suc n)) (float (suc n) ⊕ float 100) (float_nonneg laws (suc n))
            (add_nonneg (float (suc n)) (float 100) (float_nonneg laws 100)) (stake_pos (suc n)),
      )
    ]

    -- Of two underdog prices the longer one implies the smaller probability.
    american_to_prob_anti :
        (m n : ℕ) {p q : F}
        → 100 ≤ m
        → m ≤ n
        → american_to_prob (pos m) ≡ ok p
        → american_to_prob (pos n) ≡ ok q
        → q ≼ p
    american_to_prob_anti m n {p} {q} hm h ep eq =
        let a : ok p ≡ ok (float 100 ⊘ (float m ⊕ float 100)) = sym ep ∙ american-pos m hm in
        let b : ok q ≡ ok (float 100 ⊘ (float n ⊕ float 100)) =
          sym eq ∙ american-pos n (omega arith) in
        let longer =
          div_anti (float 100) (float m ⊕ float 100) (float n ⊕ float 100) (float_nonneg laws 100)
            (stake_pos m)
            (add_mono (float m) (float n) (float 100) (decimal_mono m 0 n 0 (omega arith))) in
        let ep' : p ≡ float 100 ⊘ (float m ⊕ float 100) = cc in
        let eq' : q ≡ float 100 ⊘ (float n ⊕ float 100) = cc in rw (ep', eq') longer
