-- ===== src/Odds/Bisect.antt =====
-- `_bisect`: the search that the power and the Shin method share. Python's loop runs at most
-- `_MAX_BISECT_ITER` rounds, so recursion on the rounds left is the loop itself.
use sportsbetting.Base.{
  ℕ, zero, suc, ◌≡◌, ◌≢◌, ◌⊎◌, inl, inr, refl, sym, ap, ◌∙◌, arith, Bool, true, false, not, ◌||◌,
  if◌then◌else◌, Bool-cases,
}
use sportsbetting.Base.Result.{Result, ok, value_error}
use sportsbetting.Float.{Float, float, ◌⊕◌, ◌⊘◌, le, lt, eq, ◌≼◌, abs}
use sportsbetting.Float.Laws.{IsFloat}

-- `_MAX_BISECT_ITER`
abbrev pub max_bisect_iter : ℕ
max_bisect_iter = 200

-- `a == b` on two Python bools.
abbrev pub same_bool : Bool → Bool → Bool
same_bool true b = b
same_bool false b = not b

module _ {F : Type 0} ⦃fl : Float F⦄ (f : F → F) (tol : F) where
  abbrev is_root : F → Bool
  is_root x = le (abs (f x)) tol

  abbrev is_positive : F → Bool
  is_positive y = lt (float 0) y

  -- The loop, on the bracket and the value at its lower end.
  unfoldable pub bisect_loop : ℕ → F → F → F → F
  bisect_loop zero lo hi f_lo = (lo ⊕ hi) ⊘ float 2
  bisect_loop (suc rounds) lo hi f_lo =
      let mid = (lo ⊕ hi) ⊘ float 2 in
      let f_mid = f mid in
      elim (eq mid lo || eq mid hi) [
        | true ↦ (lo ⊕ hi) ⊘ float 2
        | false ↦ elim (le (abs f_mid) tol) [
          | true ↦ mid
          | false ↦ elim (same_bool (is_positive f_mid) (is_positive f_lo)) [
            | true ↦ bisect_loop rounds mid hi f_mid
            | false ↦ bisect_loop rounds lo mid f_lo
          ]
        ]
      ]

  unfoldable pub bisect : F → F → Result F
  unfolding bisect_loop
  bisect lo hi =
      let f_lo = f lo in
      let f_hi = f hi in
      if le (abs f_lo) tol
      then ok lo
      else if le (abs f_hi) tol
      then ok hi
      else if same_bool (is_positive f_lo) (is_positive f_hi)
      then value_error
      else ok (bisect_loop max_bisect_iter lo hi f_lo)

  -- Between `a` and `b` the function changes its sign.
  abbrev pub Brackets : F → F → Type 0
  Brackets a b = is_positive (f a) ≢ is_positive (f b)

  -- `n` halvings of a range, each at its middle, down to `a` and `b`.
  pub data IsHalved : ℕ → F → F → F → F → Type 0 where
    whole : (a b : F) → IsHalved 0 a b a b
    upper :
        {n : ℕ} {lo hi a b : F}
        → IsHalved n ((lo ⊕ hi) ⊘ float 2) hi a b
        → IsHalved (suc n) lo hi a b
    lower :
        {n : ℕ} {lo hi a b : F}
        → IsHalved n lo ((lo ⊕ hi) ⊘ float 2) a b
        → IsHalved (suc n) lo hi a b

  -- What a returned root is: a value within the tolerance, or the middle of a sign change that is
  -- left when the search can go on no further: it has halved the range `rounds` times, or no other
  -- double lies between the ends.
  pub data IsFound (rounds : ℕ) (lo hi root : F) : Type 0 where
    hit : le (abs (f root)) tol ≡ true → lo ≼ root → root ≼ hi → IsFound rounds lo hi root
    middle :
        (n : ℕ) (a b : F)
        → IsHalved n lo hi a b
        → lo ≼ a
        → a ≼ b
        → b ≼ hi
        → Brackets a b
        → (n ≡ rounds) ⊎ (eq root a ≡ true) ⊎ (eq root b ≡ true)
        → root ≡ (a ⊕ b) ⊘ float 2
        → IsFound rounds lo hi root

  more_rounds : {n rounds : ℕ} {A : Type 0} → (n ≡ rounds) ⊎ A → (suc n ≡ suc rounds) ⊎ A
  more_rounds (inl e) = inl (ap suc e)
  more_rounds (inr a) = inr a

  or_true : (a b : Bool) → (a || b) ≡ true → (a ≡ true) ⊎ (b ≡ true)
  or_true true b h = inl refl
  or_true false b h = inr h

  module _ (laws : IsFloat F) where
    open laws use {le_refl, le_trans, half_between}

    upper_half :
        (rounds : ℕ) (lo hi : F) {root : F}
        → lo ≼ (lo ⊕ hi) ⊘ float 2
        → IsFound rounds ((lo ⊕ hi) ⊘ float 2) hi root
        → IsFound (suc rounds) lo hi root
    upper_half rounds lo hi h (hit e p q) = hit e (le_trans lo _ _ h p) q
    upper_half rounds lo hi h (middle n a b halved p q r br done e) =
        middle (suc n) a b (IsHalved.upper halved) (le_trans lo _ a h p) q r br (more_rounds done) e

    lower_half :
        (rounds : ℕ) (lo hi : F) {root : F}
        → (lo ⊕ hi) ⊘ float 2 ≼ hi
        → IsFound rounds lo ((lo ⊕ hi) ⊘ float 2) root
        → IsFound (suc rounds) lo hi root
    lower_half rounds lo hi h (hit e p q) = hit e p (le_trans _ _ hi q h)
    lower_half rounds lo hi h (middle n a b halved p q r br done e) =
        middle (suc n) a b (IsHalved.lower halved) p q (le_trans b _ hi r h) br (more_rounds done) e

    same_bool-eq : (a b : Bool) → same_bool a b ≡ true → a ≡ b
    same_bool-eq true b h = sym h
    same_bool-eq false b h = ground arith

    same_bool-ne : (a b : Bool) → same_bool a b ≡ false → a ≢ b
    same_bool-ne a b h e = ground arith

    bisect_loop-IsFound :
        (rounds : ℕ) (lo hi : F)
        → lo ≼ hi
        → Brackets lo hi
        → IsFound rounds lo hi (bisect_loop rounds lo hi (f lo))
    unfolding bisect_loop
    bisect_loop-IsFound zero lo hi le_ends br =
        middle 0 lo hi (IsHalved.whole lo hi) (le_refl lo) le_ends (le_refl hi) br (inl refl) refl
    bisect_loop-IsFound (suc rounds) lo hi le_ends br =
        let mid = (lo ⊕ hi) ⊘ float 2 in
        let (above, below) = half_between lo hi le_ends in
        elim (Bool-cases (eq mid lo || eq mid hi)) [
          | inl stuck ↦
              rw (stuck, bisect_loop)
                (middle 0 lo hi (IsHalved.whole lo hi) (le_refl lo) le_ends (le_refl hi) br
                  (inr (or_true (eq mid lo) (eq mid hi) stuck)) refl)
          | inr split ↦ elim (Bool-cases (le (abs (f mid)) tol)) [
            | inl near ↦ rw (split, near, bisect_loop) (hit near above below)
            | inr far ↦ elim (Bool-cases (same_bool (is_positive (f mid)) (is_positive (f lo)))) [
              | inl same ↦
                  rw (split, far, same, bisect_loop)
                    (upper_half rounds lo hi above (
                      bisect_loop-IsFound rounds mid hi below
                        (λ e. br (sym (same_bool-eq _ _ same) ∙ e))))
              | inr other ↦
                  rw (split, far, other, bisect_loop)
                    (lower_half rounds lo hi below (
                      bisect_loop-IsFound rounds lo mid above
                        (λ e. same_bool-ne _ _ other (sym e))))
            ]
          ]
        ]

    -- The search answers unless neither end is a root and both have one sign. What it answers lies
    -- inside the range, and is a value within the tolerance or else the middle of a sign change that
    -- is left after 200 halvings of the range, or earlier where that middle is one of its two ends.
    pub bisect_correct :
        (lo hi : F)
        → lo ≼ hi
        → ((root : F) × (bisect lo hi ≡ ok root) × IsFound 200 lo hi root)
          ⊎ ((bisect lo hi ≡ value_error)
              × (le (abs (f lo)) tol ≡ false)
              × (le (abs (f hi)) tol ≡ false)
              × (is_positive (f lo) ≡ is_positive (f hi)))
    unfolding bisect
    bisect_correct lo hi le_ends = elim (Bool-cases (le (abs (f lo)) tol)) [
      | inl low ↦ inl (lo, rw low, hit low (le_refl lo) le_ends)
      | inr not_low ↦ elim (Bool-cases (le (abs (f hi)) tol)) [
        | inl high ↦ inl (hi, rw (not_low, high), hit high le_ends (le_refl hi))
        | inr not_high ↦ elim (Bool-cases (same_bool (is_positive (f lo)) (is_positive (f hi)))) [
          | inl same ↦ inr (rw (not_low, not_high, same), not_low, not_high, same_bool-eq _ _ same)
          | inr other ↦ inl (
            bisect_loop max_bisect_iter lo hi (f lo),
            rw (not_low, not_high, other),
            bisect_loop-IsFound max_bisect_iter lo hi le_ends (same_bool-ne _ _ other),
          )
        ]
      ]
    ]
