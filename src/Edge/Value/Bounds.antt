-- ===== src/Edge/Value/Bounds.antt =====
-- Bounds on the Kelly fraction and on the stake, and that no edge means no stake.
use sportsbetting.Base.{◌≡◌, ◌⊎◌, inl, inr, arith, not, Bool-cases}
use sportsbetting.Base.Result.{ok, value_error, require-eq-ok}
use sportsbetting.Float.{Float, float, ◌⊖◌, ◌⊗◌, ◌⊘◌, le, lt, ◌≼◌, min, max, round}
use sportsbetting.Float.Laws.{IsFloat, le_of_lt}
use sportsbetting.Edge.Value.{kelly_fraction, stake_for, min_stake_usd}

module _ {F : Type 0} ⦃fl : Float F⦄ (laws : IsFloat F) where
  open laws use {
    le_refl, le_trans, le_antisym, zero_lt_one, sub_mono, sub_pos, sub_nonpos, div_le_one,
    div_nonpos, mul_zero, zero_mul, round_mono, round_zero, mul_nonneg, div_nonneg,
  }

  zero_le_one : ◌≼◌ {F = F} (float 0) (float 1)
  zero_le_one = le_of_lt laws (float 0) (float 1) zero_lt_one

  max_ge : (x y : F) → x ≼ max x y
  max_ge x y = elim (Bool-cases (lt x y)) [
    | inl h ↦ rw h (le_of_lt laws x y h)
    | inr h ↦ rw h (le_refl x)
  ]

  max_le : (x y z : F) → x ≼ z → y ≼ z → max x y ≼ z
  max_le x y z h k = ground arith

  -- At a cost at or above the fair probability Kelly's fraction is 0.
  pub kelly_fraction_no_edge :
      (fair cost : F) {kelly : F}
      → fair ≼ cost
      → kelly_fraction fair cost ≡ ok kelly
      → kelly ≡ float 0
  unfolding kelly_fraction
  kelly_fraction_no_edge fair cost {kelly} h e = elim (Bool-cases (le cost (float 0))) [
    | inl bad ↦ let e' : value_error ≡ ok kelly = rw bad at e in cc
    | inr good ↦ elim (Bool-cases (le (float 1) cost)) [
      | inl high ↦ let e' : ok (float 0) ≡ ok kelly = rw (good, high) at e in cc
      | inr low ↦
          let f = (fair ⊖ cost) ⊘ (float 1 ⊖ cost) in
          let e' : ok (max (float 0) f) ≡ ok kelly = rw (good, low) at e in
          let below : f ≼ float 0 =
            div_nonpos (fair ⊖ cost) (float 1 ⊖ cost) (sub_nonpos fair cost h)
              (sub_pos cost (float 1) (ground arith)) in
          ground arith
    ]
  ]

  -- Where it answers, Kelly's fraction lies between 0 and 1 for every fair probability up to 1.
  kelly_fraction_bounds :
      (fair cost : F) {kelly : F}
      → fair ≼ float 1
      → kelly_fraction fair cost ≡ ok kelly
      → (float 0 ≼ kelly) × (kelly ≼ float 1)
  unfolding kelly_fraction
  kelly_fraction_bounds fair cost {kelly} h e = elim (Bool-cases (le cost (float 0))) [
    | inl bad ↦ let e' : value_error ≡ ok kelly = rw bad at e in cc
    | inr good ↦ elim (Bool-cases (le (float 1) cost)) [
      | inl high ↦
          let e' : ok (float 0) ≡ ok kelly = rw (good, high) at e in
          let same : kelly ≡ float 0 = cc in (rw same (le_refl (float 0)), rw same zero_le_one)
      | inr low ↦
          let f = (fair ⊖ cost) ⊘ (float 1 ⊖ cost) in
          let e' : ok (max (float 0) f) ≡ ok kelly = rw (good, low) at e in
          let same : kelly ≡ max (float 0) f = cc in
          let below : f ≼ float 1 =
            div_le_one (fair ⊖ cost) (float 1 ⊖ cost) (sub_mono fair (float 1) cost h)
              (sub_pos cost (float 1) (ground arith)) in
          (rw same (max_ge (float 0) f), rw same (max_le (float 0) f (float 1) zero_le_one below))
    ]
  ]

  pub min_le_right : (x y : F) → min x y ≼ y
  min_le_right x y = elim (Bool-cases (lt y x)) [
    | inl h ↦ rw h (le_refl y)
    | inr h ↦ rw h (ground arith)
  ]

  pub min_le_left : (x y : F) → min x y ≼ x
  min_le_left x y = elim (Bool-cases (lt y x)) [
    | inl h ↦ rw h (le_of_lt laws y x h)
    | inr h ↦ rw h (le_refl x)
  ]

  abbrev pub cap_of : F → F → F
  cap_of bankroll max_stake_pct = bankroll ⊗ max_stake_pct ⊘ float 100

  -- A stake is 0 or at least the minimum, and never above the cap nor above what fractional Kelly
  -- asks for, both rounded to the cent.
  pub stake_for_bounds :
      (bankroll kelly fraction max_stake_pct min_stake : F) {stake : F}
      → stake_for bankroll kelly fraction max_stake_pct min_stake ≡ ok stake
      → (stake ≡ float 0)
        ⊎ ((min_stake ≼ stake)
            × (stake ≼ round (cap_of bankroll max_stake_pct) 2)
            × (stake ≼ round (bankroll ⊗ kelly ⊗ fraction) 2))
  unfolding stake_for
  stake_for_bounds bankroll kelly fraction pct min_stake {stake} e =
      let (_, e₁) = require-eq-ok (not (lt bankroll (float 0))) _ e in
      let (_, e₂) = require-eq-ok (not (lt kelly (float 0))) _ e₁ in
      let (_, e₃) = require-eq-ok (not (lt fraction (float 0))) _ e₂ in
      let (_, e₄) = require-eq-ok (not (lt pct (float 0))) _ e₃ in
      let (_, e₅) = require-eq-ok (not (lt min_stake (float 0))) _ e₄ in
      let raw = bankroll ⊗ kelly ⊗ fraction in
      let cap = cap_of bankroll pct in
      let rounded = round (min raw cap) 2 in
      elim (Bool-cases (le min_stake rounded)) [
        | inl big ↦
            let e' : ok rounded ≡ ok stake = rw big at e₅ in
            let same : stake ≡ rounded = cc in
            inr (
              rw same big,
              rw same (round_mono (min raw cap) cap 2 (min_le_right raw cap)),
              rw same (round_mono (min raw cap) raw 2 (min_le_left raw cap)),
            )
        | inr small ↦ let e' : ok (float 0) ≡ ok stake = rw small at e₅ in inl cc
      ]

  -- With a Kelly fraction of 0 nothing is staked.
  pub stake_for_zero :
      (bankroll fraction max_stake_pct : F) {stake : F}
      → stake_for bankroll (float 0) fraction max_stake_pct min_stake_usd ≡ ok stake
      → stake ≡ float 0
  stake_for_zero bankroll fraction pct {stake} e =
      elim (stake_for_bounds bankroll (float 0) fraction pct min_stake_usd e) [
        | inl nothing ↦ nothing
        | inr (big, _, small) ↦
            let none_asked : round (bankroll ⊗ float 0 ⊗ fraction) 2 ≡ float 0 =
              rw (mul_zero, zero_mul) (round_zero 2) in
            let below : stake ≼ float 0 = rw none_asked at small in
            let one_le : ◌≼◌ {F = F} (float 1) (float 0) =
              le_trans (float 1) stake (float 0) big below in
            let positive = zero_lt_one in ground arith
      ]
