-- ===== src/Float/Laws.antt =====
-- What the proofs use of `float`: facts of IEEE 754 arithmetic on finite doubles. Rounding is
-- monotone, so the rounded operations keep the order; a difference of two doubles has the sign that
-- it should. No law says that an operation is exact.
use sportsbetting.Base.{ℕ, ◌*◌, ◌^◌, ◌≤◌, ◌≡◌, ◌⊎◌, inl, inr, arith, false}
use sportsbetting.Float.{Float, float, decimal, ◌⊕◌, ◌⊖◌, ◌⊗◌, ◌⊘◌, le, ◌≼◌, ◌≺◌, round, floor}

pub record IsFloat (F : Type 0) ⦃fl : Float F⦄ : Type 0 where
  pub le_refl : (x : F) → x ≼ x
  pub le_trans : (x y z : F) → x ≼ y → y ≼ z → x ≼ z
  pub le_antisym : (x y : F) → x ≼ y → y ≼ x → x ≡ y
  pub le_total : (x y : F) → (x ≼ y) ⊎ (y ≼ x)
  -- Literals keep the order of the numbers that they stand for.
  pub decimal_mono :
      (m e n f : ℕ) → m * 10 ^ f ≤ n * 10 ^ e → ◌≼◌ {F = F} (decimal m e) (decimal n f)
  pub zero_lt_one : ◌≺◌ {F = F} (float 0) (float 1)
  pub add_comm : (x y : F) → x ⊕ y ≡ y ⊕ x
  pub add_mono : (x y z : F) → x ≼ y → x ⊕ z ≼ y ⊕ z
  pub add_nonneg : (x y : F) → float 0 ≼ y → x ≼ x ⊕ y
  pub sub_nonneg : (x y : F) → x ≼ y → float 0 ≼ y ⊖ x
  pub sub_nonpos : (x y : F) → x ≼ y → x ⊖ y ≼ float 0
  pub sub_mono : (x y z : F) → x ≼ y → x ⊖ z ≼ y ⊖ z
  pub sub_pos : (x y : F) → x ≺ y → float 0 ≺ y ⊖ x
  pub sub_le : (x y : F) → float 0 ≼ y → x ⊖ y ≼ x
  pub sub_anti : (x y z : F) → x ≼ y → z ⊖ y ≼ z ⊖ x
  pub mul_nonneg : (x y : F) → float 0 ≼ x → float 0 ≼ y → float 0 ≼ x ⊗ y
  pub mul_zero : (x : F) → x ⊗ float 0 ≡ float 0
  pub zero_mul : (x : F) → float 0 ⊗ x ≡ float 0
  pub mul_le : (x y : F) → float 0 ≼ x → y ≼ float 1 → x ⊗ y ≼ x
  pub div_nonneg : (x y : F) → float 0 ≼ x → float 0 ≺ y → float 0 ≼ x ⊘ y
  pub div_nonpos : (x y : F) → x ≼ float 0 → float 0 ≺ y → x ⊘ y ≼ float 0
  pub div_le_one : (x y : F) → x ≼ y → float 0 ≺ y → x ⊘ y ≼ float 1
  pub div_anti : (x y z : F) → float 0 ≼ x → float 0 ≺ y → y ≼ z → x ⊘ z ≼ x ⊘ y
  -- The midpoint of two doubles lies between them.
  pub half_between : (x y : F) → x ≼ y → (x ≼ (x ⊕ y) ⊘ float 2) × ((x ⊕ y) ⊘ float 2 ≼ y)
  pub round_mono : (x y : F) (n : ℕ) → x ≼ y → round x n ≼ round y n
  pub round_zero : (n : ℕ) → ◌≡◌ {A = F} (round (float 0) n) (float 0)
  pub floor_le : (x : F) → floor x ≼ x

module _ {F : Type 0} ⦃fl : Float F⦄ (laws : IsFloat F) where
  open laws use {le_trans, le_total, decimal_mono, zero_lt_one, add_comm, add_nonneg}

  pub le_of_lt : (x y : F) → x ≺ y → x ≼ y
  le_of_lt x y h = elim (le_total x y) [ inl p ↦ p | inr p ↦ ground (arith, p) ]

  pub le_of_not-le : (x y : F) → le x y ≡ false → y ≼ x
  le_of_not-le x y h = elim (le_total x y) [ inl p ↦ ground (arith, p) | inr p ↦ p ]

  pub lt_of_lt-le : (x y z : F) → x ≺ y → y ≼ z → x ≺ z
  lt_of_lt-le x y z h k = ground (arith, le_trans y z x k)

  pub lt_of_le-lt : (x y z : F) → x ≼ y → y ≺ z → x ≺ z
  lt_of_le-lt x y z h k = ground (arith, le_trans z x y)

  pub float_nonneg : (n : ℕ) → ◌≼◌ {F = F} (float 0) (float n)
  float_nonneg n = decimal_mono 0 0 n 0 (omega arith)

  pub float_pos : (n : ℕ) → 1 ≤ n → ◌≺◌ {F = F} (float 0) (float n)
  float_pos n h =
      lt_of_lt-le (float 0) (float 1) (float n) zero_lt_one (decimal_mono 1 0 n 0 (omega arith))
