-- ===== src/Float/Fixed.antt =====
-- An arithmetic that meets the laws and runs: signed multiples of a millionth, with results rounded
-- towards zero. It is what the tests and the concrete instances of the theorems compute with.
use native.Mathlib.Nat.{
  le-div_iff_mul-le, div-le_of_le-mul, div-mul-le_self, div-zero, zero-div, div-eq_of_lt,
  le_of_mul-le-mul_right, mul-le-mul_right, pow-suc,
}
use sportsbetting.Base.{
  ℕ, zero, suc, ◌+◌, ◌*◌, ◌/◌, ◌^◌, ◌≤◌, ◌<◌, ◌≡◌, refl, ap, arith, max, if◌then◌else◌, leb, true,
  not, leb→le,
}
use sportsbetting.Base.Int.{ℤ, pos, negsuc, pos_part, sub_ℕ, ◌+ℤ◌, ◌-ℤ◌, leb_ℤ}
use sportsbetting.Float.{Float}
use sportsbetting.Float.Laws.{IsFloat}

-- The number of units in one.
abbrev units : ℕ
units = 1_000_000

abbrev with_signs : (ℕ → ℕ → ℕ) → ℤ → ℤ → ℤ
with_signs f (pos m) (pos n) = pos (f m n)
with_signs f (pos m) (negsuc n) = sub_ℕ 0 (f m (suc n))
with_signs f (negsuc m) (pos n) = sub_ℕ 0 (f (suc m) n)
with_signs f (negsuc m) (negsuc n) = pos (f (suc m) (suc n))

-- The step of `round(x, n)`, in units: never below one.
abbrev step : ℕ → ℕ
step n = max 1 (units / 10 ^ n)

abbrev round_nat : ℕ → ℕ → ℕ
round_nat n m = (m + step n / 2) / step n * step n

abbrev round_fixed : ℤ → ℕ → ℤ
round_fixed (pos m) n = pos (round_nat n m)
round_fixed (negsuc m) n = sub_ℕ 0 (round_nat n (suc m))

abbrev floor_fixed : ℤ → ℤ
floor_fixed (pos m) = pos (m / units * units)
floor_fixed (negsuc m) = sub_ℕ 0 ((m + units) / units * units)

-- The whole root of a number below 4 ^ k.
abbrev isqrt : ℕ → ℕ → ℕ
isqrt zero n = 0
isqrt (suc k) n = let r = 2 * isqrt k (n / 4) in if leb ((r + 1) * (r + 1)) n then r + 1 else r

-- A whole power.
abbrev power : ℤ → ℕ → ℤ
power x zero = pos units
power x (suc k) = with_signs (λ m n. m * n / units) (power x k) x

instance abbrev pub fixed : Float ℤ
fixed = record {
  decimal = λ m e. pos (m * units / 10 ^ e);
  add = ◌+ℤ◌;
  sub = ◌-ℤ◌;
  mul = with_signs (λ m n. m * n / units);
  div = with_signs (λ m n. m * units / n);
  le = leb_ℤ;
  round = round_fixed;
  floor = floor_fixed;
  pow = λ x y. power x (pos_part y / units);
  sqrt = λ x. pos (isqrt 40 (pos_part x * units));
}

div_mono : (m n d : ℕ) → m ≤ n → m / d ≤ n / d
div_mono m n zero h = rw (div-zero, div-zero) (omega arith)
div_mono m n (suc d) h =
    (le-div_iff_mul-le (omega arith)).1 (omega (arith, div-mul-le_self m (suc d)))

div_anti_nat : (m c d : ℕ) → 0 < c → c ≤ d → m / d ≤ m / c
div_anti_nat m c d pos_c h = (le-div_iff_mul-le pos_c).1 (grind (arith, div-mul-le_self m d))

le→leb : (m n : ℕ) → m ≤ n → leb m n ≡ true
le→leb m n h = ground arith

round_nat_mono : (n a b : ℕ) → a ≤ b → round_nat n a ≤ round_nat n b
round_nat_mono n a b h =
    grind (arith, div_mono (a + step n / 2) (b + step n / 2) (step n) (omega arith))

abbrev ◌≤F◌ : ℤ → ℤ → Type 0
◌≤F◌ x y = leb_ℤ x y ≡ true

cross_le : (m n a A B : ℕ) → 0 < A → a * A ≤ m * units → m * B ≤ n * A → a * B ≤ n * units
cross_le m n a zero B p h k = elim p [ ]
cross_le m n a (suc A) B p h k =
    le_of_mul-le-mul_right {m = a * B} {n = n * units} {k = suc A}
      (omega (arith, mul-le-mul_right B h, mul-le-mul_right units k)) p

pow_pos : (e : ℕ) → 0 < 10 ^ e
pow_pos zero = omega arith
pow_pos (suc e) = rw pow-suc (omega (arith, pow_pos e))

decimal_mono_fixed :
    (m e n f : ℕ) → m * 10 ^ f ≤ n * 10 ^ e → ◌≤F◌ (fixed.decimal m e) (fixed.decimal n f)
decimal_mono_fixed m e n f h =
    let a = m * units / 10 ^ e in
    let bound : a * 10 ^ f ≤ n * units =
      cross_le m n a (10 ^ e) (10 ^ f) (pow_pos e) (div-mul-le_self (m * units) (10 ^ e)) h in
    let q = (le-div_iff_mul-le {k = 10 ^ f} {x = a} {y = n * units} (pow_pos f)).1 bound in
    le→leb _ _ (omega arith)

mul_nonneg_fixed : (x y : ℤ) → ◌≤F◌ (pos 0) x → ◌≤F◌ (pos 0) y → ◌≤F◌ (pos 0) (fixed.mul x y)
mul_nonneg_fixed (pos m) (pos n) h k = ground arith
mul_nonneg_fixed (pos m) (negsuc n) h k = ground arith
mul_nonneg_fixed (negsuc m) (pos n) h k = ground arith
mul_nonneg_fixed (negsuc m) (negsuc n) h k = ground arith

mul_le_fixed : (x y : ℤ) → ◌≤F◌ (pos 0) x → ◌≤F◌ y (pos units) → ◌≤F◌ (fixed.mul x y) x
mul_le_fixed (pos m) (pos n) h k = le→leb _ _ (
    omega (
      arith,
      div-le_of_le-mul units {m = m * n} {n = m} (grind (arith, leb→le (n + 0) (units + 0) k)),
    ))
mul_le_fixed (pos m) (negsuc n) h k = ground arith
mul_le_fixed (negsuc m) (pos n) h k = ground arith
mul_le_fixed (negsuc m) (negsuc n) h k = ground arith

div_nonneg_fixed :
    (x y : ℤ) → ◌≤F◌ (pos 0) x → not (leb_ℤ y (pos 0)) ≡ true → ◌≤F◌ (pos 0) (fixed.div x y)
div_nonneg_fixed (pos m) (pos n) h k = ground arith
div_nonneg_fixed (pos m) (negsuc n) h k = ground arith
div_nonneg_fixed (negsuc m) (pos n) h k = ground arith
div_nonneg_fixed (negsuc m) (negsuc n) h k = ground arith

mul_zero_fixed : (x : ℤ) → fixed.mul x (pos 0) ≡ pos 0
mul_zero_fixed (pos m) = ground arith
mul_zero_fixed (negsuc m) = ground arith

zero_mul_fixed : (x : ℤ) → fixed.mul (pos 0) x ≡ pos 0
zero_mul_fixed (pos m) = ground arith
zero_mul_fixed (negsuc m) = ground arith

div_nonpos_fixed :
    (x y : ℤ) → ◌≤F◌ x (pos 0) → not (leb_ℤ y (pos 0)) ≡ true → ◌≤F◌ (fixed.div x y) (pos 0)
div_nonpos_fixed (pos m) (pos n) h k =
    let none : m ≡ 0 = ground arith in rw none (le→leb _ _ (omega (arith, zero-div n)))
div_nonpos_fixed (pos m) (negsuc n) h k = ground arith
div_nonpos_fixed (negsuc m) (pos n) h k = ground arith
div_nonpos_fixed (negsuc m) (negsuc n) h k = ground arith

div_le_one_fixed :
    (x y : ℤ) → ◌≤F◌ x y → not (leb_ℤ y (pos 0)) ≡ true → ◌≤F◌ (fixed.div x y) (pos units)
div_le_one_fixed (pos m) (pos n) h k = le→leb _ _ (
    omega (
      arith,
      div-le_of_le-mul n {m = m * units} {n = units} omega (arith, leb→le (m + 0) (n + 0) h),
    ))
div_le_one_fixed (pos m) (negsuc n) h k = ground arith
div_le_one_fixed (negsuc m) (pos n) h k = ground arith
div_le_one_fixed (negsuc m) (negsuc n) h k = ground arith

div_anti_fixed :
    (x y z : ℤ)
    → ◌≤F◌ (pos 0) x
    → not (leb_ℤ y (pos 0)) ≡ true
    → ◌≤F◌ y z
    → ◌≤F◌ (fixed.div x z) (fixed.div x y)
div_anti_fixed (pos m) (pos n) (pos k) h p le = ground (arith, div_anti_nat (m * units) n k)
div_anti_fixed (pos m) (pos n) (negsuc k) h p le = ground arith
div_anti_fixed (pos m) (negsuc n) z h p le = ground arith
div_anti_fixed (negsuc m) y z h p le = ground arith

half_fixed :
    (x y : ℤ)
    → ◌≤F◌ x y
    → let half = fixed.div (x +ℤ y) (pos (2 * units)) in ◌≤F◌ x half × ◌≤F◌ half y
unfolding ◌+ℤ◌
half_fixed (pos m) (pos n) h = (ground arith, ground arith)
half_fixed (pos m) (negsuc n) h = (ground arith, ground arith)
half_fixed (negsuc m) (pos n) h = (ground arith, ground arith)
half_fixed (negsuc m) (negsuc n) h = (ground arith, ground arith)

round_mono_fixed : (x y : ℤ) (n : ℕ) → ◌≤F◌ x y → ◌≤F◌ (round_fixed x n) (round_fixed y n)
round_mono_fixed (pos a) (pos b) n h = ground (arith, round_nat_mono n a b)
round_mono_fixed (pos a) (negsuc b) n h = ground arith
round_mono_fixed (negsuc a) (pos b) n h = ground arith
round_mono_fixed (negsuc a) (negsuc b) n h = ground (arith, round_nat_mono n (suc b) (suc a))

floor_fixed_le : (x : ℤ) → ◌≤F◌ (floor_fixed x) x
floor_fixed_le (pos m) = ground arith
floor_fixed_le (negsuc m) = ground arith

round_nat_zero : (s : ℕ) → 0 < s → (0 + s / 2) / s * s ≡ 0
round_nat_zero s h = rw (div-eq_of_lt {n = 0 + s / 2} {m = s} (omega arith)) (omega arith)

round_zero_fixed : (n : ℕ) → pos (round_nat n 0) ≡ pos 0
round_zero_fixed n = ap pos (round_nat_zero (step n) (omega arith))

pub fixed-IsFloat : IsFloat ℤ
unfolding ◌+ℤ◌ ◌-ℤ◌
fixed-IsFloat = record {
  le_refl = λ x. ground arith;
  le_trans = λ x y z h k. ground arith;
  le_antisym = λ x y h k. ground arith;
  add_comm = λ x y. ground arith;
  le_total = λ x y. ground arith;
  decimal_mono = decimal_mono_fixed;
  zero_lt_one = refl;
  add_mono = λ x y z h. ground arith;
  add_nonneg = λ x y h. ground arith;
  sub_nonneg = λ x y h. ground arith;
  sub_nonpos = λ x y h. ground arith;
  sub_mono = λ x y z h. ground arith;
  sub_pos = λ x y h. ground arith;
  sub_le = λ x y h. ground arith;
  sub_anti = λ x y z h. ground arith;
  mul_nonneg = mul_nonneg_fixed;
  mul_zero = mul_zero_fixed;
  zero_mul = zero_mul_fixed;
  mul_le = mul_le_fixed;
  div_nonneg = div_nonneg_fixed;
  div_nonpos = div_nonpos_fixed;
  div_le_one = div_le_one_fixed;
  div_anti = div_anti_fixed;
  half_between = half_fixed;
  round_mono = round_mono_fixed;
  round_zero = round_zero_fixed;
  floor_le = floor_fixed_le;
}
