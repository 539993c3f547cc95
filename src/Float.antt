-- ===== src/Float.antt =====
-- Python's `float`, as the operations that the program uses. The circled signs are the rounded
-- operations of IEEE 754 double precision. The type stands for the finite doubles, with -0.0 and
-- 0.0 as one value; NaN and the infinities are not in it, so an overflow is outside the model.
pub mod Laws
pub mod Fixed
use sportsbetting.Base.{ℕ, ◌≡◌, Bool, true, not, ◌&&◌, if◌then◌else◌, List, [], ◌∷◌}

pub record Float (F : Type 0) : Type 0 where
  -- The literal that stands for m / 10 ^ e, `decimal m e`.
  pub decimal : ℕ → ℕ → F
  pub add : F → F → F
  pub sub : F → F → F
  pub mul : F → F → F
  pub div : F → F → F
  pub le : F → F → Bool
  -- `round(x, n)` and `math.floor(x)` as a float.
  pub round : F → ℕ → F
  pub floor : F → F
  -- `x ** y` and `math.sqrt(x)`.
  pub pow : F → F → F
  pub sqrt : F → F

module _ {F : Type 0} ⦃fl : Float F⦄ where
  infixl 65 ◌⊕◌ ◌⊖◌
  infixl 70 ◌⊗◌ ◌⊘◌
  infix 50 ◌≼◌ ◌≺◌
  abbrev pub float : ℕ → F
  float n = fl.decimal n 0

  abbrev pub decimal : ℕ → ℕ → F
  decimal = fl.decimal

  abbrev pub ◌⊕◌ : F → F → F
  ◌⊕◌ = fl.add

  abbrev pub ◌⊖◌ : F → F → F
  ◌⊖◌ = fl.sub

  abbrev pub ◌⊗◌ : F → F → F
  ◌⊗◌ = fl.mul

  abbrev pub ◌⊘◌ : F → F → F
  ◌⊘◌ = fl.div

  -- The tests `x <= y` and `x < y`, and what they say.
  abbrev pub le : F → F → Bool
  le = fl.le

  abbrev pub lt : F → F → Bool
  lt x y = not (fl.le y x)

  abbrev pub eq : F → F → Bool
  eq x y = fl.le x y && fl.le y x

  abbrev pub ◌≼◌ : F → F → Type 0
  x ≼ y = fl.le x y ≡ true

  abbrev pub ◌≺◌ : F → F → Type 0
  x ≺ y = lt x y ≡ true

  abbrev pub round : F → ℕ → F
  round = fl.round

  abbrev pub floor : F → F
  floor = fl.floor

  abbrev pub sqrt : F → F
  sqrt = fl.sqrt

  abbrev pub neg : F → F
  neg x = float 0 ⊖ x

  abbrev pub abs : F → F
  abs x = if fl.le (float 0) x then x else neg x

  -- `min` and `max` keep their first argument where the two are equal.
  abbrev pub min : F → F → F
  min x y = if lt y x then y else x

  abbrev pub max : F → F → F
  max x y = if lt x y then y else x

  -- `sum(xs)`, from the left.
  abbrev pub sum_from : F → List F → F
  sum_from acc [] = acc
  sum_from acc (x ∷ xs) = sum_from (acc ⊕ x) xs

  abbrev pub sum : List F → F
  sum = sum_from (float 0)
