-- ===== src/Base/Result.antt =====
-- A call that may raise: `value_error` is Python's ValueError (the message is not kept).
use mathlib.Core.Path.{◌≡◌, refl}
use mathlib.Core.Bool.{Bool, true, false}

pub data Result {ℓ} (A : Type ℓ) : Type ℓ where
  value_error : Result A
  ok : A → Result A

-- `if not test: raise ValueError(...)`
abbrev pub require : Bool → Result (Unit {0})
require test = elim test [ true ↦ ok tt | false ↦ value_error ]

module _ {ℓ κ} {A : Type ℓ} {B : Type κ} where
  infixl 5 ◌>>=◌
  -- What follows a call that may raise.
  abbrev pub ◌>>=◌ : Result A → (A → Result B) → Result B
  value_error >>= next = value_error
  ok a >>= next = next a

  abbrev pub map_ok : (A → B) → Result A → Result B
  map_ok f value_error = value_error
  map_ok f (ok a) = ok (f a)

infixl 5 ◌>>◌
abbrev pub ◌>>◌ {ℓ} : {B : Type ℓ} → Result (Unit {0}) → Result B → Result B
first >> second = first >>= λ _. second

-- A chain that does not raise: its first call returned something, and the rest went on with it.
pub >>=-eq-ok {ℓ κ} :
    {A : Type ℓ} {B : Type κ} (call : Result A) (next : A → Result B) {out : B}
    → call >>= next ≡ ok out
    → (found : A) × (call ≡ ok found) × (next found ≡ ok out)
>>=-eq-ok value_error next raised = cc
>>=-eq-ok (ok found) next returned = (found, refl, returned)

pub require-eq-ok {ℓ} :
    {B : Type ℓ} (t : Bool) (k : Result B) {b : B}
    → (require t >> k) ≡ ok b
    → (t ≡ true) × (k ≡ ok b)
require-eq-ok true k h = (refl, h)
require-eq-ok false k h = cc

pub ok_inj {ℓ} : {A : Type ℓ} {a b : A} → ok a ≡ ok b → a ≡ b
ok_inj h = cc
