-- ===== src/Base/Text.antt =====
-- Python's order on texts, by code points.
use Prim.Native.Char.{code}
use Prim.Native.Nat.{ℕ, compare, Ordering}
use Prim.Native.String.{String}
use mathlib.Core.Path.{◌≡◌, refl, ap₂}
use native.Mathlib.Omega.{arith}
use text.Mathlib.TextEquality.{Char-path}

unfoldable pub compare_text : String → String → Ordering
compare_text String.[] String.[] = Ordering.eq
compare_text String.[] (String.◌∷◌ d t) = Ordering.lt
compare_text (String.◌∷◌ c s) String.[] = Ordering.gt
compare_text (String.◌∷◌ c s) (String.◌∷◌ d t) = elim (compare (code c) (code d)) [
  | Ordering.lt ↦ Ordering.lt
  | Ordering.eq ↦ compare_text s t
  | Ordering.gt ↦ Ordering.gt
]

code_eq : (m n : ℕ) → compare m n ≡ Ordering.eq → m ≡ n
code_eq m n h = ground arith

pub compare_text-eq : (s t : String) → compare_text s t ≡ Ordering.eq → s ≡ t
unfolding compare_text
compare_text-eq String.[] String.[] h = refl
compare_text-eq String.[] (String.◌∷◌ d t) h = cc
compare_text-eq (String.◌∷◌ c s) String.[] h = cc
compare_text-eq (String.◌∷◌ c s) (String.◌∷◌ d t) h =
    ap₂ String.◌∷◌ (Char-path c d (ground arith)) (compare_text-eq s t (ground arith))

pub compare_text_refl : (s : String) → compare_text s s ≡ Ordering.eq
unfolding compare_text
compare_text_refl String.[] = refl
compare_text_refl (String.◌∷◌ c s) = ground (arith, compare_text_refl s)

-- One of the two directions holds.
pub compare_text_total :
    (s t : String) → compare_text s t ≡ Ordering.gt → compare_text t s ≡ Ordering.lt
unfolding compare_text
compare_text_total String.[] String.[] h = cc
compare_text_total String.[] (String.◌∷◌ d t) h = cc
compare_text_total (String.◌∷◌ c s) String.[] h = refl
compare_text_total (String.◌∷◌ c s) (String.◌∷◌ d t) h = ground (arith, compare_text_total s t)

pub compare_text_asymm :
    (s t : String) → compare_text s t ≡ Ordering.lt → compare_text t s ≡ Ordering.gt
unfolding compare_text
compare_text_asymm String.[] String.[] h = cc
compare_text_asymm String.[] (String.◌∷◌ d t) h = refl
compare_text_asymm (String.◌∷◌ c s) String.[] h = cc
compare_text_asymm (String.◌∷◌ c s) (String.◌∷◌ d t) h = ground (arith, compare_text_asymm s t)

pub compare_text_trans :
    (s t u : String)
    → compare_text s t ≡ Ordering.lt
    → compare_text t u ≡ Ordering.lt
    → compare_text s u ≡ Ordering.lt
unfolding compare_text
compare_text_trans String.[] String.[] String.[] h k = cc
compare_text_trans String.[] (String.◌∷◌ d t) String.[] h k = cc
compare_text_trans String.[] t (String.◌∷◌ e u) h k = refl
compare_text_trans (String.◌∷◌ c s) String.[] u h k = cc
compare_text_trans (String.◌∷◌ c s) (String.◌∷◌ d t) String.[] h k = cc
compare_text_trans (String.◌∷◌ c s) (String.◌∷◌ d t) (String.◌∷◌ e u) h k =
    ground (arith, compare_text_trans s t u)
