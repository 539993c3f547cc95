-- ===== src/Base/Dict.antt =====
-- A Python dict with text keys, as an association list in insertion order.
use Prim.Native.String.{String}
use mathlib.Core.Path.{◌≡◌, refl}
use mathlib.Core.List.{List, [], ◌∷◌}
use mathlib.Core.Option.{Option, none, some}
use native.Mathlib.Omega.{arith}
use text.Mathlib.Text.{◌==◌ as str_eq}
use text.Mathlib.TextEquality.{eq_iff}
use sportsbetting.Base.Tests.{if◌then◌else◌}

abbrev pub Dict {ℓ} : Type ℓ → Type ℓ
Dict V = List (String × V)

module _ {ℓ} {V : Type ℓ} where
  -- `d.get(k)`
  abbrev pub get : String → Dict V → Option V
  get k [] = none
  get k ((j, v) ∷ d) = if str_eq j k then some v else get k d

  -- `d.get(k, default)`
  abbrev pub get_or : String → V → Dict V → V
  get_or k v d = elim (get k d) [ none ↦ v | some w ↦ w ]

  -- `d[k] = v`
  abbrev pub set : String → V → Dict V → Dict V
  set k v [] = (k, v) ∷ []
  set k v ((j, w) ∷ d) = if str_eq j k then (j, v) ∷ d else (j, w) ∷ set k v d

  -- `d.pop(k, None)`: every entry of the key goes, so a list with a repeated key is no trap.
  abbrev pub pop : String → Dict V → Dict V
  pop k [] = []
  pop k ((j, w) ∷ d) = let rest = pop k d in if str_eq j k then rest else (j, w) ∷ rest

  pub get-set :
      (k j : String) (v : V) (d : Dict V)
      → get j (set k v d) ≡ (if str_eq k j then some v else get j d)
  get-set k j v [] = refl
  get-set k j v ((i, w) ∷ d) = ground (arith, eq_iff k j, eq_iff i k, eq_iff i j, get-set k j v d)

  pub get-pop :
      (k j : String) (d : Dict V) → get j (pop k d) ≡ (if str_eq k j then none else get j d)
  get-pop k j [] = ground arith
  get-pop k j ((i, w) ∷ d) = ground (arith, eq_iff k j, eq_iff i k, eq_iff i j, get-pop k j d)
