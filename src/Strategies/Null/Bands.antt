-- ===== src/Strategies/Null/Bands.antt =====
-- The price bands of `shuffled_wins` as places of one list: which are written, and that no two bands
-- share one.
use mathlib.Core.Path.{subst}
use sportsbetting.Base.{
  ℕ, zero, suc, ◌+◌, ◌<◌, ◌≡◌, ◌≢◌, inl, inr, refl, sym, ap, ◌∙◌, arith, Bool, some, List, [], ◌∷◌,
  ◌++◌, length, get_elem?, Bool-cases, All, All-append,
}
use sportsbetting.Float.{Float, eq, floor, ◌⊘◌}
use sportsbetting.Backtest.Sample.{Sample}
use sportsbetting.Strategies.Rules.{at_indexes}
use sportsbetting.Strategies.Null.{set_at, write_all, add_index, group_from}

length-set_at : (out : List Bool) (i : ℕ) (v : Bool) → length (set_at out i v) ≡ length out
length-set_at [] i v = refl
length-set_at (x ∷ xs) zero v = refl
length-set_at (x ∷ xs) (suc i) v = ap suc (length-set_at xs i v)

set_at-same :
    (out : List Bool) (i : ℕ) (v : Bool) → i < length out → get_elem? (set_at out i v) i ≡ some v
set_at-same [] i v h = absurd (omega (arith, h))
set_at-same (x ∷ xs) zero v h = refl
set_at-same (x ∷ xs) (suc i) v h = set_at-same xs i v (omega (arith, h))

set_at-other :
    (out : List Bool) (i j : ℕ) (v : Bool) → i ≢ j → get_elem? (set_at out i v) j ≡ get_elem? out j
set_at-other [] i j v n = refl
set_at-other (x ∷ xs) zero zero v n = absurd (n refl)
set_at-other (x ∷ xs) zero (suc j) v n = refl
set_at-other (x ∷ xs) (suc i) zero v n = refl
set_at-other (x ∷ xs) (suc i) (suc j) v n = set_at-other xs i j v (λ e. n (ap suc e))

pub length-write_all :
    (members : List ℕ) (values out : List Bool) → length (write_all members values out) ≡ length out
length-write_all [] values out = refl
length-write_all (i ∷ members) [] out = refl
length-write_all (i ∷ members) (v ∷ values) out =
    length-write_all members values (set_at out i v) ∙ length-set_at out i v

-- A place that is not written keeps its value.
write_all-other :
    (members : List ℕ) (values out : List Bool) (j : ℕ)
    → All (λ i. i ≢ j) members
    → get_elem? (write_all members values out) j ≡ get_elem? out j
write_all-other [] values out j h = refl
write_all-other (i ∷ members) [] out j h = refl
write_all-other (i ∷ members) (v ∷ values) out j (n, h) =
    write_all-other members values (set_at out i v) j h ∙ set_at-other out i j v n

-- Indexes in range, without repetitions.
abbrev pub IsOnce : List ℕ → Type 0
IsOnce [] = Unit
IsOnce (i ∷ is) = All (λ j. j ≢ i) is × IsOnce is

pub write_all-own :
    (members : List ℕ) (values out : List Bool)
    → IsOnce members
    → All (λ i. i < length out) members
    → length members ≡ length values
    → at_indexes (write_all members values out) members ≡ values
write_all-own [] [] out d b e = refl
write_all-own [] (v ∷ values) out d b e = absurd (omega (arith, e))
write_all-own (i ∷ members) [] out d b e = absurd (omega (arith, e))
write_all-own (i ∷ members) (v ∷ values) out (n, d) (lt_i, b) e =
    let out' = set_at out i v in
    let here : get_elem? (write_all members values out') i ≡ some v =
      write_all-other members values out' i n ∙ set_at-same out i v lt_i in
    let b' : All (λ j. j < length out') members =
      subst (λ m. All (λ j. j < m) members) (sym (length-set_at out i v)) b in
    rw here (ap (λ rest. v ∷ rest) (write_all-own members values out' d b' (omega (arith, e))))

pub at_indexes-other :
    (members : List ℕ) (values out : List Bool) (others : List ℕ)
    → All (λ j. All (λ i. i ≢ j) members) others
    → at_indexes (write_all members values out) others ≡ at_indexes out others
at_indexes-other members values out [] h = refl
at_indexes-other members values out (j ∷ others) (n, h) =
    rw (write_all-other members values out j n, at_indexes-other members values out others h) refl

pub length-at_indexes :
    (out : List Bool) (members : List ℕ)
    → All (λ i. i < length out) members
    → length (at_indexes out members) ≡ length members
length-at_indexes out [] h = refl
length-at_indexes out (i ∷ members) (b, h) =
    let (x, found) = in_range out i b in rw found (ap suc (length-at_indexes out members h))
  where
    in_range : (xs : List Bool) (i : ℕ) → i < length xs → (x : Bool) × (get_elem? xs i ≡ some x)
    in_range [] i h = absurd (omega (arith, h))
    in_range (x ∷ xs) zero h = (x, refl)
    in_range (x ∷ xs) (suc i) h = in_range xs i (omega (arith, h))

-- The members of two lists are different.
abbrev pub AreApart : List ℕ → List ℕ → Type 0
AreApart js is = All (λ j. All (λ i. i ≢ j) is) js

abbrev pub IsApart : {K : Type 0} → List (K × List ℕ) → Type 0
IsApart [] = Unit
IsApart ((k, members) ∷ groups) =
    IsOnce members × All (λ g. AreApart members g.1) groups × IsApart groups

abbrev pub IsBounded : {K : Type 0} → ℕ → List (K × List ℕ) → Type 0
IsBounded n groups = All (λ g. All (λ i. i < n) g.1) groups

All-weaken :
    {A : Type 0} {P Q : A → Type 0} (xs : List A) → ((x : A) → P x → Q x) → All P xs → All Q xs
All-weaken [] f h = tt
All-weaken (x ∷ xs) f (p, h) = (f x p, All-weaken xs f h)

IsOnce-append :
    (members : List ℕ) (n : ℕ)
    → IsOnce members
    → All (λ i. i < n) members
    → IsOnce (members ++ (n ∷ []))
IsOnce-append [] n d b = (tt, tt)
IsOnce-append (i ∷ members) n (away, d) (b, bs) = (
  All-append (λ j. j ≢ i) members (n ∷ []) away ((λ e. omega (arith, b, e)), tt),
  IsOnce-append members n d bs,
)

below_apart : (n : ℕ) (is : List ℕ) → All (λ i. i < n) is → AreApart (n ∷ []) is
below_apart n is b = (All-weaken is (λ i p e. omega (arith, p, e)) b, tt)

apart_below : (n : ℕ) (js : List ℕ) → All (λ j. j < n) js → AreApart js (n ∷ [])
apart_below n js b = All-weaken js (λ j p. ((λ e. omega (arith, p, e)), tt)) b

AreApart-append :
    (js is : List ℕ) (n : ℕ) → All (λ j. j < n) js → AreApart js is → AreApart js (is ++ (n ∷ []))
AreApart-append [] is n b a = tt
AreApart-append (j ∷ js) is n (p, b) (q, a) = (
  All-append (λ i. i ≢ j) is (n ∷ []) q ((λ e. omega (arith, p, e)), tt),
  AreApart-append js is n b a,
)

apart_append :
    {K : Type 0} (members : List ℕ) (n : ℕ) (groups : List (K × List ℕ))
    → IsBounded n groups
    → All (λ g. AreApart members g.1) groups
    → All (λ g. AreApart (members ++ (n ∷ [])) g.1) groups
apart_append members n [] b h = tt
apart_append members n ((k, is) ∷ groups) (p, b) (a, h) = (
  All-append (λ j. All (λ i. i ≢ j) is) members (n ∷ []) a (below_apart n is p),
  apart_append members n groups b h,
)

module _ {F : Type 0} ⦃fl : Float F⦄ (band : F) (n : ℕ) where
  All-add_index :
      (P : List ℕ → Type 0)
      → ((members : List ℕ) → P members → P (members ++ (n ∷ [])))
      → P (n ∷ [])
      → (groups : List (F × List ℕ)) → All (λ g. P g.1) groups
      → All (λ g. P g.1) (add_index band n groups)
  All-add_index P grow fresh [] h = (fresh, tt)
  All-add_index P grow fresh ((b, members) ∷ groups) (p, h) = elim (Bool-cases (eq b band)) [
    | inl same ↦ rw same (grow members p, h)
    | inr other ↦ rw other (p, All-add_index P grow fresh groups h)
  ]

  add_index-IsBounded :
      (groups : List (F × List ℕ))
      → IsBounded n groups
      → IsBounded (suc n) (add_index band n groups)
  add_index-IsBounded groups b =
      All-add_index (λ is. All (λ i. i < suc n) is)
        (λ is p. All-append (λ i. i < suc n) is (n ∷ []) p (omega arith, tt)) (omega arith, tt)
        groups (All-weaken groups (λ g p. All-weaken g.1 (λ i q. omega (arith, q)) p) b)

  add_index-IsApart :
      (groups : List (F × List ℕ))
      → IsBounded n groups
      → IsApart groups
      → IsApart (add_index band n groups)
  add_index-IsApart [] b a = ((tt, tt), tt, tt)
  add_index-IsApart ((k, members) ∷ groups) (b, bs) (d, away, a) = elim (Bool-cases (eq k band)) [
    | inl same ↦ rw same (IsOnce-append members n d b, apart_append members n groups bs away, a)
    | inr other ↦ rw other (
      d,
      All-add_index (λ is. AreApart members is) (λ is q. AreApart-append members is n b q)
          (apart_below n members b) groups away,
      add_index-IsApart groups bs a,
    )
  ]

module _ {F : Type 0} ⦃fl : Float F⦄ where
  -- The bands share no index, and all indexes are in range.
  pub group_from-IsApart :
      (band : F) (n : ℕ) (rows : List (Sample F)) (groups : List (F × List ℕ))
      → IsBounded n groups
      → IsApart groups
      → IsBounded (n + length rows) (group_from band n rows groups)
        × IsApart (group_from band n rows groups)
  group_from-IsApart band n [] groups b a =
      (All-weaken groups (λ g p. All-weaken g.1 (λ i q. omega (arith, q)) p) b, a)
  group_from-IsApart band n (row ∷ rows) groups b a =
      let k = floor (row.close_price ⊘ band) in
      let (b', a') =
        group_from-IsApart band (suc n) rows (add_index k n groups)
          (add_index-IsBounded k n groups b) (add_index-IsApart k n groups b a) in
      (
        subst (λ m. IsBounded m (group_from band (suc n) rows (add_index k n groups))) (omega arith)
            b',
        a',
      )
