-- ===== src/Base/Member.antt =====
-- Members of lists that were filtered, sorted or grouped.
use Prim.Native.String.{String}
use mathlib.Core.Path.{◌≡◌, refl, sym, ap}
use mathlib.Core.Logic.{inl, inr}
use mathlib.Core.Bool.{Bool, true, false}
use mathlib.Core.List.{List, [], ◌∷◌, Memᴰ}
use mathlib.Core.List.Memᴰ
use native.Mathlib.Omega.{arith}
use text.Mathlib.Text.{◌==◌ as str_eq}
use text.Mathlib.TextEquality.{eq_iff}
use sportsbetting.Base.Tests.{Bool-cases}
use sportsbetting.Base.Lists.{All, filter}
use sportsbetting.Base.Sort.{insert_by, sort_by, IsSorted, All-sort_by}
use sportsbetting.Base.Group.{Groups, gather, IsGrouped}

pub All_look : {A : Type 0} (P : A → Type 0) {x : A} (xs : List A) → All P xs → Memᴰ x xs → P x
All_look P [] h m = elim m [ ]
All_look P (y ∷ xs) (p, ps) (Memᴰ.head e) = rw e p
All_look P (y ∷ xs) (p, ps) (Memᴰ.tail m) = All_look P xs ps m

module _ {A : Type 0} where
  All_of : (P : A → Type 0) (xs : List A) → ((x : A) → Memᴰ x xs → P x) → All P xs
  All_of P [] h = tt
  All_of P (x ∷ xs) h = (h x (Memᴰ.head refl), All_of P xs (λ y m. h y (Memᴰ.tail m)))

  pub filter-Mem :
      (p : A → Bool) (xs : List A) {x : A} → Memᴰ x (filter p xs) → Memᴰ x xs × (p x ≡ true)
  filter-Mem p [] m = elim m [ ]
  filter-Mem p (y ∷ xs) {x} m = elim (Bool-cases (p y)) [
    | inl kept ↦
        let m' : Memᴰ x (y ∷ filter p xs) = rw kept at m in
        elim (Memᴰ.cases_cons m') [
          | inl e ↦ (Memᴰ.head e, rw e kept)
          | inr i ↦ let (j, q) = filter-Mem p xs i in (Memᴰ.tail j, q)
        ]
    | inr dropped ↦
        let m' : Memᴰ x (filter p xs) = rw dropped at m in
        let (i, q) = filter-Mem p xs m' in (Memᴰ.tail i, q)
  ]

  pub Mem-filter :
      (p : A → Bool) (xs : List A) {x : A} → Memᴰ x xs → p x ≡ true → Memᴰ x (filter p xs)
  Mem-filter p [] m q = elim m [ ]
  Mem-filter p (y ∷ xs) {x} (Memᴰ.head e) q =
      let here : p y ≡ true = rw (← e) q in rw here (Memᴰ.head e)
  Mem-filter p (y ∷ xs) (Memᴰ.tail m) q = elim (Bool-cases (p y)) [
    | inl kept ↦ rw kept (Memᴰ.tail (Mem-filter p xs m q))
    | inr dropped ↦ rw dropped (Mem-filter p xs m q)
  ]

  filter-All : (P : A → Type 0) (p : A → Bool) (xs : List A) → All P xs → All P (filter p xs)
  filter-All P p [] h = tt
  filter-All P p (x ∷ xs) (q, h) = elim (Bool-cases (p x)) [
    | inl kept ↦ rw kept (q, filter-All P p xs h)
    | inr dropped ↦ rw dropped (filter-All P p xs h)
  ]

  pub filter-IsSorted :
      (le : A → A → Bool) (p : A → Bool) (xs : List A) → IsSorted le xs → IsSorted le (filter p xs)
  filter-IsSorted le p [] h = tt
  filter-IsSorted le p (x ∷ xs) (q, h) = elim (Bool-cases (p x)) [
    | inl kept ↦ rw kept (filter-All (λ y. le x y ≡ true) p xs q, filter-IsSorted le p xs h)
    | inr dropped ↦ rw dropped (filter-IsSorted le p xs h)
  ]

  Mem-insert_by :
      (le : A → A → Bool) (a : A) (xs : List A) {x : A}
      → Memᴰ x (a ∷ xs)
      → Memᴰ x (insert_by le a xs)
  Mem-insert_by le a [] m = m
  Mem-insert_by le a (y ∷ xs) m = elim (Bool-cases (le a y)) [
    | inl e ↦ rw e m
    | inr e ↦ rw e (elim (Memᴰ.cases_cons m) [
      | inl same ↦ Memᴰ.tail (Mem-insert_by le a xs (Memᴰ.head same))
      | inr i ↦ elim (Memᴰ.cases_cons i) [
        | inl same ↦ Memᴰ.head same
        | inr j ↦ Memᴰ.tail (Mem-insert_by le a xs (Memᴰ.tail j))
      ]
    ])
  ]

  pub Mem-sort_by : (le : A → A → Bool) (xs : List A) {x : A} → Memᴰ x xs → Memᴰ x (sort_by le xs)
  unfolding sort_by
  Mem-sort_by le [] m = m
  Mem-sort_by le (y ∷ xs) (Memᴰ.head e) = Mem-insert_by le y (sort_by le xs) (Memᴰ.head e)
  Mem-sort_by le (y ∷ xs) (Memᴰ.tail m) =
      Mem-insert_by le y (sort_by le xs) (Memᴰ.tail (Mem-sort_by le xs m))

  pub sort_by-Mem : (le : A → A → Bool) (xs : List A) {x : A} → Memᴰ x (sort_by le xs) → Memᴰ x xs
  sort_by-Mem le xs m =
      All_look (λ y. Memᴰ y xs) (sort_by le xs)
        (All-sort_by (λ y. Memᴰ y xs) le xs (All_of (λ y. Memᴰ y xs) xs (λ y i. i))) m

  module _ (key : A → String) where
    pub gather-own :
        (groups : Groups A) {g : String × List A}
        → IsGrouped key groups
        → Memᴰ g groups
        → gather g.0 groups ≡ g.1
    gather-own [] h m = elim m [ ]
    gather-own ((k, group) ∷ groups) {g} (own, others, h) (Memᴰ.head e) =
        let same : k ≡ g.0 = sym (ap (λ p. p.0) e) in
        let here : str_eq k g.0 ≡ true = (eq_iff k g.0).1 same in rw here (sym (ap (λ p. p.1) e))
    gather-own ((k, group) ∷ groups) {g} (own, others, h) (Memᴰ.tail m) =
        let other : str_eq g.0 k ≡ false = All_look (λ i. str_eq i.0 k ≡ false) groups others m in
        let there : str_eq k g.0 ≡ false = ground (arith, eq_iff g.0 k, eq_iff k g.0) in
        rw there (gather-own groups h m)

  pub gather-Mem :
      (k : String) (groups : Groups A) {x : A}
      → Memᴰ x (gather k groups)
      → (g : String × List A) × Memᴰ g groups × Memᴰ x g.1
  gather-Mem k [] m = elim m [ ]
  gather-Mem k ((j, group) ∷ groups) {x} m = elim (Bool-cases (str_eq j k)) [
    | inl here ↦ let m' : Memᴰ x group = rw here at m in ((j, group), Memᴰ.head refl, m')
    | inr there ↦
        let m' : Memᴰ x (gather k groups) = rw there at m in
        let (g, i, q) = gather-Mem k groups m' in (g, Memᴰ.tail i, q)
  ]
