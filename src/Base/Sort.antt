-- ===== src/Base/Sort.antt =====
-- `list.sort(key=...)`: a stable sort by a test `le`, as insertion sort, which gives the one result
-- that a stable sort can give.
use mathlib.Core.Path.{◌≡◌, refl, ap, ◌∙◌}
use mathlib.Core.Bool.{Bool, true, false}
use mathlib.Core.List.{List, [], ◌∷◌, Perm, Permᴰ}
use mathlib.Core.List.Perm
use mathlib.Core.Logic.{inl, inr}
use native.Mathlib.Omega.{arith}
use sportsbetting.Base.Tests.{if◌then◌else◌, Bool-cases}
use sportsbetting.Base.Lists.{All}

module _ {ℓ} {A : Type ℓ} where
  abbrev pub insert_by : (A → A → Bool) → A → List A → List A
  insert_by le a [] = a ∷ []
  insert_by le a (x ∷ xs) = if le a x then a ∷ x ∷ xs else x ∷ insert_by le a xs

  unfoldable pub sort_by : (A → A → Bool) → List A → List A
  sort_by le [] = []
  sort_by le (x ∷ xs) = insert_by le x (sort_by le xs)

  -- Each element stands before all that follow it.
  abbrev pub IsSorted : (A → A → Bool) → List A → Type ℓ
  IsSorted le [] = Unit
  IsSorted le (x ∷ xs) = All (λ y. le x y ≡ true) xs × IsSorted le xs

  insert_by-perm : (le : A → A → Bool) (a : A) (xs : List A) → Perm (insert_by le a xs) (a ∷ xs)
  insert_by-perm le a [] = Perm.refl (a ∷ [])
  insert_by-perm le a (x ∷ xs) = elim (Bool-cases (le a x)) [
    | inl e ↦ rw e (Perm.refl (a ∷ x ∷ xs))
    | inr e ↦ rw e (Perm.trans (Perm.cons x (insert_by-perm le a xs)) (Perm.swap a x xs))
  ]

  pub sort_by-perm : (le : A → A → Bool) (xs : List A) → Perm (sort_by le xs) xs
  unfolding sort_by
  sort_by-perm le [] = Perm.refl []
  sort_by-perm le (x ∷ xs) =
      Perm.trans (insert_by-perm le x (sort_by le xs)) (Perm.cons x (sort_by-perm le xs))

  All-insert_by {κ} :
      (P : A → Type κ) (le : A → A → Bool) (a : A) (xs : List A)
      → P a
      → All P xs
      → All P (insert_by le a xs)
  All-insert_by P le a [] p h = (p, tt)
  All-insert_by P le a (x ∷ xs) p (q, h) = elim (Bool-cases (le a x)) [
    | inl e ↦ rw e (p, (q, h))
    | inr e ↦ rw e (q, All-insert_by P le a xs p h)
  ]

  pub All-sort_by {κ} :
      (P : A → Type κ) (le : A → A → Bool) (xs : List A) → All P xs → All P (sort_by le xs)
  unfolding sort_by
  All-sort_by P le [] h = tt
  All-sort_by P le (x ∷ xs) (p, h) = All-insert_by P le x (sort_by le xs) p (All-sort_by P le xs h)

  module _ (le : A → A → Bool)
      (le_trans : (x y z : A) → le x y ≡ true → le y z ≡ true → le x z ≡ true)
      (le_total : (x y : A) → le x y ≡ false → le y x ≡ true) where
    All-le :
        (a x : A) (xs : List A)
        → le a x ≡ true
        → All (λ y. le x y ≡ true) xs
        → All (λ y. le a y ≡ true) xs
    All-le a x [] e h = tt
    All-le a x (y ∷ ys) e (p, h) = (le_trans a x y e p, All-le a x ys e h)

    insert_by-IsSorted : (a : A) (xs : List A) → IsSorted le xs → IsSorted le (insert_by le a xs)
    insert_by-IsSorted a [] h = (tt, tt)
    insert_by-IsSorted a (x ∷ xs) (p, h) = elim (Bool-cases (le a x)) [
      | inl e ↦ rw e ((e, All-le a x xs e p), (p, h))
      | inr e ↦
          rw e (
            All-insert_by (λ y. le x y ≡ true) le a xs (le_total a x e) p,
            insert_by-IsSorted a xs h,
          )
    ]

    pub sort_by-IsSorted : (xs : List A) → IsSorted le (sort_by le xs)
    unfolding sort_by
    sort_by-IsSorted [] = tt
    sort_by-IsSorted (x ∷ xs) = insert_by-IsSorted x (sort_by le xs) (sort_by-IsSorted xs)

    -- Where the order tells all elements apart, the order of the input is forgotten.
    module _ (le_antisym : (x y : A) → le x y ≡ true → le y x ≡ true → x ≡ y) where
      insert_by_comm :
          (a b : A) (xs : List A)
          → insert_by le a (insert_by le b xs) ≡ insert_by le b (insert_by le a xs)
      insert_by_comm a b [] = ground (arith, le_antisym a b, le_total a b)
      insert_by_comm a b (x ∷ xs) = ground (
        arith,
        le_antisym a b,
        le_total a b,
        le_total a x,
        le_total b x,
        le_trans a b x,
        le_trans b a x,
        le_trans a x b,
        le_trans b x a,
        insert_by_comm a b xs,
      )

      pub sort_by_congr : {xs ys : List A} → Permᴰ xs ys → sort_by le xs ≡ sort_by le ys
      unfolding sort_by
      sort_by_congr Permᴰ.nil = refl
      sort_by_congr (Permᴰ.cons {a = a} {b = b} {l₁ = l₁} e p) =
          ap (λ x. insert_by le x (sort_by le l₁)) e ∙ ap (insert_by le b) (sort_by_congr p)
      sort_by_congr (Permᴰ.swap {a = a} {b = b} {a' = a'} {l = l} e f) =
          insert_by_comm a b (sort_by le l)
          ∙ ap (λ y. insert_by le y (insert_by le a (sort_by le l))) f
          ∙ ap (λ x. insert_by le a' (insert_by le x (sort_by le l))) e
      sort_by_congr (Permᴰ.trans p q) = sort_by_congr p ∙ sort_by_congr q
