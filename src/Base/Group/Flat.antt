-- ===== src/Base/Group/Flat.antt =====
-- Groups treated one by one and put behind each other: what is left of the rows of one key.
use Prim.Native.String.{String}
use mathlib.Core.Path.{◌≡◌, refl, ap, sym, ◌∙◌, subst}
use mathlib.Core.Logic.{inl, inr}
use mathlib.Core.Bool.{Bool, true, false}
use mathlib.Core.List.{List, [], ◌∷◌, ◌++◌, append-nil}
use text.Mathlib.Text.{◌==◌ as str_eq}
use text.Mathlib.TextEquality.{eq_iff}
use sportsbetting.Base.Tests.{Bool-cases}
use sportsbetting.Base.Lists.{All, filter}
use sportsbetting.Base.Group.{
  Groups, group_by, gather, with_key, IsGrouped, group_by-IsGrouped, gather-group_by_nil,
}

module _ {A : Type 0} where
  abbrev pub flat_groups : (List A → List A) → Groups A → List A
  flat_groups f [] = []
  flat_groups f ((k, group) ∷ groups) = f group ++ flat_groups f groups

  filter-append : (p : A → Bool) (xs ys : List A) → filter p (xs ++ ys) ≡ filter p xs ++ filter p ys
  filter-append p [] ys = refl
  filter-append p (x ∷ xs) ys = elim (Bool-cases (p x)) [
    | inl in_it ↦ rw (in_it, filter-append p xs ys) refl
    | inr out ↦ rw (out, filter-append p xs ys) refl
  ]

  module _ (key : A → String) (k : String) where
    with_key-own : (xs : List A) → All (λ r. key r ≡ k) xs → with_key key k xs ≡ xs
    with_key-own [] h = refl
    with_key-own (x ∷ xs) (e, h) =
        let same : str_eq (key x) k ≡ true = (eq_iff (key x) k).1 e in
        rw (same, with_key-own xs h) refl

    with_key-other :
        (j : String) (xs : List A)
        → str_eq j k ≡ false
        → All (λ r. key r ≡ j) xs
        → with_key key k xs ≡ []
    with_key-other j [] n h = refl
    with_key-other j (x ∷ xs) n (e, h) =
        let other : str_eq (key x) k ≡ false = subst (λ i. str_eq i k ≡ false) (sym e) n in
        rw (other, with_key-other j xs n h) refl

    gather-none :
        (groups : Groups A) → All (λ g. str_eq g.0 k ≡ false) groups → gather k groups ≡ []
    gather-none [] h = refl
    gather-none ((j, group) ∷ groups) (n, h) = rw n (gather-none groups h)

    module _ (f : List A → List A) (empty : f [] ≡ [])
        (keeps : (P : A → Type 0) (xs : List A) → All P xs → All P (f xs)) where
      with_key-flat_groups :
          (groups : Groups A)
          → IsGrouped key groups
          → with_key key k (flat_groups f groups) ≡ f (gather k groups)
      with_key-flat_groups [] h = sym empty
      with_key-flat_groups ((j, group) ∷ groups) (own, others, h) =
          let ih = with_key-flat_groups groups h in
          let parts = filter-append (λ r. str_eq (key r) k) (f group) (flat_groups f groups) in
          elim (Bool-cases (str_eq j k)) [
            | inl here ↦
                let same : j ≡ k = (eq_iff j k).0 here in
                let all : with_key key k (f group) ≡ f group = with_key-own (f group) (
                  keeps (λ r. key r ≡ k) group
                    (subst (λ i. All (λ r. key r ≡ i) group) same own)) in
                let none_left : gather k groups ≡ [] =
                  gather-none groups
                    (subst (λ i. All (λ g. str_eq g.0 i ≡ false) groups) same others) in
                let rest : with_key key k (flat_groups f groups) ≡ [] =
                  ih ∙ ap f none_left ∙ empty in
                rw here (
                  parts
                  ∙ ap (λ xs. xs ++ with_key key k (flat_groups f groups)) all
                  ∙ ap (λ ys. f group ++ ys) rest
                  ∙ append-nil (f group))
            | inr there ↦
                let nothing : with_key key k (f group) ≡ [] =
                  with_key-other j (f group) there (keeps (λ r. key r ≡ j) group own) in
                rw there
                  (parts ∙ ap (λ xs. xs ++ with_key key k (flat_groups f groups)) nothing ∙ ih)
          ]

      -- Of the rows of one key stays what `f` leaves of them.
      pub with_key-flat_groups_by :
          (rows : List A)
          → with_key key k (flat_groups f (group_by key [] rows)) ≡ f (with_key key k rows)
      with_key-flat_groups_by rows =
          with_key-flat_groups (group_by key [] rows) (group_by-IsGrouped key [] rows tt)
          ∙ ap f (gather-group_by_nil key k rows)
