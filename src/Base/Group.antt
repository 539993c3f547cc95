-- ===== src/Base/Group.antt =====
-- Rows gathered by a text key into a dict of lists, in the order of the first rows, as
-- `groups.setdefault(key, []).append(row)` does it, and what becomes of the rows of one key.
pub mod Flat
use Prim.Native.String.{String}
use mathlib.Core.Path.{◌≡◌, refl, ap, sym, ◌∙◌}
use mathlib.Core.Logic.{◌⊎◌, inl, inr}
use mathlib.Core.Bool.{Bool, true, false}
use mathlib.Core.List.{List, [], ◌∷◌, ◌++◌, append_assoc, append-nil}
use native.Mathlib.Omega.{arith}
use text.Mathlib.Text.{◌==◌ as str_eq}
use text.Mathlib.TextEquality.{eq_iff}
use sportsbetting.Base.Tests.{if◌then◌else◌, Bool-cases}
use sportsbetting.Base.Lists.{All, filter, All-append}

abbrev pub Groups {ℓ} : Type ℓ → Type ℓ
Groups A = List (String × List A)

module _ {ℓ} {A : Type ℓ} where
  -- `groups.setdefault(key, []).append(row)`
  abbrev pub add_row : String → A → Groups A → Groups A
  add_row key row [] = (key, row ∷ []) ∷ []
  add_row key row ((k, group) ∷ groups) =
      if str_eq k key
      then (k, group ++ (row ∷ [])) ∷ groups
      else (k, group) ∷ add_row key row groups

  unfoldable pub group_by : (A → String) → Groups A → List A → Groups A
  group_by key groups [] = groups
  group_by key groups (row ∷ rest) = group_by key (add_row (key row) row groups) rest

  -- The group of a key.
  abbrev pub gather : String → Groups A → List A
  gather k [] = []
  gather k ((j, group) ∷ groups) = if str_eq j k then group else gather k groups

  abbrev pub with_key : (A → String) → String → List A → List A
  with_key key k rows = filter (λ r. str_eq (key r) k) rows

  gather-add_row :
      (k j : String) (row : A) (groups : Groups A)
      → gather k (add_row j row groups)
        ≡ (if str_eq j k then gather k groups ++ (row ∷ []) else gather k groups)
  gather-add_row k j row [] = refl
  gather-add_row k j row ((i, group) ∷ groups) =
      ground (arith, eq_iff j k, eq_iff i j, eq_iff i k, gather-add_row k j row groups)

  gather-group_by :
      (key : A → String) (k : String) (groups : Groups A) (rows : List A)
      → gather k (group_by key groups rows) ≡ gather k groups ++ with_key key k rows
  unfolding group_by
  gather-group_by key k groups [] = sym (append-nil (gather k groups))
  gather-group_by key k groups (row ∷ rows) =
      let ih = gather-group_by key k (add_row (key row) row groups) rows in
      let step = gather-add_row k (key row) row groups in
      elim (Bool-cases (str_eq (key row) k)) [
        | inl here ↦
            let step' : gather k (add_row (key row) row groups) ≡ gather k groups ++ (row ∷ []) =
              rw here at step in
            rw here (
              ih
              ∙ ap (λ g. g ++ with_key key k rows) step'
              ∙ append_assoc (gather k groups) (row ∷ []) (with_key key k rows))
        | inr there ↦
            let step' : gather k (add_row (key row) row groups) ≡ gather k groups =
              rw there at step in
            rw there (ih ∙ ap (λ g. g ++ with_key key k rows) step')
      ]

  -- Every group has its own key, and its rows have it.
  abbrev pub IsGrouped : (A → String) → Groups A → Type ℓ
  IsGrouped key [] = Unit
  IsGrouped key ((k, group) ∷ groups) =
      All (λ r. key r ≡ k) group × All (λ g. str_eq g.0 k ≡ false) groups × IsGrouped key groups

  other_keys :
      (j k : String) (row : A) (groups : Groups A)
      → str_eq j k ≡ false
      → All (λ g. str_eq g.0 k ≡ false) groups
      → All (λ g. str_eq g.0 k ≡ false) (add_row j row groups)
  other_keys j k row [] h all = (h, tt)
  other_keys j k row ((i, group) ∷ groups) h (n, all) = elim (Bool-cases (str_eq i j)) [
    | inl here ↦ rw here (n, all)
    | inr there ↦ rw there (n, other_keys j k row groups h all)
  ]

  IsGrouped-add_row :
      (key : A → String) (row : A) (groups : Groups A)
      → IsGrouped key groups
      → IsGrouped key (add_row (key row) row groups)
  IsGrouped-add_row key row [] h = ((refl, tt), tt, tt)
  IsGrouped-add_row key row ((i, group) ∷ groups) (own, others, h) =
      elim (Bool-cases (str_eq i (key row))) [
        | inl here ↦
            let same : i ≡ key row = (eq_iff i (key row)).0 here in
            rw here (All-append (λ r. key r ≡ i) group (row ∷ []) own (sym same, tt), others, h)
        | inr there ↦ rw there (
          own,
          other_keys (key row) i row groups (ground (arith, eq_iff i (key row), eq_iff (key row) i))
              others,
          IsGrouped-add_row key row groups h,
        )
      ]

  pub group_by-IsGrouped :
      (key : A → String) (groups : Groups A) (rows : List A)
      → IsGrouped key groups
      → IsGrouped key (group_by key groups rows)
  unfolding group_by
  group_by-IsGrouped key groups [] h = h
  group_by-IsGrouped key groups (row ∷ rows) h =
      group_by-IsGrouped key (add_row (key row) row groups) rows
        (IsGrouped-add_row key row groups h)

  -- The group of a key is the rows that have it, in their order.
  pub gather-group_by_nil :
      (key : A → String) (k : String) (rows : List A)
      → gather k (group_by key [] rows) ≡ with_key key k rows
  gather-group_by_nil key k rows = gather-group_by key k [] rows
