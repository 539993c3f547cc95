-- ===== src/Forward/Closing/Pass.antt =====
-- What a pass of `capture_closing` over the groups of a market writes.
use mathlib.Core.Path.{subst}
use mathlib.Core.List.{Memᴰ}
use sportsbetting.Base.{
  ℕ, suc, ◌+◌, ◌≡◌, ◌⊎◌, inl, inr, refl, arith, String, true, false, some, List, [], ◌∷◌,
  Bool-cases, All,
}
use sportsbetting.Base.Group.{Groups}
use sportsbetting.Float.{Float, ◌⊖◌, round}
use sportsbetting.Forward.Record.{ForwardSample}
use sportsbetting.Forward.Closing.{is_open, has_id, close_rows, close_group, last_ask, close_groups}

module _ {F : Type 0} where
  -- The last sample of a group has this ask.
  abbrev pub IsLast : List (ForwardSample F) → F → Type 0
  IsLast [] c = ⊥
  IsLast (sample ∷ samples) c = c ≡ last_ask sample.ask samples

module _ {F : Type 0} ⦃fl : Float F⦄ where
  -- A row with the two columns filled.
  abbrev pub closed_at : F → ForwardSample F → ForwardSample F
  closed_at closing row = record row {
    closing_pm_price = some closing;
    clv = some (round (closing ⊖ row.ask) 6);
  }

  -- A row is in none of the groups.
  abbrev pub IsOutside : ForwardSample F → Groups (ForwardSample F) → Type 0
  IsOutside row groups = All (λ g. has_id {F = F} row.id g.1 ≡ false) groups

  -- Two tables, row by row, after a pass over some groups.
  pub data IsPass (groups : Groups (ForwardSample F))
      : List (ForwardSample F) → List (ForwardSample F) → ℕ → Type 0 where
    nothing : IsPass groups [] [] 0
    kept :
        {t u : List (ForwardSample F)} {n : ℕ} (row : ForwardSample F)
        → (is_open row ≡ false) ⊎ IsOutside row groups
        → IsPass groups t u n
        → IsPass groups (row ∷ t) (row ∷ u) n
    filled :
        {t u : List (ForwardSample F)} {n : ℕ} (row : ForwardSample F) (closing : F)
        (group : String × List (ForwardSample F))
        → is_open row ≡ true
        → Memᴰ group groups
        → has_id row.id group.1 ≡ true
        → IsLast group.1 closing
        → IsPass groups t u n
        → IsPass groups (row ∷ t) (closed_at closing row ∷ u) (suc n)

  recount :
      {groups : Groups (ForwardSample F)} {t u : List (ForwardSample F)} {m n : ℕ}
      → IsPass groups t u m
      → m ≡ n
      → IsPass groups t u n
  recount {groups} {t} {u} p e = subst (λ k. IsPass groups t u k) e p

  no_groups : (t : List (ForwardSample F)) → IsPass [] t t 0
  no_groups [] = IsPass.nothing
  no_groups (row ∷ t) = IsPass.kept row (inr tt) (no_groups t)

  module _ (k : String) where
    one_group :
        (samples : List (ForwardSample F)) (closing : F) (t : List (ForwardSample F))
        → IsLast samples closing
        → IsPass
            ((k, samples) ∷ [])
            t
            (close_rows closing samples t).0
            (close_rows closing samples t).1
    unfolding close_rows
    one_group samples closing [] last = IsPass.nothing
    one_group samples closing (row ∷ t) last =
        let ih = one_group samples closing t last in
        elim (Bool-cases (has_id row.id samples)) [
          | inr other ↦ rw other (IsPass.kept row (inr (other, tt)) ih)
          | inl listed ↦ elim (Bool-cases (is_open row)) [
            | inl running ↦
                rw (listed, running)
                  (IsPass.filled row closing (k, samples) running (Memᴰ.head refl) listed last ih)
            | inr shut ↦ rw (listed, shut) (IsPass.kept row (inl shut) ih)
          ]
        ]

    empty_group : (t : List (ForwardSample F)) → IsPass ((k, []) ∷ []) t t 0
    empty_group [] = IsPass.nothing
    empty_group (row ∷ t) = IsPass.kept row (inr (refl, tt)) (empty_group t)

    group-IsPass :
        (samples : List (ForwardSample F)) (t : List (ForwardSample F))
        → IsPass ((k, samples) ∷ []) t (close_group samples t).0 (close_group samples t).1
    group-IsPass [] t = empty_group t
    group-IsPass (sample ∷ samples) t =
        one_group (sample ∷ samples) (last_ask sample.ask samples) t refl

    both_kept :
        (row : ForwardSample F) (samples : List (ForwardSample F))
        (groups : Groups (ForwardSample F))
        → (is_open row ≡ false) ⊎ IsOutside row ((k, samples) ∷ [])
        → (is_open row ≡ false) ⊎ IsOutside row groups
        → (is_open row ≡ false) ⊎ IsOutside row ((k, samples) ∷ groups)
    both_kept row samples groups (inl shut) q = inl shut
    both_kept row samples groups (inr h) (inl shut) = inl shut
    both_kept row samples groups (inr (h, _)) (inr hs) = inr (h, hs)

    first_mem :
        {g : String × List (ForwardSample F)} {samples : List (ForwardSample F)}
        {groups : Groups (ForwardSample F)}
        → Memᴰ g ((k, samples) ∷ [])
        → Memᴰ g ((k, samples) ∷ groups)
    first_mem (Memᴰ.head e) = Memᴰ.head e
    first_mem (Memᴰ.tail m) = elim m [ ]

    then_groups :
        {samples : List (ForwardSample F)} {groups : Groups (ForwardSample F)}
        {t u v : List (ForwardSample F)} {m n : ℕ}
        → IsPass ((k, samples) ∷ []) t u m
        → IsPass groups u v n
        → IsPass ((k, samples) ∷ groups) t v (m + n)
    then_groups IsPass.nothing IsPass.nothing = IsPass.nothing
    then_groups {samples} {groups} (IsPass.kept row h p) (IsPass.kept r h' q) =
        IsPass.kept row (both_kept row samples groups h h') (then_groups p q)
    then_groups (IsPass.kept {n = m} row h p) (IsPass.filled {n = n} r c g open_row i l last q) =
        recount (IsPass.filled row c g open_row (Memᴰ.tail i) l last (then_groups p q))
          (omega arith)
    then_groups (IsPass.filled row c g open_row i l last p) (IsPass.kept r h' q) =
        recount (IsPass.filled row c g open_row (first_mem i) l last (then_groups p q))
          (omega arith)
    then_groups (IsPass.filled row c g open_row i l last p)
          (IsPass.filled r c' g' shut i' l' last' q) =
        cc

  pub close_groups-IsPass :
      (groups : Groups (ForwardSample F)) (t : List (ForwardSample F))
      → IsPass groups t (close_groups groups t).0 (close_groups groups t).1
  unfolding close_groups
  close_groups-IsPass [] t = no_groups t
  close_groups-IsPass ((k, samples) ∷ groups) t =
      then_groups k (group-IsPass k samples t)
        (close_groups-IsPass groups (close_group samples t).0)
