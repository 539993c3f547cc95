-- ===== src/Forward/Report/OneBet.antt =====
-- Which sample stands for a token in `_one_bet_per_token`.
use sportsbetting.Base.{
  ℕ, ◌≡◌, inl, inr, refl, sym, ap, ◌∙◌, arith, String, true, false, ◌||◌, ◌&&◌, Option, none, some,
  List, [], ◌∷◌, ◌++◌, filter, str_eq, eq_iff, leb, ltb, ◌==◌, Bool-cases, Option-cases, All,
}
use sportsbetting.Base.Dict.{Dict, get, set, get-set}
use sportsbetting.Base.Sort.{sort_by, IsSorted, sort_by-IsSorted}
use sportsbetting.Base.Group.{with_key}
use sportsbetting.Float.{Float, le}
use sportsbetting.Forward.Record.{ForwardSample}
use sportsbetting.Forward.Report.{set_default, values, sampled_first, first_bets, one_bet_per_token}

module _ {F : Type 0} where
  -- The first of some rows.
  abbrev pub first_only : List (ForwardSample F) → List (ForwardSample F)
  first_only [] = []
  first_only (row ∷ rows) = row ∷ []

  -- Each entry of the dict stands under its own token, and no token stands there twice.
  abbrev IsIndexed : Dict (ForwardSample F) → Type 0
  IsIndexed [] = Unit
  IsIndexed ((k, row) ∷ d) = (row.token ≡ k) × All (λ e. str_eq e.0 k ≡ false) d × IsIndexed d

  abbrev pub of_token : String → List (ForwardSample F) → List (ForwardSample F)
  of_token token rows = with_key (λ r. r.token) token rows

  abbrev listed : Option (ForwardSample F) → List (ForwardSample F)
  listed none = []
  listed (some row) = row ∷ []

  get-none :
      (k : String) (d : Dict (ForwardSample F)) → All (λ e. str_eq e.0 k ≡ false) d → get k d ≡ none
  get-none k [] h = refl
  get-none k ((j, row) ∷ d) (n, h) = rw n (get-none k d h)

  of_token-values :
      (k : String) (d : Dict (ForwardSample F))
      → IsIndexed d
      → of_token k (values d) ≡ listed (get k d)
  of_token-values k [] h = refl
  of_token-values k ((j, row) ∷ d) (own, others, h) =
      let ih = of_token-values k d h in
      let key_eq : str_eq row.token k ≡ str_eq j k = ap (λ t. str_eq t k) own in
      elim (Bool-cases (str_eq j k)) [
        | inl here ↦
            let nothing : get k d ≡ none =
              get-none k d (others_at k j d ((eq_iff j k).0 here) others) in
            rw (key_eq, here) (ap (λ rest. row ∷ rest) (ih ∙ ap listed nothing))
        | inr there ↦ rw (key_eq, there) ih
      ]
    where
      others_at :
          (k j : String) (d : Dict (ForwardSample F))
          → j ≡ k
          → All (λ e. str_eq e.0 j ≡ false) d
          → All (λ e. str_eq e.0 k ≡ false) d
      others_at k j [] e h = tt
      others_at k j ((i, r) ∷ d) e (n, h) = (sym (ap (λ t. str_eq i t) e) ∙ n, others_at k j d e h)

  set-others :
      (k j : String) (row : ForwardSample F) (d : Dict (ForwardSample F))
      → str_eq k j ≡ false
      → All (λ e. str_eq e.0 j ≡ false) d
      → All (λ e. str_eq e.0 j ≡ false) (set k row d)
  set-others k j row [] n h = (n, tt)
  set-others k j row ((i, r) ∷ d) n (m, h) = elim (Bool-cases (str_eq i k)) [
    | inl same ↦ rw same (m, h)
    | inr other ↦ rw other (m, set-others k j row d n h)
  ]

  set-IsIndexed :
      (row : ForwardSample F) (d : Dict (ForwardSample F))
      → IsIndexed d
      → IsIndexed (set row.token row d)
  set-IsIndexed row [] h = (refl, tt, tt)
  set-IsIndexed row ((i, r) ∷ d) (own, others, h) = elim (Bool-cases (str_eq i row.token)) [
    | inl same ↦ rw same (sym ((eq_iff i row.token).0 same), others, h)
    | inr other ↦ rw other (
      own,
      set-others row.token i row d (ground (arith, other, eq_iff i row.token, eq_iff row.token i))
          others,
      set-IsIndexed row d h,
    )
  ]

  -- The rows of a token with the earlier ones that the dict has.
  abbrev found_then :
      String → Dict (ForwardSample F) → List (ForwardSample F) → List (ForwardSample F)
  found_then k d rows = first_only (listed (get k d) ++ of_token k rows)

  set_default-missing :
      (key : String) (row : ForwardSample F) (d : Dict (ForwardSample F))
      → get key d ≡ none
      → set_default key row d ≡ set key row d
  set_default-missing key row d e = rw (e, set_default) refl

  set_default-present :
      (key : String) (row old : ForwardSample F) (d : Dict (ForwardSample F))
      → get key d ≡ some old
      → set_default key row d ≡ d
  set_default-present key row old d e = rw (e, set_default) refl

  set_default-IsIndexed :
      (row : ForwardSample F) (d : Dict (ForwardSample F))
      → IsIndexed d
      → IsIndexed (set_default row.token row d)
  set_default-IsIndexed row d h = elim (Option-cases (get row.token d)) [
    | inl missing ↦ rw (set_default-missing row.token row d missing) (set-IsIndexed row d h)
    | inr (old, present) ↦ rw (set_default-present row.token row old d present) h
  ]

  found_then-set_default :
      (k : String) (d : Dict (ForwardSample F)) (row : ForwardSample F)
      (rows : List (ForwardSample F))
      → found_then k (set_default row.token row d) rows ≡ found_then k d (row ∷ rows)
  found_then-set_default k d row rows = elim (Bool-cases (str_eq row.token k)) [
    | inl here ↦
        let at_key : get k d ≡ get row.token d =
          ap (λ t. get t d) (sym ((eq_iff row.token k).0 here)) in
        elim (Option-cases (get row.token d)) [
          | inl missing ↦
              rw
                (
                  set_default-missing row.token row d missing,
                  get-set row.token k row d,
                  here,
                  at_key ∙ missing,
                )
                refl
          | inr (old, present) ↦
              rw (set_default-present row.token row old d present, here, at_key ∙ present) refl
        ]
    | inr there ↦ elim (Option-cases (get row.token d)) [
      | inl missing ↦
          rw (set_default-missing row.token row d missing, get-set row.token k row d, there) refl
      | inr (old, present) ↦ rw (set_default-present row.token row old d present, there) refl
    ]
  ]

  first_only-listed : (o : Option (ForwardSample F)) → listed o ≡ first_only (listed o ++ [])
  first_only-listed none = refl
  first_only-listed (some row) = refl

module _ {F : Type 0} ⦃fl : Float F⦄ (threshold : F) where
  -- The rows whose edge clears the threshold.
  abbrev pub cleared : List (ForwardSample F) → List (ForwardSample F)
  cleared rows = filter (λ r. le threshold r.edge) rows

  first_bets-found_then :
      (k : String) (d : Dict (ForwardSample F)) (rows : List (ForwardSample F))
      → IsIndexed d
      → of_token k (values (first_bets threshold d rows)) ≡ found_then k d (cleared rows)
  unfolding first_bets
  first_bets-found_then k d [] h = of_token-values k d h ∙ first_only-listed (get k d)
  first_bets-found_then k d (row ∷ rows) h = elim (Bool-cases (le threshold row.edge)) [
    | inl clears ↦ rw clears (
        first_bets-found_then k (set_default row.token row d) rows (set_default-IsIndexed row d h)
        ∙ found_then-set_default k d row (cleared rows))
    | inr misses ↦ rw misses (first_bets-found_then k d rows h)
  ]

  -- Of each token there is one bet at most: the first of its samples by time, then by id, whose edge
  -- clears the threshold.
  pub one_bet_per_token_first :
      (rows : List (ForwardSample F)) (token : String)
      → (of_token token (one_bet_per_token rows threshold)
          ≡ first_only (of_token token (cleared (sort_by sampled_first rows))))
        × IsSorted sampled_first (sort_by sampled_first rows)
  unfolding one_bet_per_token
  one_bet_per_token_first rows token = (
    first_bets-found_then token [] (sort_by sampled_first rows) tt,
    sort_by-IsSorted sampled_first
        (λ r s t h k. in_order r.sampled_at r.id s.sampled_at s.id t.sampled_at t.id h k)
        (λ r s h. either_order r.sampled_at r.id s.sampled_at s.id h) rows,
  )
    where
      in_order :
          (a i b j c k : ℕ)
          → (ltb a b || (a == b && leb i j)) ≡ true
          → (ltb b c || (b == c && leb j k)) ≡ true
          → (ltb a c || (a == c && leb i k)) ≡ true
      in_order a i b j c k g h = ground arith

      either_order :
          (a i b j : ℕ)
          → (ltb a b || (a == b && leb i j)) ≡ false
          → (ltb b a || (b == a && leb j i)) ≡ true
      either_order a i b j h = ground arith
