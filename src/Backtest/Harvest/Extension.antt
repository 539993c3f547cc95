-- ===== src/Backtest/Harvest/Extension.antt =====
-- The rows on file with what a harvest adds to them: how a store of new rows, a commit and a skip keep it.
use mathlib.Core.List.{append_assoc}
use mathlib.Core.Path.{subst}
use sportsbetting.Base.{
  ◌≡◌, ◌≢◌, ◌⊎◌, inl, inr, refl, sym, ap, ◌∙◌, arith, String, true, false, List, [], ◌∷◌, ◌++◌, map,
  str_eq_refl, Bool-cases, All, All-append,
}
use sportsbetting.Backtest.Sample.{Sample}
use sportsbetting.Backtest.Harvest.{Harvest, has_market, Turn, next, returned, raised}

pub known_first : (id : String) (known : List String) → has_market id (id ∷ known) ≡ true
known_first id known = rw (str_eq_refl id) refl

pub known_after :
    (id i : String) (known : List String)
    → has_market i known ≡ true
    → has_market i (id ∷ known) ≡ true
known_after id i known h = ground arith

module _ {F : Type 0} where
  -- Two rows of different markets, or of different sides of one.
  abbrev pub Differ : Sample F → Sample F → Type 0
  Differ s t = (s.market_id ≢ t.market_id) ⊎ (s.outcome_index ≢ t.outcome_index)

  abbrev pub IsDistinct : List (Sample F) → Type 0
  IsDistinct [] = Unit
  IsDistinct (s ∷ ss) = All (Differ s) ss × IsDistinct ss

  pub IsDistinct-append :
      (xs ys : List (Sample F))
      → IsDistinct xs
      → IsDistinct ys
      → All (λ x. All (Differ x) ys) xs
      → IsDistinct (xs ++ ys)
  IsDistinct-append [] ys _ d _ = d
  IsDistinct-append (x ∷ xs) ys (away, dx) d (h, hs) =
      (All-append (Differ x) xs ys away h, IsDistinct-append xs ys dx d hs)

  abbrev pub ids : List (Sample F) → List String
  ids = map (λ s. s.market_id)

  abbrev pub stored_rows : Harvest F → List (Sample F)
  stored_rows h = h.committed ++ h.added

  abbrev pub state_of : Turn F → Harvest F
  state_of (next h) = h
  state_of (returned h) = h
  state_of (raised h) = h

  -- The rows on file, then new ones of markets that were not on file.
  pub record IsExtension (table : List (Sample F)) (h : Harvest F) : Type 0 where
    pub fresh : List (Sample F)
    pub rows_eq : stored_rows h ≡ table ++ fresh
    pub distinct : IsDistinct (table ++ fresh)
    pub covered : All (λ s. has_market s.market_id h.known ≡ true) (table ++ fresh)
    pub unknown : All (λ s. has_market s.market_id (ids table) ≡ false) fresh
    pub grows : (id : String) → has_market id (ids table) ≡ true → has_market id h.known ≡ true

  pub All-map :
      {P Q : Sample F → Type 0} (f : (s : Sample F) → P s → Q s) (xs : List (Sample F))
      → All P xs
      → All Q xs
  All-map f [] h = tt
  All-map f (x ∷ xs) (p, h) = (f x p, All-map f xs h)

  -- The rows of one market that is not known, put behind the others.
  module _ (id : String) (found : List (Sample F)) (own : All (λ s. s.market_id ≡ id) found)
      (apart : IsDistinct found) (table : List (Sample F)) where
    not_in :
        (known : List String)
        → has_market id known ≡ false
        → (x : Sample F) → has_market x.market_id known ≡ true
        → x.market_id ≡ id
        → ⊥
    not_in known out x k same =
        let k' : has_market id known ≡ true = subst (λ i. has_market i known ≡ true) same k in cc

    off_file :
        (known : List String)
        → ((i : String) → has_market i (ids table) ≡ true → has_market i known ≡ true)
        → has_market id known ≡ false
        → has_market id (ids table) ≡ false
    off_file known grows out = elim (Bool-cases (has_market id (ids table))) [
      | inl on ↦ let k = grows id on in cc
      | inr off ↦ off
    ]

    away :
        (known : List String)
        → has_market id known ≡ false
        → (xs : List (Sample F)) → All (λ s. has_market s.market_id known ≡ true) xs
        → All (λ x. All (Differ x) found) xs
    away known out xs h =
        All-map (λ x k. All-map (λ s e. inl (λ same. not_in known out x k (same ∙ e))) found own) xs
          h

    pub extend :
        {h h' : Harvest F}
        → has_market id h.known ≡ false
        → stored_rows h' ≡ stored_rows h ++ found
        → h'.known ≡ id ∷ h.known
        → IsExtension table h
        → IsExtension table h'
    extend {h} {h'} out more known_eq x = record {
      fresh = x.fresh ++ found;
      rows_eq = more ∙ ap (λ r. r ++ found) x.rows_eq ∙ append_assoc table x.fresh found;
      distinct = rw (← append_assoc table x.fresh found) (
          IsDistinct-append (table ++ x.fresh) found x.distinct apart
            (away h.known out (table ++ x.fresh) x.covered));
      covered = rw known_eq (
          rw (← append_assoc table x.fresh found) (
            All-append (λ s. has_market s.market_id (id ∷ h.known) ≡ true) (table ++ x.fresh) found
              (All-map (λ s k. known_after id s.market_id h.known k) (table ++ x.fresh) x.covered)
              (All-map
                (λ s e.
                  subst (λ i. has_market i (id ∷ h.known) ≡ true) (sym e) (known_first id h.known))
                found own)));
      unknown =
          All-append (λ s. has_market s.market_id (ids table) ≡ false) x.fresh found x.unknown
            (All-map
              (λ s e.
                subst (λ i. has_market i (ids table) ≡ false) (sym e)
                  (off_file h.known x.grows out))
              found own);
      grows = λ i k. rw known_eq (known_after id i h.known (x.grows i k));
    }

  -- A turn that changes neither the rows nor, but for one more, the known markets.
  pub keep :
      {table : List (Sample F)} {h h' : Harvest F}
      → stored_rows h' ≡ stored_rows h
      → h'.known ≡ h.known
      → IsExtension table h
      → IsExtension table h'
  keep e k x = record {
    fresh = x.fresh;
    rows_eq = e ∙ x.rows_eq;
    distinct = x.distinct;
    covered = rw k x.covered;
    unknown = x.unknown;
    grows = λ i on. rw k (x.grows i on);
  }

  pub learn :
      {table : List (Sample F)} {h h' : Harvest F} (id : String)
      → stored_rows h' ≡ stored_rows h
      → h'.known ≡ id ∷ h.known
      → IsExtension table h
      → IsExtension table h'
  learn {table} {h} id e k x = record {
    fresh = x.fresh;
    rows_eq = e ∙ x.rows_eq;
    distinct = x.distinct;
    covered =
        rw k (All-map (λ s on. known_after id s.market_id h.known on) (table ++ x.fresh) x.covered);
    unknown = x.unknown;
    grows = λ i on. rw k (known_after id i h.known (x.grows i on));
  }
