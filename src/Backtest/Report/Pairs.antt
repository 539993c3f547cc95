-- ===== src/Backtest/Report/Pairs.antt =====
-- Which markets `paired_only` keeps.
use sportsbetting.Base.{
  ◌≡◌, inl, inr, refl, ap, ◌∙◌, String, List, [], ◌∷◌, if◌then◌else◌, Bool-cases, All,
}
use sportsbetting.Base.Group.{Groups, group_by, with_key}
use sportsbetting.Base.Group.Flat.{flat_groups, with_key-flat_groups_by}
use sportsbetting.Float.{Float}
use sportsbetting.Backtest.Sample.{Sample}
use sportsbetting.Backtest.Report.{believable, keep_pairs, paired_only}

module _ {F : Type 0} ⦃fl : Float F⦄ where
  -- The rows of one market.
  abbrev pub sides_of : String → List (Sample F) → List (Sample F)
  sides_of id rows = with_key (λ r. r.market_id) id rows

  abbrev pub pair_or_none : F → List (Sample F) → List (Sample F)
  pair_or_none max_pair_error sides = if believable max_pair_error sides then sides else []

  keep_pairs-flat :
      (error : F) (groups : Groups (Sample F))
      → keep_pairs error groups ≡ flat_groups (pair_or_none error) groups
  unfolding keep_pairs
  keep_pairs-flat error [] = refl
  keep_pairs-flat error ((k, sides) ∷ groups) = elim (Bool-cases (believable error sides)) [
    | inl good ↦ rw (good, keep_pairs-flat error groups) refl
    | inr bad ↦ rw bad (keep_pairs-flat error groups)
  ]

  pair_or_none-keeps :
      (error : F) (P : Sample F → Type 0) (sides : List (Sample F))
      → All P sides
      → All P (pair_or_none error sides)
  pair_or_none-keeps error P sides h = elim (Bool-cases (believable error sides)) [
    | inl good ↦ rw good h
    | inr bad ↦ rw bad tt
  ]

  -- Of every market either all rows are kept, in their order, or none: all, exactly where they are two
  -- whose closing prices sum to 1 within the error.
  pub paired_only_correct :
      (rows : List (Sample F)) (error : F) (id : String)
      → sides_of id (paired_only rows error) ≡ pair_or_none error (sides_of id rows)
  unfolding paired_only
  paired_only_correct rows error id =
      ap (sides_of id) (keep_pairs-flat error (group_by (λ r. r.market_id) [] rows))
      ∙ with_key-flat_groups_by (λ r. r.market_id) id (pair_or_none error) refl
          (pair_or_none-keeps error) rows
