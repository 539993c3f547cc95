-- ===== src/Edge/Plan/Safe.antt =====
-- What a stake plan promises.
use sportsbetting.Base.{
  ◌≡◌, ◌⊎◌, inl, inr, refl, ap, arith, Bool, true, false, not, ◌&&◌, Option, none, some, List,
  Bool-cases, and_true,
}
use sportsbetting.Base.Result.{ok, ◌>>=◌, >>=-eq-ok}
use sportsbetting.Float.{Float, float, le, lt, ◌≼◌, ◌≺◌}
use sportsbetting.Float.Laws.{IsFloat}
use sportsbetting.Edge.Types.{Prefs, BookLevel, StakePlan, no_edge_depth}
use sportsbetting.Edge.Value.{kelly_fraction, stake_for, min_stake_usd}
use sportsbetting.Edge.Value.Bounds.{kelly_fraction_no_edge, stake_for_zero}
use sportsbetting.Edge.Ladder.{walk_asks, edge_clearing_depth}
use sportsbetting.Edge.Plan.{
  filled, no_stake, floor_cents, below_minimum, minimum_note, fill_plan, cut_plan, plan_stake,
}

module _ {F : Type 0} ⦃fl : Float F⦄ where
  -- The whole stake stands, since the depth covers it or the ladder ended first.
  abbrev pub IsWhole : F → F × F × Bool → StakePlan F → Type 0
  IsWhole wanted (usd, shares, exhausted) plan =
      (plan.stake ≡ wanted) × ((exhausted ≡ true) ⊎ (wanted ≼ usd))

  -- The stake is cut to the depth that clears the edge, in whole cents, and reported as partial.
  abbrev pub IsCut : F → F × F × Bool → StakePlan F → Type 0
  IsCut wanted (usd, shares, exhausted) plan =
      (exhausted ≡ false)
      × (usd ≺ wanted)
      × (plan.stake ≡ floor_cents usd)
      × (min_stake_usd ≼ plan.stake)
      × (plan.fill_complete ≡ false)

  -- What a plan with a stake records: a purchase of at least the minimum order at that stake.
  pub record IsBought (asks : List (BookLevel F)) (fee_rate : F) (min_order_size : Option F)
      (plan : StakePlan F) : Type 0 where
    pub price : F
    pub shares : F
    pub complete : Bool
    pub walked : walk_asks asks plan.stake fee_rate ≡ ok (price, shares, complete)
    pub enough : below_minimum min_order_size shares ≡ false
    pub price_eq : plan.fill_price ≡ some price

  module _ (asks : List (BookLevel F)) (fee_rate : F) (min_order_size : Option F) where
    abbrev IsFilled : F → Bool → StakePlan F → Type 0
    IsFilled stake capped plan =
        (plan.stake ≡ float 0)
        ⊎ ((plan.stake ≡ stake)
            × IsBought asks fee_rate min_order_size plan
            × (capped ≡ true → plan.fill_complete ≡ false))

    filled-IsFilled :
        (stake price shares : F) (complete capped : Bool)
        → walk_asks asks stake fee_rate ≡ ok (price, shares, complete)
        → below_minimum min_order_size shares ≡ false
        → (filled stake price shares complete capped).stake ≡ stake
          × IsBought asks fee_rate min_order_size (filled stake price shares complete capped)
          × (capped ≡ true → (filled stake price shares complete capped).fill_complete ≡ false)
    filled-IsFilled stake price shares complete true w enough = (
      refl,
      record {
        price = price;
        shares = shares;
        complete = complete;
        walked = w;
        enough = enough;
        price_eq = refl;
      },
      λ _. refl,
    )
    filled-IsFilled stake price shares complete false w enough = (
      refl,
      record {
        price = price;
        shares = shares;
        complete = complete;
        walked = w;
        enough = enough;
        price_eq = refl;
      },
      λ h. cc,
    )

    fill_plan-IsFilled :
        (stake : F) (capped : Bool) {plan : StakePlan F}
        → fill_plan asks fee_rate min_order_size stake capped ≡ ok plan
        → IsFilled stake capped plan
    unfolding fill_plan
    fill_plan-IsFilled stake capped {plan} h =
        let ((price, shares, complete), w, e) = >>=-eq-ok (walk_asks asks stake fee_rate) _ h in
        elim (Bool-cases (below_minimum min_order_size shares)) [
          | inl below ↦
              let e' : ok (no_stake (minimum_note min_order_size shares)) ≡ ok plan =
                rw below at e in
              let same : plan ≡ no_stake (minimum_note min_order_size shares) = cc in
              inl (ap (λ p. p.stake) same)
          | inr enough ↦
              let e' : ok (filled stake price shares complete capped) ≡ ok plan = rw enough at e in
              let same : plan ≡ filled stake price shares complete capped = cc in
              inr (rw same (filled-IsFilled stake price shares complete capped w enough))
        ]

    abbrev pub IsPlan : F → F × F × Bool → StakePlan F → Type 0
    IsPlan wanted depth plan =
        (plan.stake ≡ float 0)
        ⊎ ((IsWhole wanted depth plan ⊎ IsCut wanted depth plan)
            × IsBought asks fee_rate min_order_size plan)

    cut_plan-IsPlan :
        (wanted : F) (depth : F × F × Bool) {plan : StakePlan F}
        → cut_plan asks fee_rate min_order_size wanted depth ≡ ok plan
        → IsPlan wanted depth plan
    unfolding cut_plan
    cut_plan-IsPlan wanted (usd, shares, exhausted) {plan} e =
        elim (Bool-cases (not exhausted && lt usd wanted)) [
          | inl cut ↦ elim (Bool-cases (lt (floor_cents usd) min_stake_usd)) [
            | inl too_small ↦
                let e' : ok (no_stake (some no_edge_depth)) ≡ ok plan = rw (cut, too_small) at e in
                let same : plan ≡ no_stake (some no_edge_depth) = cc in inl (ap (λ p. p.stake) same)
            | inr large ↦
                let e' : fill_plan asks fee_rate min_order_size (floor_cents usd) true ≡ ok plan =
                  rw (cut, large) at e in
                elim (fill_plan-IsFilled (floor_cents usd) true e') [
                  | inl nothing ↦ inl nothing
                  | inr (same, bought, partial) ↦
                      let (more, less) = and_true (not exhausted) (lt usd wanted) cut in
                      inr (
                        inr (ground arith, less, same, rw same (ground arith), partial refl),
                        bought,
                      )
                ]
          ]
          | inr whole ↦
              let e' : fill_plan asks fee_rate min_order_size wanted false ≡ ok plan =
                rw whole at e in
              elim (fill_plan-IsFilled wanted false e') [
                | inl nothing ↦ inl nothing
                | inr (same, bought, _) ↦ inr (inl (same, covered exhausted whole), bought)
              ]
        ]
      where
        covered :
            (exhausted : Bool)
            → (not exhausted && lt usd wanted) ≡ false
            → (exhausted ≡ true) ⊎ (wanted ≼ usd)
        covered true h = inl refl
        covered false h = inr (ground arith)

    -- A plan that is made either stakes nothing, or its stake is one of two amounts. It is what
    -- fractional Kelly asks for, where the depth that clears the minimum edge covers that or the
    -- ladder ended before a level missed the edge. Or it is that depth in whole cents, where Kelly
    -- asks for more: at least the minimum stake, and reported as partial. A plan with a stake is a
    -- purchase from the ladder of no fewer shares than the market's minimum order.
    pub plan_stake_safe :
        (fair kelly : F) (prefs : Prefs F) {plan : StakePlan F}
        → plan_stake asks fair kelly fee_rate prefs min_order_size ≡ ok plan
        → (plan.stake ≡ float 0)
          ⊎ ((wanted : F) × (depth : F × F × Bool) × (stake_for prefs.bankroll kelly
                  prefs.kelly_fraction prefs.max_stake_pct min_stake_usd
                ≡ ok wanted)
              × (edge_clearing_depth asks fair prefs.min_edge fee_rate ≡ ok depth)
              × (IsWhole wanted depth plan ⊎ IsCut wanted depth plan)
              × IsBought asks fee_rate min_order_size plan)
    unfolding plan_stake
    plan_stake_safe fair kelly prefs {plan} e =
        let (wanted, asked, e₁) =
          >>=-eq-ok
            (stake_for prefs.bankroll kelly prefs.kelly_fraction prefs.max_stake_pct min_stake_usd)
            _ e in
        elim (Bool-cases (le wanted (float 0))) [
          | inl nothing ↦
              let e' : ok (no_stake none) ≡ ok plan = rw nothing at e₁ in
              let same : plan ≡ no_stake none = cc in inl (ap (λ p. p.stake) same)
          | inr some_asked ↦
              let e' : (edge_clearing_depth asks fair prefs.min_edge fee_rate
                    >>= cut_plan asks fee_rate min_order_size wanted)
                  ≡ ok plan =
                rw some_asked at e₁ in
              let (depth, found, e₂) =
                >>=-eq-ok (edge_clearing_depth asks fair prefs.min_edge fee_rate) _ e' in
              elim (cut_plan-IsPlan wanted depth e₂) [
                | inl nothing ↦ inl nothing
                | inr (sized, bought) ↦ inr (wanted, depth, asked, found, sized, bought)
              ]
        ]

  module _ (laws : IsFloat F) where
    -- Where the outcome costs at least its fair probability nothing is staked, whatever the ladder
    -- and the preferences.
    plan_stake_no_edge :
        (asks : List (BookLevel F)) (fair cost fee_rate : F) (prefs : Prefs F)
        (min_order_size : Option F) {kelly : F} {plan : StakePlan F}
        → fair ≼ cost
        → kelly_fraction fair cost ≡ ok kelly
        → plan_stake asks fair kelly fee_rate prefs min_order_size ≡ ok plan
        → plan.stake ≡ float 0
    unfolding plan_stake
    plan_stake_no_edge asks fair cost fee_rate prefs min_order_size {kelly} {plan} h k e =
        let zero_kelly : kelly ≡ float 0 = kelly_fraction_no_edge laws fair cost h k in
        let (wanted, asked, e₁) =
          >>=-eq-ok
            (stake_for prefs.bankroll kelly prefs.kelly_fraction prefs.max_stake_pct min_stake_usd)
            _ e in
        let none_wanted : wanted ≡ float 0 =
          stake_for_zero laws prefs.bankroll prefs.kelly_fraction prefs.max_stake_pct
            (rw zero_kelly at asked) in
        let nothing : le wanted (float 0) ≡ true = rw none_wanted (laws.le_refl (float 0)) in
        let e' : ok (no_stake none) ≡ ok plan = rw nothing at e₁ in
        let same : plan ≡ no_stake none = cc in ap (λ p. p.stake) same
