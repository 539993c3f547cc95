-- ===== src/Edge/Plan/Resting.antt =====
-- What a resting price promises.
use sportsbetting.Base.{◌≡◌, inl, inr, refl, none, some, Bool-cases, Option-cases}
use sportsbetting.Base.Result.{ok, value_error, >>=-eq-ok, ok_inj}
use sportsbetting.Float.{
  Float, float, decimal, ◌⊕◌, ◌⊖◌, ◌⊗◌, ◌⊘◌, le, lt, ◌≼◌, ◌≺◌, min, round, floor,
}
use sportsbetting.Float.Laws.{IsFloat}
use sportsbetting.Edge.Value.Bounds.{min_le_right, min_le_left}
use sportsbetting.Edge.Plan.{limit_price_for_edge, rest_below, resting_limit_price}

module _ {F : Type 0} ⦃fl : Float F⦄ where
  -- A price that is a whole number of ticks, no more of them than the edge leaves: the fair
  -- probability less the minimum edge, in ticks, with the allowance for float error.
  abbrev pub IsWithinEdge : F → F → F → F → Type 0
  IsWithinEdge fair min_edge tick price =
      (float 0 ≺ tick)
      × (ticks : F) × (ticks ≡ floor ((fair ⊖ min_edge) ⊘ tick ⊕ decimal 1 9))
      × (ticks ≼ (fair ⊖ min_edge) ⊘ tick ⊕ decimal 1 9)
      × (price ≼ round (ticks ⊗ tick) 10)

  module _ (laws : IsFloat F) where
    min_pos : (x y : F) → float 0 ≺ x → float 0 ≺ y → float 0 ≺ min x y
    min_pos x y h k = elim (Bool-cases (lt y x)) [ inl small ↦ rw small k | inr large ↦ rw large h ]

    limit_price_for_edge-IsWithinEdge :
        (fair min_edge tick : F) {limit : F}
        → limit_price_for_edge fair min_edge tick ≡ ok (some limit)
        → (float 0 ≺ limit) × IsWithinEdge fair min_edge tick limit
    unfolding limit_price_for_edge
    limit_price_for_edge-IsWithinEdge fair min_edge tick {limit} e =
        elim (Bool-cases (le tick (float 0))) [
          | inl bad ↦ let e' : value_error ≡ ok (some limit) = rw bad at e in cc
          | inr good ↦
              let target = (fair ⊖ min_edge) ⊘ tick ⊕ decimal 1 9 in
              let price = round (floor target ⊗ tick) 10 in
              elim (Bool-cases (lt (float 0) price)) [
                | inl positive ↦
                    let e' : ok (some price) ≡ ok (some limit) = rw (good, positive) at e in
                    let same : limit ≡ price = cc in
                    rw same (
                      positive,
                      (rw good refl, floor target, refl, laws.floor_le target, laws.le_refl price),
                    )
                | inr small ↦ let e' : ok none ≡ ok (some limit) = rw (good, small) at e in cc
              ]
        ]

    rest_below-lowest :
        (limit tick ask : F) {price : F}
        → float 0 ≺ limit
        → rest_below (some limit) tick (some ask) ≡ some price
        → (float 0 ≺ price) × (price ≼ round (ask ⊖ tick) 10) × (price ≼ limit)
    rest_below-lowest limit tick ask {price} positive h =
        let ceiling = round (ask ⊖ tick) 10 in
        elim (Bool-cases (le ceiling (float 0))) [
          | inl low ↦ let h' : none ≡ some price = rw low at h in cc
          | inr high ↦
              let h' : some (min limit ceiling) ≡ some price = rw high at h in
              let same : price ≡ min limit ceiling = cc in
              rw same (
                min_pos limit ceiling positive (rw high refl),
                min_le_right laws limit ceiling,
                min_le_left laws limit ceiling,
              )
        ]

    -- A resting price is positive, at least one tick below the best ask to ten decimals, and at most
    -- a whole number of ticks, to ten decimals, that the fair probability less the minimum edge
    -- reaches, with 1e-9 of a tick for float error.
    pub resting_limit_price_below :
        (fair min_edge ask tick : F) {price : F}
        → resting_limit_price fair min_edge (some ask) tick ≡ ok (some price)
        → (float 0 ≺ price)
          × (price ≼ round (ask ⊖ tick) 10)
          × IsWithinEdge fair min_edge tick price
    unfolding resting_limit_price
    resting_limit_price_below fair min_edge ask tick {price} e =
        let (found, limited, e₁) = >>=-eq-ok (limit_price_for_edge fair min_edge tick) _ e in
        elim (Option-cases found) [
          | inl nothing ↦ let e' : ok none ≡ ok (some price) = rw nothing at e₁ in cc
          | inr (limit, is_some) ↦
              let limited' : limit_price_for_edge fair min_edge tick ≡ ok (some limit) =
                rw is_some at limited in
              let e' : ok (rest_below (some limit) tick (some ask)) ≡ ok (some price) =
                rw is_some at e₁ in
              let (positive, (ticking, ticks, whole, reached, below)) =
                limit_price_for_edge-IsWithinEdge fair min_edge tick limited' in
              let (above, under, least) = rest_below-lowest limit tick ask positive (ok_inj e') in
              (
                above,
                under,
                (
                  ticking,
                  ticks,
                  whole,
                  reached,
                  laws.le_trans price limit (round (ticks ⊗ tick) 10) least below,
                ),
              )
        ]
