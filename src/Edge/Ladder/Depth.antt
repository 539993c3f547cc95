-- ===== src/Edge/Ladder/Depth.antt =====
-- The two walks against a description of what they buy: a run of the cheapest offers.
use sportsbetting.Base.{
  Bool, true, false, Option, none, some, List, [], ◌∷◌, ◌++◌, map, ◌≡◌, ◌⊎◌, inl, inr, refl, ap,
  Bool-cases, All,
}
use sportsbetting.Base.Result.{Result, ok, value_error, ◌>>=◌, map_ok, >>=-eq-ok}
use sportsbetting.Float.{Float, float, ◌⊕◌, ◌⊗◌, sum_from}
use sportsbetting.Edge.Types.{BookLevel}
use sportsbetting.Edge.Ladder.{by_price, unit_cost, clears, depth_loop, edge_clearing_depth}

-- One level that can be bought: what a share costs, fee included, and how many there are.
pub record Offer (F : Type 0) : Type 0 where
  pub cost : F
  pub size : F

map_ok-inv :
    {A B : Type 0} (f : A → B) (r : Result A) {b : B}
    → map_ok f r ≡ ok b
    → (a : A) × (r ≡ ok a) × (b ≡ f a)
map_ok-inv f (ok a) h = (a, refl, cc)
map_ok-inv f value_error h = cc

module _ {F : Type 0} ⦃fl : Float F⦄ where
  abbrev add_offer : BookLevel F → Option F → List (Offer F) → List (Offer F)
  add_offer level none offers = offers
  add_offer level (some cost) offers = record { cost = cost; size = level.size } ∷ offers

  -- All that a ladder offers, in the order of the walk; an error if a price is out of range.
  abbrev pub offers_of : F → List (BookLevel F) → Result (List (Offer F))
  offers_of fee_rate [] = ok []
  offers_of fee_rate (level ∷ levels) =
      unit_cost fee_rate level >>= λ unit. map_ok (add_offer level unit) (offers_of fee_rate levels)

  abbrev pub dollars : Offer F → F
  dollars o = o.size ⊗ o.cost

  abbrev pub size_of : Offer F → F
  size_of o = o.size

  module _ (fair min_edge fee_rate : F) where
    -- The offers split into those that clear the edge, all of them taken, and a rest that is empty
    -- or begins with one that does not.
    pub record IsDepth (offers : List (Offer F)) (usd shares : F) (result : F × F × Bool)
        : Type 0 where
      pub taken : List (Offer F)
      pub rest : List (Offer F)
      pub split : offers ≡ taken ++ rest
      pub clearing : All (λ o. clears fair min_edge o.cost ≡ true) taken
      pub usd_eq : result.0 ≡ sum_from usd (map dollars taken)
      pub shares_eq : result.1 ≡ sum_from shares (map size_of taken)
      pub ended :
          ((result.2 ≡ true) × (rest ≡ []))
          ⊎ ((result.2 ≡ false)
              × (o : Offer F) × (more : List (Offer F)) × (rest ≡ o ∷ more)
              × (clears fair min_edge o.cost ≡ false))

    IsDepth-step :
        (level : BookLevel F) (levels : List (BookLevel F)) (unit : Option F) (os : List (Offer F))
        → unit_cost fee_rate level ≡ ok unit
        → ((usd shares : F)
            → (result : F × F × Bool) × (depth_loop fair min_edge fee_rate levels usd shares
                ≡ ok result)
              × IsDepth os usd shares result)
        → (usd shares : F)
        → (result : F × F × Bool) × (depth_loop fair min_edge fee_rate (level ∷ levels) usd shares
            ≡ ok result)
          × IsDepth (add_offer level unit os) usd shares result
    unfolding depth_loop
    IsDepth-step level levels none os u ih usd shares =
        let (result, e, d) = ih usd shares in (result, rw (u, depth_loop) e, d)
    IsDepth-step level levels (some cost) os u ih usd shares =
        elim (Bool-cases (clears fair min_edge cost)) [
          | inl go_on ↦
              let (result, e, d) = ih (usd ⊕ level.size ⊗ cost) (shares ⊕ level.size) in
              (
                result,
                rw (u, depth_loop, ◌>>=◌) (rw go_on e),
                record {
                  taken = record { cost = cost; size = level.size } ∷ d.taken;
                  rest = d.rest;
                  split = ap (λ xs. record { cost = cost; size = level.size } ∷ xs) d.split;
                  clearing = (go_on, d.clearing);
                  usd_eq = d.usd_eq;
                  shares_eq = d.shares_eq;
                  ended = d.ended;
                },
              )
          | inr stop ↦ (
            (usd, shares, false),
            rw (u, depth_loop, ◌>>=◌) (rw stop refl),
            record {
              taken = [];
              rest = record { cost = cost; size = level.size } ∷ os;
              split = refl;
              clearing = tt;
              usd_eq = refl;
              shares_eq = refl;
              ended = inr (refl, record { cost = cost; size = level.size }, os, refl, stop);
            },
          )
        ]

    depth_loop-IsDepth :
        (levels : List (BookLevel F)) (offers : List (Offer F))
        → offers_of fee_rate levels ≡ ok offers
        → (usd shares : F)
        → (result : F × F × Bool) × (depth_loop fair min_edge fee_rate levels usd shares
            ≡ ok result)
          × IsDepth offers usd shares result
    unfolding depth_loop
    depth_loop-IsDepth [] offers h usd shares =
        let none_offered : [] ≡ offers = cc in
        (
          (usd, shares, true),
          refl,
          record {
            taken = [];
            rest = [];
            split = rw (← none_offered);
            clearing = tt;
            usd_eq = refl;
            shares_eq = refl;
            ended = inl (refl, refl);
          },
        )
    depth_loop-IsDepth (level ∷ levels) offers h usd shares =
        let (unit, u, h') = >>=-eq-ok (unit_cost fee_rate level) _ h in
        let (os, r, same) = map_ok-inv (add_offer level unit) (offers_of fee_rate levels) h' in
        let (result, e, d) =
          IsDepth-step level levels unit os u (depth_loop-IsDepth levels os r) usd shares in
        (result, e, rw same d)

    -- On a ladder with prices in range the walk finds how far the edge survives: it takes the
    -- cheapest offers as long as each clears the minimum edge, adds up their dollars and shares, and
    -- says that the ladder was exhausted exactly when no offer was left.
    pub edge_clearing_depth_correct :
        (asks : List (BookLevel F)) (offers : List (Offer F))
        → offers_of fee_rate (by_price asks) ≡ ok offers
        → (result : F × F × Bool) × (edge_clearing_depth asks fair min_edge fee_rate ≡ ok result)
          × IsDepth offers (float 0) (float 0) result
    unfolding edge_clearing_depth
    edge_clearing_depth_correct asks offers h =
        depth_loop-IsDepth (by_price asks) offers h (float 0) (float 0)
