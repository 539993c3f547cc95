-- ===== src/Wallet/Import/Again.antt =====
-- A second import of the same fills, on the ledger that the first one leaves.
use mathlib.Core.Path.{subst}
use sportsbetting.Base.{
  ◌≡◌, ◌⊎◌, inl, inr, refl, sym, ap, ◌∙◌, arith, String, Bool, true, false, Option, none, some,
  List, [], ◌∷◌, length, str_eq, str_eq_refl, leb, Bool-cases,
}
use sportsbetting.Base.Result.{Result, ok, value_error, map_ok, >>=-eq-ok, ok_inj}
use sportsbetting.Float.{Float}
use sportsbetting.Wallet.Fill.{Fill, Order, placed_at, import_key}
use sportsbetting.Wallet.Import.{
  SkipReason, Priced, Tracked, ImportedBet, ImportResult, has_key, find_market, asset_outcome,
  is_in_play, note_skip, count_already, add_bet, bet_of, import_at, import_in, import_order,
  import_orders, max_skipped_notes,
}

module _ {F : Type 0} where
  -- Nothing was imported between the two.
  pub record IsSame (a b : ImportResult F) : Type 0 where
    pub known_eq : b.known_keys ≡ a.known_keys
    pub bets_eq : b.new_bets ≡ a.new_bets
    pub imported_eq : b.imported ≡ a.imported

  pub IsSame-refl : (a : ImportResult F) → IsSame a a
  IsSame-refl a = record { known_eq = refl; bets_eq = refl; imported_eq = refl }

  pub IsSame-trans : (a b c : ImportResult F) → IsSame a b → IsSame b c → IsSame a c
  IsSame-trans a b c p q = record {
    known_eq = q.known_eq ∙ p.known_eq;
    bets_eq = q.bets_eq ∙ p.bets_eq;
    imported_eq = q.imported_eq ∙ p.imported_eq;
  }

  pub note_skip-IsSame :
      (reason : SkipReason) (fill : Option (Fill F)) (a : ImportResult F)
      → IsSame a (note_skip reason fill a)
  note_skip-IsSame reason fill a = elim (Bool-cases (leb max_skipped_notes (length a.skipped))) [
    | inl full ↦ record {
      known_eq = rw full refl;
      bets_eq = rw full refl;
      imported_eq = rw full refl;
    }
    | inr room ↦ record {
      known_eq = rw room refl;
      bets_eq = rw room refl;
      imported_eq = rw room refl;
    }
  ]

  -- Each key of the one is a key of the other.
  abbrev pub Covers : ImportResult F → ImportResult F → Type 0
  Covers a b = (k : String) → has_key k a.known_keys ≡ true → has_key k b.known_keys ≡ true

  IsSame-Covers : (a b : ImportResult F) → IsSame a b → Covers a b
  IsSame-Covers a b same k h = ap (has_key k) same.known_eq ∙ h

  add_bet-Covers : (bet : ImportedBet F) (a : ImportResult F) → Covers a (add_bet bet a)
  add_bet-Covers bet a k h = ground arith

  add_bet-has_key :
      (bet : ImportedBet F) (a : ImportResult F)
      → has_key bet.import_key (add_bet bet a).known_keys ≡ true
  add_bet-has_key bet a = rw (str_eq_refl bet.import_key) refl

module _ {F : Type 0} ⦃fl : Float F⦄ (markets : List Tracked)
    (samples opportunities : List (Priced F)) (fee_rate : F) where
  map_ok-eq-ok :
      {A B : Type 0} (f : A → B) (call : Result A) {out : B}
      → map_ok f call ≡ ok out
      → (a : A) × (call ≡ ok a) × (f a ≡ out)
  map_ok-eq-ok f value_error h = cc
  map_ok-eq-ok f (ok a) h = (a, refl, ok_inj h)

  bet_of-import_key :
      (market : Tracked) (outcome : String × Option String) (order : Order F) {bet : ImportedBet F}
      → bet_of markets samples opportunities fee_rate market outcome order ≡ ok bet
      → bet.import_key ≡ import_key order.first
  unfolding bet_of
  bet_of-import_key market (name, key) order e =
      let (fee, _, same) = map_ok-eq-ok _ _ e in sym (ap (λ b. b.import_key) same)

  -- A turn on an order that is not known skips it, whatever the result so far, or adds its bet.
  abbrev Turn :
      Order F
      → ImportResult F
      → ImportResult F
      → (ImportResult F → Result (ImportResult F))
      → Type 0
  Turn order a b run =
      ((reason : SkipReason) × ((x : ImportResult F)
          → run x ≡ ok (note_skip reason (some order.first) x)))
      ⊎ ((bet : ImportedBet F) × (b ≡ add_bet bet a) × (bet.import_key ≡ import_key order.first))

  import_at-Turn :
      (order : Order F) (market : Tracked) (outcome : Option (String × Option String))
      (a b : ImportResult F)
      → import_at markets samples opportunities fee_rate order market outcome a ≡ ok b
      → Turn order a b (import_at markets samples opportunities fee_rate order market outcome)
  import_at-Turn order market none a b e = inl (SkipReason.not_an_outcome, λ x. refl)
  import_at-Turn order market (some outcome) a b e =
      elim (Bool-cases (is_in_play market.kickoff (placed_at order))) [
        | inl late ↦ inl (SkipReason.after_kickoff, λ x. rw late refl)
        | inr early ↦
            let e' = rw early at e in
            let (bet, made, added) = map_ok-eq-ok (λ bet. add_bet bet a) _ e' in
            inr (bet, sym added, bet_of-import_key market outcome order made)
      ]

  import_in-Turn :
      (order : Order F) (found : Option Tracked) (a b : ImportResult F)
      → import_in markets samples opportunities fee_rate order found a ≡ ok b
      → Turn order a b (import_in markets samples opportunities fee_rate order found)
  import_in-Turn order none a b e = inl (SkipReason.unknown_market, λ x. refl)
  import_in-Turn order (some market) a b e =
      import_at-Turn order market (asset_outcome order.first.asset market) a b e

  -- What a turn does: it imports nothing, or adds one bet under a key that was not known.
  pub import_order-cases :
      (order : Order F) (a b : ImportResult F)
      → import_order markets samples opportunities fee_rate order a ≡ ok b
      → IsSame a b
        ⊎ ((has_key (import_key order.first) a.known_keys ≡ false)
            × (bet : ImportedBet F) × (b ≡ add_bet bet a)
            × (bet.import_key ≡ import_key order.first))
  unfolding import_order
  import_order-cases order a b e = elim (Bool-cases (str_eq order.first.side "BUY")) [
    | inr sells ↦
        inl (same_as (rw sells at e) (note_skip-IsSame SkipReason.sell (some order.first) a))
    | inl buys ↦ elim (Bool-cases (has_key (import_key order.first) a.known_keys)) [
      | inl known ↦ inl (
          same_as (rw (buys, known) at e)
            (record { known_eq = refl; bets_eq = refl; imported_eq = refl }))
      | inr fresh ↦
          elim (import_in-Turn order (find_market order.first.condition_id markets) a b
            (rw (buys, fresh) at e)) [
              | inl (reason, skips) ↦ inl (
                  same_as (sym (skips a) ∙ (rw (buys, fresh) at e))
                    (note_skip-IsSame reason (some order.first) a))
              | inr (bet, added, key) ↦ inr (fresh, bet, added, key)
            ]
    ]
  ]
    where
      same_as : {c : ImportResult F} → ok c ≡ ok b → IsSame a c → IsSame a b
      same_as {c} e s = subst (λ x. IsSame a x) (ok_inj e) s

  import_order-Covers :
      (order : Order F) (a b : ImportResult F)
      → import_order markets samples opportunities fee_rate order a ≡ ok b
      → Covers a b
  import_order-Covers order a b e = elim (import_order-cases order a b e) [
    | inl same ↦ IsSame-Covers a b same
    | inr (_, bet, added, _) ↦
        λ k h. ap (λ x. has_key k x.known_keys) added ∙ add_bet-Covers bet a k h
  ]

  import_orders-Covers :
      (orders : List (Order F)) (a b : ImportResult F)
      → import_orders markets samples opportunities fee_rate orders a ≡ ok b
      → Covers a b
  unfolding import_orders
  import_orders-Covers [] a b e k h = ap (λ x. has_key k x.known_keys) (sym (ok_inj e)) ∙ h
  import_orders-Covers (order ∷ orders) a b e k h =
      let (mid, first, rest) =
        >>=-eq-ok (import_order markets samples opportunities fee_rate order a) _ e in
      import_orders-Covers orders mid b rest k (import_order-Covers order a mid first k h)

  -- A turn of the second import, at a result that has all keys of the first one.
  import_order-again :
      (order : Order F) (a b a' : ImportResult F)
      → import_order markets samples opportunities fee_rate order a ≡ ok b
      → Covers b a'
      → (b' : ImportResult F) × (import_order markets samples opportunities fee_rate order a'
          ≡ ok b')
        × IsSame a' b'
  unfolding import_order
  import_order-again order a b a' e covers =
      let key = import_key order.first in
      elim (Bool-cases (str_eq order.first.side "BUY")) [
        | inr sells ↦ (
          note_skip SkipReason.sell (some order.first) a',
          rw sells refl,
          note_skip-IsSame SkipReason.sell (some order.first) a',
        )
        | inl buys ↦ elim (Bool-cases (has_key key a'.known_keys)) [
          | inl known ↦ (
            count_already a',
            rw (buys, known) refl,
            record { known_eq = refl; bets_eq = refl; imported_eq = refl },
          )
          | inr fresh ↦
              let fresh_before : has_key key a.known_keys ≡ false =
                not_yet (has_key key a.known_keys)
                  (λ h. covers key (import_order-Covers order a b e key h)) fresh in
              elim (import_in-Turn order (find_market order.first.condition_id markets) a b
                (rw (buys, fresh_before) at e)) [
                  | inl (reason, skips) ↦ (
                    note_skip reason (some order.first) a',
                    rw (buys, fresh) (skips a'),
                    note_skip-IsSame reason (some order.first) a',
                  )
                  | inr (bet, added, same_key) ↦ absurd (
                      differ
                        (covers key (
                          ap (λ x. has_key key x.known_keys) added
                          ∙ subst (λ k. has_key k (add_bet bet a).known_keys ≡ true) same_key
                              (add_bet-has_key bet a)))
                        fresh)
                ]
        ]
      ]
    where
      differ : {t : Bool} → t ≡ true → t ≡ false → ⊥
      differ h k = cc

      not_yet : (t : Bool) {u : Bool} → (t ≡ true → u ≡ true) → u ≡ false → t ≡ false
      not_yet true f h = absurd (differ (f refl) h)
      not_yet false f h = refl

  pub import_orders-again :
      (orders : List (Order F)) (a b a' : ImportResult F)
      → import_orders markets samples opportunities fee_rate orders a ≡ ok b
      → Covers b a'
      → (b' : ImportResult F) × (import_orders markets samples opportunities fee_rate orders a'
          ≡ ok b')
        × IsSame a' b'
  unfolding import_orders
  import_orders-again [] a b a' e covers = (a', refl, IsSame-refl a')
  import_orders-again (order ∷ orders) a b a' e covers =
      let (mid, first, rest) =
        >>=-eq-ok (import_order markets samples opportunities fee_rate order a) _ e in
      let (mid', first', same) =
        import_order-again order a mid a' first
          (λ k h. covers k (import_orders-Covers orders mid b rest k h)) in
      let (b', rest', same') =
        import_orders-again orders mid b mid' rest
          (λ k h. IsSame-Covers a' mid' same k (covers k h)) in
      (b', rw first' rest', IsSame-trans a' mid' b' same same')
