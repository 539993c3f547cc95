-- ===== src/Wallet/Import/Unique.antt =====
-- One bet for each order: the keys of the bets that an import adds, and what a second import adds.
use mathlib.Core.Path.{subst}
use sportsbetting.Base.{
  ◌≡◌, inl, inr, refl, sym, ap, ◌∙◌, arith, String, Bool, true, false, none, List, [], ◌∷◌, ◌++◌,
  length, length-append, str_eq, eq_iff, Option-cases, All, All-append,
}
use sportsbetting.Base.Result.{ok, >>=-eq-ok, ok_inj}
use sportsbetting.Float.{Float}
use sportsbetting.Wallet.Fill.{RawTrade, Order, parse_fill, group_fills}
use sportsbetting.Wallet.Import.{
  SkipReason, Priced, Tracked, ImportedBet, ImportResult, has_key, note_skip, add_bet, start_import,
  parse_all, import_order, import_orders, import_at_rate, import_fills, fee_rate_or_default,
}
use sportsbetting.Wallet.Import.Again.{
  IsSame, IsSame-refl, IsSame-trans, note_skip-IsSame, import_order-cases, import_orders-again,
}

module _ {F : Type 0} where
  abbrev HasOther : ImportedBet F → ImportedBet F → Type 0
  HasOther b c = str_eq b.import_key c.import_key ≡ false

  -- No two bets have one key.
  abbrev pub IsOnce : List (ImportedBet F) → Type 0
  IsOnce [] = Unit
  IsOnce (b ∷ bs) = All (HasOther b) bs × IsOnce bs

  -- The bets added to a ledger with some keys: as many as reported, under keys that are new.
  pub record IsNew (keys : List String) (a : ImportResult F) : Type 0 where
    pub counted : a.imported ≡ length a.new_bets
    pub apart : All (λ b. has_key b.import_key keys ≡ false) a.new_bets
    pub once : IsOnce a.new_bets
    pub listed : All (λ b. has_key b.import_key a.known_keys ≡ true) a.new_bets
    pub kept : (k : String) → has_key k keys ≡ true → has_key k a.known_keys ≡ true

  IsOnce-append :
      (bs : List (ImportedBet F)) (bet : ImportedBet F) (known : List String)
      → IsOnce bs
      → All (λ b. has_key b.import_key known ≡ true) bs
      → has_key bet.import_key known ≡ false
      → IsOnce (bs ++ (bet ∷ []))
  IsOnce-append [] bet known d h n = (tt, tt)
  IsOnce-append (b ∷ bs) bet known (away, d) (here, h) n = (
    All-append (HasOther b) bs (bet ∷ []) away (differs b.import_key bet.import_key here n, tt),
    IsOnce-append bs bet known d h n,
  )
    where
      differs :
          (j k : String) → has_key j known ≡ true → has_key k known ≡ false → str_eq j k ≡ false
      differs j k p q = ground (arith, p, q, eq_iff j k)

  All-weaken :
      {P Q : ImportedBet F → Type 0} (bs : List (ImportedBet F))
      → ((b : ImportedBet F) → P b → Q b)
      → All P bs
      → All Q bs
  All-weaken [] f h = tt
  All-weaken (b ∷ bs) f (p, h) = (f b p, All-weaken bs f h)

  IsSame-IsNew :
      (keys : List String) (a b : ImportResult F) → IsSame a b → IsNew keys a → IsNew keys b
  IsSame-IsNew keys a b same new = record {
    counted = same.imported_eq ∙ new.counted ∙ ap length (sym same.bets_eq);
    apart =
        subst (λ bs. All (λ b. has_key b.import_key keys ≡ false) bs) (sym same.bets_eq) new.apart;
    once = subst IsOnce (sym same.bets_eq) new.once;
    listed =
        subst (λ known. All (λ b. has_key b.import_key known ≡ true) b.new_bets) (sym same.known_eq)
          (subst (λ bs. All (λ b. has_key b.import_key a.known_keys ≡ true) bs) (sym same.bets_eq)
            new.listed);
    kept = λ k h. ap (has_key k) same.known_eq ∙ new.kept k h;
  }

  add_bet-IsNew :
      (keys : List String) (bet : ImportedBet F) (a : ImportResult F)
      → has_key bet.import_key a.known_keys ≡ false
      → IsNew keys a
      → IsNew keys (add_bet bet a)
  add_bet-IsNew keys bet a fresh new = record {
    counted = omega (arith, new.counted, length-append a.new_bets (bet ∷ []));
    apart =
        All-append (λ b. has_key b.import_key keys ≡ false) a.new_bets (bet ∷ []) new.apart
          (outside (has_key bet.import_key keys) (new.kept bet.import_key) fresh, tt);
    once = IsOnce-append a.new_bets bet a.known_keys new.once new.listed fresh;
    listed =
        All-append (λ b. has_key b.import_key (bet.import_key ∷ a.known_keys) ≡ true) a.new_bets
          (bet ∷ [])
          (All-weaken a.new_bets (λ b h. still b.import_key bet.import_key a.known_keys h)
            new.listed)
          (own bet.import_key a.known_keys, tt);
    kept = λ k h. still k bet.import_key a.known_keys (new.kept k h);
  }
    where
      outside : (t : Bool) {u : Bool} → (t ≡ true → u ≡ true) → u ≡ false → t ≡ false
      outside true f h = let e = f refl in cc
      outside false f h = refl

      still :
          (k j : String) (known : List String)
          → has_key k known ≡ true
          → has_key k (j ∷ known) ≡ true
      still k j known h = ground arith

      own : (k : String) (known : List String) → has_key k (k ∷ known) ≡ true
      own k known = ground (arith, eq_iff k k)

module _ {F : Type 0} ⦃fl : Float F⦄ where
  parse_all-IsSame : (raws : List (RawTrade F)) (a : ImportResult F) → IsSame a (parse_all raws a).1
  parse_all-IsSame [] a = IsSame-refl a
  parse_all-IsSame (raw ∷ raws) a = elim (Option-cases (parse_fill raw)) [
    | inl bad ↦
        let skipped = note_skip SkipReason.unparseable none a in
        rw bad (
          IsSame-trans a skipped (parse_all raws skipped).1
            (note_skip-IsSame SkipReason.unparseable none a) (parse_all-IsSame raws skipped))
    | inr (fill, good) ↦ rw good (parse_all-IsSame raws a)
  ]

  parse_all-fills :
      (raws : List (RawTrade F)) (a b : ImportResult F)
      → (parse_all raws a).0 ≡ (parse_all raws b).0
  parse_all-fills [] a b = refl
  parse_all-fills (raw ∷ raws) a b = elim (Option-cases (parse_fill raw)) [
    | inl bad ↦ rw bad (
        parse_all-fills raws (note_skip SkipReason.unparseable none a)
          (note_skip SkipReason.unparseable none b))
    | inr (fill, good) ↦ rw good (ap (λ fills. fill ∷ fills) (parse_all-fills raws a b))
  ]

  module _ (markets : List Tracked) (samples opportunities : List (Priced F)) (fee_rate : F) where
    import_orders-IsNew :
        (keys : List String) (orders : List (Order F)) (a b : ImportResult F)
        → import_orders markets samples opportunities fee_rate orders a ≡ ok b
        → IsNew keys a
        → IsNew keys b
    unfolding import_orders
    import_orders-IsNew keys [] a b e new = subst (IsNew keys) (ok_inj e) new
    import_orders-IsNew keys (order ∷ orders) a b e new =
        let (mid, first, rest) =
          >>=-eq-ok (import_order markets samples opportunities fee_rate order a) _ e in
        import_orders-IsNew keys orders mid b rest
          (elim (import_order-cases markets samples opportunities fee_rate order a mid first) [
            | inl same ↦ IsSame-IsNew keys a mid same new
            | inr (fresh, bet, added, key) ↦ subst (IsNew keys) (sym added) (
                add_bet-IsNew keys bet a
                  (subst (λ k. has_key k a.known_keys ≡ false) (sym key) fresh) new)
          ])

    import_at_rate-IsNew :
        (raws : List (RawTrade F)) (keys : List String) {result : ImportResult F}
        → import_at_rate markets samples opportunities fee_rate raws keys ≡ ok result
        → IsNew keys result
    unfolding import_at_rate
    import_at_rate-IsNew raws keys {result} e =
        let start = start_import (length raws) keys in
        import_orders-IsNew keys (group_fills (parse_all raws start).0) (parse_all raws start).1
          result e
          (IsSame-IsNew keys start (parse_all raws start).1 (parse_all-IsSame raws start)
            (record { counted = refl; apart = tt; once = tt; listed = tt; kept = λ k h. h }))

    import_at_rate_again :
        (raws : List (RawTrade F)) (keys : List String) {result : ImportResult F}
        → import_at_rate markets samples opportunities fee_rate raws keys ≡ ok result
        → (again : ImportResult F) × (import_at_rate markets samples opportunities fee_rate raws
              result.known_keys
            ≡ ok again)
          × (again.imported ≡ 0)
          × (again.new_bets ≡ [])
    unfolding import_at_rate
    import_at_rate_again raws keys {result} e =
        let first = start_import (length raws) keys in
        let second = start_import (length raws) result.known_keys in
        let parsed = parse_all-IsSame raws second in
        let (again, done, same) =
          import_orders-again markets samples opportunities fee_rate
            (group_fills (parse_all raws first).0) (parse_all raws first).1 result
            (parse_all raws second).1 e (λ k h. ap (has_key k) parsed.known_eq ∙ h) in
        (
          again,
          subst
              (λ fills.
                import_orders markets samples opportunities fee_rate (group_fills fills)
                  (parse_all raws second).1
                ≡ ok again)
              (parse_all-fills raws first second) done,
          same.imported_eq ∙ parsed.imported_eq,
          same.bets_eq ∙ parsed.bets_eq,
        )

  module _ (markets : List Tracked) (samples opportunities : List (Priced F))
      (rate default : F) where
    -- An import that does not raise adds to the ledger as many bets as it reports, no two under one
    -- key and none under a key that the ledger has.
    pub import_fills-IsNew :
        (raws : List (RawTrade F)) (keys : List String) {result : ImportResult F}
        → import_fills markets samples opportunities rate default raws keys ≡ ok result
        → IsNew keys result
    unfolding import_fills
    import_fills-IsNew =
        import_at_rate-IsNew markets samples opportunities (fee_rate_or_default rate default)

    -- Importing the same rows again, on the keys of the ledger as the first import leaves it, does not
    -- raise and adds no bet.
    pub import_fills_again :
        (raws : List (RawTrade F)) (keys : List String) {result : ImportResult F}
        → import_fills markets samples opportunities rate default raws keys ≡ ok result
        → (again : ImportResult F) × (import_fills markets samples opportunities rate default raws
              result.known_keys
            ≡ ok again)
          × (again.imported ≡ 0)
          × (again.new_bets ≡ [])
    unfolding import_fills
    import_fills_again =
        import_at_rate_again markets samples opportunities (fee_rate_or_default rate default)
