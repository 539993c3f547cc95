-- ===== src/Wallet/Import.antt =====
-- `fair_at` and `import_fills` of app/services/wallet_import.py. Of the table of bets the import reads
-- the keys only; the bets that it adds are a result.
pub mod Again
pub mod Unique
use sportsbetting.Base.{
  ℕ, suc, String, Bool, true, false, not, ◌&&◌, ◌||◌, Option, none, some, List, [], ◌∷◌, ◌++◌, map,
  filter, length, str_eq, ltb, leb, ◌==◌, any, if◌then◌else◌,
}
use sportsbetting.Base.Result.{Result, ok, value_error, ◌>>=◌, map_ok}
use sportsbetting.Base.Sort.{sort_by}
use sportsbetting.Float.{Float, float, decimal, ◌⊕◌, ◌⊖◌, ◌⊗◌, ◌⊘◌, eq, sum, round}
use sportsbetting.Edge.Value.{taker_fee_per_share}
use sportsbetting.Wallet.Fill.{
  RawTrade, Fill, Order, placed_at, parse_fill, group_fills, import_key,
}

pub data SkipReason : Type 0 where
  sell unknown_market not_an_outcome after_kickoff unparseable : SkipReason

-- `MAX_SKIPPED_NOTES`
abbrev pub max_skipped_notes : ℕ
max_skipped_notes = 40

-- What `fair_at` reads of a forward sample or of an opportunity: its token, its time, its id and its
-- fair probability.
pub record Priced (F : Type 0) : Type 0 where
  pub token : String
  pub priced_at : ℕ
  pub id : ℕ
  pub fair_prob : F

-- What the import reads of a market, with the start of its game.
pub record Tracked : Type 0 where
  pub id : String
  pub condition_id : String
  pub outcome_a_token : String
  pub outcome_a_name : String
  pub outcome_a_key : Option String
  pub outcome_b_token : String
  pub outcome_b_name : String
  pub outcome_b_key : Option String
  pub kickoff : Option ℕ

-- The columns of an imported bet; its status is "open" and its source "wallet".
pub record ImportedBet (F : Type 0) : Type 0 where
  pub market_id : String
  pub token : String
  pub outcome_key : Option String
  pub outcome_name : String
  pub mode : String
  pub price : F
  pub shares : F
  pub stake_usd : F
  pub fee_usd : F
  pub fair_at_bet : Option F
  pub edge_at_bet : Option F
  pub placed_at : ℕ
  pub n_fills : ℕ
  pub import_key : String

-- `skipped_counts` is the list of what it counts; a note keeps its reason and its fill.
pub record ImportResult (F : Type 0) : Type 0 where
  pub fetched : ℕ
  pub imported : ℕ
  pub already : ℕ
  pub skipped_counts : List SkipReason
  pub skipped : List (SkipReason × Option (Fill F))
  pub known_keys : List String
  pub new_bets : List (ImportedBet F)

abbrev pub has_key : String → List String → Bool
has_key key known = any (λ k. str_eq k key) known

abbrev first_or_none : {A : Type 0} → List A → Option A
first_or_none [] = none
first_or_none (x ∷ xs) = some x

abbrev pub find_market : String → List Tracked → Option Tracked
find_market condition_id markets =
    first_or_none (filter (λ m. str_eq m.condition_id condition_id) markets)

-- The name and the key of the outcome that an asset is.
abbrev pub asset_outcome : String → Tracked → Option (String × Option String)
asset_outcome asset market =
    if str_eq asset market.outcome_a_token
    then some (market.outcome_a_name, market.outcome_a_key)
    else if str_eq asset market.outcome_b_token
    then some (market.outcome_b_name, market.outcome_b_key)
    else none

abbrev pub is_in_play : Option ℕ → ℕ → Bool
is_in_play none placed = false
is_in_play (some kickoff) placed = leb kickoff placed

module _ {F : Type 0} where
  -- The latest price of a token at or before a time; of two at one time that of the larger id.
  abbrev latest_first : Priced F → Priced F → Bool
  latest_first p q = ltb q.priced_at p.priced_at || (q.priced_at == p.priced_at && leb q.id p.id)

  abbrev latest : List (Priced F) → String → ℕ → Option (Priced F)
  latest prices token when =
      first_or_none
        (sort_by latest_first (filter (λ p. str_eq p.token token && leb p.priced_at when) prices))

  abbrev price_of : Option (Priced F) → Option F
  price_of none = none
  price_of (some p) = some p.fair_prob

  abbrev first_some : Option F → Option F → Option F
  first_some none second = second
  first_some (some x) second = some x

  -- A sample before an opportunity.
  unfoldable pub fair_at : List (Priced F) → List (Priced F) → String → ℕ → Option F
  fair_at samples opportunities token when =
      first_some (price_of (latest samples token when)) (price_of (latest opportunities token when))

  abbrev pub note_skip : SkipReason → Option (Fill F) → ImportResult F → ImportResult F
  note_skip reason fill result =
      let counted = record result { skipped_counts = result.skipped_counts ++ (reason ∷ []) } in
      if leb max_skipped_notes (length result.skipped)
      then counted
      else record counted { skipped = result.skipped ++ ((reason, fill) ∷ []) }

  abbrev pub count_already : ImportResult F → ImportResult F
  count_already result = record result { already = suc result.already }

  abbrev pub add_bet : ImportedBet F → ImportResult F → ImportResult F
  add_bet bet result = record result {
    imported = suc result.imported;
    new_bets = result.new_bets ++ (bet ∷ []);
    known_keys = bet.import_key ∷ result.known_keys;
  }

  abbrev pub start_import : ℕ → List String → ImportResult F
  start_import fetched keys = record {
    fetched = fetched;
    imported = 0;
    already = 0;
    skipped_counts = [];
    skipped = [];
    known_keys = keys;
    new_bets = [];
  }

module _ {F : Type 0} ⦃fl : Float F⦄ where
  -- `float(prefs.taker_fee_rate or DEFAULT_PREFS["taker_fee_rate"])`: a rate of 0 is none too.
  abbrev pub fee_rate_or_default : F → F → F
  fee_rate_or_default rate default = if eq rate (float 0) then default else rate

  abbrev put_fill : Fill F → List (Fill F) × ImportResult F → List (Fill F) × ImportResult F
  put_fill fill (fills, result) = (fill ∷ fills, result)

  abbrev take_parsed :
      Option (Fill F)
      → (ImportResult F → List (Fill F) × ImportResult F)
      → ImportResult F
      → List (Fill F) × ImportResult F
  take_parsed none rest result = rest (note_skip SkipReason.unparseable none result)
  take_parsed (some fill) rest result = put_fill fill (rest result)

  -- The loop over the raw rows.
  abbrev pub parse_all : List (RawTrade F) → ImportResult F → List (Fill F) × ImportResult F
  parse_all [] result = ([], result)
  parse_all (raw ∷ raws) result = take_parsed (parse_fill raw) (parse_all raws) result

  abbrev fee_of : String → F → F → Result F
  fee_of mode price fee_rate =
      if str_eq mode "maker" then ok (float 0) else taker_fee_per_share price fee_rate

  abbrev import_edge : Option F → F → F → Option F
  import_edge none price fee = none
  import_edge (some fair) price fee = some (fair ⊖ (price ⊕ fee))

  module _ (markets : List Tracked) (samples opportunities : List (Priced F)) (fee_rate : F) where
    -- The volume-weighted bet of one order.
    unfoldable pub bet_of : Tracked → String × Option String → Order F → Result (ImportedBet F)
    unfolding fair_at import_key
    bet_of market (name, key) order =
        let first = order.first in
        let group = first ∷ order.rest in
        let shares = sum (map (λ f. f.size) group) in
        let cost = sum (map (λ f. f.price ⊗ f.size) group) in
        let price = cost ⊘ shares in
        let fair = fair_at samples opportunities first.asset (placed_at order) in
        map_ok
          (λ fee. record {
            market_id = market.id;
            token = first.asset;
            outcome_key = key;
            outcome_name = name;
            mode = first.mode;
            price = round price 6;
            shares = round shares 6;
            stake_usd = round (cost ⊕ shares ⊗ fee) 2;
            fee_usd = round (shares ⊗ fee) 4;
            fair_at_bet = fair;
            edge_at_bet = import_edge fair price fee;
            placed_at = placed_at order;
            n_fills = length group;
            import_key = import_key first;
          })
          (fee_of first.mode price fee_rate)

    abbrev pub import_at :
        Order F
        → Tracked
        → Option (String × Option String)
        → ImportResult F
        → Result (ImportResult F)
    import_at order market none result =
        ok (note_skip SkipReason.not_an_outcome (some order.first) result)
    import_at order market (some outcome) result =
        if is_in_play market.kickoff (placed_at order)
        then ok (note_skip SkipReason.after_kickoff (some order.first) result)
        else map_ok (λ bet. add_bet bet result) (bet_of market outcome order)

    abbrev pub import_in : Order F → Option Tracked → ImportResult F → Result (ImportResult F)
    import_in order none result = ok (note_skip SkipReason.unknown_market (some order.first) result)
    import_in order (some market) result =
        import_at order market (asset_outcome order.first.asset market) result

    -- One turn of the loop over the groups.
    unfoldable pub import_order : Order F → ImportResult F → Result (ImportResult F)
    unfolding bet_of
    import_order order result =
        if not (str_eq order.first.side "BUY")
        then ok (note_skip SkipReason.sell (some order.first) result)
        else if has_key (import_key order.first) result.known_keys
        then ok (count_already result)
        else import_in order (find_market order.first.condition_id markets) result

    unfoldable pub import_orders : List (Order F) → ImportResult F → Result (ImportResult F)
    unfolding import_order
    import_orders [] result = ok result
    import_orders (order ∷ orders) result = import_order order result >>= import_orders orders

    -- The import at a fee rate.
    unfoldable pub import_at_rate : List (RawTrade F) → List String → Result (ImportResult F)
    unfolding import_orders parse_fill group_fills
    import_at_rate raws keys =
        let (fills, result) = parse_all raws (start_import (length raws) keys) in
        import_orders (group_fills fills) result

  -- `rate` is the preference, `default` the rate of `DEFAULT_PREFS`.
  unfoldable pub import_fills :
      List Tracked
      → List (Priced F)
      → List (Priced F)
      → F
      → F
      → List (RawTrade F)
      → List String
      → Result (ImportResult F)
  unfolding import_at_rate
  import_fills markets samples opportunities rate default raws keys =
      import_at_rate markets samples opportunities (fee_rate_or_default rate default) raws keys
