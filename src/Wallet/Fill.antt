-- ===== src/Wallet/Fill.antt =====
-- `Fill`, `parse_fill`, `group_fills` and `import_key` of app/services/wallet_import.py.
use Prim.Native.Nat.{Ordering}
use Prim.Native.String
use sportsbetting.Base.{
  ℕ, String, Bool, true, false, not, ◌&&◌, ◌||◌, Option, none, some, List, [], ◌∷◌, ◌++◌, str_eq,
  ltb, ◌==◌, min, if◌then◌else◌,
}
use sportsbetting.Base.Sort.{sort_by}
use sportsbetting.Base.Text.{compare_text}
use sportsbetting.Base.Words.{strip, lower, upper}
use sportsbetting.Float.{Float, float, le, lt}

-- A row of the feed. A field that is missing is "" as a text; a number is `none` where `_as_float`
-- gives None, and the time where no time is made of it.
pub record RawTrade (F : Type 0) : Type 0 where
  pub transaction_hash : String
  pub asset : String
  pub condition_id : String
  pub side : String
  pub price : Option F
  pub size : Option F
  pub timestamp : Option ℕ
  pub title : String

pub record Fill (F : Type 0) : Type 0 where
  pub tx : String
  pub asset : String
  pub condition_id : String
  pub side : String
  pub price : F
  pub size : F
  pub when : ℕ
  pub title : String
  pub mode : String

-- The fills of one order, the first one and the others: a group is never empty.
pub record Order (F : Type 0) : Type 0 where
  pub first : Fill F
  pub rest : List (Fill F)

abbrev no_later : Ordering → Bool
no_later Ordering.gt = false
no_later Ordering.eq = true
no_later Ordering.lt = true

abbrev is_empty : String → Bool
is_empty s = str_eq s ""

module _ {F : Type 0} where
  abbrev same_order : Fill F → Fill F → Bool
  same_order f g = str_eq f.tx g.tx && str_eq f.asset g.asset && str_eq f.side g.side

  -- `groups.setdefault((fill.tx, fill.asset, fill.side), []).append(fill)`
  abbrev add_fill : Fill F → List (Order F) → List (Order F)
  add_fill fill [] = record { first = fill; rest = [] } ∷ []
  add_fill fill (order ∷ orders) =
      if same_order order.first fill
      then record order { rest = order.rest ++ (fill ∷ []) } ∷ orders
      else order ∷ add_fill fill orders

  abbrev gather_fills : List (Order F) → List (Fill F) → List (Order F)
  gather_fills orders [] = orders
  gather_fills orders (fill ∷ fills) = gather_fills (add_fill fill orders) fills

  abbrev earliest : ℕ → List (Fill F) → ℕ
  earliest when [] = when
  earliest when (fill ∷ fills) = earliest (min when fill.when) fills

  -- `min(f.when for f in group)`
  abbrev pub placed_at : Order F → ℕ
  placed_at order = earliest order.first.when order.rest

  -- The order of the pairs `(min(f.when for f in group), group[0].tx)`.
  abbrev placed_first : Order F → Order F → Bool
  placed_first o p =
      ltb (placed_at o) (placed_at p)
      || (placed_at o == placed_at p && no_later (compare_text o.first.tx p.first.tx))

  unfoldable pub group_fills : List (Fill F) → List (Order F)
  group_fills fills = sort_by placed_first (gather_fills [] fills)

  unfoldable pub import_key : Fill F → String
  import_key fill = Prim.Native.String.◌++◌ fill.tx (Prim.Native.String.◌++◌ ":" fill.asset)

module _ {F : Type 0} ⦃fl : Float F⦄ where
  -- The tests on the numbers.
  abbrev fill_of : RawTrade F → Option F → Option F → Option ℕ → Option (Fill F)
  fill_of raw (some price) (some size) (some when) =
      if not (lt (float 0) price && lt price (float 1)) || le size (float 0)
      then none
      else some (record {
        tx = lower (strip raw.transaction_hash);
        asset = strip raw.asset;
        condition_id = lower (strip raw.condition_id);
        side = upper (strip raw.side);
        price = price;
        size = size;
        when = when;
        title = raw.title;
        mode = "taker";
      })
  fill_of raw price size when = none

  unfoldable pub parse_fill : RawTrade F → Option (Fill F)
  parse_fill raw =
      let side = upper (strip raw.side) in
      if is_empty (lower (strip raw.transaction_hash))
        || is_empty (strip raw.asset)
        || is_empty (lower (strip raw.condition_id))
        || not (str_eq side "BUY" || str_eq side "SELL")
      then none
      else fill_of raw raw.price raw.size raw.timestamp
