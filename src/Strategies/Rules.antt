-- ===== src/Strategies/Rules.antt =====
-- The costs and the rules of app/services/strategies.py. A rule reads a row only before its result.
use sportsbetting.Base.{
  ℕ, suc, String, Bool, true, ◌&&◌, ◌||◌, Option, none, some, List, [], ◌∷◌, str_eq, ltb, leb, ◌==◌,
  get_elem?, any, if◌then◌else◌,
}
use sportsbetting.Base.Words.{strip, lower}
use sportsbetting.Float.{Float, float, decimal, ◌⊕◌, ◌⊖◌, ◌⊗◌, ◌⊘◌, le, lt}
use sportsbetting.Backtest.Sample.{Sample}

pub record Strategy (F : Type 0) : Type 0 where
  pub key : String
  pub label : String
  pub select : Sample F → Bool

-- `all(test(row) for test in tests)`
abbrev all_of : {F : Type 0} → List (Sample F → Bool) → Sample F → Bool
all_of [] row = true
all_of (test ∷ tests) row = test row && all_of tests row

abbrev put_found {ℓ} : {A : Type ℓ} → Option A → List A → List A
put_found none rest = rest
put_found (some x) rest = x ∷ rest

-- `rows[i] for i in indexes`; the indexes are those of `picks` and in range.
abbrev pub at_indexes {ℓ} : {A : Type ℓ} → List A → List ℕ → List A
at_indexes xs [] = []
at_indexes xs (i ∷ is) = put_found (get_elem? xs i) (at_indexes xs is)

module _ {F : Type 0} where
  abbrev pub picks_from : (Sample F → Bool) → ℕ → List (Sample F) → List ℕ
  picks_from select i [] = []
  picks_from select i (row ∷ rows) =
      if select row then i ∷ picks_from select (suc i) rows else picks_from select (suc i) rows

  unfoldable pub picks : Strategy F → List (Sample F) → List ℕ
  picks strategy rows = picks_from strategy.select 0 rows

  abbrev side : Sample F → String
  side row = lower (strip row.outcome_name)

  abbrev league : String → Sample F → Bool
  league name row = str_eq row.league name

  abbrev market : String → Sample F → Bool
  market kind row = str_eq row.market_type kind

  abbrev named : List String → Sample F → Bool
  named names row = any (λ name. str_eq (side row) (lower name)) names

  abbrev index : ℕ → Sample F → Bool
  index value row = row.outcome_index == value

  abbrev liquid : Sample F → Bool
  liquid row = leb 50 row.n_trades_pre

  abbrev thin : Sample F → Bool
  thin row = ltb row.n_trades_pre 20

module _ {F : Type 0} ⦃fl : Float F⦄ where
  -- `DEFAULT_FEE_RATE`
  abbrev pub default_fee_rate : F
  default_fee_rate = decimal 695 4

  unfoldable pub effective_cost : F → F → F
  effective_cost price fee_rate = price ⊕ fee_rate ⊗ price ⊗ (float 1 ⊖ price)

  unfoldable pub pnl_per_dollar : F → Bool → F → F
  unfolding effective_cost
  pnl_per_dollar price won fee_rate =
      let cost = effective_cost price fee_rate in
      if le cost (float 0) || le (float 1) cost
      then float 0 ⊖ float 1
      else if won
      then (float 1 ⊖ cost) ⊘ cost
      else float 0 ⊖ float 1

  abbrev band : F → F → Sample F → Bool
  band low high row = le low row.close_price && lt row.close_price high

  abbrev favorite : Sample F → Bool
  favorite row = le (decimal 55 2) row.close_price

  abbrev underdog : Sample F → Bool
  underdog row = le row.close_price (decimal 45 2)

  abbrev rule : String → String → (Sample F → Bool) → Strategy F
  rule key label select = record { key = key; label = label; select = select }

  -- `STRATEGIES`
  unfoldable pub strategies : List (Strategy F)
  strategies =
      rule "everything" "Buy every outcome" (λ row. true)
      ∷ rule "favorites" "Any favorite (>=55c)" favorite
      ∷ rule "underdogs" "Any underdog (<=45c)" underdog
      ∷ rule "coinflips" "Coin flips (45-55c)" (band (decimal 45 2) (decimal 55 2))
      ∷ rule "heavy_favs" "Heavy favorites (>=80c)" (band (decimal 80 2) (decimal 101 2))
      ∷ rule "longshots" "Longshots (<=20c)" (band (float 0) (decimal 20 2))
      ∷ rule "mid_favs" "Modest favorites (55-70c)" (band (decimal 55 2) (decimal 70 2))
      ∷ rule "mid_dogs" "Modest underdogs (30-45c)" (band (decimal 30 2) (decimal 45 2))
      ∷ rule "moneyline" "Moneylines only" (market "moneyline")
      ∷ rule "spreads" "Spreads only" (market "spreads")
      ∷ rule "totals" "Totals only" (market "totals")
      ∷ rule "overs" "Overs" (all_of (market "totals" ∷ named ("over" ∷ []) ∷ []))
      ∷ rule "unders" "Unders" (all_of (market "totals" ∷ named ("under" ∷ []) ∷ []))
      ∷ rule "spread_lay" "Spread: lay the points" (all_of (market "spreads" ∷ index 0 ∷ []))
      ∷ rule "spread_take" "Spread: take the points" (all_of (market "spreads" ∷ index 1 ∷ []))
      ∷ rule "nfl" "NFL, everything" (league "nfl")
      ∷ rule "mlb" "MLB, everything" (league "mlb")
      ∷ rule "nfl_favs" "NFL favorites" (all_of (league "nfl" ∷ favorite ∷ []))
      ∷ rule "nfl_dogs" "NFL underdogs" (all_of (league "nfl" ∷ underdog ∷ []))
      ∷ rule "mlb_favs" "MLB favorites" (all_of (league "mlb" ∷ favorite ∷ []))
      ∷ rule "mlb_dogs" "MLB underdogs" (all_of (league "mlb" ∷ underdog ∷ []))
      ∷ rule "nfl_overs" "NFL overs"
          (all_of (league "nfl" ∷ market "totals" ∷ named ("over" ∷ []) ∷ []))
      ∷ rule "nfl_unders" "NFL unders"
          (all_of (league "nfl" ∷ market "totals" ∷ named ("under" ∷ []) ∷ []))
      ∷ rule "ml_favs" "Moneyline favorites" (all_of (market "moneyline" ∷ favorite ∷ []))
      ∷ rule "ml_dogs" "Moneyline underdogs" (all_of (market "moneyline" ∷ underdog ∷ []))
      ∷ rule "liquid_favs" "Favorites, 50+ pre-game trades" (all_of (liquid ∷ favorite ∷ []))
      ∷ rule "thin_dogs" "Underdogs, under 20 trades" (all_of (thin ∷ underdog ∷ []))
      ∷ rule "liquid_all" "Anything with 50+ trades" liquid
      ∷ []
