-- ===== src/Backtest/Close.antt =====
-- `resolved_index` and `closing_trade` of app/services/backtest.py.
pub mod Latest
use sportsbetting.Base.{
  ℕ, suc, Bool, true, false, not, ◌&&◌, ◌||◌, Option, none, some, List, [], ◌∷◌, if◌then◌else◌, ltb,
  leb, ◌==◌,
}
use sportsbetting.Float.{Float, float, decimal, ◌⊖◌, lt, abs}
use sportsbetting.Backtest.Sample.{Trade}

abbrev pub on_outcome : ℕ → Option ℕ → Bool
on_outcome index none = false
on_outcome index (some i) = i == index

module _ {F : Type 0} ⦃fl : Float F⦄ where
  abbrev near_zero : F → Bool
  near_zero x = lt (abs x) (decimal 1 9)

  abbrev winner_of : F → F → Option ℕ
  winner_of first second =
      if near_zero (first ⊖ float 1) && near_zero second
      then some 0
      else if near_zero (second ⊖ float 1) && near_zero first
      then some 1
      else none

  -- `resolved_index` on the decoded list; an entry that `float` refuses is `none`.
  unfoldable pub resolved_index : Option (List (Option F)) → Option ℕ
  resolved_index (some (some first ∷ some second ∷ [])) = winner_of first second
  resolved_index other = none

  -- The guards of the loop of `closing_trade`: the price and the time of a trade that counts.
  abbrev pub counted_at : ℕ → ℕ → Option F → Option (F × ℕ)
  counted_at kickoff when none = none
  counted_at kickoff when (some price) =
      if leb kickoff when || not (lt (float 0) price && lt price (float 1))
      then none
      else some (price, when)

  abbrev pub timed : ℕ → Option ℕ → Option F → Option (F × ℕ)
  timed kickoff none price = none
  timed kickoff (some when) price = counted_at kickoff when price

  -- `none` for an entry of the feed that is no dict.
  abbrev pub counted : ℕ → ℕ → Option (Trade F) → Option (F × ℕ)
  counted index kickoff none = none
  counted index kickoff (some trade) =
      if on_outcome index trade.outcome_index
      then timed kickoff trade.timestamp trade.price
      else none

  abbrev pub later : Option (F × ℕ) → ℕ → Bool
  later none when = true
  later (some (price, best)) when = ltb best when

  abbrev pub take : Option (F × ℕ) → Option (F × ℕ) × ℕ → Option (F × ℕ) × ℕ
  take none state = state
  take (some trade) (best, count) = (if later best trade.1 then some trade else best, suc count)

  unfoldable pub closing_loop :
      ℕ → ℕ → List (Option (Trade F)) → Option (F × ℕ) × ℕ → Option (F × ℕ) × ℕ
  closing_loop index kickoff [] state = state
  closing_loop index kickoff (trade ∷ trades) state =
      closing_loop index kickoff trades (take (counted index kickoff trade) state)

  abbrev pub closed_at : Option (F × ℕ) × ℕ → Option (F × ℕ × ℕ)
  closed_at (none, count) = none
  closed_at (some (price, when), count) = some (price, when, count)

  unfoldable pub closing_trade : List (Option (Trade F)) → ℕ → ℕ → Option (F × ℕ × ℕ)
  unfolding closing_loop
  closing_trade trades index kickoff = closed_at (closing_loop index kickoff trades (none, 0))
