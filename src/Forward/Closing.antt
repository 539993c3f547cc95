-- ===== src/Forward/Closing.antt =====
-- `capture_closing` of app/services/forward.py. The objects of the session are the rows of the table,
-- told apart by their `id`.
pub mod Pass
pub mod Latest
use sportsbetting.Base.{
  ℕ, suc, ◌+◌, String, Bool, true, false, none, some, List, [], ◌∷◌, filter, str_eq, leb, ◌==◌, any,
  if◌then◌else◌,
}
use sportsbetting.Base.Group.{Groups, group_by}
use sportsbetting.Base.Sort.{sort_by}
use sportsbetting.Float.{Float, ◌⊖◌, round}
use sportsbetting.Forward.Record.{ForwardSample}

module _ {F : Type 0} where
  -- `samples[-1].ask`
  abbrev pub last_ask : F → List (ForwardSample F) → F
  last_ask ask [] = ask
  last_ask ask (row ∷ rows) = last_ask row.ask rows

  abbrev pub is_open : ForwardSample F → Bool
  is_open row = elim row.closing_pm_price [ none ↦ true | some price ↦ false ]

  abbrev pub in_market : String → List (ForwardSample F) → List (ForwardSample F)
  in_market id table = filter (λ r. str_eq r.market_id id) table

module _ {F : Type 0} ⦃fl : Float F⦄ where
  -- The two assignments to a row without a closing price.
  abbrev pub close_at : F → ForwardSample F → ForwardSample F
  close_at closing row =
      if is_open row
      then record row { closing_pm_price = some closing; clv = some (round (closing ⊖ row.ask) 6) }
      else row

  abbrev pub has_id : ℕ → List (ForwardSample F) → Bool
  has_id id rows = any (λ r. r.id == id) rows

  -- The loop over the rows of one token, as an update of the table, and how many were filled.
  unfoldable pub close_rows :
      F → List (ForwardSample F) → List (ForwardSample F) → List (ForwardSample F) × ℕ
  close_rows closing samples [] = ([], 0)
  close_rows closing samples (row ∷ table) =
      let (rest, filled) = close_rows closing samples table in
      if has_id row.id samples
      then (close_at closing row ∷ rest, (if is_open row then suc filled else filled))
      else (row ∷ rest, filled)

  abbrev pub close_group :
      List (ForwardSample F) → List (ForwardSample F) → List (ForwardSample F) × ℕ
  close_group [] table = (table, 0)
  close_group (sample ∷ samples) table =
      close_rows (last_ask sample.ask samples) (sample ∷ samples) table

  abbrev pub add_filled : ℕ → List (ForwardSample F) × ℕ → List (ForwardSample F) × ℕ
  add_filled n (table, filled) = (table, n + filled)

  unfoldable pub close_groups :
      Groups (ForwardSample F) → List (ForwardSample F) → List (ForwardSample F) × ℕ
  unfolding close_rows
  close_groups [] table = (table, 0)
  close_groups ((token, samples) ∷ groups) table =
      let (next, filled) = close_group samples table in add_filled filled (close_groups groups next)

  -- The rows of one market, by the time that they were sampled at.
  abbrev pub by_time : String → List (ForwardSample F) → List (ForwardSample F)
  by_time id table = sort_by (λ r s. leb r.sampled_at s.sampled_at) (in_market id table)

  unfoldable pub capture_closing : List String → List (ForwardSample F) → List (ForwardSample F) × ℕ
  unfolding close_groups
  capture_closing [] table = (table, 0)
  capture_closing (id ∷ ids) table =
      let (next, filled) = close_groups (group_by (λ r. r.token) [] (by_time id table)) table in
      add_filled filled (capture_closing ids next)
