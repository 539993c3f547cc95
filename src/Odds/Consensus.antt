-- ===== src/Odds/Consensus.antt =====
-- `consensus` of app/core/odds_math.py: the weighted mean of the bookmakers' fair probabilities for
-- one outcome, and what does not change it.
pub mod Order
use Prim.Native.Nat.{Ordering}
use sportsbetting.Base.{
  ℕ, String, Bool, true, false, not, ◌&&◌, Option, none, some, List, [], ◌∷◌, map, length, str_eq,
  if◌then◌else◌,
}
use sportsbetting.Base.Dict
use sportsbetting.Base.Dict.{Dict}
use sportsbetting.Base.Result.{Result, ok, value_error, ◌>>=◌, ◌>>◌, require, map_ok}
use sportsbetting.Base.Sort.{sort_by}
use sportsbetting.Base.Text.{compare_text}
use sportsbetting.Float.{Float, float, ◌⊕◌, ◌⊖◌, ◌⊗◌, ◌⊘◌, le, lt, eq, sum}
use sportsbetting.Odds.Devig.{is_method, is_open_prob}

-- `FairProb` of app/core/types.py.
pub record FairProb (F : Type 0) : Type 0 where
  pub value : F
  pub method : String
  pub n_books : ℕ
  pub books_used : List String
  pub line : Option F
  pub per_book : List (String × F)

-- One entry of `used`.
pub record Used (F : Type 0) : Type 0 where
  pub bookmaker : String
  pub prob : F
  pub weight : F

-- The order of the sort's key, the pair of the name and the probability.
abbrev pub name_le : String → String → Bool → Bool
name_le s t tie = elim (compare_text s t) [
  | Ordering.lt ↦ true
  | Ordering.eq ↦ tie
  | Ordering.gt ↦ false
]

module _ {F : Type 0} ⦃fl : Float F⦄ where
  unfoldable pub used_le : Used F → Used F → Bool
  used_le a b = name_le a.bookmaker b.bookmaker (le a.prob b.prob)

  -- The loop that collects `used`.
  unfoldable pub collect : Dict F → F → List (String × F) → Result (List (Used F))
  collect weights default_weight [] = ok []
  collect weights default_weight ((bookmaker, prob) ∷ samples) =
      let weight = Dict.get_or bookmaker default_weight weights in
      let rest = collect weights default_weight samples in
      if not (is_open_prob prob)
      then value_error
      else if lt weight (float 0)
      then value_error
      else if eq weight (float 0)
      then rest
      else map_ok (λ used. record { bookmaker = bookmaker; prob = prob; weight = weight } ∷ used)
          rest

  abbrev weighted : Used F → F
  weighted u = u.prob ⊗ u.weight

  -- From the sorted list on.
  unfoldable pub summarise : String → Option F → List (Used F) → FairProb F
  summarise method line used = record {
    value = sum (map weighted used) ⊘ sum (map (λ u. u.weight) used);
    method = method;
    n_books = length used;
    books_used = map (λ u. u.bookmaker) used;
    line = line;
    per_book = map (λ u. (u.bookmaker, u.prob)) used;
  }

  unfoldable pub summarise_used : String → Option F → List (Used F) → Option (FairProb F)
  unfolding summarise used_le
  summarise_used method line [] = none
  summarise_used method line (u ∷ us) = some (summarise method line (sort_by used_le (u ∷ us)))

  unfoldable pub consensus :
      List (String × F) → Dict F → F → String → Option F → Result (Option (FairProb F))
  unfolding summarise_used
  consensus samples weights default_weight method line = do
    require (is_method method)
    require (not (lt default_weight (float 0)))
    used ← collect weights default_weight samples
    ok (summarise_used method line used)
