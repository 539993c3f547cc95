-- ===== src/Odds/Devig.antt =====
-- The four de-vig methods of app/core/odds_math.py and their dispatch.
pub mod Sound
use sportsbetting.Base.{
  ℕ, String, Bool, true, false, not, ◌&&◌, List, [], ◌∷◌, map, length, str_eq, ltb, if◌then◌else◌,
}
use sportsbetting.Base.Result.{Result, ok, value_error, ◌>>=◌, ◌>>◌, require, map_ok}
use sportsbetting.Float.{Float, float, decimal, ◌⊕◌, ◌⊖◌, ◌⊗◌, ◌⊘◌, lt, sum}
use sportsbetting.Odds.Bisect.{bisect}

module _ {F : Type 0} ⦃fl : Float F⦄ where
  abbrev pub is_open_prob : F → Bool
  is_open_prob p = lt (float 0) p && lt p (float 1)

  abbrev pub all_open : List F → Bool
  all_open [] = true
  all_open (p ∷ ps) = is_open_prob p && all_open ps

  unfoldable pub validate_probs : List F → Result (List F)
  validate_probs probs =
      if ltb (length probs) 2 then value_error else if all_open probs then ok probs else value_error

  unfoldable pub multiplicative_devig : List F → Result (List F)
  multiplicative_devig probs = do
    values ← validate_probs probs
    ok (map (λ p. p ⊘ sum values) values)

  unfoldable pub additive_devig : List F → Result (List F)
  additive_devig probs = do
    values ← validate_probs probs
    ok (map (λ p. p ⊖ (sum values ⊖ float 1) ⊘ float (length values)) values)

  -- `power_exponent`, with the bracket `POWER_K_RANGE`.
  unfoldable pub power_exponent : F → List F → Result F
  power_exponent tol probs = do
    values ← validate_probs probs
    bisect (λ k. sum (map (λ p. fl.pow p k) values) ⊖ float 1) tol (decimal 5 1) (float 5)

  unfoldable pub power_devig : F → List F → Result (List F)
  power_devig tol probs = do k ← power_exponent tol probs; ok (map (λ p. fl.pow p k) probs)

  unfoldable pub shin_probs : List F → F → F → List F
  shin_probs values total z =
      let denominator = float 2 ⊗ (float 1 ⊖ z) in
      map (λ p. (fl.sqrt (z ⊗ z ⊕ float 4 ⊗ (float 1 ⊖ z) ⊗ p ⊗ p ⊘ total) ⊖ z) ⊘ denominator)
        values

  -- `shin_z`, with the bracket `SHIN_Z_RANGE`.
  unfoldable pub shin_z : F → List F → Result F
  unfolding shin_probs
  shin_z tol probs = do
    values ← validate_probs probs
    require (not (lt (sum values) (float 1)))
    bisect (λ z. sum (shin_probs values (sum values) z) ⊖ float 1) tol (float 0) (decimal 5 1)

  unfoldable pub shin_devig : F → List F → Result (List F)
  shin_devig tol probs = do
    values ← validate_probs probs
    z ← shin_z tol values
    ok (shin_probs values (sum values) z)

  -- The default of `tol`, 1e-10.
  abbrev pub default_tol : F
  default_tol = decimal 1 10

  unfoldable pub devig : String → List F → Result (List F)
  devig method probs =
      if str_eq method "multiplicative"
      then multiplicative_devig probs
      else if str_eq method "additive"
      then additive_devig probs
      else if str_eq method "power"
      then power_devig default_tol probs
      else if str_eq method "shin"
      then shin_devig default_tol probs
      else value_error

-- `method in _DEVIG_DISPATCH`
abbrev pub is_method : String → Bool
is_method method =
    if str_eq method "multiplicative"
    then true
    else if str_eq method "additive"
    then true
    else if str_eq method "power"
    then true
    else str_eq method "shin"
