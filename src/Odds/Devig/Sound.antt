-- ===== src/Odds/Devig/Sound.antt =====
-- What a de-vigged market is: which markets are accepted, and what comes out.
use sportsbetting.Base.{
  suc, ◌≤◌, String, true, List, [], ◌∷◌, map, length, ◌≡◌, refl, ap, ◌∙◌, arith, str_eq, ltb,
  Bool-cases, inl, inr, All, tests, and_true,
}
use sportsbetting.Base.Result.{Result, ok, value_error, >>=-eq-ok}
use sportsbetting.Float.{Float, float, ◌⊕◌, ◌⊖◌, ◌⊘◌, lt, ◌≼◌, ◌≺◌, sum, sum_from}
use sportsbetting.Float.Laws.{IsFloat, le_of_lt, lt_of_lt-le}
use sportsbetting.Odds.Devig.{
  is_open_prob, all_open, validate_probs, multiplicative_devig, additive_devig, power_exponent,
  power_devig, shin_probs, shin_z, shin_devig, default_tol, devig, is_method,
}

length-map {ℓ κ} :
    {A : Type ℓ} {B : Type κ} (f : A → B) (xs : List A) → length (map f xs) ≡ length xs
length-map f [] = refl
length-map f (x ∷ xs) = ap suc (length-map f xs)

module _ {F : Type 0} ⦃fl : Float F⦄ where
  -- A market that can be de-vigged: two outcomes or more, each strictly between 0 and 1.
  pub record IsMarket (probs : List F) : Type 0 where
    pub two : 2 ≤ length probs
    pub opens : all_open probs ≡ true

  validate_probs-eq-ok :
      (probs values : List F) → validate_probs probs ≡ ok values → IsMarket probs × (values ≡ probs)
  unfolding validate_probs
  validate_probs-eq-ok probs values h = elim (Bool-cases (ltb (length probs) 2)) [
    | inl few ↦ let h' : value_error ≡ ok values = rw few at h in cc
    | inr two ↦ elim (Bool-cases (all_open probs)) [
      | inl opens ↦
          let h' : ok probs ≡ ok values = rw (two, opens) at h in
          (record { two = omega (tests, two); opens = opens }, cc)
      | inr shut ↦ let h' : value_error ≡ ok values = rw (two, shut) at h in cc
    ]
  ]

  validate_probs-IsMarket : (probs : List F) → IsMarket probs → validate_probs probs ≡ ok probs
  unfolding validate_probs
  validate_probs-IsMarket probs m = ground (arith, m.two, m.opens)

  abbrev Devigged : List F → Result (List F) → Type 0
  Devigged probs r = (out : List F) → r ≡ ok out → IsMarket probs × (length out ≡ length probs)

  -- Every method begins with the validation and maps a function over the market.
  mapped :
      (probs values out : List F) (g : F → F)
      → validate_probs probs ≡ ok values
      → ok (map g values) ≡ ok out
      → IsMarket probs × (length out ≡ length probs)
  mapped probs values out g h e =
      let (m, same) = validate_probs-eq-ok probs values h in
      let e' : out ≡ map g values = cc in (m, ap length e' ∙ length-map g values ∙ ap length same)

  multiplicative-Devigged : (probs : List F) → Devigged probs (multiplicative_devig probs)
  unfolding multiplicative_devig
  multiplicative-Devigged probs out e =
      let (values, h, k) = >>=-eq-ok (validate_probs probs) _ e in
      mapped probs values out (λ p. p ⊘ sum values) h k

  additive-Devigged : (probs : List F) → Devigged probs (additive_devig probs)
  unfolding additive_devig
  additive-Devigged probs out e =
      let (values, h, k) = >>=-eq-ok (validate_probs probs) _ e in
      mapped probs values out (λ p. p ⊖ (sum values ⊖ float 1) ⊘ float (length values)) h k

  power-Devigged : (tol : F) (probs : List F) → Devigged probs (power_devig tol probs)
  unfolding power_devig power_exponent
  power-Devigged tol probs out e =
      let (k, h, r) = >>=-eq-ok (power_exponent tol probs) _ e in
      let (values, v, _) = >>=-eq-ok (validate_probs probs) _ h in
      let (m, _) = validate_probs-eq-ok probs values v in
      let e' : out ≡ map (λ p. fl.pow p k) probs = cc in
      (m, ap length e' ∙ length-map (λ p. fl.pow p k) probs)

  shin-Devigged : (tol : F) (probs : List F) → Devigged probs (shin_devig tol probs)
  unfolding shin_devig shin_probs
  shin-Devigged tol probs out e =
      let (values, v, h) = >>=-eq-ok (validate_probs probs) _ e in
      let (z, _, r) = >>=-eq-ok (shin_z tol values) _ h in mapped probs values out _ v r

  -- Whichever method is asked for, an answer means a known method and a valid market, and has one
  -- probability for each outcome.
  devig_sound :
      (method : String) (probs out : List F)
      → devig method probs ≡ ok out
      → (is_method method ≡ true) × IsMarket probs × (length out ≡ length probs)
  unfolding devig
  devig_sound method probs out e = elim (Bool-cases (str_eq method "multiplicative")) [
    | inl m ↦ let (a, b) = multiplicative-Devigged probs out (rw m at e) in (rw m, a, b)
    | inr m ↦ elim (Bool-cases (str_eq method "additive")) [
      | inl n ↦ let (a, b) = additive-Devigged probs out (rw (m, n) at e) in (rw (m, n), a, b)
      | inr n ↦ elim (Bool-cases (str_eq method "power")) [
        | inl o ↦
            let (a, b) = power-Devigged default_tol probs out (rw (m, n, o) at e) in
            (rw (m, n, o), a, b)
        | inr o ↦ elim (Bool-cases (str_eq method "shin")) [
          | inl p ↦
              let (a, b) = shin-Devigged default_tol probs out (rw (m, n, o, p) at e) in
              (rw (m, n, o, p), a, b)
          | inr p ↦ let e' : value_error ≡ ok out = rw (m, n, o, p) at e in cc
        ]
      ]
    ]
  ]

  module _ (laws : IsFloat F) where
    open laws use {le_refl, le_trans, add_nonneg, add_comm, div_nonneg, div_le_one, add_mono}

    abbrev NonNeg : List F → Type 0
    NonNeg = All (λ p. float 0 ≼ p)

    sum_from-le : (acc : F) (ps : List F) → NonNeg ps → acc ≼ sum_from acc ps
    sum_from-le acc [] h = le_refl acc
    sum_from-le acc (p ∷ ps) (h, hs) =
        le_trans acc (acc ⊕ p) _ (add_nonneg acc p h) (sum_from-le (acc ⊕ p) ps hs)

    -- Each term is at most the sum.
    terms-le-sum_from :
        (acc : F) (ps : List F) → float 0 ≼ acc → NonNeg ps → All (λ p. p ≼ sum_from acc ps) ps
    terms-le-sum_from acc [] a h = tt
    terms-le-sum_from acc (p ∷ ps) a (h, hs) =
        let more : p ≼ acc ⊕ p = rw (add_comm acc p) (add_nonneg p acc a) in
        (
          le_trans p (acc ⊕ p) _ more (sum_from-le (acc ⊕ p) ps hs),
          terms-le-sum_from (acc ⊕ p) ps (le_trans (float 0) acc _ a (add_nonneg acc p h)) hs,
        )

    all_open-NonNeg : (ps : List F) → all_open ps ≡ true → NonNeg ps
    all_open-NonNeg [] h = tt
    all_open-NonNeg (p ∷ ps) h =
        let (a, b) = and_true (is_open_prob p) (all_open ps) h in
        (
          le_of_lt laws (float 0) p (and_true (lt (float 0) p) (lt p (float 1)) a).0,
          all_open-NonNeg ps b,
        )

    shares-IsProb :
        (total : F) (ps : List F)
        → float 0 ≺ total
        → NonNeg ps
        → All (λ p. p ≼ total) ps
        → All (λ p. (float 0 ≼ p) × (p ≼ float 1)) (map (λ p. p ⊘ total) ps)
    shares-IsProb total [] t h k = tt
    shares-IsProb total (p ∷ ps) t (h, hs) (k, ks) =
        ((div_nonneg p total h t, div_le_one p total k t), shares-IsProb total ps t hs ks)

    -- The multiplicative method gives an answer for every valid market, and every number of it lies
    -- between 0 and 1.
    pub multiplicative_devig_correct :
        (probs : List F)
        → IsMarket probs
        → (out : List F) × (multiplicative_devig probs ≡ ok out)
          × All (λ p. (float 0 ≼ p) × (p ≼ float 1)) out
    unfolding multiplicative_devig
    multiplicative_devig_correct [] m = absurd (omega (arith, m.two))
    multiplicative_devig_correct (p ∷ ps) m =
        let nonneg = all_open-NonNeg (p ∷ ps) m.opens in
        let terms = terms-le-sum_from (float 0) (p ∷ ps) (le_refl (float 0)) nonneg in
        let first = and_true (is_open_prob p) (all_open ps) m.opens in
        let positive =
          lt_of_lt-le laws (float 0) p (sum (p ∷ ps))
            (and_true (lt (float 0) p) (lt p (float 1)) first.0).0 terms.0 in
        (
          map (λ q. q ⊘ sum (p ∷ ps)) (p ∷ ps),
          rw (validate_probs-IsMarket (p ∷ ps) m),
          shares-IsProb (sum (p ∷ ps)) (p ∷ ps) positive nonneg terms,
        )
