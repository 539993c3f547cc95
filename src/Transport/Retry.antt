-- ===== src/Transport/Retry.antt =====
-- How often `HttpTransport` asks, how long it waits, and which attempt it answers with.
use sportsbetting.Base.{
  ℕ, zero, suc, ◌+◌, ◌*◌, ◌-◌, ◌≤◌, ◌≡◌, ◌⊎◌, inl, inr, refl, arith, true, false, some, List, [],
  ◌∷◌, Bool-cases, Option-cases, length, get_elem?, min, max,
}
use sportsbetting.Transport.{Attempt, may_retry, conclude, delay_at, pause, request_loop, request}

-- The longest delay.
abbrev pub longest : List ℕ → ℕ
longest [] = 0
longest (d ∷ ds) = max d (longest ds)

get_elem?-le : (ds : List ℕ) (i d : ℕ) → get_elem? ds i ≡ some d → d ≤ longest ds
get_elem?-le [] i d h = cc
get_elem?-le (x ∷ xs) zero d h = ground (arith, h)
get_elem?-le (x ∷ xs) (suc i) d h = omega (arith, get_elem?-le xs i d h)

pause-le :
    (backoff : List ℕ) (attempt slept : ℕ) → pause backoff attempt slept ≤ slept + longest backoff
unfolding pause
pause-le backoff attempt slept = elim (Option-cases (delay_at backoff attempt)) [
  | inl none_left ↦ rw none_left (omega arith)
  | inr (d, found) ↦
      rw found (omega (arith, get_elem?-le backoff (min attempt (length backoff - 1)) d found))
]

module _ {P : Type 0} (backoff : List ℕ) (client : ℕ → Attempt P) where
  -- The first `n` attempts all failed in a way that is tried again.
  pub data IsRetried : ℕ → Type 0 where
    at_once : IsRetried 0
    again : {n : ℕ} → IsRetried n → may_retry (client n) ≡ true → IsRetried (suc n)

  request_loop-IsRetried :
      (left n slept : ℕ)
      → IsRetried n
      → (m total : ℕ) × (request_loop backoff client left n slept
          ≡ (conclude (client m), suc m, total))
        × IsRetried m
        × (m ≤ n + left)
        × (total ≤ slept + left * longest backoff)
        × ((may_retry (client m) ≡ false) ⊎ (m ≡ n + left))
  unfolding request_loop
  request_loop-IsRetried zero n slept r =
      (n, slept, refl, r, omega arith, omega arith, inr (omega arith))
  request_loop-IsRetried (suc left) n slept r = elim (Bool-cases (may_retry (client n))) [
    | inl failed ↦
        let (m, total, e, r', few, waits, last) =
          request_loop-IsRetried left (suc n) (pause backoff n slept) (IsRetried.again r failed) in
        (
          m,
          total,
          rw (failed, request_loop) e,
          r',
          omega (arith, few),
          bounded left (longest backoff) slept total (pause backoff n slept) waits
              (pause-le backoff n slept),
          at_end last,
        )
    | inr final ↦ (n, slept, rw (final, request_loop) refl, r, omega arith, omega arith, inl final)
  ]
    where
      bounded : (k d s t p : ℕ) → t ≤ p + k * d → p ≤ s + d → t ≤ s + suc k * d
      bounded k d s t p h g = ground arith

      at_end :
          {m : ℕ}
          → (may_retry (client m) ≡ false) ⊎ (m ≡ suc n + left)
          → (may_retry (client m) ≡ false) ⊎ (m ≡ n + suc left)
      at_end (inl e) = inl e
      at_end (inr e) = inr (omega (arith, e))

  -- A request makes one attempt more than the retries at most, and waits the longest delay for each
  -- retry at most. Each attempt before the last one was a timeout, a connection error or a status of
  -- 500 or more; the answer is that of the last one, which is none of these unless no retry is left.
  pub request_correct :
      (retries : ℕ)
      → (m total : ℕ) × (request backoff client retries ≡ (conclude (client m), suc m, total))
        × IsRetried m
        × (m ≤ retries)
        × (total ≤ retries * longest backoff)
        × ((may_retry (client m) ≡ false) ⊎ (m ≡ retries))
  unfolding request
  request_correct retries =
      let (m, total, e, r, few, waits, last) =
        request_loop-IsRetried retries 0 0 IsRetried.at_once in
      (m, total, e, r, omega (arith, few), omega (arith, waits), from_zero last)
    where
      from_zero :
          {m : ℕ}
          → (may_retry (client m) ≡ false) ⊎ (m ≡ 0 + retries)
          → (may_retry (client m) ≡ false) ⊎ (m ≡ retries)
      from_zero (inl e) = inl e
      from_zero (inr e) = inr (omega (arith, e))
