-- ===== src/Auth/Login/Grant.antt =====
-- Who gets a session, where the redirect leads, and what the Retry-After header promises.
use text.Mathlib.Text.{starts_with}
use sportsbetting.Base.{
  ℕ, zero, suc, ◌+◌, ◌*◌, ◌≤◌, max, String, true, false, not, ◌||◌, Option, none, some, ◌≡◌, ◌↔◌,
  refl, arith, str_eq, ltb, Bool-cases, inl, inr, or_false, not-false, tests,
}
use mathlib.Core.Path.{subst}
use sportsbetting.Base.Dict
use sportsbetting.Auth.Limiter.{
  Config, Limiter, wait_for, retry_after, Recorded, done, raised, global_key, count_key,
  count_global, record_failure, record_success,
}
use sportsbetting.Auth.Login.{
  Settings, Reply, too_many_attempts, welcome, safe_next, retry_seconds, is_ok, refuse,
  login_submit,
}

-- The redirect target is a path of this site: it begins with one slash.
abbrev pub IsLocal : String → Type 0
IsLocal url = (starts_with url "/" ≡ true) × (starts_with url "//" ≡ false)

pub safe_next-IsLocal : (value : Option String) → IsLocal (safe_next value)
unfolding safe_next
safe_next-IsLocal none = (refl, refl)
safe_next-IsLocal (some value) =
    let empty = str_eq value "" in
    let relative = not (starts_with value "/") in
    let other_host = starts_with value "//" in
    let login = str_eq value "/login" in
    elim (Bool-cases (empty || relative || other_host || login)) [
      | inl e ↦ rw e (refl, refl)
      | inr e ↦
          let p = (or_false (empty || relative || other_host) login e).0 in
          let q = or_false (empty || relative) other_host p in
          rw e (not-false _ (or_false empty relative q.0).1, q.1)
    ]

abbrev pub Grants : Reply → Type 0
Grants r = (url token : String) × (r ≡ welcome url token)

refuse-Grants_none : (next : String) (r : Recorded) → ¬ Grants (refuse next r).0
refuse-Grants_none next (raised l) (_, _, e) = cc
refuse-Grants_none next (done zero l) (_, _, e) = cc
refuse-Grants_none next (done (suc n) l) (_, _, e) = cc

-- A session is granted exactly when no lock is in force for the client and the password is right
-- (or there is none to check); the redirect then stays on this site.
pub login-Grants_iff :
    (cfg : Config) (s : Settings) (now later : ℕ) (ip password next : String) (l : Limiter)
    → let reply = (login_submit cfg s now later ip password next l).0 in
      (Grants reply ↔ ((retry_after ip now l ≡ 0) × (is_ok s password ≡ true)))
      × ((url token : String) → reply ≡ welcome url token → IsLocal url)
unfolding login_submit
login-Grants_iff cfg s now later ip password next l =
    elim (Bool-cases (ltb 0 (retry_after ip now l))) [
      | inl locked ↦
          rw locked
            ((λ (_, _, e). cc, λ (free, _). absurd (omega (tests, locked))), λ url token e. cc)
      | inr free ↦ elim (Bool-cases (is_ok s password)) [
        | inl right ↦
            rw (free, right)
              (
                (λ _. (omega (tests, free), refl), λ _. (safe_next (some next), s.sign, refl)),
                λ url token e.
                    let same : safe_next (some next) ≡ url = cc in
                    subst IsLocal same (safe_next-IsLocal (some next)),
              )
        | inr wrong ↦
            rw (free, wrong)
              (
                (
                  λ g. absurd (refuse-Grants_none next (record_failure cfg later ip l) g),
                  λ (_, r). cc,
                ),
                λ url token e.
                    absurd
                      (refuse-Grants_none next (record_failure cfg later ip l) (url, token, e)),
              )
      ]
    ]

-- No wait of another key grows past the lockout that one pass reports.
count_key_waits :
    (cfg : Config) (now : ℕ) (key : String) (limit lockout : ℕ) (l l' : Limiter) (waited : ℕ)
    → count_key cfg now key limit lockout l ≡ done waited l'
    → (j : String) → (lockout ≤ waited) × (wait_for j now l' ≤ max waited (wait_for j now l))
unfolding count_key wait_for
count_key_waits cfg now key limit lockout l l' waited e j = grind (arith, Dict.get-set)

count_global_waits :
    (cfg : Config) (now : ℕ) (ip : String) (l l' : Limiter) (waited : ℕ)
    → record_failure cfg now ip l ≡ done waited l'
    → (j : String) → wait_for j now l' ≤ max waited (wait_for j now l)
unfolding record_failure count_global
count_global_waits cfg now ip l l' waited e j =
    go (count_key cfg now ip cfg.max_failures 0 l) refl e
  where
    go :
        (r : Recorded)
        → count_key cfg now ip cfg.max_failures 0 l ≡ r
        → count_global cfg now r ≡ done waited l'
        → wait_for j now l' ≤ max waited (wait_for j now l)
    go (raised l₁) p q = cc
    go (done w₁ l₁) p q =
        let first = count_key_waits cfg now ip cfg.max_failures 0 l l₁ w₁ p j in
        let second =
          count_key_waits cfg now global_key cfg.max_failures_global w₁ l₁ l' waited q j in
        omega arith

retry_seconds_cover : (wait : ℕ) → wait ≤ 1_000_000_000 * retry_seconds wait + 1_000_000
unfolding retry_seconds
retry_seconds_cover wait = omega arith

refuse_inv :
    (next : String) (r : Recorded) (seconds : ℕ) (l' : Limiter)
    → refuse next r ≡ (too_many_attempts seconds, l')
    → (w : ℕ) × (r ≡ done w l') × (seconds ≡ retry_seconds w)
refuse_inv next (raised l) seconds l' e = cc
refuse_inv next (done zero l) seconds l' e = cc
refuse_inv next (done (suc n) l) seconds l' e = (suc n, cc, cc)

-- A wait shrinks with the time that passes.
wait_later :
    (ip : String) (now later : ℕ) (l : Limiter) (bound : ℕ)
    → wait_for ip now l ≤ bound
    → now ≤ later
    → wait_for ip (later + bound) l ≡ 0
unfolding wait_for
wait_later ip now later l bound h le = omega arith

both_later :
    (ip : String) (now later : ℕ) (l : Limiter) (bound : ℕ)
    → retry_after ip now l ≤ bound
    → now ≤ later
    → retry_after ip (later + bound) l ≡ 0
unfolding retry_after
both_later ip now later l bound h le = omega (
  arith,
  wait_later ip now later l bound (omega arith) le,
  wait_later global_key now later l bound (omega arith) le,
)

free_later :
    (ip : String) (now later : ℕ) (l : Limiter)
    → retry_after ip now l ≡ 0
    → now ≤ later
    → (wait_for ip later l ≡ 0) × (wait_for global_key later l ≡ 0)
unfolding retry_after wait_for
free_later ip now later l h le = omega arith

grown_within :
    (ip : String) (now w bound : ℕ) (l l' : Limiter)
    → ((j : String) → wait_for j now l' ≤ max w (wait_for j now l))
    → (wait_for ip now l ≡ 0) × (wait_for global_key now l ≡ 0)
    → w ≤ bound
    → retry_after ip now l' ≤ bound
unfolding retry_after
grown_within ip now w bound l l' h z le = omega (arith, h ip, h global_key)

-- What a client is told to wait falls short of its lock by a millisecond at most: whether it was
-- turned away by a lock or its wrong password brought one about, it meets no lock in the state that
-- its login leaves once the announced seconds and one more millisecond have passed since, where the
-- clock does not run back.
pub retry_after_suffices :
    (cfg : Config) (s : Settings) (now later : ℕ) (ip password next : String) (l : Limiter)
    (seconds : ℕ) (l' : Limiter)
    → now ≤ later
    → login_submit cfg s now later ip password next l ≡ (too_many_attempts seconds, l')
    → retry_after ip (later + (1_000_000_000 * seconds + 1_000_000)) l' ≡ 0
unfolding login_submit
retry_after_suffices cfg s now later ip password next l seconds l' le e =
    elim (Bool-cases (ltb 0 (retry_after ip now l))) [
      | inl locked ↦
          let e' : (too_many_attempts (retry_seconds (retry_after ip now l)), l)
              ≡ (too_many_attempts seconds, l') =
            rw locked at e in
          let same : l ≡ l' = cc in
          let told : seconds ≡ retry_seconds (retry_after ip now l) = cc in
          let cover = retry_seconds_cover (retry_after ip now l) in
          rw (← same)
            (both_later ip now later l (1_000_000_000 * seconds + 1_000_000) (omega arith) le)
      | inr free ↦ elim (Bool-cases (is_ok s password)) [
        | inl right ↦
            let e' : (welcome (safe_next (some next)) s.sign, record_success later ip l)
                ≡ (too_many_attempts seconds, l') =
              rw (free, right) at e in
            cc
        | inr wrong ↦
            let e' : refuse next (record_failure cfg later ip l) ≡ (too_many_attempts seconds, l') =
              rw (free, wrong) at e in
            let (w, r, told) = refuse_inv next (record_failure cfg later ip l) seconds l' e' in
            let grown = count_global_waits cfg later ip l l' w r in
            let no_wait = free_later ip now later l (omega (tests, free)) le in
            let cover = retry_seconds_cover w in
            both_later ip later later l' (1_000_000_000 * seconds + 1_000_000)
              (grown_within ip later w (1_000_000_000 * seconds + 1_000_000) l l' grown no_wait
                (omega arith))
              (omega arith)
      ]
    ]
