-- ===== src/Auth/Limiter/Reach.antt =====
-- The limiter over time: every state that calls can reach, and a run of wrong passwords from
-- changing addresses.
use sportsbetting.Base.{
  ℕ, suc, ◌+◌, ◌-◌, ◌≤◌, min, String, ◌≡◌, ◌≢◌, arith, eq_iff, str_eq_refl, List, [], ◌∷◌, length,
  All,
}
use sportsbetting.Base.Dict
use sportsbetting.Auth.Limiter.{
  Limiter, Config, global_key, wait_for, retry_after, Recorded, done, raised, state, count_key,
  count_global, record_failure, record_success, failures, init,
}
use sportsbetting.Auth.Limiter.Wait.{penalty}
use sportsbetting.Auth.Limiter.Count.{record_failure_locks_all, failures-record_failure}

-- The states of a limiter that was made by `__init__`, with the time that the clock shows. Calls
-- come in any order from any address, and the clock (`time.monotonic`) does not go back.
pub data Reach (cfg : Config) : ℕ → Limiter → Type 0 where
  start : (now : ℕ) → Reach cfg now init
  pass : {now : ℕ} {l : Limiter} (later : ℕ) → Reach cfg now l → now ≤ later → Reach cfg later l
  fail :
      {now : ℕ} {l l' : Limiter} (ip : String)
      → Reach cfg now l
      → state (record_failure cfg now ip l) ≡ l'
      → Reach cfg now l'
  succeed :
      {now : ℕ} {l l' : Limiter} (ip : String)
      → Reach cfg now l
      → record_success now ip l ≡ l'
      → Reach cfg now l'

abbrev IsCapped : Config → ℕ → Limiter → Type 0
IsCapped cfg now l = (key : String) → wait_for key now l ≤ cfg.max_lockout

count_key-IsCapped :
    (cfg : Config) (now : ℕ) (key : String) (limit lockout : ℕ) (l : Limiter)
    → IsCapped cfg now l
    → IsCapped cfg now (state (count_key cfg now key limit lockout l))
unfolding count_key wait_for
count_key-IsCapped cfg now key limit lockout l h j = grind (arith, Dict.get-set, h j)

count_global-IsCapped :
    (cfg : Config) (now : ℕ) (r : Recorded)
    → IsCapped cfg now (state r)
    → IsCapped cfg now (state (count_global cfg now r))
unfolding count_global
count_global-IsCapped cfg now (raised l) h = h
count_global-IsCapped cfg now (done lockout l) h =
    count_key-IsCapped cfg now global_key cfg.max_failures_global lockout l h

clear-IsCapped :
    (cfg : Config) (now : ℕ) (ip : String) (l : Limiter)
    → IsCapped cfg now l
    → IsCapped cfg now (record_success now ip l)
unfolding record_success wait_for
clear-IsCapped cfg now ip l h j = grind (arith, Dict.get-pop, h j)

init-IsCapped : (cfg : Config) (now : ℕ) → IsCapped cfg now init
unfolding wait_for
init-IsCapped cfg now key = omega arith

later-IsCapped :
    (cfg : Config) (now later : ℕ) (l : Limiter)
    → now ≤ later
    → IsCapped cfg now l
    → IsCapped cfg later l
unfolding wait_for
later-IsCapped cfg now later l le h key = omega (arith, h key)

Reach-IsCapped : {cfg : Config} {now : ℕ} {l : Limiter} → Reach cfg now l → IsCapped cfg now l
unfolding record_failure
Reach-IsCapped {cfg} (start now) = init-IsCapped cfg now
Reach-IsCapped {cfg} {l = l} (pass {now = now} later r h) =
    later-IsCapped cfg now later l h (Reach-IsCapped r)
Reach-IsCapped {cfg} (fail {now = now} {l = l} ip r e) = rw (← e) (
    count_global-IsCapped cfg now (count_key cfg now ip cfg.max_failures 0 l)
      (count_key-IsCapped cfg now ip cfg.max_failures 0 l (Reach-IsCapped r)))
Reach-IsCapped {cfg} (succeed {now = now} {l = l} ip r e) =
    rw (← e) (clear-IsCapped cfg now ip l (Reach-IsCapped r))

-- However the calls come, no client is ever made to wait longer than the configured maximum.
pub retry_after-le_max :
    (cfg : Config) (now : ℕ) (l : Limiter) (ip : String)
    → Reach cfg now l
    → retry_after ip now l ≤ cfg.max_lockout
unfolding retry_after
retry_after-le_max cfg now l ip r = omega (arith, Reach-IsCapped r ip, Reach-IsCapped r global_key)

-- Wrong passwords one after another, each with its time and address.
pub run : Config → List (ℕ × String) → Limiter → Limiter
run cfg [] l = l
run cfg ((now, ip) ∷ attempts) l = run cfg attempts (state (record_failure cfg now ip l))

abbrev pub IsClient : ℕ × String → Type 0
IsClient (_, ip) = ip ≢ global_key

-- Every counter is at most `n`.
abbrev IsBelow : ℕ → Limiter → Type 0
IsBelow n l = (key : String) → failures key l ≤ n

run_counts :
    (cfg : Config) (attempts : List (ℕ × String)) (l : Limiter) (n : ℕ)
    → All IsClient attempts
    → IsBelow n l
    → n + length attempts ≤ 1023
    → (failures global_key (run cfg attempts l) ≡ failures global_key l + length attempts)
      × IsBelow (n + length attempts) (run cfg attempts l)
unfolding run
run_counts cfg [] l n c b h = (omega arith, λ key. omega (arith, b key))
run_counts cfg ((now, ip) ∷ attempts) l n (ne, c) b h =
    let l₁ = state (record_failure cfg now ip l) in
    let step = λ (j : String). failures-record_failure cfg now ip l j ne (omega (arith, b ip)) in
    let b₁ : IsBelow (suc n) l₁ = λ j. ground (arith, step j, b j) in
    let rec = run_counts cfg attempts l₁ (suc n) c b₁ (omega arith) in
    let g : failures global_key l₁ ≡ failures global_key l + 1 =
      ground (arith, step global_key, str_eq_refl global_key, eq_iff ip global_key) in
    (omega arith, λ key. omega (arith, rec.1 key))

init-failures : (key : String) → failures key init ≤ 0
unfolding failures
init-failures key = omega arith

-- Changing the address at every guess does not help. After wrong passwords from whichever
-- addresses on a fresh limiter, none of them the global key, the one that makes the global limit
-- locks every address at once, for at least the base lockout or the maximum, if that is less; the
-- global limit is at most 1023.
pub rotation_locks_every :
    (cfg : Config) (attempts : List (ℕ × String)) (now : ℕ) (ip other : String)
    → All IsClient attempts
    → ip ≢ global_key
    → length attempts + 1 ≡ cfg.max_failures_global
    → cfg.max_failures_global ≤ 1023
    → let l = run cfg ((now, ip) ∷ []) (run cfg attempts init) in
      min cfg.base_lockout cfg.max_lockout ≤ retry_after other now l
unfolding run
rotation_locks_every cfg attempts now ip other c ne last small =
    let l = run cfg attempts init in
    let (all, below) = run_counts cfg attempts init 0 c (λ key. init-failures key) (omega arith) in
    let reached : failures global_key l + 1 ≡ cfg.max_failures_global =
      omega (arith, init-failures global_key) in
    let (lockout, l', e, _, wait) =
      record_failure_locks_all cfg now ip l ne (omega (arith, below ip)) (omega arith)
        (omega arith) in
    let none_over : failures global_key l + 1 - cfg.max_failures_global ≡ 0 = omega arith in
    let first : min cfg.base_lockout cfg.max_lockout
        ≡ penalty cfg global_key cfg.max_failures_global l =
      rw none_over (omega arith) in
    rw e (omega (arith, wait other))
