-- ===== src/Auth/Limiter/Count.antt =====
-- `record_failure` and `record_success` as a whole: both of its keys, and the clients that are not
-- concerned.
use sportsbetting.Base.{
  ℕ, ◌+◌, ◌≤◌, ◌<◌, max, String, ◌≡◌, ◌≢◌, refl, sym, ap, ◌∙◌, arith, str_eq, eq_iff, str_eq_refl,
  leb, if◌then◌else◌, ◌||◌,
}
use sportsbetting.Base.Dict
use sportsbetting.Auth.Limiter.{
  Limiter, Config, global_key, wait_for, retry_after, Recorded, done, raised, state, count_key,
  count_global, record_failure, record_success, failures,
}
use sportsbetting.Auth.Limiter.Wait.{
  failures-count_key, wait_for-count_key_ne, penalty, Overflows, count_key_locks, count_key_free,
  count_key_raises, count_key_done,
}

-- The first pass leaves the global counter alone.
failures_global :
    (cfg : Config) (now : ℕ) (ip : String) (limit lockout : ℕ) (l : Limiter)
    → ip ≢ global_key
    → failures global_key (state (count_key cfg now ip limit lockout l)) ≡ failures global_key l
failures_global cfg now ip limit lockout l ne =
    ground (arith, failures-count_key cfg now ip limit lockout l global_key, eq_iff ip global_key)

-- The call that brings a client to its limit locks it at once for its whole penalty: the lockout
-- reported and the wait that the next request meets are both at least that long.
record_failure_locks :
    (cfg : Config) (now : ℕ) (ip : String) (l : Limiter)
    → ip ≢ global_key
    → cfg.max_failures ≤ failures ip l + 1
    → failures ip l + 1 < cfg.max_failures + 1024
    → failures global_key l + 1 < cfg.max_failures_global + 1024
    → let wait = penalty cfg ip cfg.max_failures l in
      (lockout : ℕ) × (l' : Limiter) × (record_failure cfg now ip l ≡ done lockout l')
      × (wait ≤ lockout)
      × (wait ≤ retry_after ip now l')
unfolding record_failure count_global retry_after
record_failure_locks cfg now ip l ne reached small small_g =
    let (l₁, e₁, w₁) = count_key_locks cfg now ip cfg.max_failures 0 l reached small in
    let wait = penalty cfg ip cfg.max_failures l in
    let lockout = max 0 wait in
    let same : failures global_key l₁ ≡ failures global_key l =
      ap (λ r. failures global_key (state r)) (sym e₁)
      ∙ failures_global cfg now ip cfg.max_failures 0 l ne in
    let (waited, l₂, e₂, more) =
      count_key_done cfg now global_key cfg.max_failures_global lockout l₁ (omega arith) in
    let kept : wait_for ip now l₂ ≡ wait_for ip now l₁ =
      ap (λ r. wait_for ip now (state r)) (sym e₂)
      ∙ wait_for-count_key_ne cfg now global_key cfg.max_failures_global lockout l₁ ip now
          (λ e. ne (sym e)) in
    (waited, l₂, rw e₁ e₂, omega arith, omega arith)

-- The wrong password that brings the global counter to its limit locks every client, from whatever
-- address it comes, unless the client's own counter overflows first.
pub record_failure_locks_all :
    (cfg : Config) (now : ℕ) (ip : String) (l : Limiter)
    → ip ≢ global_key
    → failures ip l + 1 < cfg.max_failures + 1024
    → cfg.max_failures_global ≤ failures global_key l + 1
    → failures global_key l + 1 < cfg.max_failures_global + 1024
    → let wait = penalty cfg global_key cfg.max_failures_global l in
      (lockout : ℕ) × (l' : Limiter) × (record_failure cfg now ip l ≡ done lockout l')
      × (wait ≤ lockout)
      × ((other : String) → wait ≤ retry_after other now l')
unfolding record_failure count_global retry_after
record_failure_locks_all cfg now ip l ne small reached small_g =
    let (waited, l₁, e₁, _) = count_key_done cfg now ip cfg.max_failures 0 l small in
    let same : failures global_key l₁ ≡ failures global_key l =
      ap (λ r. failures global_key (state r)) (sym e₁)
      ∙ failures_global cfg now ip cfg.max_failures 0 l ne in
    let (l₂, e₂, w₂) =
      count_key_locks cfg now global_key cfg.max_failures_global waited l₁ (omega arith)
        (omega arith) in
    let wait : penalty cfg global_key cfg.max_failures_global l₁
        ≡ penalty cfg global_key cfg.max_failures_global l =
      rw same in
    (
      max waited (penalty cfg global_key cfg.max_failures_global l₁),
      l₂,
      rw e₁ e₂,
      omega arith,
      λ other. omega arith,
    )

-- A failure of a client that leaves its own counter below its limit, while the global counter is past
-- the power of two that a float can hold, raises: the global counter moves by one, and nobody's wait
-- changes. The client's address is not the global key.
pub record_failure-Overflows :
    (cfg : Config) (now : ℕ) (ip : String) (l : Limiter)
    → ip ≢ global_key
    → failures ip l + 1 < cfg.max_failures
    → Overflows global_key cfg.max_failures_global l
    → (l' : Limiter) × (record_failure cfg now ip l ≡ raised l')
      × ((other : String) (at : ℕ) → retry_after other at l' ≡ retry_after other at l)
      × (failures global_key l' ≡ failures global_key l + 1)
unfolding record_failure count_global retry_after wait_for
record_failure-Overflows cfg now ip l ne below big =
    let (l₁, e₁, k₁, g₁) = count_key_free cfg now ip cfg.max_failures 0 l below in
    let same : failures global_key l₁ ≡ failures global_key l =
      ground (arith, g₁, eq_iff ip global_key) in
    let (l₂, e₂, k₂, g₂) =
      count_key_raises cfg now global_key cfg.max_failures_global 0 l₁ (omega arith) in
    (l₂, rw e₁ e₂, λ other at. rw (k₂, k₁), omega arith)

pub failures-record_failure :
    (cfg : Config) (now : ℕ) (ip : String) (l : Limiter) (j : String)
    → ip ≢ global_key
    → failures ip l + 1 < cfg.max_failures + 1024
    → failures j (state (record_failure cfg now ip l))
      ≡ failures j l + (if str_eq ip j || str_eq global_key j then 1 else 0)
unfolding record_failure count_global
failures-record_failure cfg now ip l j ne small =
    let (waited, l₁, e₁, _) = count_key_done cfg now ip cfg.max_failures 0 l small in
    let first : failures j l₁ ≡ (if str_eq ip j then failures ip l + 1 else failures j l) =
      ap (λ r. failures j (state r)) (sym e₁)
      ∙ failures-count_key cfg now ip cfg.max_failures 0 l j in
    let same : failures global_key l₁ ≡ failures global_key l =
      ap (λ r. failures global_key (state r)) (sym e₁)
      ∙ failures_global cfg now ip cfg.max_failures 0 l ne in
    let second = failures-count_key cfg now global_key cfg.max_failures_global waited l₁ j in
    rw e₁ (ground (arith, second, first, same, eq_iff ip j, eq_iff global_key j))

count_global_others :
    (cfg : Config) (now : ℕ) (r : Recorded) (other : String) (at : ℕ)
    → other ≢ global_key
    → (failures other (state (count_global cfg now r)) ≡ failures other (state r))
      × (wait_for other at (state (count_global cfg now r)) ≡ wait_for other at (state r))
unfolding count_global
count_global_others cfg now (raised l) other at ng = (refl, refl)
count_global_others cfg now (done lockout l) other at ng =
    let limit = cfg.max_failures_global in
    (
      ground (
        arith,
        failures-count_key cfg now global_key limit lockout l other,
        eq_iff global_key other,
      ),
      wait_for-count_key_ne cfg now global_key limit lockout l other at (λ e. ng (sym e)),
    )

-- One client's wrong password changes neither the count nor the wait of another's own key.
record_failure_others :
    (cfg : Config) (now : ℕ) (ip other : String) (l : Limiter) (at : ℕ)
    → ip ≢ other
    → other ≢ global_key
    → (failures other (state (record_failure cfg now ip l)) ≡ failures other l)
      × (wait_for other at (state (record_failure cfg now ip l)) ≡ wait_for other at l)
unfolding record_failure
record_failure_others cfg now ip other l at ne ng =
    let r = count_key cfg now ip cfg.max_failures 0 l in
    let (c, w) = count_global_others cfg now r other at ng in
    let first : failures other (state r) ≡ failures other l =
      ground (arith, failures-count_key cfg now ip cfg.max_failures 0 l other, eq_iff ip other) in
    (c ∙ first, w ∙ wait_for-count_key_ne cfg now ip cfg.max_failures 0 l other at ne)

-- A right password frees its own key. The global lock in force outlives it, its counter with it;
-- where none is in force, both are cleared.
pub record_success_effect :
    (now : ℕ) (ip : String) (l : Limiter)
    → ip ≢ global_key
    → let l' = record_success now ip l in
      (failures ip l' ≡ 0)
      × (wait_for ip now l' ≡ 0)
      × (wait_for global_key now l' ≡ wait_for global_key now l)
      × (failures global_key l'
          ≡ (if leb (wait_for global_key now l) 0 then 0 else failures global_key l))
unfolding record_success failures wait_for
record_success_effect now ip l ne = grind (arith, Dict.get-pop, eq_iff ip global_key, str_eq_refl)
