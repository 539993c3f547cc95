-- ===== src/Auth/Limiter/Wait.antt =====
-- What one call does to the counters and to the waits of every client.
use sportsbetting.Base.{
  ℕ, ◌+◌, ◌-◌, ◌*◌, ◌^◌, ◌≤◌, ◌<◌, min, max, String, ◌≡◌, ◌≢◌, refl, arith, str_eq, eq_iff,
  str_eq_refl, if◌then◌else◌,
}
use native.Mathlib.Decide.{dec_le}
use sportsbetting.Base.Dict
use sportsbetting.Auth.Limiter.{
  Limiter, Config, global_key, wait_for, done, raised, state, count_key, failures,
}

-- One pass of the loop counts its key, and no other.
pub failures-count_key :
    (cfg : Config) (now : ℕ) (key : String) (limit lockout : ℕ) (l : Limiter) (j : String)
    → failures j (state (count_key cfg now key limit lockout l))
      ≡ (if str_eq key j then failures key l + 1 else failures j l)
unfolding count_key failures
failures-count_key cfg now key limit lockout l j =
    ground (arith, Dict.get-set key j (Dict.get_or key 0 l.counts + 1) l.counts)

-- It locks no key but its own.
pub wait_for-count_key_ne :
    (cfg : Config) (now : ℕ) (key : String) (limit lockout : ℕ) (l : Limiter) (j : String) (at : ℕ)
    → key ≢ j
    → wait_for j at (state (count_key cfg now key limit lockout l)) ≡ wait_for j at l
unfolding count_key wait_for
wait_for-count_key_ne cfg now key limit lockout l j at ne =
    grind (arith, Dict.get-set, eq_iff key j)

-- The lockout that a key's next wrong password earns, once it has reached its limit.
abbrev pub penalty : Config → String → ℕ → Limiter → ℕ
penalty cfg key limit l = min (cfg.base_lockout * 2 ^ (failures key l + 1 - limit)) cfg.max_lockout

abbrev pub Overflows : String → ℕ → Limiter → Type 0
Overflows key limit l = limit + 1024 ≤ failures key l + 1

pub count_key_locks :
    (cfg : Config) (now : ℕ) (key : String) (limit lockout : ℕ) (l : Limiter)
    → limit ≤ failures key l + 1
    → failures key l + 1 < limit + 1024
    → (l' : Limiter) × (count_key cfg now key limit lockout l
        ≡ done (max lockout (penalty cfg key limit l)) l')
      × (wait_for key now l' ≡ penalty cfg key limit l)
unfolding count_key failures wait_for
count_key_locks cfg now key limit lockout l reached small =
    let count = Dict.get_or key 0 l.counts + 1 in
    let wait = min (cfg.base_lockout * 2 ^ (count - limit)) cfg.max_lockout in
    (
      record {
        counts = Dict.set key count l.counts;
        locked_until = Dict.set key (now + wait) l.locked_until;
      },
      ground arith,
      ground (arith, Dict.get-set key key (now + wait) l.locked_until, str_eq_refl key),
    )

pub count_key_free :
    (cfg : Config) (now : ℕ) (key : String) (limit lockout : ℕ) (l : Limiter)
    → failures key l + 1 < limit
    → (l' : Limiter) × (count_key cfg now key limit lockout l ≡ done lockout l')
      × (l'.locked_until ≡ l.locked_until)
      × (failures global_key l'
          ≡ (if str_eq key global_key then failures key l + 1 else failures global_key l))
unfolding count_key failures
count_key_free cfg now key limit lockout l below = (
  record l { counts = Dict.set key (Dict.get_or key 0 l.counts + 1) l.counts },
  ground arith,
  refl,
  ground (arith, Dict.get-set key global_key (Dict.get_or key 0 l.counts + 1) l.counts),
)

pub count_key_raises :
    (cfg : Config) (now : ℕ) (key : String) (limit lockout : ℕ) (l : Limiter)
    → Overflows key limit l
    → (l' : Limiter) × (count_key cfg now key limit lockout l ≡ raised l')
      × (l'.locked_until ≡ l.locked_until)
      × (failures key l' ≡ failures key l + 1)
unfolding count_key failures
count_key_raises cfg now key limit lockout l big = (
  record l { counts = Dict.set key (Dict.get_or key 0 l.counts + 1) l.counts },
  ground arith,
  refl,
  ground (arith, Dict.get-set key key (Dict.get_or key 0 l.counts + 1) l.counts, str_eq_refl key),
)

-- Short of the overflow a call does not raise, and it locks or leaves its key.
pub count_key_done :
    (cfg : Config) (now : ℕ) (key : String) (limit lockout : ℕ) (l : Limiter)
    → failures key l + 1 < limit + 1024
    → (waited : ℕ) × (l' : Limiter) × (count_key cfg now key limit lockout l ≡ done waited l')
      × (lockout ≤ waited)
count_key_done cfg now key limit lockout l small = elim (dec_le limit (failures key l + 1)) [
  | yes h ↦
      let (l', e, _) = count_key_locks cfg now key limit lockout l h small in
      (_, l', e, omega arith)
  | no h ↦
      let (l', e, _, _) = count_key_free cfg now key limit lockout l (omega arith) in
      (_, l', e, omega arith)
]
