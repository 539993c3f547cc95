-- ===== src/Auth/Limiter/Tests.antt =====
-- Runs of the limiter, and its theorems at concrete inputs.
use sportsbetting.Base.{
  ℕ, ◌+◌, ◌≤◌, ◌≡◌, ◌≢◌, refl, arith, String, List, [], ◌∷◌, All, str_ne, if◌then◌else◌, leb,
}
use sportsbetting.Auth.Limiter.{
  Limiter, Config, defaults, global_key, init, wait_for, retry_after, raised, state, record_failure,
  record_success, failures,
}
use sportsbetting.Auth.Limiter.Count.{record_failure-Overflows, record_success_effect}
use sportsbetting.Auth.Limiter.Reach.{
  start, pass, fail, retry_after-le_max, run, IsClient, rotation_locks_every,
}

-- Four wrong passwords from one address.
abbrev four : Limiter
four = record { counts = ("9.9.9.9", 4) ∷ ("*", 4) ∷ []; locked_until = [] }

-- The fifth wrong password locks for 30 seconds.
fifth_locks :
    retry_after "9.9.9.9" 1000 (state (record_failure defaults 1000 "9.9.9.9" four))
    ≡ 30_000_000_000
unfolding record_failure retry_after
fifth_locks = refl

not_global : "9.9.9.9" ≢ global_key
not_global = str_ne "9.9.9.9" "*" refl

abbrev crowd : Limiter
crowd = record { counts = ("*", 49) ∷ []; locked_until = [] }

abbrev flood : Limiter
flood = record { counts = ("*", 1073) ∷ []; locked_until = ("*", 5) ∷ [] }

record_failure-Overflows_example :
    (l' : Limiter) × (record_failure defaults 9 "9.9.9.9" flood ≡ raised l')
    × ((other : String) (at : ℕ) → retry_after other at l' ≡ retry_after other at flood)
    × (failures global_key l' ≡ failures global_key flood + 1)
unfolding failures
record_failure-Overflows_example =
    record_failure-Overflows defaults 9 "9.9.9.9" flood not_global (omega arith) (omega arith)

record_success_effect_example :
    let l' = record_success 3 "9.9.9.9" flood in
    (failures "9.9.9.9" l' ≡ 0)
    × (wait_for "9.9.9.9" 3 l' ≡ 0)
    × (wait_for global_key 3 l' ≡ wait_for global_key 3 flood)
    × (failures global_key l'
        ≡ (if leb (wait_for global_key 3 flood) 0 then 0 else failures global_key flood))
record_success_effect_example = record_success_effect 3 "9.9.9.9" flood not_global

retry_after-le_max_example :
    retry_after "9.9.9.9" 20 (state (record_failure defaults 10 "9.9.9.9" init)) ≤ 3_600_000_000_000
retry_after-le_max_example =
    retry_after-le_max defaults 20 (state (record_failure defaults 10 "9.9.9.9" init)) "9.9.9.9"
      (pass 20 (fail "9.9.9.9" (start 10) refl) (omega arith))

-- A limiter that allows three wrong passwords in all.
abbrev strict : Config
strict = record {
  max_failures = 2;
  max_failures_global = 3;
  base_lockout = 30_000_000_000;
  max_lockout = 3_600_000_000_000;
}

abbrev rotating : List (ℕ × String)
rotating = (1, "1.1.1.1") ∷ (2, "2.2.2.2") ∷ []

rotating-IsClient : All IsClient rotating
rotating-IsClient = (str_ne "1.1.1.1" "*" refl, (str_ne "2.2.2.2" "*" refl, tt))

rotation_locks_every_example :
    let l = run strict ((3, "9.9.9.9") ∷ []) (run strict rotating init) in
    30_000_000_000 ≤ retry_after "7.7.7.7" 3 l
rotation_locks_every_example =
    rotation_locks_every strict rotating 3 "9.9.9.9" "7.7.7.7" rotating-IsClient not_global refl
      (omega arith)
