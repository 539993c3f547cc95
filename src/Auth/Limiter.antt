-- ===== src/Auth/Limiter.antt =====
-- `class LoginLimiter` of app/routes/auth.py. The clock is read by the caller and handed in; times
-- are whole nanoseconds, the resolution of `time.monotonic`. The lock makes each method atomic, so a method is one
-- step on the state.
pub mod Wait
pub mod Count
pub mod Reach
mod Tests
use sportsbetting.Base.{
  ℕ, suc, ◌+◌, ◌-◌, ◌*◌, ◌^◌, min, max, String, Option, none, some, [], ltb, leb, if◌then◌else◌,
}
use sportsbetting.Base.Dict
use sportsbetting.Base.Dict.{Dict}

-- `GLOBAL_KEY`
abbrev pub global_key : String
global_key = "*"

pub record Config : Type 0 where
  pub max_failures : ℕ
  pub max_failures_global : ℕ
  pub base_lockout : ℕ
  pub max_lockout : ℕ

-- The defaults of `__init__`: 5 and 50 failures, 30 seconds and one hour.
abbrev pub defaults : Config
defaults = record {
  max_failures = 5;
  max_failures_global = 50;
  base_lockout = 30_000_000_000;
  max_lockout = 3_600_000_000_000;
}

pub record Limiter : Type 0 where
  pub counts : Dict ℕ
  pub locked_until : Dict ℕ

abbrev pub init : Limiter
init = record { counts = []; locked_until = [] }

-- How long a key must still wait; `max(0.0, until - now)` is the subtraction that stops at 0.
unfoldable pub wait_for : String → ℕ → Limiter → ℕ
wait_for key now l = Dict.get_or key 0 l.locked_until - now

unfoldable pub retry_after : String → ℕ → Limiter → ℕ
unfolding wait_for
retry_after ip now l = max (wait_for ip now l) (wait_for global_key now l)

-- `min(base * 2 ** (count - limit), max)`. Python converts the power to a float first and raises
-- OverflowError from 2 ** 1024 on, which is `none`.
unfoldable pub lockout_for : Config → ℕ → ℕ → Option ℕ
lockout_for cfg count limit =
    if ltb (count - limit) 1024
    then some (min (cfg.base_lockout * 2 ^ (count - limit)) cfg.max_lockout)
    else none

-- What a call came to: the lockout that it returned, or an exception. What was written stays.
pub data Recorded : Type 0 where
  done : ℕ → Limiter → Recorded
  raised : Limiter → Recorded

abbrev pub state : Recorded → Limiter
state (done _ l) = l
state (raised l) = l

abbrev lock_key : String → ℕ → ℕ → Option ℕ → Limiter → Recorded
lock_key key now lockout none l = raised l
lock_key key now lockout (some wait) l =
    done (max lockout wait) (record l { locked_until = Dict.set key (now + wait) l.locked_until })

-- The body of the loop in `record_failure`, for one key.
unfoldable pub count_key : Config → ℕ → String → ℕ → ℕ → Limiter → Recorded
unfolding lockout_for
count_key cfg now key limit lockout l =
    let count = Dict.get_or key 0 l.counts + 1 in
    let counted = record l { counts = Dict.set key count l.counts } in
    if leb limit count
    then lock_key key now lockout (lockout_for cfg count limit) counted
    else done lockout counted

-- The loop's second pass, which an exception of the first one skips.
unfoldable pub count_global : Config → ℕ → Recorded → Recorded
unfolding count_key
count_global cfg now (raised l) = raised l
count_global cfg now (done lockout l) =
    count_key cfg now global_key cfg.max_failures_global lockout l

unfoldable pub record_failure : Config → ℕ → String → Limiter → Recorded
unfolding count_key count_global
record_failure cfg now ip l = count_global cfg now (count_key cfg now ip cfg.max_failures 0 l)

abbrev clear : String → Limiter → Limiter
clear key l = record { counts = Dict.pop key l.counts; locked_until = Dict.pop key l.locked_until }

unfoldable pub record_success : ℕ → String → Limiter → Limiter
record_success now ip l =
    let l' = clear ip l in
    if leb (Dict.get_or global_key 0 l'.locked_until) now then clear global_key l' else l'

-- `LoginLimiter.failures`
unfoldable pub failures : String → Limiter → ℕ
failures ip l = Dict.get_or ip 0 l.counts
