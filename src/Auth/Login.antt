-- ===== src/Auth/Login.antt =====
-- `login_submit` of app/routes/auth.py. The clock is read once by `retry_after` and once more by
-- the call that follows it; both readings are arguments. `sign` is `sign_session`, whose signature
-- comes from a library.
pub mod Grant
mod Tests
use text.Mathlib.Text.{starts_with}
use sportsbetting.Base.{
  ℕ, zero, suc, ◌+◌, ◌/◌, max, String, Bool, true, false, not, ◌&&◌, ◌||◌, Option, none, some,
  str_eq, ltb, if◌then◌else◌,
}
use sportsbetting.Auth.Limiter.{
  Config, Limiter, retry_after, Recorded, done, raised, record_failure, record_success,
}

pub record Settings : Type 0 where
  pub app_password : String
  pub auth_enabled : Bool
  pub sign : String

-- What the client gets. `server_error` is the answer to an exception that nothing catches.
pub data Reply : Type 0 where
  too_many_attempts : ℕ → Reply
  wrong_password : String → Reply
  welcome : String → String → Reply
  server_error : Reply

-- `_safe_next`
unfoldable pub safe_next : Option String → String
safe_next none = "/"
safe_next (some value) =
    if str_eq value ""
      || not (starts_with value "/")
      || starts_with value "//"
      || str_eq value "/login"
    then "/"
    else value

-- `max(1, int(wait + 0.999))`, from nanoseconds.
unfoldable pub retry_seconds : ℕ → ℕ
retry_seconds wait = max 1 ((wait + 999_000_000) / 1_000_000_000)

abbrev pub is_ok : Settings → String → Bool
is_ok s password =
    (not (str_eq s.app_password "") && str_eq password s.app_password) || not s.auth_enabled

abbrev refuse : String → Recorded → Reply × Limiter
refuse next (raised l) = (server_error, l)
refuse next (done zero l) = (wrong_password (safe_next (some next)), l)
refuse next (done (suc n) l) = (too_many_attempts (retry_seconds (suc n)), l)

unfoldable pub login_submit :
    Config → Settings → ℕ → ℕ → String → String → String → Limiter → Reply × Limiter
unfolding safe_next retry_seconds
login_submit cfg s now later ip password next l =
    let wait = retry_after ip now l in
    if ltb 0 wait
    then (too_many_attempts (retry_seconds wait), l)
    else if not (is_ok s password)
    then refuse next (record_failure cfg later ip l)
    else (welcome (safe_next (some next)) s.sign, record_success later ip l)
