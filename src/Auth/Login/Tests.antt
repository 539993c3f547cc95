-- ===== src/Auth/Login/Tests.antt =====
-- Logins at concrete inputs.
use sportsbetting.Base.{◌+◌, ◌*◌, ◌≡◌, ◌↔◌, refl, arith, String, true, some, [], ◌∷◌}
use sportsbetting.Auth.Limiter.{Limiter, defaults, retry_after, record_failure}
use sportsbetting.Auth.Login.{
  retry_seconds, Settings, too_many_attempts, welcome, is_ok, login_submit, safe_next,
}
use sportsbetting.Auth.Login.Grant.{Grants, IsLocal, login-Grants_iff, retry_after_suffices}

abbrev production : Settings
production = record { app_password = "hunter2"; auth_enabled = true; sign = "cookie" }

abbrev wary : Limiter
wary = record { counts = ("8.8.8.8", 4) ∷ ("*", 4) ∷ []; locked_until = [] }

-- The fifth wrong password is answered by 429 and thirty seconds.
fifth_wrong :
    (login_submit defaults production 500 600 "8.8.8.8" "hunter3" "/bets" wary).0
    ≡ too_many_attempts 30
unfolding login_submit retry_after record_failure
fifth_wrong = refl

-- A wait that is half a millisecond longer is announced as thirty seconds too.
half_a_millisecond : retry_seconds 30_000_500_000 ≡ 30
unfolding retry_seconds
half_a_millisecond = refl

-- An address of another site is not followed.
other_site : safe_next (some "//evil.example/") ≡ "/"
unfolding safe_next
other_site = refl

login-Grants_iff_example :
    let reply = (login_submit defaults production 500 600 "8.8.8.8" "hunter2" "/bets" wary).0 in
    (Grants reply ↔ ((retry_after "8.8.8.8" 500 wary ≡ 0) × (is_ok production "hunter2" ≡ true)))
    × ((url token : String) → reply ≡ welcome url token → IsLocal url)
login-Grants_iff_example =
    login-Grants_iff defaults production 500 600 "8.8.8.8" "hunter2" "/bets" wary

abbrev punished : Limiter
punished = record {
  counts = ("8.8.8.8", 5) ∷ ("*", 5) ∷ [];
  locked_until = ("8.8.8.8", 30_000_000_600) ∷ [];
}

retry_after_suffices_example :
    retry_after "8.8.8.8" (600 + (1_000_000_000 * 30 + 1_000_000)) punished ≡ 0
unfolding login_submit retry_after record_failure
retry_after_suffices_example =
    retry_after_suffices defaults production 500 600 "8.8.8.8" "hunter3" "/bets" wary 30 punished
      (omega arith) refl
