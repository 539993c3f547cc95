-- ===== src/Transport/Tests.antt =====
-- A request that fails twice and then answers.
use sportsbetting.Base.{ℕ, zero, suc, ◌*◌, ◌≤◌, ◌≡◌, ◌⊎◌, refl, false, some, [], ◌∷◌}
use sportsbetting.Transport.{
  Attempt, broken, response, json, no_content, payload, transport_error, may_retry, conclude,
  request, request_loop, pause, retry_backoff, default_retries, find_route, dispatch, file, served,
}
use sportsbetting.Transport.Retry.{longest, IsRetried, request_correct}

abbrev client : ℕ → Attempt ℕ
client zero = broken
client (suc zero) = response 503 no_content
client (suc (suc n)) = response 200 (json 7)

answers_at_last : request retry_backoff client default_retries ≡ (payload (some 7), 3, 1000)
unfolding request request_loop pause
answers_at_last = refl

gives_up : request retry_backoff client 1 ≡ (transport_error (some 503), 2, 250)
unfolding request request_loop pause
gives_up = refl

serves_the_first_route :
    (dispatch {Params = ℕ}
      (λ name. some name)
      []
      (record { method = "get"; prefix = "https://a"; target = file "a.json" } ∷ [])
      "GET"
      "https://a/b"
      0
      []).0
    ≡ served "a.json" []
unfolding dispatch find_route
serves_the_first_route = refl

request_correct_example :
    (m total : ℕ) × (request retry_backoff client default_retries
      ≡ (conclude (client m), suc m, total))
    × IsRetried retry_backoff client m
    × (m ≤ default_retries)
    × (total ≤ default_retries * longest retry_backoff)
    × ((may_retry (client m) ≡ false) ⊎ (m ≡ default_retries))
request_correct_example = request_correct retry_backoff client default_retries
