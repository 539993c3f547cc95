-- ===== src/Backtest/Fetch/Backoff.antt =====
-- How often `_fetch_trades` asks, how long it waits, and which answer it returns.
use sportsbetting.Base.{
  ℕ, suc, ◌+◌, ◌≤◌, ◌≡◌, ◌⊎◌, inl, inr, refl, arith, true, false, List, [], ◌∷◌, Bool-cases, length,
}
use sportsbetting.Backtest.Fetch.{Answer, is_rate_limited, fetch_loop, fetch_trades}

module _ {A : Type 0} (answers : ℕ → Answer A) where
  -- The first `n` answers were all refusals for the rate.
  pub data IsRetried : ℕ → Type 0 where
    at_once : IsRetried 0
    again : {n : ℕ} → IsRetried n → is_rate_limited (answers n) ≡ true → IsRetried (suc n)

  abbrev sum_of : List ℕ → ℕ
  sum_of [] = 0
  sum_of (n ∷ ns) = n + sum_of ns

  fetch_loop-IsRetried :
      (delays : List ℕ) (n slept : ℕ)
      → IsRetried n
      → (m total : ℕ) × (fetch_loop answers delays n slept ≡ (answers m, suc m, total))
        × IsRetried m
        × (m ≤ n + length delays)
        × (total ≤ slept + sum_of delays)
        × ((is_rate_limited (answers m) ≡ false) ⊎ (m ≡ n + length delays))
  unfolding fetch_loop
  fetch_loop-IsRetried [] n slept r =
      (n, slept, refl, r, omega arith, omega arith, inr (omega arith))
  fetch_loop-IsRetried (delay ∷ delays) n slept r =
      elim (Bool-cases (is_rate_limited (answers n))) [
        | inl limited ↦
            let (m, total, e, r', calls, waits, last) =
              fetch_loop-IsRetried delays (suc n) (slept + delay) (IsRetried.again r limited) in
            (
              m,
              total,
              rw (limited, fetch_loop) e,
              r',
              omega (arith, calls),
              omega (arith, waits),
              count last,
            )
        | inr other ↦
            (n, slept, rw (other, fetch_loop) refl, r, omega arith, omega arith, inl other)
      ]
    where
      count :
          {m : ℕ}
          → (is_rate_limited (answers m) ≡ false) ⊎ (m ≡ suc n + length delays)
          → (is_rate_limited (answers m) ≡ false) ⊎ (m ≡ n + length (delay ∷ delays))
      count (inl e) = inl e
      count (inr e) = inr (omega (arith, e))

  -- The request is sent at most four times with at most 85 seconds of waiting; every answer before
  -- the returned one was a refusal for the rate, and the returned one is none, unless it is the
  -- fourth.
  pub fetch_trades_correct :
      (m total : ℕ) × (fetch_trades answers ≡ (answers m, suc m, total))
      × IsRetried m
      × (m ≤ 3)
      × (total ≤ 85)
      × ((is_rate_limited (answers m) ≡ false) ⊎ (m ≡ 3))
  unfolding fetch_trades
  fetch_trades_correct = fetch_loop-IsRetried (5 ∷ 20 ∷ 60 ∷ []) 0 0 IsRetried.at_once
