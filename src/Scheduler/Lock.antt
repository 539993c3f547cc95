-- ===== src/Scheduler/Lock.antt =====
-- At most one scan runs at a time.
use sportsbetting.Base.{ℕ, zero, suc, ◌+◌, ◌≤◌, ◌≡◌, refl, arith, Bool, true, false, List, [], ◌∷◌}
use sportsbetting.Scheduler.{
  Phase, waiting, scanning, closing, releasing, skipped, finished, advance, move, run_jobs,
  all_waiting,
}

abbrev pub bit : Bool → ℕ
bit true = 1
bit false = 0

abbrev holds : Phase → ℕ
holds waiting = 0
holds scanning = 1
holds closing = 1
holds releasing = 1
holds skipped = 0
holds finished = 0

-- How many calls are between their `acquire` and their `release`.
abbrev pub holders : List Phase → ℕ
holders [] = 0
holders (p ∷ ps) = holds p + holders ps

advance-holds :
    (lock : Bool) (p : Phase)
    → holds p ≤ bit lock
    → holds (advance lock p).1 + bit lock ≡ holds p + bit (advance lock p).0
unfolding advance
advance-holds true waiting h = refl
advance-holds false waiting h = refl
advance-holds lock scanning h = refl
advance-holds lock closing h = refl
advance-holds true releasing h = refl
advance-holds false releasing h = absurd (omega (arith, h))
advance-holds lock skipped h = refl
advance-holds lock finished h = refl

move-holders :
    (i : ℕ) (lock : Bool) (jobs : List Phase)
    → holders jobs ≤ bit lock
    → holders (move i lock jobs).1 + bit lock ≡ holders jobs + bit (move i lock jobs).0
unfolding move
move-holders i lock [] h = refl
move-holders zero lock (p ∷ ps) h = omega (arith, advance-holds lock p (omega (arith, h)))
move-holders (suc i) lock (p ∷ ps) h = omega (arith, move-holders i lock ps (omega (arith, h)))

run_jobs-holders :
    (schedule : List ℕ) (lock : Bool) (jobs : List Phase)
    → holders jobs ≡ bit lock
    → holders (run_jobs schedule (lock, jobs)).1 ≡ bit (run_jobs schedule (lock, jobs)).0
unfolding run_jobs
run_jobs-holders [] lock jobs h = h
run_jobs-holders (i ∷ schedule) lock jobs h =
    run_jobs-holders schedule (move i lock jobs).0 (move i lock jobs).1
      (omega (arith, h, move-holders i lock jobs (omega (arith, h))))

none_holds : (n : ℕ) → holders (all_waiting n) ≡ 0
none_holds zero = refl
none_holds (suc n) = omega (arith, none_holds n)

bit_le : (b : Bool) → bit b ≤ 1
bit_le true = omega arith
bit_le false = omega arith

-- However many calls there are and however they interleave, at most one is in its scan or has yet to
-- release the lock, and the lock is taken exactly while there is one.
pub run_jobs_exclusive :
    (n : ℕ) (schedule : List ℕ)
    → (holders (run_jobs schedule (false, all_waiting n)).1 ≤ 1)
      × (holders (run_jobs schedule (false, all_waiting n)).1
          ≡ bit (run_jobs schedule (false, all_waiting n)).0)
run_jobs_exclusive n schedule =
    let same = run_jobs-holders schedule false (all_waiting n) (none_holds n) in
    (omega (arith, same, bit_le (run_jobs schedule (false, all_waiting n)).0), same)
