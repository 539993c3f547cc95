-- ===== src/Scheduler/Tests.antt =====
-- Two jobs on one lock.
use sportsbetting.Base.{ℕ, ◌≤◌, ◌≡◌, refl, false, List, [], ◌∷◌}
use sportsbetting.Scheduler.{skipped, finished, run_jobs, move, advance, all_waiting}
use sportsbetting.Scheduler.Lock.{bit, holders, run_jobs_exclusive}

-- The second job starts while the first one scans, and is skipped.
abbrev schedule : List ℕ
schedule = 0 ∷ 1 ∷ 0 ∷ 0 ∷ 0 ∷ []

second_is_skipped : run_jobs schedule (false, all_waiting 2) ≡ (false, finished ∷ skipped ∷ [])
unfolding run_jobs move advance
second_is_skipped = refl

run_jobs_exclusive_example :
    (holders (run_jobs schedule (false, all_waiting 2)).1 ≤ 1)
    × (holders (run_jobs schedule (false, all_waiting 2)).1
        ≡ bit (run_jobs schedule (false, all_waiting 2)).0)
run_jobs_exclusive_example = run_jobs_exclusive 2 schedule
