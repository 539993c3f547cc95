-- ===== src/Scheduler.antt =====
-- app/services/scheduler.py: the scan jobs as threads that share one lock, and the jobs that are set
-- up. The thread pool of the scheduler may start and interleave the jobs in any way.
pub mod Lock
mod Tests
use sportsbetting.Base.{
  ℕ, zero, suc, String, Bool, true, false, not, ◌&&◌, Option, none, some, List, [], ◌∷◌, ◌++◌, ltb,
  if◌then◌else◌,
}

-- Where a call of `scan_job` is: before `acquire`, in the scan, before `session.close()`, before
-- `release()`, or at its end. A scan that fails is logged and goes on like one that returns.
pub data Phase : Type 0 where
  waiting scanning closing releasing skipped finished : Phase

-- The next thing that a call does, with the lock: `acquire(blocking=False)` does not wait.
unfoldable pub advance : Bool → Phase → Bool × Phase
advance true waiting = (true, skipped)
advance false waiting = (true, scanning)
advance lock scanning = (lock, closing)
advance lock closing = (lock, releasing)
advance lock releasing = (false, finished)
advance lock skipped = (lock, skipped)
advance lock finished = (lock, finished)

-- The i-th call moves; a number without a call is none.
unfoldable pub move : ℕ → Bool → List Phase → Bool × List Phase
move i lock [] = (lock, [])
move zero lock (p ∷ ps) = let (next, q) = advance lock p in (next, q ∷ ps)
move (suc i) lock (p ∷ ps) = let (next, qs) = move i lock ps in (next, p ∷ qs)

-- The calls move in the order of a schedule.
unfoldable pub run_jobs : List ℕ → Bool × List Phase → Bool × List Phase
run_jobs [] state = state
run_jobs (i ∷ schedule) (lock, jobs) = run_jobs schedule (move i lock jobs)

-- No call has begun.
abbrev pub all_waiting : ℕ → List Phase
all_waiting zero = []
all_waiting (suc n) = waiting ∷ all_waiting n

pub record Job : Type 0 where
  pub id : String
  pub kind : String
  pub minutes : ℕ
  pub hours : ℕ

abbrev poly_job : ℕ → List Job
poly_job minutes =
    if ltb 0 minutes
    then record { id = "scan-poly"; kind = "poly"; minutes = minutes; hours = 0 } ∷ []
    else []

abbrev books_job : ℕ → List Job
books_job hours =
    if ltb 0 hours
    then record { id = "scan-books"; kind = "books"; minutes = 0; hours = hours } ∷ []
    else []

-- The interval settings are not negative here; a negative one counts as 0.
unfoldable pub build_scheduler : ℕ → ℕ → Option (List Job)
build_scheduler poly_minutes books_hours =
    if not (ltb 0 poly_minutes) && not (ltb 0 books_hours)
    then none
    else some (poly_job poly_minutes ++ books_job books_hours)
