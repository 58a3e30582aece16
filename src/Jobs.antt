-- ===== src/Jobs.antt =====
-- node/server.py: `_job_loop` and `_job_worker`, as steps that any number of workers take in any order.
-- The queue is a heap, whose `put` and `get` raise where they compare two jobs with one payment.
mod Tests
pub mod Heap
pub mod Verdict
pub mod Handle
pub mod Balance
pub mod Once
pub mod Prices
use decentralized_llm.Base.{
  ℕ, Bool, true, false, not, ◌||◌, List, [], ◌∷◌, ◌==◌, if◌then◌else◌, Result, ok, raise,
}
use decentralized_llm.Base.Dict.{Dict, contains, insert, erase, lookup, nat_eq}
use decentralized_llm.Jobs.Heap.{OpenJob, heappush, Popped, empty, popped, dropped, heappop}

-- `_active_jobs`, `_job_queue`, the jobs that the workers handle now, and those that a `get` took off
-- the heap before it raised. `polling` is whether `_job_loop` still runs.
pub record Node : Type 0 where
  pub active_jobs : Dict ℕ Bool
  pub job_queue : List OpenJob
  pub handled : List OpenJob
  pub lost : List OpenJob
  pub polling : Bool

-- a `put` that raises ends `_job_loop`
unfoldable pub put_after : Node → Result (Unit {0}) × List OpenJob → Node
put_after n (ok _, heap) = record n { job_queue = heap }
put_after n (raise e, heap) = record n { job_queue = heap; polling = false }

-- the body of the loop over the open jobs
unfoldable pub enqueue : OpenJob → Node → Node
unfolding lookup insert heappush put_after
enqueue job n =
    if contains job.job_id n.active_jobs
    then n
    else put_after (record n { active_jobs = insert job.job_id true n.active_jobs })
        (heappush n.job_queue job)

-- one round of `_job_loop`, unless it has ended
unfoldable pub poll : (open_jobs : List OpenJob) → Node → Node
unfolding enqueue
poll [] n = n
poll (job ∷ jobs) n = poll jobs (if n.polling then enqueue job n else n)

-- a worker's `get`; one that raises ends the worker
unfoldable pub get_after : Node → Popped → Node
get_after n empty = n
get_after n (popped job heap) = record n { job_queue = heap; handled = job ∷ n.handled }
get_after n (dropped e job heap) = record n { job_queue = heap; lost = job ∷ n.lost }

-- a worker takes a job, if there is one
unfoldable pub start_next : Node → Node
unfolding heappop get_after
start_next n = get_after n (heappop n.job_queue)

-- a worker's job is no longer handled
unfoldable pub drop_job : (job_id : ℕ) → List OpenJob → List OpenJob
drop_job job_id [] = []
drop_job job_id (job ∷ jobs) =
    let rest = drop_job job_id jobs in if job.job_id == job_id then rest else job ∷ rest

-- the `finally` clause of a worker
unfoldable pub finish : (job_id : ℕ) → Node → Node
unfolding drop_job erase
finish job_id n = record n {
  active_jobs = erase job_id n.active_jobs;
  handled = drop_job job_id n.handled;
}
