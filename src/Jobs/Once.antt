-- ===== src/Jobs/Once.antt =====
-- No job is queued or handled twice at a time.
use decentralized_llm.Base.{
  ℕ, ◌+◌, ◌≤◌, ◌≡◌, refl, ◌∙◌, sym, ap, ==_iff, none, some, Bool, List, [], ◌∷◌, arith, ◌==◌,
  if◌then◌else◌, if_ind, true, false, Result, ok, raise,
}
use decentralized_llm.Base.Dict.{
  Dict, lookup, contains, insert, lookup-insert, lookup-erase, nat_eq,
}
use decentralized_llm.Jobs.Heap.{OpenJob, heappush, Popped, empty, popped, dropped, heappop}
use decentralized_llm.Jobs.Heap.Tally.{
  tally, tally_cons, tally-heappush, tally_popped, heappop-tally,
}
use decentralized_llm.Jobs.{Node, put_after, enqueue, poll, get_after, start_next, drop_job, finish}

-- how often a job stands in a list
abbrev pub times : (job_id : ℕ) → List OpenJob → ℕ
times job_id jobs = tally (λ (job : OpenJob). job.job_id) job_id jobs

-- one if the id is marked, and else none
abbrev pub marked : ℕ → Dict ℕ Bool → ℕ
marked job_id active = elim (lookup job_id active) [ none ↦ 0 | some b ↦ 1 ]

-- how often a job is in the node: queued, handled or lost
abbrev pub places : ℕ → Node → ℕ
places job_id n = times job_id n.job_queue + times job_id n.handled + times job_id n.lost

-- each marked job stands at one place, and no other job does
abbrev pub IsOnce : Node → Type 0
IsOnce n = (job_id : ℕ) → places job_id n ≡ marked job_id n.active_jobs

put_after-places :
    (job_id : ℕ) (n : Node) (r : Result (Unit {0}) × List OpenJob)
    → (places job_id (put_after n r)
        ≡ times job_id r.1 + times job_id n.handled + times job_id n.lost)
      × ((put_after n r).active_jobs ≡ n.active_jobs)
unfolding put_after
put_after-places job_id n (ok _, heap) = (refl, refl)
put_after-places job_id n (raise e, heap) = (refl, refl)

pub enqueue-marked :
    (job : OpenJob) (n : Node) (id : ℕ)
    → IsOnce n
    → contains job.job_id n.active_jobs ≡ false
    → places id n + times id (job ∷ []) ≡ marked id (insert job.job_id true n.active_jobs)
unfolding tally
enqueue-marked job n id once new =
    ground (arith, once id, lookup-insert job.job_id id true n.active_jobs, ==_iff job.job_id id)

pub enqueue-IsOnce : (job : OpenJob) (n : Node) → IsOnce n → IsOnce (enqueue job n)
unfolding enqueue
enqueue-IsOnce job n once =
    if_ind IsOnce (contains job.job_id n.active_jobs) _ _ (λ known. once)
      (λ new id.
        let n' : Node = record n { active_jobs = insert job.job_id true n.active_jobs } in
        let (stands, active) = put_after-places id n' (heappush n.job_queue job) in
        let pushed = tally-heappush (λ (j : OpenJob). j.job_id) id n.job_queue job in
        omega (arith, stands, pushed, ap (marked id) active, enqueue-marked job n id once new))

poll-IsOnce : (open_jobs : List OpenJob) (n : Node) → IsOnce n → IsOnce (poll open_jobs n)
unfolding poll
poll-IsOnce [] n once = once
poll-IsOnce (job ∷ jobs) n once =
    poll-IsOnce jobs _ (if_ind IsOnce n.polling _ _ (λ on. enqueue-IsOnce job n once) (λ off. once))

get_after-places :
    (job_id : ℕ) (n : Node) (taken : Popped)
    → times job_id n.job_queue ≡ tally_popped (λ (job : OpenJob). job.job_id) job_id taken
    → places job_id (get_after n taken) ≡ places job_id n
unfolding get_after
get_after-places job_id n empty h = refl
get_after-places job_id n (popped job heap) h = omega (
  arith,
  h,
  tally_cons (λ (j : OpenJob). j.job_id) job_id job heap,
  tally_cons (λ (j : OpenJob). j.job_id) job_id job n.handled,
)
get_after-places job_id n (dropped e job heap) h = omega (
  arith,
  h,
  tally_cons (λ (j : OpenJob). j.job_id) job_id job heap,
  tally_cons (λ (j : OpenJob). j.job_id) job_id job n.lost,
)

get_after-active_jobs :
    (n : Node) (taken : Popped) → (get_after n taken).active_jobs ≡ n.active_jobs
unfolding get_after
get_after-active_jobs n empty = refl
get_after-active_jobs n (popped job heap) = refl
get_after-active_jobs n (dropped e job heap) = refl

pub start_next-IsOnce : (n : Node) → IsOnce n → IsOnce (start_next n)
unfolding start_next
start_next-IsOnce n once id =
    get_after-places id n (heappop n.job_queue) (sym (heappop-tally _ id n.job_queue))
    ∙ once id
    ∙ ap (marked id) (sym (get_after-active_jobs n (heappop n.job_queue)))

times-drop_job :
    (job_id id : ℕ) (jobs : List OpenJob)
    → times id (drop_job job_id jobs) ≡ (if job_id == id then 0 else times id jobs)
unfolding tally drop_job
times-drop_job job_id id [] = ground arith
times-drop_job job_id id (job ∷ jobs) = ground (arith, times-drop_job job_id id jobs)

pub finish-IsOnce :
    (job_id : ℕ) (n : Node) → 1 ≤ times job_id n.handled → IsOnce n → IsOnce (finish job_id n)
unfolding finish
finish-IsOnce job_id n is_handled once id = ground (
  arith,
  once id,
  once job_id,
  is_handled,
  times-drop_job job_id id n.handled,
  lookup-erase job_id id n.active_jobs,
)

-- any interleaving of polls and workers; a worker finishes a job that it handles
pub data Run (start : Node) : Node → Type 0 where
  begin : Run start start
  polled : (n : Node) (open_jobs : List OpenJob) → Run start n → Run start (poll open_jobs n)
  started : (n : Node) → Run start n → Run start (start_next n)
  finished :
      (n : Node) (job_id : ℕ)
      → 1 ≤ times job_id n.handled
      → Run start n
      → Run start (finish job_id n)

-- In any interleaving of polls of the open jobs and of workers that take and finish jobs, also
-- where the heap raises on equal payments, from a node where this holds: a job that is marked as
-- active is once either queued, handled or taken off the heap by a get that raised, and a job that
-- is not marked is none of these.
pub Run-IsOnce : (start n : Node) → IsOnce start → Run start n → IsOnce n
Run-IsOnce start _ once begin = once
Run-IsOnce start _ once (polled n open_jobs r) = poll-IsOnce open_jobs n (Run-IsOnce start n once r)
Run-IsOnce start _ once (started n r) = start_next-IsOnce n (Run-IsOnce start n once r)
Run-IsOnce start _ once (finished n job_id is_handled r) =
    finish-IsOnce job_id n is_handled (Run-IsOnce start n once r)
