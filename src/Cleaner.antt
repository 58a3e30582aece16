-- ===== src/Cleaner.antt =====
-- `JobCleaner` of node/resource_manager.py, with the active jobs of its node. A job is `none` where
-- it carries no deadline. Times are natural numbers.
mod Tests
pub mod Scans
use decentralized_llm.Base.{
  ℕ, ◌+◌, Option, none, some, Bool, true, false, List, [], ◌∷◌, ltb, if◌then◌else◌, length,
}
use decentralized_llm.Base.Dict.{nat_eq, Dict, erase}

pub record JobCleaner : Type 0 where
  pub active_jobs : Dict ℕ (Option ℕ)
  pub grace_period_s : ℕ
  pub total_cleaned : ℕ
  pub last_scan_time : ℕ

-- the test of `scan_once`
unfoldable pub is_stale : (now grace_period_s : ℕ) → (deadline : Option ℕ) → Bool
is_stale now grace_period_s none = false
is_stale now grace_period_s (some deadline) = ltb (deadline + grace_period_s) now

-- the first loop of `scan_once`
unfoldable pub stale_job_ids : (now grace_period_s : ℕ) → Dict ℕ (Option ℕ) → List ℕ
unfolding is_stale
stale_job_ids now grace_period_s [] = []
stale_job_ids now grace_period_s ((job_id, deadline) ∷ jobs) =
    let rest = stale_job_ids now grace_period_s jobs in
    if is_stale now grace_period_s deadline then job_id ∷ rest else rest

-- the second loop of `scan_once`
unfoldable pub pop_all : List ℕ → Dict ℕ (Option ℕ) → Dict ℕ (Option ℕ)
pop_all [] jobs = jobs
pop_all (job_id ∷ ids) jobs = pop_all ids (erase job_id jobs)

unfoldable pub scan_once : (now : ℕ) → JobCleaner → ℕ × JobCleaner
unfolding stale_job_ids pop_all
scan_once now c =
    let ids = stale_job_ids now c.grace_period_s c.active_jobs in
    (
      length ids,
      record c {
        active_jobs = pop_all ids c.active_jobs;
        total_cleaned = c.total_cleaned + length ids;
        last_scan_time = now;
      },
    )
