-- ===== src/Jobs/Handle.antt =====
-- node/server.py: `_handle_job`. What the blockchain, the inference and the upload answer is given; the
-- metrics are counters.
use decentralized_llm.Base.{
  ℕ, zero, suc, ◌+◌, ◌-◌, Bool, true, false, List, leb, if◌then◌else◌, Result, ok, raise,
}
use decentralized_llm.Jobs.Heap.{OpenJob}
use decentralized_llm.Jobs.Verdict.{
  Text, Verdict, valid, empty_result, not_utf8, wrong_hash, too_long, bad_cid, verify_result,
}

pub record Metrics : Type 0 where
  pub jobs_claimed_total : ℕ
  pub jobs_failed_total : ℕ
  pub jobs_completed_total : ℕ
  pub active_jobs : ℕ

-- how `_run_inference` ends: with a text, with `IntegrityError`, or with another exception
pub data Inference : Type 0 where
  produced : List ℕ → Inference
  tampered : Inference
  crashed : Inference

-- what the retries come to
pub data Inferred : Type 0 where
  result_text : List ℕ → Inferred
  skipped : Inferred
  given_up : Inferred

-- how the upload ends: with a CID, with `JobTimeoutError`, or with another exception
pub data Upload : Type 0 where
  uploaded : List ℕ → Upload
  timed_out : Upload
  upload_failed : Upload

-- the answers that a job gets: `inference` by the number of the attempt
pub record World : Type 0 where
  pub now : ℕ
  pub claimed : Result Bool
  pub inference : (attempt : ℕ) → Inference
  pub upload : Upload
  pub submitted : Result (Unit {0})

-- how `_handle_job` ends: by a return, after or without a submission, or with an exception
pub data Ending : Type 0 where
  not_started completed failed_job raised : Ending

abbrev pub max_retries : ℕ
max_retries = 2

-- one outcome of an attempt; `rest` is the loop from the next attempt on
unfoldable pub settle_attempt : Inference → (rest : Inferred) → Inferred
settle_attempt (produced t) rest = result_text t
settle_attempt tampered rest = skipped
settle_attempt crashed rest = rest

-- the loop over the attempts, of which `left` are to come
unfoldable pub infer : World → (left attempt : ℕ) → Inferred
unfolding settle_attempt
infer w zero attempt = given_up
infer w (suc left) attempt = settle_attempt (w.inference attempt) (infer w left (suc attempt))

-- `jobs_claimed_total.inc()` and `active_jobs.inc()`
unfoldable pub count_claim : Metrics → Metrics
count_claim m = record m {
  jobs_claimed_total = m.jobs_claimed_total + 1;
  active_jobs = m.active_jobs + 1;
}

-- `jobs_failed_total.inc()` and `active_jobs.dec()`
unfoldable pub count_failure : Metrics → Metrics
count_failure m = record m {
  jobs_failed_total = m.jobs_failed_total + 1;
  active_jobs = m.active_jobs - 1;
}

-- `jobs_completed_total.inc()` and `active_jobs.dec()`
unfoldable pub count_completion : Metrics → Metrics
count_completion m = record m {
  jobs_completed_total = m.jobs_completed_total + 1;
  active_jobs = m.active_jobs - 1;
}

-- `submit_result`
unfoldable pub submit : Result (Unit {0}) → Metrics → Ending × Metrics
unfolding count_completion
submit (ok done) m = (completed, count_completion m)
submit (raise e) m = (raised, m)

-- once the result has been verified
unfoldable pub judge : Verdict → World → Metrics → Ending × Metrics
unfolding submit count_failure
judge valid w m = submit w.submitted m
judge empty_result w m = (failed_job, count_failure m)
judge not_utf8 w m = (failed_job, count_failure m)
judge wrong_hash w m = (failed_job, count_failure m)
judge too_long w m = (failed_job, count_failure m)
judge bad_cid w m = (failed_job, count_failure m)

module _ (text : Text) where
  -- once the result has been uploaded, or not
  unfoldable pub after_upload :
      OpenJob → (result_text : List ℕ) → Upload → World → Metrics → Ending × Metrics
  unfolding judge count_failure verify_result
  after_upload job t timed_out w m = (failed_job, count_failure m)
  after_upload job t upload_failed w m = (raised, m)
  after_upload job t (uploaded result_cid) w m =
      let result_bytes = text.encode t in
      judge (verify_result text result_bytes (text.sha256 result_bytes) result_cid job.max_tokens) w
        m

  -- once the inference has ended
  unfoldable pub after_inference : OpenJob → Inferred → World → Metrics → Ending × Metrics
  unfolding after_upload count_failure
  after_inference job (result_text t) w m = after_upload job t w.upload w m
  after_inference job skipped w m = (failed_job, count_failure m)
  after_inference job given_up w m = (failed_job, count_failure m)

  -- once the job has been claimed, or not
  unfoldable pub after_claim : OpenJob → Result Bool → World → Metrics → Ending × Metrics
  unfolding after_inference infer count_claim
  after_claim job (raise e) w m = (raised, m)
  after_claim job (ok false) w m = (not_started, m)
  after_claim job (ok true) w m =
      after_inference job (infer w (suc max_retries) 0) w (count_claim m)

  -- `_handle_job`
  unfoldable pub handle_job : OpenJob → World → Metrics → Ending × Metrics
  unfolding after_claim
  handle_job job w m =
      if leb job.deadline w.now then (not_started, m) else after_claim job w.claimed w m
