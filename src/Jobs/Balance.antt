-- ===== src/Jobs/Balance.antt =====
-- What the metrics count for a job, on every way through `_handle_job`.
use decentralized_llm.Base.{
  ℕ, suc, ◌+◌, ◌≡◌, refl, ◌⊎◌, inl, inr, Bool, true, false, List, arith, Result, ok, raise, leb,
  if_ind,
}
use decentralized_llm.Jobs.Heap.{OpenJob}
use decentralized_llm.Jobs.Verdict.{
  Text, Verdict, valid, empty_result, not_utf8, wrong_hash, too_long, bad_cid, verify_result,
}
use decentralized_llm.Jobs.Handle.{
  Metrics, Inferred, result_text, skipped, given_up, Upload, uploaded, timed_out, upload_failed,
  World, Ending, not_started, completed, failed_job, raised, count_claim, count_failure,
  count_completion, submit, judge, after_upload, after_inference, after_claim, handle_job, infer,
  max_retries,
}

-- what is counted for a job that ends like this
abbrev pub IsCounted : Ending → (before after : Metrics) → Type 0
IsCounted not_started m m' = m' ≡ m
IsCounted completed m m' =
    (m'.jobs_claimed_total ≡ m.jobs_claimed_total + 1)
    × (m'.jobs_failed_total ≡ m.jobs_failed_total)
    × (m'.jobs_completed_total ≡ m.jobs_completed_total + 1)
    × (m'.active_jobs ≡ m.active_jobs)
IsCounted failed_job m m' =
    (m'.jobs_claimed_total ≡ m.jobs_claimed_total + 1)
    × (m'.jobs_failed_total ≡ m.jobs_failed_total + 1)
    × (m'.jobs_completed_total ≡ m.jobs_completed_total)
    × (m'.active_jobs ≡ m.active_jobs)
IsCounted raised m m' =
    (m' ≡ m)
    ⊎ ((m'.jobs_claimed_total ≡ m.jobs_claimed_total + 1)
        × (m'.jobs_failed_total ≡ m.jobs_failed_total)
        × (m'.jobs_completed_total ≡ m.jobs_completed_total)
        × (m'.active_jobs ≡ m.active_jobs + 1))

failure_lem : (m : Metrics) → IsCounted failed_job m (count_failure (count_claim m))
unfolding count_failure count_claim
failure_lem m = (refl, refl, refl, omega arith)

raised_lem : (m : Metrics) → IsCounted raised m (count_claim m)
unfolding count_claim
raised_lem m = inr (refl, refl, refl, refl)

submit-IsCounted :
    (answer : Result (Unit {0})) (m : Metrics)
    → IsCounted (submit answer (count_claim m)).0 m (submit answer (count_claim m)).1
unfolding submit count_completion count_claim
submit-IsCounted (ok done) m = (refl, refl, refl, omega arith)
submit-IsCounted (raise e) m = raised_lem m

judge-IsCounted :
    (v : Verdict) (w : World) (m : Metrics)
    → IsCounted (judge v w (count_claim m)).0 m (judge v w (count_claim m)).1
unfolding judge
judge-IsCounted valid w m = submit-IsCounted w.submitted m
judge-IsCounted empty_result w m = failure_lem m
judge-IsCounted not_utf8 w m = failure_lem m
judge-IsCounted wrong_hash w m = failure_lem m
judge-IsCounted too_long w m = failure_lem m
judge-IsCounted bad_cid w m = failure_lem m

module _ (text : Text) where
  after_upload-IsCounted :
      (job : OpenJob) (t : List ℕ) (u : Upload) (w : World) (m : Metrics)
      → let (ending, m') = after_upload text job t u w (count_claim m) in IsCounted ending m m'
  unfolding after_upload
  after_upload-IsCounted job t timed_out w m = failure_lem m
  after_upload-IsCounted job t upload_failed w m = raised_lem m
  after_upload-IsCounted job t (uploaded result_cid) w m =
      judge-IsCounted
        (verify_result text (text.encode t) (text.sha256 (text.encode t)) result_cid job.max_tokens)
        w m

  after_inference-IsCounted :
      (job : OpenJob) (i : Inferred) (w : World) (m : Metrics)
      → let (ending, m') = after_inference text job i w (count_claim m) in IsCounted ending m m'
  unfolding after_inference
  after_inference-IsCounted job (result_text t) w m = after_upload-IsCounted job t w.upload w m
  after_inference-IsCounted job skipped w m = failure_lem m
  after_inference-IsCounted job given_up w m = failure_lem m

  after_claim-IsCounted :
      (job : OpenJob) (answer : Result Bool) (w : World) (m : Metrics)
      → let (ending, m') = after_claim text job answer w m in IsCounted ending m m'
  unfolding after_claim
  after_claim-IsCounted job (raise e) w m = inl refl
  after_claim-IsCounted job (ok false) w m = refl
  after_claim-IsCounted job (ok true) w m =
      after_inference-IsCounted job (infer w (suc max_retries) 0) w m

  -- Handling a job counts it once as claimed and once as failed or completed, and leaves the gauge
  -- of active jobs as it was, if it was claimed and the handler returns; a job that is not started
  -- changes no metric; an exception changes no metric, or leaves the job counted as claimed and
  -- the gauge one higher.
  pub handle_job-IsCounted :
      (job : OpenJob) (w : World) (m : Metrics)
      → let (ending, m') = handle_job text job w m in IsCounted ending m m'
  unfolding handle_job
  handle_job-IsCounted job w m =
      if_ind {A = Ending × Metrics} (λ r. IsCounted r.0 m r.1) (leb job.deadline w.now) _ _
        (λ expired. refl) (λ open_still. after_claim-IsCounted job w.claimed w m)
