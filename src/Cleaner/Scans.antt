-- ===== src/Cleaner/Scans.antt =====
-- What a scan removes, and what it counts.
use decentralized_llm.Base.{
  ℕ, zero, suc, ◌+◌, ◌≡◌, refl, ap, ◌∙◌, ◌==◌, ltb, length, true, false, Bool-cases, inl, inr,
  Option, none, some, List, [], ◌∷◌, arith, if◌then◌else◌,
}
use decentralized_llm.Base.Tables.{erase_absent}
use decentralized_llm.Base.Counts.{count}
use decentralized_llm.Base.Dict.{nat_eq, Dict, lookup, erase, IsDict, lookup-erase}
use decentralized_llm.Cleaner.{JobCleaner, is_stale, stale_job_ids, pop_all, scan_once}

-- 1 for a job that is there and stale
abbrev pub stale_at : (now grace_period_s : ℕ) → Option (Option ℕ) → ℕ
unfolding is_stale
stale_at now grace_period_s none = 0
stale_at now grace_period_s (some deadline) = if is_stale now grace_period_s deadline then 1 else 0

count-stale_job_ids :
    (now grace j : ℕ) (jobs : Dict ℕ (Option ℕ))
    → IsDict jobs
    → count j (stale_job_ids now grace jobs) ≡ stale_at now grace (lookup j jobs)
unfolding stale_job_ids count lookup stale_at
count-stale_job_ids now grace j [] v = refl
count-stale_job_ids now grace j ((id, deadline) ∷ jobs) v =
    ground (arith, count-stale_job_ids now grace j jobs v.1, v.0)

lookup-pop_all :
    (ids : List ℕ) (j : ℕ) (jobs : Dict ℕ (Option ℕ))
    → lookup j (pop_all ids jobs) ≡ (elim (count j ids) [ zero ↦ lookup j jobs | suc _ ↦ none ])
unfolding pop_all count
lookup-pop_all [] j jobs = refl
lookup-pop_all (id ∷ ids) j jobs =
    ground (arith, lookup-pop_all ids j (erase id jobs), lookup-erase id j jobs)

pop_all_apart :
    (ids : List ℕ) (id : ℕ) (deadline : Option ℕ) (jobs : Dict ℕ (Option ℕ))
    → count id ids ≡ 0
    → pop_all ids ((id, deadline) ∷ jobs) ≡ (id, deadline) ∷ pop_all ids jobs
unfolding pop_all count erase
pop_all_apart [] id deadline jobs h = refl
pop_all_apart (j ∷ ids) id deadline jobs h =
    let other : (id == j) ≡ false = ground arith in
    rw other (pop_all_apart ids id deadline (erase j jobs) (ground arith))

erase_head :
    (id : ℕ) (deadline : Option ℕ) (jobs : Dict ℕ (Option ℕ))
    → lookup id jobs ≡ none
    → erase id ((id, deadline) ∷ jobs) ≡ jobs
unfolding erase
erase_head id deadline jobs new =
    let same : (id == id) ≡ true = ground arith in rw same (erase_absent id jobs new)

length-scan :
    (now grace : ℕ) (jobs : Dict ℕ (Option ℕ))
    → IsDict jobs
    → let ids = stale_job_ids now grace jobs in length ids + length (pop_all ids jobs) ≡ length jobs
unfolding stale_job_ids pop_all
length-scan now grace [] v = refl
length-scan now grace ((id, deadline) ∷ jobs) v =
    let ids = stale_job_ids now grace jobs in
    let rest = length-scan now grace jobs v.1 in
    let apart : count id ids ≡ 0 =
      count-stale_job_ids now grace id jobs v.1 ∙ ap (stale_at now grace) v.0 in
    elim (Bool-cases (is_stale now grace deadline)) [
      | inl stale ↦
          rw (stale, stale_job_ids)
            (omega
              (arith, rest, ap (λ k. length (pop_all ids k)) (erase_head id deadline jobs v.0)))
      | inr fresh ↦
          rw (fresh, stale_job_ids)
            (omega (arith, rest, ap length (pop_all_apart ids id deadline jobs apart)))
    ]

-- what a scan leaves of an entry: nothing if its deadline and the grace period have passed
abbrev pub left_of : (now grace_period_s : ℕ) → Option (Option ℕ) → Option (Option ℕ)
left_of now grace_period_s none = none
left_of now grace_period_s (some none) = some none
left_of now grace_period_s (some (some deadline)) =
    if ltb (deadline + grace_period_s) now then none else some (some deadline)

lookup-scan :
    (now j : ℕ) (c : JobCleaner)
    → IsDict c.active_jobs
    → lookup j (scan_once now c).1.active_jobs
      ≡ left_of now c.grace_period_s (lookup j c.active_jobs)
unfolding scan_once is_stale stale_at
lookup-scan now j c v = ground (
  arith,
  lookup-pop_all (stale_job_ids now c.grace_period_s c.active_jobs) j c.active_jobs,
  count-stale_job_ids now c.grace_period_s j c.active_jobs v,
)

-- A scan of active jobs with distinct ids removes exactly the jobs with a deadline that is over by
-- more than the grace period, and keeps every other job as it was. It returns how many jobs it
-- removed, adds that number to the total, and records its time.
pub scan_once-lookup :
    (now : ℕ) (c : JobCleaner)
    → IsDict c.active_jobs
    → let (cleaned, c') = scan_once now c in
      ((j : ℕ) → lookup j c'.active_jobs ≡ left_of now c.grace_period_s (lookup j c.active_jobs))
      × (cleaned + length c'.active_jobs ≡ length c.active_jobs)
      × (c'.total_cleaned ≡ c.total_cleaned + cleaned)
      × (c'.last_scan_time ≡ now)
unfolding scan_once
scan_once-lookup now c v =
    (λ j. lookup-scan now j c v, length-scan now c.grace_period_s c.active_jobs v, refl, refl)
