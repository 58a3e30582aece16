-- ===== src/Cleaner/Tests.antt =====
-- A scan over a stale job, a fresh one and one without a deadline.
use decentralized_llm.Base.{ℕ, length, ◌+◌, ◌≡◌, refl, none, some, [], ◌∷◌}
use decentralized_llm.Base.Dict.{nat_eq, lookup, erase}
use decentralized_llm.Cleaner.{JobCleaner, scan_once}
use decentralized_llm.Cleaner.Scans.{left_of, scan_once-lookup}

abbrev cleaner : JobCleaner
cleaner = record {
  active_jobs = (1, some 10) ∷ (2, some 90) ∷ (3, none) ∷ [];
  grace_period_s = 60;
  total_cleaned = 0;
  last_scan_time = 0;
}

cleans_one : (scan_once 100 cleaner).1.active_jobs ≡ (2, some 90) ∷ (3, none) ∷ []
unfolding scan_once erase
cleans_one = refl

scan_once-lookup_example :
    ((j : ℕ)
      → lookup j (scan_once 100 cleaner).1.active_jobs
        ≡ left_of 100 60 (lookup j cleaner.active_jobs))
    × ((scan_once 100 cleaner).0 + length (scan_once 100 cleaner).1.active_jobs ≡ 3)
    × ((scan_once 100 cleaner).1.total_cleaned ≡ 0 + (scan_once 100 cleaner).0)
    × ((scan_once 100 cleaner).1.last_scan_time ≡ 100)
unfolding lookup
scan_once-lookup_example = scan_once-lookup 100 cleaner (refl, (refl, (refl, tt)))
