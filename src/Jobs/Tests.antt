-- ===== src/Jobs/Tests.antt =====
-- Two jobs for one worker.
use decentralized_llm.Base.{
  ℕ, ◌+◌, length, ◌<◌, false, zero, suc, ◌≡◌, refl, arith, [], ◌∷◌, some, true, ok, raise,
  runtime_error, ◌==◌,
}
use decentralized_llm.Base.Dict.{lookup, insert}
use decentralized_llm.Jobs.Heap.{OpenJob}
use decentralized_llm.Jobs.Heap.Tally.{tally}
use decentralized_llm.Jobs.{Node, poll, start_next, finish}
use decentralized_llm.Jobs.Once.{IsOnce, begin, polled, started, finished, Run-IsOnce}
use decentralized_llm.Jobs.Prices.{mispriced, IsSound, PricedRun, PricedRun-lossless}
use decentralized_llm.Jobs.Verdict.{Text, too_long, verify_result}
use decentralized_llm.Jobs.Handle.{Metrics, produced, crashed, uploaded, World, raised, handle_job}
use decentralized_llm.Jobs.Balance.{IsCounted, handle_job-IsCounted}

abbrev cheap : OpenJob
cheap = record { job_id = 1; payment_amount = 5; max_tokens = 9; deadline = 100 }

abbrev dear : OpenJob
dear = record { job_id = 2; payment_amount = 7; max_tokens = 9; deadline = 100 }

abbrev idle : Node
idle = record { active_jobs = []; job_queue = []; handled = []; lost = []; polling = true }

-- the job that pays more is taken first, and a job that is queued is not queued again
takes_dear : start_next (poll (cheap ∷ dear ∷ cheap ∷ []) idle) ≡ record {
  active_jobs = (1, true) ∷ (2, true) ∷ [];
  job_queue = cheap ∷ [];
  handled = dear ∷ [];
  lost = [];
  polling = true;
}
unfolding poll start_next lookup insert
takes_dear = refl

abbrev twin : OpenJob
twin = record { job_id = 3; payment_amount = 5; max_tokens = 9; deadline = 100 }

-- with two equal payments in the heap, the get of a third job raises: it stays marked, and no worker
-- has it
loses_job : start_next (poll (dear ∷ cheap ∷ twin ∷ []) idle) ≡ record {
  active_jobs = (2, true) ∷ (1, true) ∷ (3, true) ∷ [];
  job_queue = cheap ∷ twin ∷ [];
  handled = [];
  lost = dear ∷ [];
  polling = true;
}
unfolding poll start_next lookup insert
loses_job = refl

-- a put next to an equal payment raises and ends the polls
stops_polls : (poll (cheap ∷ twin ∷ dear ∷ []) idle).polling ≡ false
unfolding poll lookup insert
stops_polls = refl

idle-IsOnce : IsOnce idle
unfolding tally lookup
idle-IsOnce job_id = refl

abbrev final : Node
final = finish 1 (start_next (poll (cheap ∷ []) idle))

Run-IsOnce_example : IsOnce final
unfolding tally poll start_next lookup insert
Run-IsOnce_example = Run-IsOnce idle final idle-IsOnce (
    finished (start_next (poll (cheap ∷ []) idle)) 1 (omega arith)
      (started (poll (cheap ∷ []) idle) (polled idle (cheap ∷ []) begin)))

abbrev price : ℕ → ℕ
price id = id + id + 3

price_apart : (i j : ℕ) → price i ≡ price j → i ≡ j
price_apart i j e = omega (arith, e)

idle-IsSound : IsSound price price_apart idle
unfolding tally
idle-IsSound = record { once = idle-IsOnce; priced = refl; lost = refl; polling = refl }

abbrev queued : Node
queued = poll (cheap ∷ dear ∷ []) idle

PricedRun-lossless_example :
    IsOnce queued
    × (queued.lost ≡ [])
    × (queued.polling ≡ true)
    × (0 < length queued.job_queue
        → length (start_next queued).handled ≡ suc (length queued.handled))
unfolding tally mispriced
PricedRun-lossless_example =
    PricedRun-lossless price price_apart idle queued idle-IsSound
      (PricedRun.polled idle (cheap ∷ dear ∷ []) refl PricedRun.begin)

-- the code points are the bytes, and 32 is the only space
abbrev ascii : Text
ascii = record {
  sha256 = λ bs. bs;
  encode = λ t. t;
  decode = λ bs. some bs;
  is_space = λ c. c == 32;
}

-- eight words of one token each are taken for eleven tokens
overestimates :
    verify_result ascii
      (97 ∷ 32 ∷ 97 ∷ 32 ∷ 97 ∷ 32 ∷ 97 ∷ 32 ∷ 97 ∷ 32 ∷ 97 ∷ 32 ∷ 97 ∷ 32 ∷ 97 ∷ [])
      (97 ∷ 32 ∷ 97 ∷ 32 ∷ 97 ∷ 32 ∷ 97 ∷ 32 ∷ 97 ∷ 32 ∷ 97 ∷ 32 ∷ 97 ∷ 32 ∷ 97 ∷ [])
      (81 ∷ 109 ∷ [])
      8
    ≡ too_long
unfolding verify_result
overestimates = refl

-- the second attempt produces "hi", and the submission raises
abbrev world : World
world = record {
  now = 1;
  claimed = ok true;
  inference = λ attempt. elim attempt [ zero ↦ crashed | suc n ↦ produced (104 ∷ 105 ∷ []) ];
  upload = uploaded (81 ∷ 109 ∷ []);
  submitted = raise runtime_error;
}

abbrev zeros : Metrics
zeros = record {
  jobs_claimed_total = 0;
  jobs_failed_total = 0;
  jobs_completed_total = 0;
  active_jobs = 0;
}

leaks_gauge :
    handle_job ascii cheap world zeros
    ≡ (raised, record zeros { jobs_claimed_total = 1; active_jobs = 1 })
unfolding handle_job
leaks_gauge = refl

handle_job-IsCounted_example :
    let (ending, m') = handle_job ascii cheap world zeros in IsCounted ending zeros m'
handle_job-IsCounted_example = handle_job-IsCounted ascii cheap world zeros
