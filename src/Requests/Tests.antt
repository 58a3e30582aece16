-- ===== src/Requests/Tests.antt =====
-- Three jobs in batches of two.
use decentralized_llm.Base.{ℕ, ◌≡◌, refl, List, [], ◌∷◌, ◌++◌}
use decentralized_llm.Base.Dict.{lookup, insert, erase}
use decentralized_llm.Requests.{Request, Batcher}
use decentralized_llm.Requests.Runs.{Event, added, turned, run, arrivals, run-queued}
use decentralized_llm.Requests.Order.{queued}

abbrev request : ℕ → Request
request n = record { job_id = n; prompt = ""; max_tokens = 1 }

abbrev empty : Batcher
empty = record {
  max_batch_size = 2;
  max_wait_ms = 50;
  buffers = [];
  buffer_created_at = [];
  batch_size_histogram = [];
}

abbrev events : List Event
events =
    added 0 (request 1) "m"
    ∷ added 1 (request 2) "m"
    ∷ added 1 (request 3) "m"
    ∷ turned 2 99 "m"
    ∷ turned 60 99 "m"
    ∷ []

-- the third job waits for its time
sends_two : (run "m" events empty).0 ≡ 1 ∷ 2 ∷ 3 ∷ []
unfolding run lookup insert erase
sends_two = refl

-- a waiting call starts the time before there is a job, so the first job goes out alone
no_window :
    (run "m" (turned 0 999 "m" ∷ added 500 (request 1) "m" ∷ turned 500 999 "m" ∷ []) empty).0
    ≡ 1 ∷ []
unfolding run lookup insert erase
no_window = refl

run-queued_example :
    let (out, end) = run "m" events empty in
    out ++ queued "m" end ≡ queued "m" empty ++ arrivals "m" events
run-queued_example = run-queued "m" events empty
