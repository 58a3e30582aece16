-- ===== src/Batching/Tests.antt =====
-- Runs of the scheduler over two sequences and a pool that holds one of them.
use decentralized_llm.Base.{ℕ, ◌≡◌, refl, arith, List, [], ◌∷◌, ok}
use decentralized_llm.Base.Counts.{count, set_add}
use decentralized_llm.Base.Dict.{nat_eq, insert, lookup, erase}
use decentralized_llm.Base.Tables.{total}
use decentralized_llm.Batching.Blocks
use decentralized_llm.Batching.Blocks.{BlockTable, num_blocks_for, blocks_needed, ensure_capacity}
use decentralized_llm.Batching.Blocks.Laws.{
  IsValid, needs, Grown, Freed, allocate-Grown, free-Freed, ensure_capacity-Grown,
}
use decentralized_llm.Batching.State.{Sequence, waiting, running, Batcher, no_stats, add_request}
use decentralized_llm.Batching.Schedule.{schedule}
use decentralized_llm.Batching.Schedule.Admission.{IsReady}
use decentralized_llm.Batching.Schedule.Bounds.{Scheduled, schedule-Scheduled}
use decentralized_llm.Batching.Step.{step}
use decentralized_llm.Batching.Step.Tokens.{Stepped, step-Stepped}

-- three tokens in the prompt; the second sequence has the higher priority
abbrev request : ℕ → Sequence
request id = record {
  prompt_tokens = 5 ∷ 6 ∷ 7 ∷ [];
  max_tokens = 1;
  priority = id;
  arrival_time = id;
  generated_tokens = [];
  state = waiting;
}

abbrev pool : BlockTable
pool = record { num_blocks = 4; block_size = 1; free_blocks = 3 ∷ 2 ∷ 1 ∷ 0 ∷ []; allocations = [] }

abbrev start : Batcher
start = record {
  max_batch_size = 2;
  max_tokens_per_step = 8;
  block_table = pool;
  seqs = request;
  waiting_queue = 1 ∷ [];
  running_ids = [];
  finished_ids = [];
  stats = no_stats;
}

-- sequence 1 runs, and sequence 2 asks
abbrev busy : Batcher
unfolding schedule add_request
busy = (add_request (schedule 0 start).1 2).1

first_batch : (schedule 0 start).0 ≡ ok (1 ∷ [])
unfolding schedule lookup insert erase
first_batch = refl

-- Sequence 2 takes the blocks of sequence 1, which then neither waits nor runs nor is finished.
lost_request :
    let after = (schedule 1 busy).1 in
    (busy.running_ids ≡ 1 ∷ [])
    × (after.running_ids ≡ 2 ∷ [])
    × (after.waiting_queue ≡ [])
    × (after.finished_ids ≡ [])
unfolding schedule lookup insert erase busy add_request set_add count
lost_request = (refl, refl, refl, refl)

pool-IsValid : IsValid pool
unfolding count total
pool-IsValid = record { sized = omega arith; keyed = tt; pool = λ b. ground arith }

start-IsReady : IsReady start
unfolding count
start-IsReady = record { valid = pool-IsValid; bound = omega arith; apart = λ q h. refl }

allocate-Grown_example :
    (blocks : List ℕ) × (t : BlockTable) × (Blocks.allocate pool 1 2 ≡ (ok blocks, t))
    × Grown pool t 1 2
allocate-Grown_example = allocate-Grown pool pool-IsValid 1 2 (omega arith)

free-Freed_example :
    ((Blocks.free pool 1).0 ≡ num_blocks_for pool 1) × Freed pool (Blocks.free pool 1).1 1
free-Freed_example = free-Freed pool pool-IsValid 1

ensure_capacity-Grown_example :
    (t : BlockTable) × (ensure_capacity pool 1 3 ≡ (ok (needs pool 1 3), t))
    × Grown pool t 1 (needs pool 1 3)
unfolding num_blocks_for blocks_needed lookup
ensure_capacity-Grown_example = ensure_capacity-Grown pool pool-IsValid 1 3 (omega arith)

schedule-Scheduled_example :
    (batch : List ℕ) × (b : Batcher) × (schedule 0 start ≡ (ok batch, b)) × Scheduled start batch b
schedule-Scheduled_example = schedule-Scheduled 0 start start-IsReady

-- sequence 1 runs, with four blocks
abbrev going : Batcher
going = record start { seqs = λ id. record (request id) { state = running }; running_ids = 1 ∷ [] }

step-Stepped_example :
    (b : Batcher) × (step going (1 ∷ []) (9 ∷ []) ≡ (ok tt, b)) × Stepped going (1 ∷ []) (9 ∷ []) b
unfolding count
step-Stepped_example = step-Stepped going (1 ∷ []) (9 ∷ []) pool-IsValid (λ q. ground arith) refl
