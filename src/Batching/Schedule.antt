-- ===== src/Batching/Schedule.antt =====
-- `schedule` of node/continuous_batcher.py.
pub mod Admission
pub mod Bounds
use decentralized_llm.Base.{
  ℕ, suc, ◌+◌, ◌-◌, none, some, List, [], ◌∷◌, ◌++◌, ltb, leb, ◌==◌, if◌then◌else◌, length, take,
  Result, ok, raise,
}
use decentralized_llm.Batching.Blocks
use decentralized_llm.Batching.Blocks.{BlockTable, blocks_needed, num_blocks_for, ensure_capacity}
use decentralized_llm.Batching.State.{
  Sequence, running, total_tokens, Batcher, set_state, insert_id, sort_by, arrives_before, preempt,
  preempt_to_free,
}

-- the local variables of the admission loop, beside the object
pub record Admitting : Type 0 where
  pub batcher : Batcher
  pub admitted : List ℕ
  pub still_waiting : List ℕ

abbrev keep_waiting : Admitting → ℕ → Admitting
keep_waiting a id = record a { still_waiting = a.still_waiting ++ id ∷ [] }

-- the sequence is admitted once it has its blocks
unfoldable pub admit_with : Admitting → ℕ → Result ℕ × BlockTable → Result (Unit {0}) × Admitting
admit_with a id (ok extra, table) = (
  ok tt,
  record a {
    batcher = record a.batcher { block_table = table; seqs = set_state a.batcher.seqs id running };
    admitted = a.admitted ++ id ∷ [];
  },
)
admit_with a id (raise e, table) =
    (raise e, record a { batcher = record a.batcher { block_table = table } })

unfoldable pub admit_fitting : Admitting → ℕ → Result (Unit {0}) × Admitting
unfolding admit_with ensure_capacity
admit_fitting a id =
    admit_with a id
      (ensure_capacity a.batcher.block_table id (total_tokens (a.batcher.seqs id) + 1))

-- the test after a preemption
unfoldable pub admit_after :
    Admitting → ℕ → (extra_needed : ℕ) → ℕ × Batcher → Result (Unit {0}) × Admitting
unfolding admit_fitting
admit_after a id extra_needed (freed, b) =
    if ltb freed extra_needed
    then (ok tt, keep_waiting (record a { batcher = b }) id)
    else admit_fitting (record a { batcher = b }) id

-- the body of the admission loop
unfoldable pub admit_one : Admitting → ℕ → Result (Unit {0}) × Admitting
unfolding admit_after preempt_to_free
admit_one a id =
    let b = a.batcher in
    let needed = blocks_needed b.block_table (total_tokens (b.seqs id) + 1) in
    let extra_needed = needed - num_blocks_for b.block_table id in
    if leb b.max_batch_size (length b.running_ids + length a.admitted)
    then (ok tt, keep_waiting a id)
    else if ltb (length b.block_table.free_blocks) extra_needed
    then admit_after a id extra_needed (preempt_to_free b extra_needed none)
    else admit_fitting a id

-- an exception ends the loop
unfoldable pub admit_all : List ℕ → Result (Unit {0}) × Admitting → Result (Unit {0}) × Admitting
unfolding admit_one
admit_all [] r = r
admit_all (id ∷ ids) (ok _, a) = admit_all ids (admit_one a id)
admit_all (id ∷ ids) (raise e, a) = (raise e, a)

-- `for seq in admitted: self._running[seq.id] = seq`
unfoldable pub register_all : List ℕ → List ℕ → List ℕ
unfolding insert_id
register_all [] ids = ids
register_all (id ∷ admitted) ids = register_all admitted (insert_id id ids)

-- the queue is rebuilt from the sequences that the loop left waiting
unfoldable pub rebuild : Result (Unit {0}) × Admitting → Result (Unit {0}) × Batcher
unfolding register_all
rebuild (ok _, a) = (
  ok tt,
  record a.batcher {
    waiting_queue = a.still_waiting;
    running_ids = register_all a.admitted a.batcher.running_ids;
  },
)
rebuild (raise e, a) = (raise e, a.batcher)

-- step 1 of `schedule`
unfoldable pub admit : Batcher → Result (Unit {0}) × Batcher
unfolding rebuild admit_all sort_by
admit b = rebuild (
    admit_all (sort_by (arrives_before b.seqs) b.waiting_queue)
      (ok tt, record { batcher = b; admitted = []; still_waiting = [] }))

-- the `try` of step 2: a sequence that gets no blocks is preempted
unfoldable pub grow_with : Batcher → ℕ → Result (List ℕ) × BlockTable → Batcher
unfolding preempt
grow_with b id (ok blocks, table) = record b { block_table = table }
grow_with b id (raise e, table) = preempt (record b { block_table = table }) id

unfoldable pub grow_after : ℕ → (extra : ℕ) → ℕ × Batcher → Batcher
unfolding grow_with
grow_after id extra (freed, b) =
    if ltb freed extra
    then preempt b id
    else grow_with b id (Blocks.allocate b.block_table id extra)

-- the body of the loop of step 2
unfoldable pub grow_one : Batcher → ℕ → Batcher
unfolding grow_after preempt_to_free
grow_one b id =
    let needed = blocks_needed b.block_table (total_tokens (b.seqs id) + 1) in
    let have = num_blocks_for b.block_table id in
    if leb needed have
    then b
    else if ltb (length b.block_table.free_blocks) (needed - have)
    then grow_after id (needed - have) (preempt_to_free b (needed - have) (some id))
    else grow_with b id (Blocks.allocate b.block_table id (needed - have))

-- step 2, over a copy of the running sequences
unfoldable pub grow_all : List ℕ → Batcher → Batcher
unfolding grow_one
grow_all [] b = b
grow_all (id ∷ ids) b = grow_all ids (grow_one b id)

-- step 3: one token for each sequence of the batch, within the budget
unfoldable pub select_batch : Batcher → List ℕ
unfolding sort_by
select_batch b = take b.max_tokens_per_step (sort_by (arrives_before b.seqs) b.running_ids)

-- the batch, and the statistics
unfoldable pub finish_schedule : (now : ℕ) → Batcher → List ℕ × Batcher
unfolding select_batch
finish_schedule now b =
    let batch = select_batch b in
    (
      batch,
      record b {
        stats = record b.stats {
          batch_sizes = b.stats.batch_sizes ++ length batch ∷ [];
          step_start_times = b.stats.step_start_times ++ now ∷ [];
          total_steps = b.stats.total_steps + 1;
        };
      },
    )

unfoldable pub schedule_after : (now : ℕ) → Result (Unit {0}) × Batcher → Result (List ℕ) × Batcher
unfolding grow_all finish_schedule
schedule_after now (ok _, b) =
    let (batch, b') = finish_schedule now (grow_all b.running_ids b) in (ok batch, b')
schedule_after now (raise e, b) = (raise e, b)

unfoldable pub schedule : (now : ℕ) → Batcher → Result (List ℕ) × Batcher
unfolding schedule_after admit
schedule now b = schedule_after now (admit b)
