-- ===== src/Batching/State.antt =====
-- `Sequence` and `ContinuousBatcher` of node/continuous_batcher.py. A `Sequence` is a shared object:
-- the queues and the caller's batch hold its id, and `seqs` maps an id to the object. Priorities and
-- times are only compared, so they are natural numbers here.
use decentralized_llm.Base.{
  ℕ, ◌+◌, Option, none, some, List, [], ◌∷◌, ◌++◌, Bool, ltb, leb, ◌==◌, if◌then◌else◌, length,
  Result, ok, raise, value_error, ◌&&◌, ◌||◌,
}
use decentralized_llm.Base.Counts.{update}
use decentralized_llm.Batching.Blocks
use decentralized_llm.Batching.Blocks.{BlockTable, num_blocks_for}

pub data SequenceState : Type 0 where
  waiting running finished preempted : SequenceState

pub record Sequence : Type 0 where
  pub prompt_tokens : List ℕ
  pub max_tokens : ℕ
  pub priority : ℕ
  pub arrival_time : ℕ
  pub generated_tokens : List ℕ
  pub state : SequenceState

abbrev pub num_generated_tokens : Sequence → ℕ
num_generated_tokens s = length s.generated_tokens

abbrev pub total_tokens : Sequence → ℕ
total_tokens s = length s.prompt_tokens + num_generated_tokens s

pub record Stats : Type 0 where
  pub total_tokens_generated : ℕ
  pub total_steps : ℕ
  pub step_start_times : List ℕ
  pub step_token_counts : List ℕ
  pub batch_sizes : List ℕ

pub record Batcher : Type 0 where
  pub max_batch_size : ℕ
  pub max_tokens_per_step : ℕ
  pub block_table : BlockTable
  pub seqs : ℕ → Sequence
  pub waiting_queue : List ℕ
  pub running_ids : List ℕ
  pub finished_ids : List ℕ
  pub stats : Stats

abbrev pub no_stats : Stats
no_stats = record {
  total_tokens_generated = 0;
  total_steps = 0;
  step_start_times = [];
  step_token_counts = [];
  batch_sizes = [];
}

-- `__init__`; the objects `seqs` are the caller's
unfoldable pub init :
    (max_batch_size max_tokens_per_step block_size num_blocks : ℕ) → (ℕ → Sequence) → Result Batcher
unfolding Blocks.init
init max_batch_size max_tokens_per_step block_size num_blocks seqs =
    if max_batch_size == 0
    then raise value_error
    else if max_tokens_per_step == 0
    then raise value_error
    else elim (Blocks.init num_blocks block_size) [
      | raise e ↦ raise e
      | ok table ↦ ok (record {
        max_batch_size = max_batch_size;
        max_tokens_per_step = max_tokens_per_step;
        block_table = table;
        seqs = seqs;
        waiting_queue = [];
        running_ids = [];
        finished_ids = [];
        stats = no_stats;
      })
    ]

-- `seq.state = state`
abbrev pub set_state : (ℕ → Sequence) → ℕ → SequenceState → ℕ → Sequence
set_state seqs id state = update seqs id (record (seqs id) { state = state })

-- `_running.pop(id, None)`
unfoldable pub remove_id : ℕ → List ℕ → List ℕ
remove_id id [] = []
remove_id id (x ∷ xs) = let rest = remove_id id xs in if x == id then rest else x ∷ rest

-- `_running[id] = seq`: a known id keeps its place
unfoldable pub insert_id : ℕ → List ℕ → List ℕ
insert_id id [] = id ∷ []
insert_id id (x ∷ xs) = if x == id then x ∷ xs else x ∷ insert_id id xs

-- `sorted`, which is stable, for a strict order of the keys
unfoldable pub insert_by : (ℕ → ℕ → Bool) → ℕ → List ℕ → List ℕ
insert_by before x [] = x ∷ []
insert_by before x (y ∷ ys) = if before y x then y ∷ insert_by before x ys else x ∷ y ∷ ys

unfoldable pub sort_by : (ℕ → ℕ → Bool) → List ℕ → List ℕ
unfolding insert_by
sort_by before [] = []
sort_by before (x ∷ xs) = insert_by before x (sort_by before xs)

-- the key `(arrival_time, -priority)`
abbrev pub arrives_before : (ℕ → Sequence) → ℕ → ℕ → Bool
arrives_before seqs x y =
    ltb (seqs x).arrival_time (seqs y).arrival_time
    || ((seqs x).arrival_time == (seqs y).arrival_time && ltb (seqs y).priority (seqs x).priority)

-- the key `(priority, -arrival_time)`
abbrev pub yields_before : (ℕ → Sequence) → ℕ → ℕ → Bool
yields_before seqs x y =
    ltb (seqs x).priority (seqs y).priority
    || ((seqs x).priority == (seqs y).priority && ltb (seqs y).arrival_time (seqs x).arrival_time)

-- `add_request`, which looks at the object's state
unfoldable pub add_request : Batcher → ℕ → Result (Unit {0}) × Batcher
add_request b id = elim (b.seqs id).state [
  | waiting ↦ (ok tt, record b { waiting_queue = b.waiting_queue ++ id ∷ [] })
  | _ ↦ (raise value_error, b)
]

unfoldable pub finish : Batcher → ℕ → Batcher
unfolding remove_id Blocks.free
finish b id = record b {
  seqs = set_state b.seqs id finished;
  block_table = (Blocks.free b.block_table id).1;
  running_ids = remove_id id b.running_ids;
  finished_ids = b.finished_ids ++ id ∷ [];
}

-- `_preempt`: the state is WAITING again at the end
unfoldable pub preempt : Batcher → ℕ → Batcher
unfolding remove_id Blocks.free
preempt b id = record b {
  seqs = set_state (set_state b.seqs id preempted) id waiting;
  block_table = (Blocks.free b.block_table id).1;
  running_ids = remove_id id b.running_ids;
  waiting_queue = id ∷ b.waiting_queue;
}

-- the loop of `_preempt_to_free` over its candidates
unfoldable pub preempt_loop : (target freed : ℕ) → List ℕ → Batcher → ℕ × Batcher
unfolding preempt num_blocks_for
preempt_loop target freed [] b = (freed, b)
preempt_loop target freed (id ∷ candidates) b =
    let next =
      preempt_loop target (freed + num_blocks_for b.block_table id) candidates (preempt b id) in
    if leb target freed then (freed, b) else next

-- the sequences that `_preempt_to_free` may take
unfoldable pub candidates_but : Option ℕ → List ℕ → List ℕ
unfolding remove_id
candidates_but none ids = ids
candidates_but (some id) ids = remove_id id ids

-- `_preempt_to_free`: the blocks freed come first
unfoldable pub preempt_to_free : Batcher → (target_blocks : ℕ) (exclude_id : Option ℕ) → ℕ × Batcher
unfolding preempt_loop sort_by candidates_but
preempt_to_free b target_blocks exclude_id =
    preempt_loop target_blocks 0
      (sort_by (yields_before b.seqs) (candidates_but exclude_id b.running_ids)) b

-- `get_finished`
unfoldable pub get_finished : Batcher → List ℕ × Batcher
get_finished b = (b.finished_ids, record b { finished_ids = [] })
