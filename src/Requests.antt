-- ===== src/Requests.antt =====
-- node/batcher.py: `DynamicBatcher`. Times are in milliseconds. The lock is held through each step, so a
-- turn of the loop of `next_batch` is one step, and the events only say when a waiting one looks again.
mod Tests
pub mod Order
pub mod Runs
use Prim.Native.String.{String}
use decentralized_llm.Base.{
  ℕ, ◌+◌, ◌-◌, Option, none, some, Bool, true, false, List, [], ◌∷◌, ◌++◌, map, leb, if◌then◌else◌,
  length, take, drop,
}
use decentralized_llm.Base.Dict.{Dict, lookup, insert, erase, nat_eq, string_eq}

-- one entry of a buffer
pub record Request : Type 0 where
  pub job_id : ℕ
  pub prompt : String
  pub max_tokens : ℕ

pub record InferenceBatch : Type 0 where
  pub job_ids : List ℕ
  pub prompts : List String
  pub max_tokens : List ℕ
  pub created_at : ℕ

pub record Batcher : Type 0 where
  pub max_batch_size : ℕ
  pub max_wait_ms : ℕ
  pub buffers : Dict String (List Request)
  pub buffer_created_at : Dict String ℕ
  pub batch_size_histogram : Dict ℕ ℕ

-- the structures of a model, which are made where they are missing
unfoldable pub ensure : (now : ℕ) (model_name : String) → Option (List Request) → Batcher → Batcher
unfolding insert
ensure now model_name (some buf) b = b
ensure now model_name none b = record b {
  buffers = insert model_name [] b.buffers;
  buffer_created_at = insert model_name now b.buffer_created_at;
}

-- `self._buffers[model_name].append(…)`, where the buffer is there
unfoldable pub append_to :
    (model_name : String) → Request → Option (List Request) → Batcher → Batcher
unfolding insert
append_to model_name r none b = b
append_to model_name r (some buf) b = record b {
  buffers = insert model_name (buf ++ r ∷ []) b.buffers;
}

unfoldable pub add_job : (now : ℕ) → Request → (model_name : String) → Batcher → Batcher
unfolding append_to ensure lookup
add_job now r model_name b =
    let b' = ensure now model_name (lookup model_name b.buffers) b in
    append_to model_name r (lookup model_name b'.buffers) b'

unfoldable pub id_of : Request → ℕ
id_of r = r.job_id

unfoldable pub prompt_of : Request → String
prompt_of r = r.prompt

unfoldable pub tokens_of : Request → ℕ
tokens_of r = r.max_tokens

unfoldable pub batch_of : (now : ℕ) → List Request → InferenceBatch
unfolding id_of prompt_of tokens_of
batch_of now items = record {
  job_ids = map id_of items;
  prompts = map prompt_of items;
  max_tokens = map tokens_of items;
  created_at = now;
}

-- the buffer after a drain; without a rest the model is forgotten
unfoldable pub keep_rest : (now : ℕ) (model_name : String) → List Request → Batcher → Batcher
unfolding insert erase
keep_rest now model_name [] b = record b {
  buffers = erase model_name b.buffers;
  buffer_created_at = erase model_name b.buffer_created_at;
}
keep_rest now model_name (r ∷ rest) b = record b {
  buffers = insert model_name (r ∷ rest) b.buffers;
  buffer_created_at = insert model_name now b.buffer_created_at;
}

unfoldable pub count_size : (size : ℕ) → Option ℕ → Batcher → Batcher
unfolding insert
count_size size none b = record b { batch_size_histogram = insert size 1 b.batch_size_histogram }
count_size size (some n) b = record b {
  batch_size_histogram = insert size (n + 1) b.batch_size_histogram;
}

-- `_drain`, of the model's buffer
unfoldable pub drain :
    (now : ℕ) (model_name : String) (buf : List Request) → Batcher → InferenceBatch × Batcher
unfolding keep_rest batch_of count_size lookup
drain now model_name buf b =
    let items = take b.max_batch_size buf in
    let b' = keep_rest now model_name (drop b.max_batch_size buf) b in
    (
      batch_of now items,
      count_size (length items) (lookup (length items) b'.batch_size_histogram) b',
    )

-- what a turn of `next_batch` comes to: it returns a batch or none, or it waits
pub data Turn : Type 0 where
  dispatched : InferenceBatch → Turn
  nothing : Turn
  waiting : Turn

unfoldable pub send_batch : InferenceBatch × Batcher → Turn × Batcher
send_batch (batch, b) = (dispatched batch, b)

-- `_try_drain` with force, at the deadline
unfoldable pub drain_late :
    (now : ℕ) (model_name : String) → Option (List Request) → Batcher → Turn × Batcher
unfolding send_batch drain
drain_late now model_name none b = (nothing, b)
drain_late now model_name (some []) b = (nothing, b)
drain_late now model_name (some (r ∷ buf)) b = send_batch (drain now model_name (r ∷ buf) b)

-- A full buffer, or one whose time is over. A buffer and its time are made together.
unfoldable pub drain_ready :
    (now : ℕ) (model_name : String)
    → Option (List Request)
    → (created : Option ℕ) → Batcher
    → Turn × Batcher
unfolding send_batch drain
drain_ready now model_name none created b = (waiting, b)
drain_ready now model_name (some []) created b = (waiting, b)
drain_ready now model_name (some (r ∷ buf)) none b = (waiting, b)
drain_ready now model_name (some (r ∷ buf)) (some created) b =
    if leb b.max_batch_size (length (r ∷ buf))
    then send_batch (drain now model_name (r ∷ buf) b)
    else (if leb b.max_wait_ms (now - created)
        then send_batch (drain now model_name (r ∷ buf) b)
        else (waiting, b))

-- one turn of the loop of `next_batch`
unfoldable pub turn : (now deadline : ℕ) (model_name : String) → Batcher → Turn × Batcher
unfolding drain_late drain_ready ensure lookup
turn now deadline model_name b =
    if leb deadline now
    then drain_late now model_name (lookup model_name b.buffers) b
    else (let b' = ensure now model_name (lookup model_name b.buffers) b in
        drain_ready now model_name (lookup model_name b'.buffers)
          (lookup model_name b'.buffer_created_at) b')
