-- ===== src/Batching/Blocks.antt =====
-- `BlockTable` of node/continuous_batcher.py: the pool of KV-cache blocks. `_free_blocks` is a set:
-- a list whose first element `pop` takes.
pub mod Laws
use decentralized_llm.Base.{
  ℕ, zero, suc, ◌+◌, ◌-◌, ◌/◌, none, some, List, [], ◌∷◌, ◌++◌, ltb, leb, ◌==◌, if◌then◌else◌,
  length, Result, ok, raise, memory_error, key_error, value_error,
}
use decentralized_llm.Base.Counts.{ids_below, set_add}
use decentralized_llm.Base.Dict.{nat_eq, Dict, lookup, insert, erase}

pub record BlockTable : Type 0 where
  pub num_blocks : ℕ
  pub block_size : ℕ
  pub free_blocks : List ℕ
  pub allocations : Dict ℕ (List ℕ)

unfoldable pub init : (num_blocks block_size : ℕ) → Result BlockTable
init num_blocks block_size =
    if num_blocks == 0
    then raise value_error
    else if block_size == 0
    then raise value_error
    else ok (record {
      num_blocks = num_blocks;
      block_size = block_size;
      free_blocks = ids_below num_blocks;
      allocations = [];
    })

-- `self._allocations.get(seq_id, [])`
unfoldable pub blocks_for : BlockTable → (seq_id : ℕ) → List ℕ
blocks_for t seq_id = elim (lookup seq_id t.allocations) [ none ↦ [] | some blocks ↦ blocks ]

unfoldable pub num_blocks_for : BlockTable → (seq_id : ℕ) → ℕ
unfolding blocks_for
num_blocks_for t seq_id = length (blocks_for t seq_id)

-- the loop of `allocate`: the blocks popped, and the pool
unfoldable pub pop_blocks : ℕ → List ℕ → Result (List ℕ) × List ℕ
pop_blocks zero free = (ok [], free)
pop_blocks (suc n) [] = (raise key_error, [])
pop_blocks (suc n) (b ∷ free) =
    let (r, free') = pop_blocks n free in
    (elim r [ ok blocks ↦ ok (b ∷ blocks) | raise e ↦ raise e ], free')

-- `setdefault(seq_id, []).extend(allocated)`
unfoldable pub extend :
    BlockTable → (seq_id : ℕ) → Result (List ℕ) × List ℕ → Result (List ℕ) × BlockTable
unfolding blocks_for
extend t seq_id (ok allocated, free) = (
  ok allocated,
  record t {
    free_blocks = free;
    allocations = insert seq_id (blocks_for t seq_id ++ allocated) t.allocations;
  },
)
extend t seq_id (raise e, free) = (raise e, record t { free_blocks = free })

unfoldable pub allocate : BlockTable → (seq_id num_blocks : ℕ) → Result (List ℕ) × BlockTable
unfolding extend pop_blocks
allocate t seq_id num_blocks =
    if num_blocks == 0
    then (ok [], t)
    else if ltb (length t.free_blocks) num_blocks
    then (raise memory_error, t)
    else extend t seq_id (pop_blocks num_blocks t.free_blocks)

-- `set.update`
unfoldable pub add_all : List ℕ → List ℕ → List ℕ
add_all [] free = free
add_all (b ∷ blocks) free = add_all blocks (set_add b free)

-- the number of blocks released comes first
unfoldable pub free : BlockTable → (seq_id : ℕ) → ℕ × BlockTable
unfolding add_all blocks_for
free t seq_id = (
  length (blocks_for t seq_id),
  record t {
    free_blocks = add_all (blocks_for t seq_id) t.free_blocks;
    allocations = erase seq_id t.allocations;
  },
)

unfoldable pub blocks_needed : BlockTable → (num_tokens : ℕ) → ℕ
blocks_needed t num_tokens = (num_tokens + t.block_size - 1) / t.block_size

-- the new blocks are counted
unfoldable pub counted : ℕ → Result (List ℕ) × BlockTable → Result ℕ × BlockTable
counted extra (ok _, t) = (ok extra, t)
counted extra (raise e, t) = (raise e, t)

unfoldable pub ensure_capacity : BlockTable → (seq_id total_tokens : ℕ) → Result ℕ × BlockTable
unfolding counted blocks_needed num_blocks_for allocate
ensure_capacity t seq_id total_tokens =
    let needed = blocks_needed t total_tokens in
    let have = num_blocks_for t seq_id in
    if leb needed have
    then (ok 0, t)
    else counted (needed - have) (allocate t seq_id (needed - have))
