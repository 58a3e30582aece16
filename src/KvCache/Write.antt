-- ===== src/KvCache/Write.antt =====
-- `write` and `_cow_clone` of node/kv_cache.py
use decentralized_llm.Base.{
  ℕ, ◌+◌, ◌/◌, ◌%◌, none, some, List, [], ◌∷◌, ◌&&◌, ltb, leb, ◌==◌, if◌then◌else◌, get_elem?, set,
  memory_error, key_error, index_error, zero_division, Result, ok, raise,
}
use decentralized_llm.Base.Counts.{update}
use decentralized_llm.Base.Dict.{nat_eq, lookup, insert}
use decentralized_llm.KvCache.State.{keys, values, Cache, release}

module _ {ℓ} {V : Type ℓ} where
  -- `_cow_clone`, once the old block and the new one are known
  unfoldable pub move_to :
      Cache V → (seq_id logical_block : ℕ) → List ℕ → (old new : ℕ) → List ℕ → Cache V
  unfolding release
  move_to c seq_id logical_block table old new rest =
      let (pool, refs) = release old rest c.block_refcounts in
      record c {
        store = λ layer plane block offset.
            c.store layer plane (if block == new then old else block) offset;
        free_blocks = pool;
        block_refcounts = update refs new (refs new + 1);
        block_tables = insert seq_id (set table logical_block new) c.block_tables;
      }

  -- `_cow_clone` on the blocks of the pool
  unfoldable pub clone_from : Cache V → (seq_id logical_block : ℕ) → List ℕ → Result ℕ × Cache V
  unfolding move_to
  clone_from c seq_id logical_block [] = (raise memory_error, c)
  clone_from c seq_id logical_block (new ∷ rest) = elim (lookup seq_id c.block_tables) [
    | none ↦ (raise key_error, c)
    | some table ↦ elim (get_elem? table logical_block) [
      | none ↦ (raise index_error, c)
      | some old ↦ (ok new, move_to c seq_id logical_block table old new rest)
    ]
  ]

  unfoldable pub cow_clone : Cache V → (seq_id logical_block : ℕ) → Result ℕ × Cache V
  unfolding clone_from
  cow_clone c seq_id logical_block = clone_from c seq_id logical_block c.free_blocks

  -- the two assignments to `_store`
  unfoldable pub put_pair :
      Cache V → (layer_idx physical_block block_offset : ℕ) (key value : V) → Cache V
  put_pair c layer_idx physical_block block_offset key value = record c {
    store = λ layer plane block offset.
        if (layer == layer_idx) && (block == physical_block) && (offset == block_offset)
        then elim plane [ keys ↦ key | values ↦ value ]
        else c.store layer plane block offset;
  }

  -- the fill pointer
  unfoldable pub advance_fill : Cache V → (seq_id new_fill : ℕ) → Result (Unit {0}) × Cache V
  advance_fill c seq_id new_fill = elim (lookup seq_id c.seq_fill) [
    | none ↦ (raise key_error, c)
    | some fill ↦ (
      ok tt,
      if ltb fill new_fill then record c { seq_fill = insert seq_id new_fill c.seq_fill } else c,
    )
  ]

  unfoldable pub store_at :
      Cache V
      → (seq_id layer_idx token_pos physical_block : ℕ) (key value : V)
      → Result (Unit {0}) × Cache V
  unfolding put_pair advance_fill
  store_at c seq_id layer_idx token_pos physical_block key value =
      if leb c.num_layers layer_idx
      then (raise index_error, c)
      else advance_fill (put_pair c layer_idx physical_block (token_pos % c.block_size) key value)
          seq_id (token_pos + 1)

  -- a block of one's own: cloned if it is shared
  unfoldable pub own_block :
      Cache V → (seq_id logical_block physical_block : ℕ) → Result ℕ × Cache V
  unfolding cow_clone
  own_block c seq_id logical_block physical_block =
      if ltb 1 (c.block_refcounts physical_block)
      then cow_clone c seq_id logical_block
      else (ok physical_block, c)

  unfoldable pub store_owned :
      Result ℕ × Cache V
      → (seq_id layer_idx token_pos : ℕ) (key value : V) → Result (Unit {0}) × Cache V
  unfolding store_at
  store_owned (ok b, c) seq_id layer_idx token_pos key value =
      store_at c seq_id layer_idx token_pos b key value
  store_owned (raise e, c) seq_id layer_idx token_pos key value = (raise e, c)

  unfoldable pub write :
      Cache V → (seq_id layer_idx token_pos : ℕ) (key value : V) → Result (Unit {0}) × Cache V
  unfolding own_block store_owned
  write c seq_id layer_idx token_pos key value = elim (lookup seq_id c.block_tables) [
    | none ↦ (raise key_error, c)
    | some table ↦
        if c.block_size == 0
        then (raise zero_division, c)
        else elim (get_elem? table (token_pos / c.block_size)) [
          | none ↦ (raise index_error, c)
          | some b ↦
              store_owned (own_block c seq_id (token_pos / c.block_size) b) seq_id layer_idx
                token_pos key value
        ]
  ]
