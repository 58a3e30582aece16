-- ===== src/KvCache/Ops.antt =====
-- `allocate`, `free`, `read` and `share_prefix` of node/kv_cache.py
use Prim.Native.Nat.{min}
use decentralized_llm.Base.{
  ℕ, zero, suc, ◌+◌, ◌-◌, none, some, List, [], ◌∷◌, ◌++◌, ◌&&◌, ltb, leb, ◌==◌, if◌then◌else◌,
  length, take, value_error, memory_error, key_error, index_error, zero_division, Result, ok, raise,
  ℤ, pos, negsuc,
}
use decentralized_llm.Base.Dict.{nat_eq, lookup, contains, insert, erase}
use decentralized_llm.KvCache.State.{
  Plane, keys, values, Cache, ceil_blocks, grab, release, release_all, retain_all,
}

module _ {ℓ} {V : Type ℓ} where
  -- the table of a new sequence, once its blocks are taken
  unfoldable pub register :
      Cache V → ℕ → Result (List ℕ) × List ℕ × (ℕ → ℕ) → Result (List ℕ) × Cache V
  register c seq_id (ok blocks, free, refs) = (
    ok blocks,
    record c {
      free_blocks = free;
      block_refcounts = refs;
      block_tables = insert seq_id blocks c.block_tables;
      seq_fill = insert seq_id 0 c.seq_fill;
    },
  )
  register c seq_id (raise e, free, refs) =
      (raise e, record c { free_blocks = free; block_refcounts = refs })

  unfoldable pub allocate : Cache V → (seq_id : ℕ) (num_tokens : ℤ) → Result (List ℕ) × Cache V
  unfolding register grab ceil_blocks
  allocate c seq_id num_tokens =
      if contains seq_id c.block_tables
      then (raise value_error, c)
      else if c.block_size == 0
      then (raise zero_division, c)
      else let num_blocks = ceil_blocks num_tokens c.block_size in
        if ltb (length c.free_blocks) num_blocks
        then (raise memory_error, c)
        else register c seq_id (grab num_blocks c.free_blocks c.block_refcounts)

  unfoldable pub free : Cache V → (seq_id : ℕ) → Cache V
  unfolding release_all release
  free c seq_id = elim (lookup seq_id c.block_tables) [
    | none ↦ c
    | some table ↦
        let (pool, refs) = release_all table c.free_blocks c.block_refcounts in
        record c {
          free_blocks = pool;
          block_refcounts = refs;
          block_tables = erase seq_id c.block_tables;
          seq_fill = erase seq_id c.seq_fill;
        }
  ]

  -- `_store[layer, plane, block, :n]`
  unfoldable pub rows : (ℕ → V) → (from n : ℕ) → List V
  rows f from zero = []
  rows f from (suc n) = f from ∷ rows f (from + 1) n

  -- the loop of `read` over the block table, for one plane, joined by `torch.cat`
  unfoldable pub gather : (ℕ → ℕ → V) → (size remaining : ℕ) → List ℕ → List V
  gather f size remaining [] = []
  gather f size remaining (b ∷ table) =
      let tokens_in_block = min remaining size in
      let rest = gather f size (remaining - tokens_in_block) table in
      if leb remaining 0 then [] else rows (f b) 0 tokens_in_block ++ rest

  unfoldable pub read : Cache V → (seq_id layer_idx : ℕ) → Result (List V × List V)
  unfolding gather rows
  read c seq_id layer_idx = elim (lookup seq_id c.block_tables) [
    | none ↦ raise key_error
    | some table ↦ elim (lookup seq_id c.seq_fill) [
      | none ↦ raise key_error
      | some fill ↦
          let plane = λ (p : Plane). gather (c.store layer_idx p) c.block_size fill table in
          if leb c.num_layers layer_idx && ltb 0 fill && ltb 0 (length table)
          then raise index_error
          else ok (plane keys, plane values)
    ]
  ]

  -- `share_prefix`, once its source is known
  unfoldable pub share_blocks :
      Cache V → (dst_seq_id num_shared_tokens : ℕ) → List ℕ → Result (List ℕ) × Cache V
  unfolding ceil_blocks retain_all
  share_blocks c dst_seq_id num_shared_tokens src_blocks =
      if c.block_size == 0
      then (raise zero_division, c)
      else let num_shared_blocks = ceil_blocks (pos num_shared_tokens) c.block_size in
        if ltb (length src_blocks) num_shared_blocks
        then (raise value_error, c)
        else let shared = take num_shared_blocks src_blocks in
          (
            ok shared,
            record c {
              block_refcounts = retain_all shared c.block_refcounts;
              block_tables = insert dst_seq_id shared c.block_tables;
              seq_fill = insert dst_seq_id num_shared_tokens c.seq_fill;
            },
          )

  -- the test on the sign of the token count
  unfoldable pub share_signed : Cache V → (dst_seq_id : ℕ) → ℤ → List ℕ → Result (List ℕ) × Cache V
  unfolding share_blocks
  share_signed c dst_seq_id (negsuc n) src_blocks = (raise value_error, c)
  share_signed c dst_seq_id (pos n) src_blocks = share_blocks c dst_seq_id n src_blocks

  unfoldable pub share_prefix :
      Cache V → (src_seq_id dst_seq_id : ℕ) (num_shared_tokens : ℤ) → Result (List ℕ) × Cache V
  unfolding share_signed
  share_prefix c src_seq_id dst_seq_id num_shared_tokens = elim (lookup src_seq_id c.block_tables) [
    | none ↦ (raise key_error, c)
    | some src_blocks ↦
        if contains dst_seq_id c.block_tables
        then (raise value_error, c)
        else share_signed c dst_seq_id num_shared_tokens src_blocks
  ]
