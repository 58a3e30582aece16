-- ===== src/Batching/Blocks/Laws.antt =====
-- The block pool: no block is lost, none is owned twice, and what the operations return.
use native.Mathlib.Decide.{dec_lt}
use decentralized_llm.Base.{
  ℕ, zero, suc, ◌+◌, ◌-◌, ◌≤◌, ◌<◌, ◌≡◌, ◌≢◌, refl, ap, sym, List, [], ◌∷◌, ◌++◌, arith, length,
  take, drop, ok, raise, memory_error, leb, ltb, ◌==◌, Option-cases, Bool-cases, inl, inr,
  length-drop, length-take, length-append, false,
}
use decentralized_llm.Base.Counts.{
  count, inside, count-append, count-ids_below, count-take-drop, count-set_add, length-set_add,
  length-ids_below, ids_below, set_add,
}
use decentralized_llm.Base.Dict.{
  nat_eq, lookup, IsDict, insert, erase, lookup-insert, lookup-erase, insert-IsDict, erase-IsDict,
}
use decentralized_llm.Base.Tables.{total, total-insert_new, total-insert, total-erase, erase_absent}
use decentralized_llm.Batching.Blocks
use decentralized_llm.Batching.Blocks.{
  BlockTable, blocks_for, num_blocks_for, pop_blocks, extend, allocate, add_all, free,
  blocks_needed, counted, ensure_capacity,
}

-- Every block of the pool is free or in one table, once.
pub record IsValid (t : BlockTable) : Type 0 where
  pub sized : 0 < t.block_size
  pub keyed : IsDict t.allocations
  pub pool : (b : ℕ) → count b t.free_blocks + total b t.allocations ≡ inside t.num_blocks b

pub neq_zero : (n : ℕ) → 0 < n → (n == 0) ≡ false
neq_zero n h = ground arith

-- With positive sizes the constructor returns a valid table whose blocks are all free.
pub init-IsValid :
    (num_blocks block_size : ℕ)
    → 0 < num_blocks
    → 0 < block_size
    → (t : BlockTable) × (Blocks.init num_blocks block_size ≡ ok t)
      × IsValid t
      × (length t.free_blocks ≡ num_blocks)
unfolding Blocks.init total
init-IsValid num_blocks block_size some_block h = (
  record {
    num_blocks = num_blocks;
    block_size = block_size;
    free_blocks = ids_below num_blocks;
    allocations = [];
  },
  rw (neq_zero num_blocks some_block) (rw (neq_zero block_size h) refl),
  record { sized = h; keyed = tt; pool = λ b. omega (arith, count-ids_below num_blocks b) },
  length-ids_below num_blocks,
)

pub pop_blocks_lem :
    (n : ℕ) (pool : List ℕ) → n ≤ length pool → pop_blocks n pool ≡ (ok (take n pool), drop n pool)
unfolding pop_blocks
pop_blocks_lem zero pool h = refl
pop_blocks_lem (suc n) [] h = absurd (omega arith)
pop_blocks_lem (suc n) (b ∷ pool) h = rw (pop_blocks_lem n pool (omega arith)) refl

pub add_all_lem :
    (blocks pool : List ℕ)
    → ((b : ℕ) → count b pool + count b blocks ≤ 1)
    → ((b : ℕ) → count b (add_all blocks pool) ≡ count b pool + count b blocks)
      × (length (add_all blocks pool) ≡ length pool + length blocks)
unfolding add_all count
add_all_lem [] pool h = (λ b. omega arith, omega arith)
add_all_lem (x ∷ blocks) pool h =
    let new : count x pool ≡ 0 = ground (arith, h x) in
    let (counts, len) =
      add_all_lem blocks (set_add x pool) (λ b. ground (arith, h b, count-set_add x b pool new)) in
    (
      λ b. ground (arith, counts b, count-set_add x b pool new),
      ground (arith, len, length-set_add x pool new),
    )

room_for : (free n : ℕ) → n ≤ free → ltb free n ≡ false
room_for free n h = ground arith

module _ (t : BlockTable) (s : ℕ) where
  -- how often a block occurs after the table of one sequence has changed
  total-blocks_for :
      (b : ℕ) (blocks : List ℕ)
      → total b (insert s blocks t.allocations) + count b (blocks_for t s)
        ≡ total b t.allocations + count b blocks
  unfolding blocks_for count
  total-blocks_for b blocks = elim (Option-cases (lookup s t.allocations)) [
    | inl unknown ↦
        rw (unknown, blocks_for) (omega (arith, total-insert_new b s blocks t.allocations unknown))
    | inr (u, known) ↦ rw (known, blocks_for) (total-insert b s blocks u t.allocations known)
  ]

  total-freed :
      (b : ℕ)
      → IsDict t.allocations
      → total b (erase s t.allocations) + count b (blocks_for t s) ≡ total b t.allocations
  unfolding blocks_for count
  total-freed b keyed = elim (Option-cases (lookup s t.allocations)) [
    | inl unknown ↦ rw (unknown, erase_absent s t.allocations unknown, blocks_for) (omega arith)
    | inr (u, known) ↦ rw (known, blocks_for) (total-erase b s u t.allocations keyed known)
  ]

-- `t'` is `t` with `n` blocks taken from the pool for the sequence.
pub record Grown (t t' : BlockTable) (s n : ℕ) : Type 0 where
  pub valid : IsValid t'
  pub size : t'.block_size ≡ t.block_size
  pub taken : length t'.free_blocks + n ≡ length t.free_blocks
  pub own : num_blocks_for t' s ≡ num_blocks_for t s + n
  pub others : (q : ℕ) → q ≢ s → num_blocks_for t' q ≡ num_blocks_for t q

-- `t'` is `t` with the blocks of the sequence given back.
pub record Freed (t t' : BlockTable) (s : ℕ) : Type 0 where
  pub valid : IsValid t'
  pub size : t'.block_size ≡ t.block_size
  pub returned : length t'.free_blocks ≡ length t.free_blocks + num_blocks_for t s
  pub own : num_blocks_for t' s ≡ 0
  pub others : (q : ℕ) → q ≢ s → num_blocks_for t' q ≡ num_blocks_for t q

-- the blocks that a sequence lacks
abbrev pub needs : BlockTable → (s total_tokens : ℕ) → ℕ
needs t s total_tokens = blocks_needed t total_tokens - num_blocks_for t s

module _ (t : BlockTable) (v : IsValid t) (s : ℕ) where
  grown : ℕ → BlockTable
  grown n = record t {
    free_blocks = drop n t.free_blocks;
    allocations = insert s (blocks_for t s ++ take n t.free_blocks) t.allocations;
  }

  grown-Grown : (n : ℕ) → n ≤ length t.free_blocks → Grown t (grown n) s n
  unfolding grown num_blocks_for blocks_for
  grown-Grown n room = record {
    valid = record {
      sized = v.sized;
      keyed = insert-IsDict s (blocks_for t s ++ take n t.free_blocks) t.allocations v.keyed;
      pool = λ b. omega (
        arith,
        v.pool b,
        count-take-drop n t.free_blocks b,
        count-append b (blocks_for t s) (take n t.free_blocks),
        total-blocks_for t s b (blocks_for t s ++ take n t.free_blocks),
      );
    };
    size = refl;
    taken = omega (arith, length-drop n t.free_blocks);
    own = ground (
      arith,
      lookup-insert s s (blocks_for t s ++ take n t.free_blocks) t.allocations,
      length-append (blocks_for t s) (take n t.free_blocks),
      length-take n t.free_blocks,
    );
    others = λ q ne.
        ground (arith, lookup-insert s q (blocks_for t s ++ take n t.free_blocks) t.allocations);
  }

  -- An allocation within the pool returns, and takes its blocks from the pool.
  pub allocate-Grown :
      (n : ℕ)
      → n ≤ length t.free_blocks
      → (blocks : List ℕ) × (t' : BlockTable) × (allocate t s n ≡ (ok blocks, t')) × Grown t t' s n
  unfolding allocate
  allocate-Grown zero room = (
    [],
    t,
    refl,
    record {
      valid = v;
      size = refl;
      taken = omega arith;
      own = omega arith;
      others = λ q ne. refl;
    },
  )
  allocate-Grown (suc n) room = (
    take (suc n) t.free_blocks,
    grown (suc n),
    rw (neq_zero (suc n) (omega arith)) (
        rw (room_for (length t.free_blocks) (suc n) room)
          (rw (pop_blocks_lem (suc n) t.free_blocks room) (unfold grown in refl))),
    grown-Grown (suc n) room,
  )

  -- An allocation beyond the pool raises, and changes nothing.
  pub allocate_refused :
      (n : ℕ) → length t.free_blocks < n → allocate t s n ≡ (raise memory_error, t)
  unfolding allocate
  allocate_refused n short = ground arith

  -- On a valid block table, freeing a sequence returns its number of blocks and gives them all
  -- back; the table stays valid and no other sequence's count changes.
  pub free-Freed : ((free t s).0 ≡ num_blocks_for t s) × Freed t (free t s).1 s
  unfolding free num_blocks_for
  free-Freed = (
    refl,
    record {
      valid = record {
        sized = v.sized;
        keyed = erase-IsDict s t.allocations v.keyed;
        pool = λ b. omega (arith, v.pool b, returned.0 b, total-freed t s b v.keyed);
      };
      size = refl;
      returned = returned.1;
      own = unfold blocks_for in ground (arith, lookup-erase s s t.allocations);
      others = λ q ne. unfold blocks_for in ground (arith, lookup-erase s q t.allocations);
    },
  )
    where
      returned :
          ((b : ℕ)
            → count b (add_all (blocks_for t s) t.free_blocks)
              ≡ count b t.free_blocks + count b (blocks_for t s))
          × (length (add_all (blocks_for t s) t.free_blocks)
              ≡ length t.free_blocks + length (blocks_for t s))
      returned =
          add_all_lem (blocks_for t s) t.free_blocks
            (λ b. ground (arith, v.pool b, total-freed t s b v.keyed))

  -- On a valid block table, growing a sequence within the pool returns, and takes just the blocks
  -- that it lacks; the table stays valid and no other sequence's count changes.
  pub ensure_capacity-Grown :
      (total_tokens : ℕ)
      → needs t s total_tokens ≤ length t.free_blocks
      → (t' : BlockTable) × (ensure_capacity t s total_tokens ≡ (ok (needs t s total_tokens), t'))
        × Grown t t' s (needs t s total_tokens)
  unfolding ensure_capacity
  ensure_capacity-Grown n room = elim (Bool-cases (leb (blocks_needed t n) (num_blocks_for t s))) [
    | inl enough ↦
        let none_needed : needs t s n ≡ 0 = ground arith in
        (
          t,
          rw enough (ap (λ k. (ok k, t)) (sym none_needed)),
          record {
            valid = v;
            size = refl;
            taken = omega (arith, none_needed);
            own = omega (arith, none_needed);
            others = λ q ne. refl;
          },
        )
    | inr short ↦
        let (blocks, t', returned, grown') = allocate-Grown (needs t s n) room in
        (t', rw short (rw returned refl), grown')
  ]

  -- Growing beyond the pool raises, and changes nothing.
  pub ensure_capacity_refused :
      (total_tokens : ℕ)
      → length t.free_blocks < needs t s total_tokens
      → ensure_capacity t s total_tokens ≡ (raise memory_error, t)
  unfolding ensure_capacity
  ensure_capacity_refused n short =
      let lacking : leb (blocks_needed t n) (num_blocks_for t s) ≡ false = ground arith in
      rw lacking (rw (allocate_refused (needs t s n) short) refl)

  -- Growing keeps the table valid, also when it raises.
  pub ensure_capacity-IsValid : (n : ℕ) → IsValid (ensure_capacity t s n).1
  ensure_capacity-IsValid n = elim (dec_lt (length t.free_blocks) (needs t s n)) [
    | yes short ↦ rw (ensure_capacity_refused n short) v
    | no room ↦
        let (t', returned, grown') = ensure_capacity-Grown n (omega arith) in
        rw returned grown'.valid
  ]

  pub allocate-IsValid : (n : ℕ) → IsValid (allocate t s n).1
  allocate-IsValid n = elim (dec_lt (length t.free_blocks) n) [
    | yes short ↦ rw (allocate_refused n short) v
    | no room ↦
        let (blocks, t', returned, grown') = allocate-Grown n (omega arith) in
        rw returned grown'.valid
  ]
