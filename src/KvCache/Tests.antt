-- ===== src/KvCache/Tests.antt =====
-- Runs of the cache: two sequences that share a prefix, and a write to the shared block.
use decentralized_llm.Base.{
  ℕ, ◌≡◌, ◌<◌, refl, arith, none, some, List, [], ◌∷◌, ok, raise, pos, value_error, length, take,
  get_elem?, ◌≢◌, ◌+◌, ◌≤◌, true, false, ◌==◌, if◌then◌else◌, memory_error,
}
use decentralized_llm.Base.Counts.{ids_below, count, sign}
use decentralized_llm.Base.Dict.{nat_eq, lookup, contains, insert, erase}
use decentralized_llm.KvCache.State.{Plane, keys, values, Cache, init}
use decentralized_llm.KvCache.Ops.{allocate, free, read, share_prefix}
use decentralized_llm.KvCache.Write.{write}
use decentralized_llm.KvCache.Invariant.{IsValid, init-IsValid}
use decentralized_llm.KvCache.Invariant.Keeps.{allocate-IsValid}
use decentralized_llm.KvCache.Reach.{begin, allocated, freed, Reach-IsValid}
use decentralized_llm.KvCache.Cells.{cell}
use decentralized_llm.KvCache.Cells.Writes.{Wrote, write-Wrote}
use decentralized_llm.KvCache.Cells.Returns.{write-ok}
use decentralized_llm.KvCache.Cells.Reads.{read-cells}
use decentralized_llm.KvCache.Cells.Sharing.{
  share_prefix-cells, free-cells, allocate-result, Gave, table_of,
}

-- one layer, four blocks of two tokens
abbrev empty : Cache ℕ
unfolding init
empty = init 0 1 2 4

empty-IsValid : IsValid empty
unfolding empty init
empty-IsValid = init-IsValid {V = ℕ} 0 1 2 4 (omega arith)

abbrev one : Cache ℕ
unfolding allocate
one = (allocate empty 7 (pos 3)).1

one-IsValid : IsValid one
unfolding one allocate
one-IsValid = allocate-IsValid empty 7 (pos 3) empty-IsValid

-- sequence 7 with two tokens, shared by sequence 8
abbrev filled : Cache ℕ
unfolding write
filled = (write (write one 7 0 0 10 20).1 7 0 1 11 21).1

abbrev shared : Cache ℕ
unfolding share_prefix
shared = (share_prefix filled 7 8 (pos 2)).1

abbrev parted : Cache ℕ
unfolding write
parted = (write shared 8 0 1 12 22).1

sees_prefix : read shared 8 0 ≡ ok (10 ∷ 11 ∷ [], 20 ∷ 21 ∷ [])
unfolding read write allocate share_prefix init lookup insert ids_below
sees_prefix = refl

sees_own : read parted 8 0 ≡ ok (10 ∷ 12 ∷ [], 20 ∷ 22 ∷ [])
unfolding read write allocate share_prefix init lookup insert ids_below
sees_own = refl

keeps_source : read parted 7 0 ≡ ok (10 ∷ 11 ∷ [], 20 ∷ 21 ∷ [])
unfolding read write allocate share_prefix init lookup insert ids_below
keeps_source = refl

outlives_source : read (free parted 7) 8 0 ≡ ok (10 ∷ 12 ∷ [], 20 ∷ 22 ∷ [])
unfolding read write allocate share_prefix init free lookup insert ids_below erase
outlives_source = refl

again_refused : (allocate one 7 (pos 1)).0 ≡ raise value_error
unfolding allocate init lookup insert ids_below
again_refused = refl

-- sequence 7 has written no token, and sequence 8 gets two of them all the same
unwritten_shared : read (share_prefix one 7 8 (pos 2)).1 8 0 ≡ ok (0 ∷ 0 ∷ [], 0 ∷ 0 ∷ [])
unfolding read allocate share_prefix init lookup insert ids_below
unwritten_shared = refl

Reach-IsValid_example : IsValid (free one 7)
unfolding one
Reach-IsValid_example =
    Reach-IsValid empty (free one 7) empty-IsValid (freed one 7 (allocated empty 7 (pos 3) begin))

write-Wrote_example : Wrote one 7 0 1 11 21 (write one 7 0 1 11 21)
write-Wrote_example = write-Wrote one 7 0 1 11 21 one-IsValid

write-ok_example : (write one 7 0 1 11 21).0 ≡ ok tt
unfolding allocate init lookup insert ids_below
write-ok_example =
    write-ok one 7 {t = 3 ∷ 2 ∷ []} refl 0 1 11 21 one-IsValid (omega arith) (omega arith)
      (omega arith)

read-cells_example :
    (ks vs : List ℕ) × (read one 7 0 ≡ ok (ks, vs))
    × (length ks ≡ 0)
    × (length vs ≡ 0)
    × ((i : ℕ)
        → i < 0
        → (get_elem? ks i ≡ cell one 7 0 keys i) × (get_elem? vs i ≡ cell one 7 0 values i))
unfolding allocate init lookup insert ids_below
read-cells_example = read-cells one 7 0 0 one-IsValid refl (omega arith)

share_prefix-cells_example :
    let (result, c') = share_prefix one 7 8 (pos 2) in
    (result ≡ ok (take 1 (3 ∷ 2 ∷ [])))
    × (lookup 8 c'.seq_fill ≡ some 2)
    × ((l : ℕ) (p : Plane) (i : ℕ) → i < 2 → cell c' 8 l p i ≡ cell one 7 l p i)
    × ((q l : ℕ) (p : Plane) (i : ℕ) → q ≢ 8 → cell c' q l p i ≡ cell one q l p i)
unfolding allocate init lookup insert ids_below
share_prefix-cells_example =
    share_prefix-cells one one-IsValid 7 8 2 (3 ∷ 2 ∷ []) refl refl (omega arith)

allocate-result_example :
    IsValid (allocate one 8 (pos 1)).1
    × (contains 8 one.block_tables ≡ true → allocate one 8 (pos 1) ≡ (raise value_error, one))
    × (contains 8 one.block_tables ≡ false
        → length one.free_blocks < 1
        → allocate one 8 (pos 1) ≡ (raise memory_error, one))
    × (contains 8 one.block_tables ≡ false
        → 1 ≤ length one.free_blocks
        → ((allocate one 8 (pos 1)).0 ≡ ok (take 1 one.free_blocks))
          × Gave one 8 1 (allocate one 8 (pos 1)).1)
unfolding allocate init lookup insert ids_below
allocate-result_example = allocate-result one 8 (pos 1) one-IsValid

free-cells_example :
    let c' = free one 7 in
    IsValid c'
    × ((q l : ℕ) (p : Plane) (i : ℕ)
        → cell c' q l p i ≡ (if 7 == q then none else cell one q l p i))
    × ((b : ℕ) → c'.block_refcounts b + count b (table_of one 7) ≡ one.block_refcounts b)
    × ((b : ℕ)
        → count b c'.free_blocks + sign (c'.block_refcounts b)
          ≡ count b one.free_blocks + sign (one.block_refcounts b))
free-cells_example = free-cells one 7 one-IsValid
