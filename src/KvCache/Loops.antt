-- ===== src/KvCache/Loops.antt =====
-- The loops of the cache: what is taken from the pool, given back and shared, counted by block.
use decentralized_llm.Base.{
  ℕ, zero, suc, ◌+◌, ◌≤◌, ◌≡◌, refl, List, [], ◌∷◌, arith, ok, length, take, drop,
}
use decentralized_llm.Base.Counts.{hit, update, sign, count, count-set_add}
use decentralized_llm.KvCache.State.{grab, release, release_all, retain_all}

-- With enough free blocks `allocate` takes the first of the pool, each with one more reference.
pub grab_lem :
    (n : ℕ) (free : List ℕ) (refs : ℕ → ℕ)
    → n ≤ length free
    → ((grab n free refs).0 ≡ ok (take n free))
      × ((grab n free refs).1 ≡ drop n free)
      × ((b : ℕ) → (grab n free refs).2 b ≡ refs b + count b (take n free))
unfolding grab count
grab_lem zero free refs h = (refl, refl, λ b. omega arith)
grab_lem (suc n) [] refs h = absurd (omega arith)
grab_lem (suc n) (x ∷ free) refs h =
    let (took, rest, counted) = grab_lem n free _ (omega arith) in
    (rw took, rest, λ b. ground (arith, counted b))

-- The pool and the references after one `release`.
release-refs :
    (b : ℕ) (free : List ℕ) (refs : ℕ → ℕ) (a : ℕ)
    → 1 ≤ refs b
    → (release b free refs).1 a + hit a b ≡ refs a
unfolding release
release-refs b free refs a h = ground arith

release-pool :
    (b : ℕ) (free : List ℕ) (refs : ℕ → ℕ) (a : ℕ)
    → 1 ≤ refs b
    → count b free + sign (refs b) ≤ 1
    → count a (release b free refs).0 + sign ((release b free refs).1 a)
      ≡ count a free + sign (refs a)
unfolding release
release-pool b free refs a h p = ground (arith, count-set_add b a free)

-- `free` drops one reference for each place in the table, and every block that nobody refers to
-- any more is back in the pool.
pub release_all_lem :
    (table free : List ℕ) (refs : ℕ → ℕ)
    → ((b : ℕ) → count b table ≤ refs b)
    → ((b : ℕ) → count b free + sign (refs b) ≤ 1)
    → (a : ℕ)
    → ((release_all table free refs).1 a + count a table ≡ refs a)
      × (count a (release_all table free refs).0 + sign ((release_all table free refs).1 a)
          ≡ count a free + sign (refs a))
unfolding release_all count
release_all_lem [] free refs enough pool a = (omega arith, refl)
release_all_lem (b ∷ table) free refs enough pool a =
    let some_ref : 1 ≤ refs b = ground (arith, enough b) in
    let (free', refs') = release b free refs in
    let rest =
      release_all_lem table free' refs'
        (λ x. ground (arith, enough x, release-refs b free refs x some_ref))
        (λ x. ground (arith, pool x, release-pool b free refs x some_ref (pool b))) a in
    ground (
      arith,
      rest,
      release-refs b free refs a some_ref,
      release-pool b free refs a some_ref (pool b),
    )

-- `share_prefix` adds one reference for each place in the shared table.
pub retain_all_lem :
    (table : List ℕ) (refs : ℕ → ℕ) (b : ℕ) → retain_all table refs b ≡ refs b + count b table
unfolding retain_all count
retain_all_lem [] refs b = omega arith
retain_all_lem (x ∷ table) refs b =
    ground (arith, retain_all_lem table (update refs x (refs x + 1)) b)
