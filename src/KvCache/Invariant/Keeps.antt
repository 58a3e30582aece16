-- ===== src/KvCache/Invariant/Keeps.antt =====
-- `allocate`, `free` and `share_prefix` keep the invariant.
use decentralized_llm.Base.{
  ℕ, ◌*◌, ◌≤◌, ◌<◌, ◌≡◌, none, some, List, arith, length, take, inl, inr, Result, Option-cases,
  if_ind, ltb, ◌==◌, ℤ, length-take, pos, negsuc,
}
use decentralized_llm.Base.Counts.{count-take-drop, count-take-le}
use decentralized_llm.Base.Dict.{
  nat_eq, lookup, contains, lookup-insert, lookup-erase, insert-IsDict, erase-IsDict,
}
use decentralized_llm.Base.Tables.{total-insert_new, total-erase, count-le-total}
use decentralized_llm.KvCache.State.{Cache, ceil_blocks, grab}
use decentralized_llm.KvCache.Ops.{
  allocate, register, free, share_blocks, share_signed, share_prefix,
}
use decentralized_llm.KvCache.Loops.{grab_lem, release_all_lem, retain_all_lem}
use decentralized_llm.KvCache.Invariant.{IsValid}

ceil_blocks-fits : (n size : ℕ) → 0 < size → n ≤ ceil_blocks (pos n) size * size
unfolding ceil_blocks
ceil_blocks-fits n size h = grind arith

module _ {ℓ} {V : Type ℓ} where
  -- a new sequence whose blocks come from the pool
  register-IsValid :
      (c : Cache V) (s n : ℕ)
      → IsValid c
      → lookup s c.block_tables ≡ none
      → n ≤ length c.free_blocks
      → IsValid (register c s (grab n c.free_blocks c.block_refcounts)).1
  unfolding register
  register-IsValid c s n v new room =
      let (took, rest, counted) = grab_lem n c.free_blocks c.block_refcounts room in
      rw (took, register)
        (record {
          sized = v.sized;
          keyed = insert-IsDict s (take n c.free_blocks) c.block_tables v.keyed;
          counted = λ b. omega (
            arith,
            counted b,
            v.counted b,
            total-insert_new b s (take n c.free_blocks) c.block_tables new,
          );
          pool =
              λ b. rw rest (ground (arith, counted b, v.pool b, count-take-drop n c.free_blocks b));
          filled = λ t. ground (
            arith,
            v.filled t,
            lookup-insert s t (take n c.free_blocks) c.block_tables,
            lookup-insert s t 0 c.seq_fill,
          );
          fits = λ t fill table h g. ground (
            arith,
            v.fits t fill table,
            lookup-insert s t (take n c.free_blocks) c.block_tables,
            lookup-insert s t 0 c.seq_fill,
          );
        })

  abbrev Good : Result (List ℕ) × Cache V → Type ℓ
  Good (r, c) = IsValid c

  -- A call of `allocate`, refused or not, leaves a valid cache.
  pub allocate-IsValid : (c : Cache V) (s : ℕ) (n : ℤ) → IsValid c → IsValid (allocate c s n).1
  unfolding allocate
  allocate-IsValid c s n v =
      let need = ceil_blocks n c.block_size in
      if_ind Good (contains s c.block_tables) _ _ (λ _. v)
        λ new.
          if_ind Good (c.block_size == 0) _ _ (λ _. v)
            λ _.
              if_ind Good (ltb (length c.free_blocks) need) _ _ (λ _. v)
                λ room. register-IsValid c s need v (ground arith) (ground arith)

  -- Freeing a sequence leaves a valid cache.
  pub free-IsValid : (c : Cache V) (s : ℕ) → IsValid c → IsValid (free c s)
  unfolding free
  free-IsValid c s v = elim (Option-cases (lookup s c.block_tables)) [
    | inl unknown ↦ rw (unknown, free) v
    | inr (t, known) ↦
        let parts =
          release_all_lem t c.free_blocks c.block_refcounts
            (λ b. omega (arith, v.counted b, count-le-total b s t c.block_tables known))
            (λ b. ground (arith, v.pool b)) in
        rw (known, free)
          (record {
            sized = v.sized;
            keyed = erase-IsDict s c.block_tables v.keyed;
            counted = λ b.
                omega
                  (arith, (parts b).0, v.counted b, total-erase b s t c.block_tables v.keyed known);
            pool = λ b. omega (arith, (parts b).1, v.pool b);
            filled = λ r.
                ground
                  (arith, v.filled r, lookup-erase s r c.block_tables, lookup-erase s r c.seq_fill);
            fits = λ r fill table h g. ground (
              arith,
              v.fits r fill table,
              lookup-erase s r c.block_tables,
              lookup-erase s r c.seq_fill,
            );
          })
  ]

  share_blocks-IsValid :
      (c : Cache V) (r s n : ℕ) (table : List ℕ)
      → IsValid c
      → lookup r c.block_tables ≡ some table
      → lookup s c.block_tables ≡ none
      → IsValid (share_blocks c s n table).1
  unfolding share_blocks
  share_blocks-IsValid c r s n table v known new =
      let need = ceil_blocks (pos n) c.block_size in
      let shared = take need table in
      if_ind Good (c.block_size == 0) _ _ (λ _. v)
        λ _.
          if_ind Good (ltb (length table) need) _ _ (λ _. v)
            λ room. record {
              sized = v.sized;
              keyed = insert-IsDict s shared c.block_tables v.keyed;
              counted = λ b. omega (
                arith,
                retain_all_lem shared c.block_refcounts b,
                v.counted b,
                total-insert_new b s shared c.block_tables new,
              );
              pool = λ b. ground (
                arith,
                retain_all_lem shared c.block_refcounts b,
                v.counted b,
                v.pool b,
                count-take-le need table b,
                count-le-total b r table c.block_tables known,
              );
              filled = λ t. ground (
                arith,
                v.filled t,
                lookup-insert s t shared c.block_tables,
                lookup-insert s t n c.seq_fill,
              );
              fits = λ t fill u h g. ground (
                arith,
                v.fits t fill u,
                lookup-insert s t shared c.block_tables,
                lookup-insert s t n c.seq_fill,
                ceil_blocks-fits n c.block_size v.sized,
                length-take need table,
              );
            }

  share_signed-IsValid :
      (c : Cache V) (r s : ℕ) (n : ℤ) (table : List ℕ)
      → IsValid c
      → lookup r c.block_tables ≡ some table
      → lookup s c.block_tables ≡ none
      → IsValid (share_signed c s n table).1
  unfolding share_signed
  share_signed-IsValid c r s (negsuc n) table v known new = v
  share_signed-IsValid c r s (pos n) table v known new =
      share_blocks-IsValid c r s n table v known new

  -- A call of `share_prefix`, refused or not, leaves a valid cache.
  pub share_prefix-IsValid :
      (c : Cache V) (r s : ℕ) (n : ℤ) → IsValid c → IsValid (share_prefix c r s n).1
  unfolding share_prefix
  share_prefix-IsValid c r s n v = elim (Option-cases (lookup r c.block_tables)) [
    | inl unknown ↦ rw (unknown, share_prefix) v
    | inr (table, known) ↦
        rw (known, share_prefix)
          (if_ind Good (contains s c.block_tables) _ _ (λ _. v)
            λ new. share_signed-IsValid c r s n table v known (ground arith))
  ]
