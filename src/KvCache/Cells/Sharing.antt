-- ===== src/KvCache/Cells/Sharing.antt =====
-- What `share_prefix`, `allocate` and `free` do to the tokens of the sequences.
use decentralized_llm.Base.{
  ℕ, ◌+◌, drop, [], ◌/◌, ◌%◌, ◌<◌, ◌≤◌, ◌≡◌, ◌≢◌, refl, ap, ◌∙◌, some, none, List, arith, get_elem?,
  length, take, ◌==◌, true, false, ok, raise, memory_error, value_error, ltb, Bool-cases,
  Option-cases, inl, inr, ℤ, pos, if◌then◌else◌, get_elem?-take,
}
use decentralized_llm.Base.Dict.{nat_eq, insert, lookup, contains, lookup-insert, lookup-erase}
use decentralized_llm.KvCache.State.{Plane, Cache, ceil_blocks, grab, retain_all}
use decentralized_llm.KvCache.Ops.{register, allocate, free, share_prefix}
use decentralized_llm.KvCache.Loops.{grab_lem, release_all_lem}
use decentralized_llm.Base.Counts.{count, sign}
use decentralized_llm.Base.Tables.{count-le-total}
use decentralized_llm.KvCache.Invariant.Keeps.{allocate-IsValid, free-IsValid}
use decentralized_llm.KvCache.Invariant.{IsValid}
use decentralized_llm.KvCache.Cells.{cell, fetch}

-- the tokens below the count stand in the first blocks
block_below : (n size i : ℕ) → 0 < size → i < n → i / size < ceil_blocks (pos n) size
unfolding ceil_blocks
block_below n size i s h = grind arith

eq_self : (s : ℕ) → (s == s) ≡ true
eq_self s = ground arith

module _ {ℓ} {V : Type ℓ} where
  -- A table that is looked up as before shows the tokens as before.
  cell_of_lookup :
      (c c' : Cache V) (q l : ℕ) (p : Plane) (i : ℕ)
      → c'.store ≡ c.store
      → c'.block_size ≡ c.block_size
      → lookup q c'.block_tables ≡ lookup q c.block_tables
      → cell c' q l p i ≡ cell c q l p i
  unfolding cell
  cell_of_lookup c c' q l p i h k e = elim (Option-cases (lookup q c.block_tables)) [
    | inl unknown ↦ rw (e ∙ unknown, unknown, cell) refl
    | inr (t, found) ↦
        rw (e ∙ found, found, cell) (λ x. fetch (h x l p) (get_elem? t (i / k x)) (i % k x))
  ]

  cell_unknown :
      (c : Cache V) (q l : ℕ) (p : Plane) (i : ℕ)
      → lookup q c.block_tables ≡ none
      → cell c q l p i ≡ none
  unfolding cell
  cell_unknown c q l p i e = rw (e, cell) refl

  module _ (c : Cache V) (v : IsValid c) (r s n : ℕ) (t : List ℕ)
      (known : lookup r c.block_tables ≡ some t) (new : lookup s c.block_tables ≡ none)
      (room : ceil_blocks (pos n) c.block_size ≤ length t) where
    shared : List ℕ
    shared = take (ceil_blocks (pos n) c.block_size) t

    after : Cache V
    unfolding shared
    after = record c {
      block_refcounts = retain_all shared c.block_refcounts;
      block_tables = insert s shared c.block_tables;
      seq_fill = insert s n c.seq_fill;
    }

    sized : (c.block_size == 0) ≡ false
    sized = ground (arith, v.sized)

    roomy : ltb (length t) (ceil_blocks (pos n) c.block_size) ≡ false
    roomy = ground arith

    fresh : contains s c.block_tables ≡ false
    fresh = ground arith

    share_prefix-after : share_prefix c r s (pos n) ≡ (ok shared, after)
    unfolding share_prefix after
    share_prefix-after = rw (known, share_prefix) (rw fresh (rw sized (rw roomy refl)))

    share_same : (l : ℕ) (p : Plane) (i : ℕ) → i < n → cell after s l p i ≡ cell c r l p i
    unfolding after shared cell
    share_same l p i lt =
        rw (lookup-insert, known, cell)
          (rw (eq_self s) (
            ap (λ o. fetch (c.store l p) o (i % c.block_size))
              (get_elem?-take _ t (i / c.block_size) (block_below n c.block_size i v.sized lt))))

    share_others : (q l : ℕ) (p : Plane) (i : ℕ) → q ≢ s → cell after q l p i ≡ cell c q l p i
    unfolding after
    share_others q l p i ne =
        cell_of_lookup c after q l p i refl refl
          (ground (arith, lookup-insert s q shared c.block_tables))

    -- On a valid cache where the source is known, the destination is not and the source has the
    -- blocks, share_prefix returns the blocks, each token of the destination below the count is
    -- the source's token, its fill level is the count, and no other sequence's tokens change.
    pub share_prefix-cells :
        let (result, c') = share_prefix c r s (pos n) in
        (result ≡ ok (take (ceil_blocks (pos n) c.block_size) t))
        × (lookup s c'.seq_fill ≡ some n)
        × ((l : ℕ) (p : Plane) (i : ℕ) → i < n → cell c' s l p i ≡ cell c r l p i)
        × ((q l : ℕ) (p : Plane) (i : ℕ) → q ≢ s → cell c' q l p i ≡ cell c q l p i)
    unfolding after shared
    share_prefix-cells =
        rw share_prefix-after (refl, rw (lookup-insert, eq_self s) refl, share_same, share_others)

  free-lookup :
      (c : Cache V) (s q : ℕ)
      → ((free c s).store ≡ c.store)
        × ((free c s).block_size ≡ c.block_size)
        × (lookup q (free c s).block_tables ≡ (if s == q then none else lookup q c.block_tables))
  unfolding free
  free-lookup c s q = elim (Option-cases (lookup s c.block_tables)) [
    | inl unknown ↦ rw (unknown, free) (refl, refl, ground arith)
    | inr (t, known) ↦ rw (known, free) (refl, refl, lookup-erase s q c.block_tables)
  ]

  -- the blocks of a sequence
  abbrev pub table_of : Cache V → (seq_id : ℕ) → List ℕ
  table_of c s = elim (lookup s c.block_tables) [ none ↦ [] | some t ↦ t ]

  free-refs :
      (c : Cache V) (s : ℕ)
      → IsValid c
      → (b : ℕ)
      → ((free c s).block_refcounts b + count b (table_of c s) ≡ c.block_refcounts b)
        × (count b (free c s).free_blocks + sign ((free c s).block_refcounts b)
            ≡ count b c.free_blocks + sign (c.block_refcounts b))
  unfolding free count
  free-refs c s v b = elim (Option-cases (lookup s c.block_tables)) [
    | inl unknown ↦ rw (unknown, free, table_of) (omega arith, refl)
    | inr (t, known) ↦
        rw (known, free, table_of)
          (release_all_lem t c.free_blocks c.block_refcounts
            (λ a. omega (arith, v.counted a, count-le-total a s t c.block_tables known))
            (λ a. ground (arith, v.pool a)) b)
  ]

  cell-free :
      (c : Cache V) (s q l : ℕ) (p : Plane) (i : ℕ)
      → cell (free c s) q l p i ≡ (if s == q then none else cell c q l p i)
  cell-free c s q l p i =
      let (store, size, tables) = free-lookup c s q in
      elim (Bool-cases (s == q)) [
        | inl here ↦ rw here (cell_unknown (free c s) q l p i (ground arith))
        | inr other ↦ rw other (cell_of_lookup c (free c s) q l p i store size (ground arith))
      ]

  -- Freeing a sequence on a valid cache leaves a valid one and takes its tokens away, and no other
  -- sequence's. Each block loses one reference for each place in the table of the sequence, and
  -- the blocks that lose their last one, and only these, come to the pool.
  pub free-cells :
      (c : Cache V) (s : ℕ)
      → IsValid c
      → let c' = free c s in
        IsValid c'
        × ((q l : ℕ) (p : Plane) (i : ℕ)
            → cell c' q l p i ≡ (if s == q then none else cell c q l p i))
        × ((b : ℕ) → c'.block_refcounts b + count b (table_of c s) ≡ c.block_refcounts b)
        × ((b : ℕ)
            → count b c'.free_blocks + sign (c'.block_refcounts b)
              ≡ count b c.free_blocks + sign (c.block_refcounts b))
  free-cells c s v =
      (free-IsValid c s v, cell-free c s, λ b. (free-refs c s v b).0, λ b. (free-refs c s v b).1)

  sized_size : (c : Cache V) → IsValid c → (c.block_size == 0) ≡ false
  sized_size c v = ground (arith, v.sized)

  -- the cache after the sequence has got blocks off the pool: the first ones, with one reference more
  -- each, are its table, it has no token, and no other sequence's tokens change
  pub record Gave (c : Cache V) (s need : ℕ) (c' : Cache V) : Type ℓ where
    pub table : lookup s c'.block_tables ≡ some (take need c.free_blocks)
    pub fill : lookup s c'.seq_fill ≡ some 0
    pub pool : c'.free_blocks ≡ drop need c.free_blocks
    pub refs :
        (b : ℕ) → c'.block_refcounts b ≡ c.block_refcounts b + count b (take need c.free_blocks)
    pub others : (q l : ℕ) (p : Plane) (i : ℕ) → q ≢ s → cell c' q l p i ≡ cell c q l p i

  register-Gave :
      (c : Cache V) (s n : ℕ)
      → n ≤ length c.free_blocks
      → let (result, c') = register c s (grab n c.free_blocks c.block_refcounts) in
        (result ≡ ok (take n c.free_blocks)) × Gave c s n c'
  unfolding register
  register-Gave c s n room =
      let (took, rest, counted) = grab_lem n c.free_blocks c.block_refcounts room in
      rw (took, register)
        (
          refl,
          record {
            table = lookup-insert s s _ c.block_tables ∙ rw (eq_self s) refl;
            fill = lookup-insert s s 0 c.seq_fill ∙ rw (eq_self s) refl;
            pool = rest;
            refs = counted;
            others = λ q l p i ne.
                cell_of_lookup c _ q l p i refl refl
                  (ground (arith, lookup-insert s q (take n c.free_blocks) c.block_tables));
          },
        )

  -- A call of allocate on a valid cache leaves a valid one. It refuses a known sequence, and a
  -- request beyond the free blocks, and changes nothing then. A new sequence gets the blocks that
  -- it needs as its table and no token; these blocks leave the pool, each gets one reference, no
  -- other reference changes, and no other sequence's tokens do.
  pub allocate-result :
      (c : Cache V) (s : ℕ) (n : ℤ)
      → IsValid c
      → let need = ceil_blocks n c.block_size in
        IsValid (allocate c s n).1
        × (contains s c.block_tables ≡ true → allocate c s n ≡ (raise value_error, c))
        × (contains s c.block_tables ≡ false
            → length c.free_blocks < need
            → allocate c s n ≡ (raise memory_error, c))
        × (contains s c.block_tables ≡ false
            → need ≤ length c.free_blocks
            → ((allocate c s n).0 ≡ ok (take need c.free_blocks))
              × Gave c s need (allocate c s n).1)
  unfolding allocate
  allocate-result c s n v =
      let need = ceil_blocks n c.block_size in
      (
        allocate-IsValid c s n v,
        λ known. rw (known, allocate) refl,
        λ new full.
            let short : ltb (length c.free_blocks) need ≡ true = ground arith in
            rw (new, allocate) (rw (sized_size c v) (rw short refl)),
        λ new room.
            let enough : ltb (length c.free_blocks) need ≡ false = ground arith in
            rw (new, allocate) (rw (sized_size c v) (rw enough (register-Gave c s need room))),
      )
