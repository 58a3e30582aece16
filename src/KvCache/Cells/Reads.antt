-- ===== src/KvCache/Cells/Reads.antt =====
-- `read` returns the tokens of the sequence, in order, up to its fill level.
use Prim.Native.Nat.{min}
use native.Mathlib.Decide.{dec_lt}
use native.Mathlib.Nat.{add-div_left, add-mod_left}
use decentralized_llm.Base.{
  ℕ, zero, suc, ◌+◌, ◌-◌, ◌*◌, ◌/◌, ◌%◌, ◌<◌, ◌≤◌, ◌≡◌, refl, ap, ◌∙◌, Option, some, List, [], ◌∷◌,
  ◌++◌, arith, get_elem?, length, ok, leb, ltb, Bool, false, ◌&&◌, Option-cases, inl, inr, if_ind,
  length-append, get_elem?-append_lt, get_elem?-append_add,
}
use decentralized_llm.Base.Dict.{nat_eq, lookup}
use decentralized_llm.KvCache.State.{Plane, keys, values, Cache}
use decentralized_llm.KvCache.Ops.{rows, gather, read}
use decentralized_llm.KvCache.Invariant.{IsValid}
use decentralized_llm.KvCache.Cells.{cell, fetch}

first_block : (i size : ℕ) → i < size → (i / size ≡ 0) × (i % size ≡ i)
first_block i size h = grind arith

later_block :
    (i j size : ℕ) → 0 < size → i ≡ size + j → (i / size ≡ suc (j / size)) × (i % size ≡ j % size)
later_block i j size h e = grind (arith, add-div_left j h, add-mod_left size j)

not_out : (n l : ℕ) (b d : Bool) → l < n → (leb n l && b && d) ≡ false
not_out n l b d h = ground arith

module _ {ℓ} {V : Type ℓ} where
  length-rows : (f : ℕ → V) (from n : ℕ) → length (rows f from n) ≡ n
  unfolding rows
  length-rows f from zero = refl
  length-rows f from (suc n) = ap suc (length-rows f (from + 1) n)

  get_elem?-rows :
      (f : ℕ → V) (from n i : ℕ) → i < n → get_elem? (rows f from n) i ≡ some (f (from + i))
  unfolding rows
  get_elem?-rows f from zero i h = elim h [ ]
  get_elem?-rows f from (suc n) zero h = ap (λ k. some (f k)) (omega arith)
  get_elem?-rows f from (suc n) (suc i) h =
      get_elem?-rows f (from + 1) n i (omega arith) ∙ ap (λ k. some (f k)) (omega arith)

  length-gather :
      (f : ℕ → ℕ → V) (size remaining : ℕ) (table : List ℕ)
      → remaining ≤ length table * size
      → length (gather f size remaining table) ≡ remaining
  unfolding gather
  length-gather f size remaining [] h = omega arith
  length-gather f size remaining (b ∷ table) h =
      let n = min remaining size in
      ground (
        arith,
        length-append (rows (f b) 0 n) (gather f size (remaining - n) table),
        length-rows (f b) 0 n,
        length-gather f size (remaining - n) table (omega arith),
      )

  -- the slot of a token, by its table
  abbrev slot : (ℕ → ℕ → V) → ℕ → List ℕ → ℕ → Option V
  slot f size table i = fetch f (get_elem? table (i / size)) (i % size)

  get_elem?-gather :
      (f : ℕ → ℕ → V) (size remaining : ℕ) (table : List ℕ) (i : ℕ)
      → 0 < size
      → remaining ≤ length table * size
      → i < remaining
      → get_elem? (gather f size remaining table) i ≡ slot f size table i
  unfolding gather
  get_elem?-gather f size remaining [] i s h lt = absurd (omega arith)
  get_elem?-gather f size remaining (b ∷ table) i s h lt =
      let n = min remaining size in
      let rest = gather f size (remaining - n) table in
      let chunk = rows (f b) 0 n in
      if_ind (λ xs. get_elem? xs i ≡ slot f size (b ∷ table) i) (leb remaining 0) [] (chunk ++ rest)
        (λ empty. absurd (ground arith))
        λ _. elim (dec_lt i n) [
          | yes inner ↦
              let (q, r) = first_block i size (omega arith) in
              rw (q, r, slot)
                (get_elem?-append_lt chunk rest i (omega (arith, length-rows (f b) 0 n))
                  ∙ get_elem?-rows (f b) 0 n i inner
                  ∙ ap (λ k. some (f b k)) (omega arith))
          | no outer ↦
              let j = i - n in
              let (q, r) = later_block i j size s (omega arith) in
              rw (q, r, slot)
                (get_elem?-append_add chunk rest i j (omega (arith, length-rows (f b) 0 n))
                  ∙ get_elem?-gather f size (remaining - n) table j s (omega arith) (omega arith))
        ]

  -- On a valid cache a read of a known sequence in a known layer returns; its keys and its values
  -- are as many as the fill level, and are the tokens of the sequence in order.
  pub read-cells :
      (c : Cache V) (s l fill : ℕ)
      → IsValid c
      → lookup s c.seq_fill ≡ some fill
      → l < c.num_layers
      → (ks vs : List V) × (read c s l ≡ ok (ks, vs))
        × (length ks ≡ fill)
        × (length vs ≡ fill)
        × ((i : ℕ)
            → i < fill
            → (get_elem? ks i ≡ cell c s l keys i) × (get_elem? vs i ≡ cell c s l values i))
  unfolding read cell
  read-cells c s l fill v g inside = elim (Option-cases (lookup s c.block_tables)) [
    | inl unknown ↦ absurd (ground (arith, v.filled s))
    | inr (t, found) ↦
        let plane = λ (p : Plane). gather (c.store l p) c.block_size fill t in
        let fits = v.fits s fill t found g in
        (
          plane keys,
          plane values,
          rw (found, g, read)
              (rw (not_out c.num_layers l (ltb 0 fill) (ltb 0 (length t)) inside) refl),
          length-gather _ c.block_size fill t fits,
          length-gather _ c.block_size fill t fits,
          λ i lt. (
            rw (found, cell)
                (get_elem?-gather (c.store l keys) c.block_size fill t i v.sized fits lt),
            rw (found, cell)
                (get_elem?-gather (c.store l values) c.block_size fill t i v.sized fits lt),
          ),
        )
  ]
