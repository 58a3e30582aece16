-- ===== src/KvCache/Cells/Returns.antt =====
-- When `write` returns.
use decentralized_llm.Base.{
  ℕ, ◌/◌, ◌<◌, ◌≡◌, refl, ap, ◌∙◌, some, List, [], ◌∷◌, arith, get_elem?, get_elem?_total, length,
  Result, ok, ltb, leb, ◌==◌, false, Bool-cases, Option-cases, inl, inr,
}
use decentralized_llm.Base.Dict.{nat_eq, lookup}
use decentralized_llm.KvCache.State.{Cache}
use decentralized_llm.KvCache.Write.{move_to, clone_from, own_block, advance_fill, store_at, write}
use decentralized_llm.KvCache.Invariant.{IsValid}

-- a block of one's own was had, and the rest of the call can go on
record Ready {ℓ} {V : Type ℓ} (c : Cache V) (result : Result ℕ × Cache V) : Type ℓ where
  block : ℕ
  after : Cache V
  returned : result ≡ (ok block, after)
  fill : after.seq_fill ≡ c.seq_fill
  layers : after.num_layers ≡ c.num_layers

store_at-ok {ℓ} :
    {V : Type ℓ} (c : Cache V) (s l pos b fill : ℕ) (key value : V)
    → lookup s c.seq_fill ≡ some fill
    → leb c.num_layers l ≡ false
    → (store_at c s l pos b key value).0 ≡ ok tt
unfolding store_at
store_at-ok c s l pos b fill key value filled inside =
    rw (inside, store_at) (rw (filled, advance_fill) refl)

module _ {ℓ} {V : Type ℓ} (c : Cache V) (s : ℕ) {t : List ℕ}
    (found : lookup s c.block_tables ≡ some t) where
  clone_from-Ready :
      (i b : ℕ) (pool : List ℕ)
      → get_elem? t i ≡ some b
      → 0 < length pool
      → Ready c (clone_from c s i pool)
  unfolding clone_from move_to
  clone_from-Ready i b [] here some_free = absurd (omega arith)
  clone_from-Ready i b (new ∷ rest) here some_free =
      rw (found, here, clone_from)
        (record {
          block = new;
          after = move_to c s i t b new rest;
          returned = refl;
          fill = refl;
          layers = refl;
        })

  own_block-Ready :
      (i b : ℕ) → get_elem? t i ≡ some b → 0 < length c.free_blocks → Ready c (own_block c s i b)
  unfolding own_block
  own_block-Ready i b here some_free = elim (Bool-cases (ltb 1 (c.block_refcounts b))) [
    | inl shared ↦ rw (shared, own_block) (clone_from-Ready i b c.free_blocks here some_free)
    | inr alone ↦
        rw (alone, own_block)
          (record { block = b; after = c; returned = refl; fill = refl; layers = refl })
  ]

  known_fill : IsValid c → (fill : ℕ) × (lookup s c.seq_fill ≡ some fill)
  known_fill v = elim (Option-cases (lookup s c.seq_fill)) [
    | inl unknown ↦ absurd (ground (arith, v.filled s))
    | inr filled ↦ filled
  ]

  -- On a valid cache a write returns if a block is free, the table of the sequence reaches the
  -- token, and the layer is one of the cache's.
  pub write-ok :
      (l pos : ℕ) (key value : V)
      → IsValid c
      → 0 < length c.free_blocks
      → pos / c.block_size < length t
      → l < c.num_layers
      → (write c s l pos key value).0 ≡ ok tt
  unfolding write
  write-ok l pos key value v some_free reaches inside =
      let (b, here) = get_elem?_total t (pos / c.block_size) reaches in
      let own = own_block-Ready (pos / c.block_size) b here some_free in
      let sized : (c.block_size == 0) ≡ false = ground (arith, v.sized) in
      let (fill, filled) = known_fill v in
      rw (found, write)
        (rw sized (
          rw here (
            rw own.returned (
              store_at-ok own.after s l pos own.block fill key value
                (ap (lookup s) own.fill ∙ filled) (ground (arith, own.layers))))))
