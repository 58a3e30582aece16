-- ===== src/KvCache/Cells/Clone.antt =====
-- The copy-on-write clone changes no sequence's tokens, and leaves a block of one's own.
use native.Mathlib.Decide.{ℕ_discrete}
use decentralized_llm.Base.{
  ℕ, ◌+◌, ◌*◌, length, ◌/◌, ◌<◌, ◌≤◌, ◌≡◌, ◌≢◌, subst, refl, sym, ap, ◌∙◌, some, List, ◌∷◌, [],
  arith, get_elem?, set, Result, ok, raise, ltb, if_ind, length-set, get_elem?-set_self,
  get_elem?-set_ne, get_elem?_lt, Option-cases, inl, inr,
}
use decentralized_llm.Base.Counts.{hit, sign, inside, count, count-get_elem?, count-set}
use decentralized_llm.Base.Dict.{nat_eq, lookup, insert, lookup-insert, insert-IsDict}
use decentralized_llm.Base.Tables.{count-le-total, total-insert}
use decentralized_llm.KvCache.State.{Plane, Cache, release}
use decentralized_llm.KvCache.Write.{move_to, own_block, clone_from}
use decentralized_llm.KvCache.Invariant.{IsValid}
use decentralized_llm.KvCache.Cells.{cell, cell_in}

-- `c'` is valid and shows the same tokens as `c`.
pub record Unchanged {ℓ} {V : Type ℓ} (c c' : Cache V) : Type ℓ where
  pub valid : IsValid c'
  pub same :
      (r layer : ℕ) (p : Plane) (token : ℕ) → cell c' r layer p token ≡ cell c r layer p token

-- `c'` shows the same tokens as `c`, and the block `q` at the place is the sequence's alone.
pub record Owns {ℓ} {V : Type ℓ} (c c' : Cache V) (s i q : ℕ) : Type ℓ where
  pub valid : IsValid c'
  pub same :
      (r layer : ℕ) (p : Plane) (token : ℕ) → cell c' r layer p token ≡ cell c r layer p token
  pub size : c'.block_size ≡ c.block_size
  pub layers : c'.num_layers ≡ c.num_layers
  pub fill : c'.seq_fill ≡ c.seq_fill
  pub table : List ℕ
  pub found : lookup s c'.block_tables ≡ some table
  pub here : get_elem? table i ≡ some q
  pub single : c'.block_refcounts q ≡ 1

-- What a call for a block of one's own has done, by how it ended.
abbrev pub Owned {ℓ} : {V : Type ℓ} → Cache V → (s i : ℕ) → Result ℕ × Cache V → Type ℓ
Owned c s i (ok q, c') = Owns c c' s i q
Owned c s i (raise e, c') = Unchanged c c'

module _ {ℓ} {V : Type ℓ} (c : Cache V) (v : IsValid c) (s i old new : ℕ) (t rest : List ℕ)
    (found : lookup s c.block_tables ≡ some t) (here : get_elem? t i ≡ some old)
    (shared : 1 < c.block_refcounts old) (pool : c.free_blocks ≡ new ∷ rest) where
  new_free : (c.block_refcounts new ≡ 0) × (new ≢ old)
  unfolding count
  new_free = ground (arith, v.pool new, ap (count new) pool)

  clone_refs :
      (b : ℕ)
      → (move_to c s i t old new rest).block_refcounts b + hit b old
        ≡ c.block_refcounts b + hit b new
  unfolding move_to release
  clone_refs b = ground (arith, new_free)

  clone_free : (move_to c s i t old new rest).free_blocks ≡ rest
  unfolding move_to release
  clone_free = ground (arith, new_free)

  -- no table names the new block yet
  ne_new :
      (r j : ℕ) {u : List ℕ} {b : ℕ}
      → lookup r c.block_tables ≡ some u
      → get_elem? u j ≡ some b
      → b ≢ new
  ne_new r j {u} {b} g k e = omega (
    arith,
    new_free.0,
    v.counted new,
    count-le-total new r u c.block_tables g,
    count-get_elem? u j {b = new} (k ∙ ap some e),
  )

  clone_table : lookup s (move_to c s i t old new rest).block_tables ≡ some (set t i new)
  unfolding move_to
  clone_table = ground (arith, lookup-insert s s (set t i new) c.block_tables)

  clone_pool :
      (b : ℕ)
      → count b (move_to c s i t old new rest).free_blocks
          + sign ((move_to c s i t old new rest).block_refcounts b)
        ≡ inside c.max_blocks b
  unfolding count
  clone_pool b = ground (
    arith,
    clone_refs b,
    v.pool b,
    v.pool new,
    ap (count b) pool,
    ap (count b) clone_free,
    new_free,
  )

  clone_fits :
      (r fill : ℕ) (u : List ℕ)
      → lookup r (insert s (set t i new) c.block_tables) ≡ some u
      → lookup r c.seq_fill ≡ some fill
      → fill ≤ length u * c.block_size
  clone_fits r fill u h g = ground (
    arith,
    lookup-insert s r (set t i new) c.block_tables,
    v.fits r fill u,
    v.fits r fill t,
    ap (λ n. n * c.block_size) (length-set t i new),
  )

  clone_lookup :
      (r : ℕ)
      → s ≢ r
      → lookup r (move_to c s i t old new rest).block_tables ≡ lookup r c.block_tables
  unfolding move_to
  clone_lookup r ne = ground (arith, lookup-insert s r (set t i new) c.block_tables)

  new_hits : (hit new old ≡ 0) × (hit new new ≡ 1)
  new_hits = ground (arith, new_free.1)

  move_to-IsValid : IsValid (move_to c s i t old new rest)
  move_to-IsValid = record {
    sized = unfold move_to in v.sized;
    keyed = unfold move_to in insert-IsDict s (set t i new) c.block_tables v.keyed;
    counted = λ b.
        unfold move_to in
        omega (
          arith,
          clone_refs b,
          v.counted b,
          total-insert b s (set t i new) t c.block_tables found,
          count-set t i new b here,
        );
    pool = λ b. unfold move_to in clone_pool b;
    filled = λ r.
        unfold move_to in
        ground (arith, v.filled r, lookup-insert s r (set t i new) c.block_tables);
    fits = λ r fill u. unfold move_to in clone_fits r fill u;
  }

  -- at the cloned place the copy stands for the original; every other place keeps its block
  clone_cell_in :
      (layer : ℕ) (p : Plane) (token : ℕ)
      → cell_in (move_to c s i t old new rest) (set t i new) layer p token
        ≡ cell_in c t layer p token
  unfolding move_to
  clone_cell_in layer p token =
      let j = token / c.block_size in
      elim (ℕ_discrete i j) [
        | yes e ↦
            rw
              (
                ap (get_elem? (set t i new)) (sym e)
                    ∙ get_elem?-set_self t i new (get_elem?_lt t i here),
                ap (get_elem? t) (sym e) ∙ here,
                cell_in,
              )
              (ground arith)
        | no ne ↦ elim (Option-cases (get_elem? t j)) [
          | inl out ↦ rw (get_elem?-set_ne t i j new ne, out, cell_in) refl
          | inr (b, at) ↦
              rw (get_elem?-set_ne t i j new ne, at, cell_in) (ground (arith, ne_new s j found at))
        ]
      ]

  clone_other :
      (r layer : ℕ) (p : Plane) (token : ℕ) (u : List ℕ)
      → lookup r c.block_tables ≡ some u
      → cell_in (move_to c s i t old new rest) u layer p token ≡ cell_in c u layer p token
  unfolding move_to
  clone_other r layer p token u g = elim (Option-cases (get_elem? u (token / c.block_size))) [
    | inl out ↦ rw (out, cell_in) refl
    | inr (b, at) ↦ rw (at, cell_in) (ground (arith, ne_new r (token / c.block_size) g at))
  ]

  -- no sequence's tokens change
  clone-cell :
      (r layer : ℕ) (p : Plane) (token : ℕ)
      → cell (move_to c s i t old new rest) r layer p token ≡ cell c r layer p token
  unfolding cell
  clone-cell r layer p token = elim (ℕ_discrete s r) [
    | yes e ↦
        subst (λ r'. cell (move_to c s i t old new rest) r' layer p token ≡ cell c r' layer p token)
          e (rw (clone_table, found, cell) (clone_cell_in layer p token))
    | no ne ↦ elim (Option-cases (lookup r c.block_tables)) [
      | inl unknown ↦ rw (clone_lookup r ne, unknown, cell) refl
      | inr (u, g) ↦ rw (clone_lookup r ne, g, cell) (clone_other r layer p token u g)
    ]
  ]

  move_to-Owns : Owns c (move_to c s i t old new rest) s i new
  move_to-Owns = record {
    valid = move_to-IsValid;
    same = clone-cell;
    size = unfold move_to in refl;
    layers = unfold move_to in refl;
    fill = unfold move_to in refl;
    table = set t i new;
    found = clone_table;
    here = get_elem?-set_self t i new (get_elem?_lt t i here);
    single = omega (arith, clone_refs new, new_free.0, new_hits);
  }

module _ {ℓ} {V : Type ℓ} (c : Cache V) (v : IsValid c) (s i b : ℕ) (t : List ℕ)
    (found : lookup s c.block_tables ≡ some t) (here : get_elem? t i ≡ some b) where
  clone_from-Owned :
      (pool : List ℕ)
      → c.free_blocks ≡ pool
      → 1 < c.block_refcounts b
      → Owned c s i (clone_from c s i pool)
  unfolding clone_from
  clone_from-Owned [] e shared = record { valid = v; same = λ r l p j. refl }
  clone_from-Owned (new ∷ rest) e shared =
      rw (found, here, clone_from) (move_to-Owns c v s i b new t rest found here shared e)

  -- Either the block was alone, or it was cloned, or there was no room for the clone.
  pub own_block-Owned : Owned c s i (own_block c s i b)
  unfolding own_block
  own_block-Owned =
      if_ind (Owned c s i) (ltb 1 (c.block_refcounts b)) _ _
        (λ shared. clone_from-Owned c.free_blocks refl (ground arith))
        (λ alone. record {
          valid = v;
          same = λ r l p j. refl;
          size = refl;
          layers = refl;
          fill = refl;
          table = t;
          found = found;
          here = here;
          single = ground (
            arith,
            v.counted b,
            count-le-total b s t c.block_tables found,
            count-get_elem? t i here,
          );
        })
