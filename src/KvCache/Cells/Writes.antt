-- ===== src/KvCache/Cells/Writes.antt =====
-- `write` sets one token of one sequence, and no other token of any sequence.
use native.Mathlib.Nat.{div-add-mod}
use decentralized_llm.Base.{
  ℕ, ◌+◌, ◌*◌, ◌/◌, ◌%◌, ◌≤◌, ◌≡◌, refl, sym, ap, ◌∙◌, some, none, List, arith, get_elem?, length,
  Result, ok, raise, ltb, leb, if_ind, Option-cases, inl, inr, if◌then◌else◌, ◌==◌, ◌&&◌, Bool,
  true, false, get_elem?_lt,
}
use decentralized_llm.Base.Dict.{nat_eq, lookup, insert, lookup-insert}
use decentralized_llm.KvCache.State.{Plane, keys, values, Cache}
use decentralized_llm.KvCache.Write.{
  write, own_block, put_pair, advance_fill, store_at, store_owned,
}
use decentralized_llm.KvCache.Invariant.{IsValid}
use decentralized_llm.KvCache.Cells.{cell, cell_in, single-seq, single-index}
use decentralized_llm.KvCache.Cells.Clone.{Unchanged, Owned, own_block-Owned}

-- the half of a written pair that a plane holds
abbrev pub half {ℓ} : {V : Type ℓ} → V → V → Plane → V
half key value keys = key
half key value values = value

-- `c'` is valid, and differs from `c` in the one token.
pub record Written {ℓ} {V : Type ℓ} (c c' : Cache V) (s layer token : ℕ) (key value : V)
    : Type ℓ where
  pub valid : IsValid c'
  pub cells :
      (r m : ℕ) (p : Plane) (i : ℕ)
      → cell c' r m p i ≡ (
          if (r == s) && (m == layer) && (i == token)
          then some (half key value p)
          else cell c r m p i)

-- What a call of `write` has done, by how it ended.
abbrev pub Wrote {ℓ} :
    {V : Type ℓ}
    → Cache V
    → (s layer token : ℕ) (key value : V) → Result (Unit {0}) × Cache V
    → Type ℓ
Wrote c s layer token key value (ok _, c') = Written c c' s layer token key value
Wrote c s layer token key value (raise e, c') = Unchanged c c'

same_place : (n i j : ℕ) → i / n ≡ j / n → i % n ≡ j % n → i ≡ j
same_place n i j h k = cc (div-add-mod i n, div-add-mod j n)

if_some {ℓ} :
    {A : Type ℓ} (b : Bool) (x y : A) → some (if b then x else y) ≡ (if b then some x else some y)
if_some true x y = refl
if_some false x y = refl

module _ {ℓ} {V : Type ℓ} (c : Cache V) (v : IsValid c) (s l pos q : ℕ) (t : List ℕ) (key value : V)
    (found : lookup s c.block_tables ≡ some t) (here : get_elem? t (pos / c.block_size) ≡ some q)
    (single : c.block_refcounts q ≡ 1) where
  -- the written slot is the one of the written token
  slot-token :
      (r i b : ℕ) {u : List ℕ}
      → lookup r c.block_tables ≡ some u
      → get_elem? u (i / c.block_size) ≡ some b
      → b ≡ q
      → i % c.block_size ≡ pos % c.block_size
      → (r ≡ s) × (i ≡ pos)
  slot-token r i b {u} g at e off =
      let s-r =
        single-seq c v q single s (pos / c.block_size) found here r (i / c.block_size) g
          (at ∙ ap some e) in
      let same_table : u ≡ t = ground (arith, s-r) in
      let j =
        single-index c v q single s (pos / c.block_size) found here (i / c.block_size)
          (sym (ap (λ w. get_elem? w (i / c.block_size)) same_table) ∙ at ∙ ap some e) in
      (sym s-r, same_place c.block_size i pos (sym j) off)

  token-slot :
      (r i b : ℕ) {u : List ℕ}
      → lookup r c.block_tables ≡ some u
      → get_elem? u (i / c.block_size) ≡ some b
      → r ≡ s
      → i ≡ pos
      → b ≡ q
  token-slot r i b g at e f = cc

  slot_iff :
      (r m i : ℕ) (u : List ℕ) (b : ℕ)
      → lookup r c.block_tables ≡ some u
      → get_elem? u (i / c.block_size) ≡ some b
      → ((m == l) && (b == q) && (i % c.block_size == pos % c.block_size))
        ≡ ((r == s) && (m == l) && (i == pos))
  slot_iff r m i u b g at = ground (arith, slot-token r i b g at, token-slot r i b g at)

  here_in :
      (r i : ℕ) (u : List ℕ)
      → lookup r c.block_tables ≡ some u
      → r ≡ s
      → i ≡ pos
      → get_elem? u (i / c.block_size) ≡ some q
  here_in r i u g e f = cc

  -- a token that its table does not reach is not the written one
  other_out :
      (r m i : ℕ) (u : List ℕ)
      → lookup r c.block_tables ≡ some u
      → get_elem? u (i / c.block_size) ≡ none
      → ((r == s) && (m == l) && (i == pos)) ≡ false
  other_out r m i u g out = ground (arith, here_in r i u g)

  other_seq :
      (r m i : ℕ) → lookup r c.block_tables ≡ none → ((r == s) && (m == l) && (i == pos)) ≡ false
  other_seq r m i unknown = ground arith

  put : Cache V
  put = put_pair c l q (pos % c.block_size) key value

  put-cell_in :
      (r m : ℕ) (p : Plane) (i : ℕ) (u : List ℕ)
      → lookup r c.block_tables ≡ some u
      → cell_in put u m p i ≡ (
          if (r == s) && (m == l) && (i == pos) then some (half key value p) else cell_in c u m p i)
  unfolding put put_pair
  put-cell_in r m p i u g = elim (Option-cases (get_elem? u (i / c.block_size))) [
    | inl out ↦ rw (out, cell_in, other_out r m i u g out) refl
    | inr (b, at) ↦ rw (at, cell_in, slot_iff r m i u b g at) (if_some _ _ _)
  ]

  put_tables : put.block_tables ≡ c.block_tables
  unfolding put put_pair
  put_tables = refl

  put-cell :
      (r m : ℕ) (p : Plane) (i : ℕ)
      → cell put r m p i
        ≡ (if (r == s) && (m == l) && (i == pos) then some (half key value p) else cell c r m p i)
  unfolding cell
  put-cell r m p i = elim (Option-cases (lookup r c.block_tables)) [
    | inl unknown ↦ rw (put_tables, unknown, cell, other_seq r m i unknown) refl
    | inr (u, g) ↦ rw (put_tables, g, cell) (put-cell_in r m p i u g)
  ]

  put-IsValid : IsValid put
  unfolding put put_pair
  put-IsValid = record {
    sized = v.sized;
    keyed = v.keyed;
    counted = v.counted;
    pool = v.pool;
    filled = v.filled;
    fits = v.fits;
  }

  -- the written token is one that the table reaches
  reached : pos + 1 ≤ length t * c.block_size
  reached = grind (arith, get_elem?_lt t (pos / c.block_size) here, v.sized)

  filled_put : Cache V
  filled_put = record put { seq_fill = insert s (pos + 1) put.seq_fill }

  filled_put-IsValid : IsValid filled_put
  unfolding filled_put put put_pair
  filled_put-IsValid = record {
    sized = v.sized;
    keyed = v.keyed;
    counted = v.counted;
    pool = v.pool;
    filled = λ r. ground (arith, v.filled r, lookup-insert s r (pos + 1) c.seq_fill);
    fits = λ r fill u g h.
        ground (arith, reached, v.fits r fill u g, lookup-insert s r (pos + 1) c.seq_fill);
  }

  put-Written : Written c put s l pos key value
  put-Written = record { valid = put-IsValid; cells = put-cell }

  filled_put-Written : Written c filled_put s l pos key value
  filled_put-Written = record {
    valid = filled_put-IsValid;
    cells = λ r m p i. unfold filled_put cell in put-cell r m p i;
  }

  store_at-Wrote : Wrote c s l pos key value (store_at c s l pos q key value)
  unfolding store_at put filled_put
  store_at-Wrote =
      if_ind (Wrote c s l pos key value) (leb c.num_layers l) _ _
        (λ _. record { valid = v; same = λ r m p i. refl })
        (λ _. elim (Option-cases (lookup s c.seq_fill)) [
          | inl unfilled ↦ absurd (ground (arith, v.filled s))
          | inr (fill, g) ↦
              rw (g, advance_fill)
                (if_ind Done (ltb fill (pos + 1)) filled_put put (λ _. filled_put-Written)
                  (λ _. put-Written))
        ])
    where
      Done : Cache V → Type ℓ
      Done c' = Written c c' s l pos key value

module _ {ℓ} {V : Type ℓ} where
  -- a write after a step that changes no token
  Wrote-trans :
      (c c' : Cache V) (s l pos : ℕ) (key value : V) (r : Result (Unit {0}) × Cache V)
      → ((t m : ℕ) (p : Plane) (i : ℕ) → cell c' t m p i ≡ cell c t m p i)
      → Wrote c' s l pos key value r
      → Wrote c s l pos key value r
  Wrote-trans c c' s l pos key value (ok _, d) same w = record {
    valid = w.valid;
    cells = λ t m p i.
        w.cells t m p i
        ∙ ap (λ x. if (t == s) && (m == l) && (i == pos) then some (half key value p) else x)
            (same t m p i);
  }
  Wrote-trans c c' s l pos key value (raise e, d) same w = record {
    valid = w.valid;
    same = λ t m p i. w.same t m p i ∙ same t m p i;
  }

  store_owned-Wrote :
      (c : Cache V) (s l pos : ℕ) (key value : V) (r : Result ℕ × Cache V)
      → Owned c s (pos / c.block_size) r
      → Wrote c s l pos key value (store_owned r s l pos key value)
  unfolding store_owned
  store_owned-Wrote c s l pos key value (raise e, c') o = o
  store_owned-Wrote c s l pos key value (ok q, c') o =
      Wrote-trans c c' s l pos key value (store_at c' s l pos q key value) o.same (
        store_at-Wrote c' o.valid s l pos q o.table key value o.found
          (ap (λ n. get_elem? o.table (pos / n)) o.size ∙ o.here) o.single)

  -- On a valid cache, a call of write that returns sets the token of the sequence in the layer,
  -- and no other token of any sequence, also where sequences share blocks; one that raises changes
  -- no token. Both leave a valid cache.
  pub write-Wrote :
      (c : Cache V) (s l pos : ℕ) (key value : V)
      → IsValid c
      → Wrote c s l pos key value (write c s l pos key value)
  unfolding write
  write-Wrote c s l pos key value v = elim (Option-cases (lookup s c.block_tables)) [
    | inl unknown ↦ rw (unknown, write) unchanged
    | inr (t, found) ↦
        rw (found, write)
          (if_ind (Wrote c s l pos key value) (c.block_size == 0) _ _ (λ _. unchanged)
            λ _. elim (Option-cases (get_elem? t (pos / c.block_size))) [
              | inl out ↦ rw (out, write) unchanged
              | inr (b, here) ↦
                  rw (here, write)
                    (store_owned-Wrote c s l pos key value (own_block c s (pos / c.block_size) b)
                      (own_block-Owned c v s (pos / c.block_size) b t found here))
            ])
  ]
    where
      unchanged : Unchanged c c
      unchanged = record { valid = v; same = λ r m p i. refl }
