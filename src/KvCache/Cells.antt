-- ===== src/KvCache/Cells.antt =====
-- The abstract view of the cache: to each sequence its own array of tokens. The block that a write
-- goes to has one reference, so it stands at one place of one table.
use native.Mathlib.Decide.{dec_lt, ℕ_discrete}
pub mod Clone
pub mod Sharing
pub mod Returns
pub mod Writes
pub mod Reads
use Prim.Native.Nat.{suc}
use mathlib.Core.Option
use decentralized_llm.Base.{
  ℕ, ◌/◌, ◌%◌, ◌+◌, ◌<◌, ◌≤◌, ◌≡◌, ◌≢◌, refl, Option, none, some, List, arith, get_elem?,
}
use decentralized_llm.Base.Counts.{count, count-get_elem?, count-get_elem?_ne}
use decentralized_llm.Base.Dict.{nat_eq, lookup}
use decentralized_llm.Base.Tables.{total, count-le-total, count_add-le-total}
use decentralized_llm.KvCache.State.{Plane, Cache}
use decentralized_llm.KvCache.Invariant.{IsValid}

module _ {ℓ} {V : Type ℓ} where
  -- a slot of a block, if there is a block
  abbrev pub fetch : (ℕ → ℕ → V) → Option ℕ → ℕ → Option V
  fetch f none offset = none
  fetch f (some b) offset = some (f b offset)

  -- what a table says of a token
  abbrev pub cell_in : Cache V → List ℕ → (layer : ℕ) → Plane → (token : ℕ) → Option V
  cell_in c table layer plane token =
      fetch (c.store layer plane) (get_elem? table (token / c.block_size)) (token % c.block_size)

  -- the token of a sequence, if its table reaches it
  unfoldable pub cell : Cache V → (seq_id layer : ℕ) → Plane → (token : ℕ) → Option V
  cell c seq_id layer plane token = elim (lookup seq_id c.block_tables) [
    | none ↦ none
    | some table ↦ cell_in c table layer plane token
  ]

  module _ (c : Cache V) (v : IsValid c) (q : ℕ) (single : c.block_refcounts q ≡ 1) (s i : ℕ)
      {t : List ℕ} (found : lookup s c.block_tables ≡ some t) (here : get_elem? t i ≡ some q) where
    -- A block with one reference stands in no other table.
    pub single-seq :
        (r j : ℕ) {u : List ℕ} → lookup r c.block_tables ≡ some u → get_elem? u j ≡ some q → s ≡ r
    single-seq r j {u} g k = elim (ℕ_discrete s r) [
      | yes e ↦ e
      | no ne ↦ absurd (
          omega (
            arith,
            count_add-le-total q s r t u c.block_tables ne found g,
            count-get_elem? t i here,
            count-get_elem? u j k,
            v.counted q,
          ))
    ]

    -- A block with one reference stands once in its table.
    pub single-index : (j : ℕ) → get_elem? t j ≡ some q → i ≡ j
    single-index j k = elim (dec_lt i j) [
      | yes lt ↦ absurd (
          omega (
            arith,
            count-get_elem?_ne t i j here k lt,
            count-le-total q s t c.block_tables found,
            v.counted q,
          ))
      | no ge ↦ elim (dec_lt j i) [
        | yes gt ↦ absurd (
            omega (
              arith,
              count-get_elem?_ne t j i k here gt,
              count-le-total q s t c.block_tables found,
              v.counted q,
            ))
        | no le ↦ omega arith
      ]
    ]
