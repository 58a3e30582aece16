-- ===== src/KvCache/Invariant.antt =====
-- The invariant of the cache: references count the places in the block tables, and the pool holds
-- each block that has none, once.
pub mod Keeps
use decentralized_llm.Base.{
  ℕ, ◌+◌, ◌*◌, ◌≤◌, ◌<◌, ◌≡◌, refl, none, some, List, [], arith, length, ◌↔◌,
}
use decentralized_llm.Base.Counts.{sign, inside, count, count-ids_below}
use decentralized_llm.Base.Dict.{nat_eq, lookup, contains, IsDict}
use decentralized_llm.Base.Tables.{total}
use decentralized_llm.KvCache.State.{Cache, init}

pub record IsValid {ℓ} {V : Type ℓ} (c : Cache V) : Type ℓ where
  pub sized : 0 < c.block_size
  pub keyed : IsDict c.block_tables
  pub counted : (b : ℕ) → c.block_refcounts b ≡ total b c.block_tables
  pub pool : (b : ℕ) → count b c.free_blocks + sign (c.block_refcounts b) ≡ inside c.max_blocks b
  pub filled : (s : ℕ) → contains s c.block_tables ≡ contains s c.seq_fill
  pub fits :
      (s fill : ℕ) (table : List ℕ)
      → lookup s c.block_tables ≡ some table
      → lookup s c.seq_fill ≡ some fill
      → fill ≤ length table * c.block_size

-- A new cache is valid.
pub init-IsValid {ℓ} :
    {V : Type ℓ} (nil : V) (num_layers block_size max_blocks : ℕ)
    → 0 < block_size
    → IsValid (init nil num_layers block_size max_blocks)
unfolding init total lookup
init-IsValid nil num_layers block_size max_blocks h = record {
  sized = h;
  keyed = tt;
  counted = λ b. refl;
  pool = λ b. omega (arith, count-ids_below max_blocks b);
  filled = λ s. refl;
  fits = λ s fill table found. absurd (ground arith);
}
