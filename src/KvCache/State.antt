-- ===== src/KvCache/State.antt =====
-- node/kv_cache.py: `PagedKVCache`. A tensor is a value of the type `V`; the store maps a layer, a
-- plane, a block and an offset to one. `_free_blocks` is a set: a list whose first element `pop`
-- takes. `_block_refcounts` is a `defaultdict(int)`: a function, 0 where no key is.
use decentralized_llm.Base.{
  ℕ, zero, suc, ◌+◌, ◌-◌, ◌/◌, List, [], ◌∷◌, key_error, Result, ok, raise, ℤ, pos, negsuc,
}
use decentralized_llm.Base.Counts.{ids_below, set_add, update}
use decentralized_llm.Base.Dict.{nat_eq, Dict}

-- the second dimension of `_store`: 0 holds the keys, 1 the values
pub data Plane : Type 0 where
  keys values : Plane

pub record Cache {ℓ} (V : Type ℓ) : Type ℓ where
  pub num_layers : ℕ
  pub block_size : ℕ
  pub max_blocks : ℕ
  pub store : (layer : ℕ) → Plane → (block offset : ℕ) → V
  pub free_blocks : List ℕ
  pub block_tables : Dict ℕ (List ℕ)
  pub block_refcounts : ℕ → ℕ
  pub seq_fill : Dict ℕ ℕ

-- `math.ceil(n / size)`, for a size that is not 0; `range` of a negative number is empty
unfoldable pub ceil_blocks : ℤ → ℕ → ℕ
ceil_blocks (pos n) size = (n + (size - 1)) / size
ceil_blocks (negsuc n) size = 0

-- the loop of `allocate`: pop a block, append it to the table, count the reference
unfoldable pub grab : ℕ → List ℕ → (ℕ → ℕ) → Result (List ℕ) × List ℕ × (ℕ → ℕ)
grab zero free refs = (ok [], free, refs)
grab (suc n) [] refs = (raise key_error, [], refs)
grab (suc n) (b ∷ free) refs =
    let (r, free', refs') = grab n free (update refs b (refs b + 1)) in
    (elim r [ ok blocks ↦ ok (b ∷ blocks) | raise e ↦ raise e ], free', refs')

-- one reference dropped: the last one frees the block. A count of 0 would turn negative there, and
-- the block would not be freed.
unfoldable pub release : ℕ → List ℕ → (ℕ → ℕ) → List ℕ × (ℕ → ℕ)
release b free refs = elim (refs b) [
  | zero ↦ (free, refs)
  | suc zero ↦ (set_add b free, update refs b 0)
  | suc (suc n) ↦ (free, update refs b (suc n))
]

-- the loop of `free`
unfoldable pub release_all : List ℕ → List ℕ → (ℕ → ℕ) → List ℕ × (ℕ → ℕ)
release_all [] free refs = (free, refs)
release_all (b ∷ table) free refs =
    let (free', refs') = release b free refs in release_all table free' refs'

-- the loop of `share_prefix`
unfoldable pub retain_all : List ℕ → (ℕ → ℕ) → ℕ → ℕ
retain_all [] refs = refs
retain_all (b ∷ table) refs = retain_all table (update refs b (refs b + 1))

module _ {ℓ} {V : Type ℓ} where
  -- `__init__`, for the tensor `nil` of zeros
  unfoldable pub init : (nil : V) (num_layers block_size max_blocks : ℕ) → Cache V
  init nil num_layers block_size max_blocks = record {
    num_layers = num_layers;
    block_size = block_size;
    max_blocks = max_blocks;
    store = λ layer plane block offset. nil;
    free_blocks = ids_below max_blocks;
    block_tables = [];
    block_refcounts = λ b. 0;
    seq_fill = [];
  }
