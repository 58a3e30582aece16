-- ===== src/Merkle.antt =====
-- node/merkle.py: `MerkleTree` and `MerkleProof`, over any type of hashes. The two functions of
-- hashlib, the hash of a leaf and the hash of two joined hashes, are parameters.

mod Tests
pub mod Binding
pub mod Padding
pub mod Climb
pub mod Proofs
use Prim.Native.Nat.{min}
use decentralized_llm.Base.{
  ℕ, zero, suc, ◌+◌, ◌*◌, ◌-◌, ◌/◌, ◌%◌, Option, none, some, Bool, List, [], ◌∷◌, ◌++◌, map, ltb,
  leb, ◌==◌, if◌then◌else◌, length, get_elem?, replicate, Result, ok, raise, index_error,
  value_error,
}
use decentralized_llm.Base.Dict.{Eq}

-- on which side the sibling stands
pub data Direction : Type 0 where
  left right : Direction

pub record MerkleProof (H : Type 0) : Type 0 where
  pub leaf_index : ℕ
  pub leaf_hash : H
  pub siblings : List (H × Direction)
  pub root : H

-- `_tree[:-1]` and `_tree[-1]`: the levels from the leaf hashes up, and the last of them
pub record Levels (H : Type 0) : Type 0 where
  pub lower : List (List H)
  pub top : List H

-- the loop of `__init__`, on fuel: double `n` until it is not below the number of leaves
unfoldable pub pad_size : (fuel n leaves : ℕ) → ℕ
pad_size zero n leaves = n
pad_size (suc fuel) n leaves =
    let next = pad_size fuel (n * 2) leaves in if ltb n leaves then next else n

-- `leaves + [leaves[-1]] * (n - len(leaves))`
unfoldable pub pad : {L : Type 0} → ℕ → List L → List L
pad n leaves = elim (get_elem? leaves (length leaves - 1)) [
  | none ↦ leaves
  | some l ↦ leaves ++ replicate (n - length leaves) l
]

module _ {H : Type 0} where
  -- the sibling of a place of a level, and where it stands
  unfoldable pub sibling_of : List H → (idx : ℕ) → Result (H × Direction)
  sibling_of level idx =
      if idx % 2 == 0
      then elim (get_elem? level (min (idx + 1) (length level - 1))) [
        | none ↦ raise index_error
        | some sib ↦ ok (sib, right)
      ]
      else elim (get_elem? level (idx - 1)) [ none ↦ raise index_error | some sib ↦ ok (sib, left) ]

  unfoldable pub add_sibling :
      Result (H × Direction) → Result (List (H × Direction)) → Result (List (H × Direction))
  add_sibling (ok s) (ok siblings) = ok (s ∷ siblings)
  add_sibling (ok s) (raise e) = raise e
  add_sibling (raise e) rest = raise e

  -- the loop of `get_proof`
  unfoldable pub siblings_up : List (List H) → (idx : ℕ) → Result (List (H × Direction))
  unfolding sibling_of add_sibling
  siblings_up [] idx = ok []
  siblings_up (level ∷ levels) idx =
      add_sibling (sibling_of level idx) (siblings_up levels (idx / 2))

module _ {H : Type 0} (combine : H → H → H) where
  -- the next level of `_build`; a level of the loop has an even length
  unfoldable pub pairs : List H → List H
  pairs [] = []
  pairs (x ∷ []) = []
  pairs (x ∷ y ∷ xs) = combine x y ∷ pairs xs

  -- `_build`, on fuel: while a level has more than one hash
  unfoldable pub build : (fuel : ℕ) → List H → Levels H
  unfolding pairs
  build zero level = record { lower = []; top = level }
  build (suc fuel) level =
      let rest = build fuel (pairs level) in
      if ltb 1 (length level)
      then record { lower = level ∷ rest.lower; top = rest.top }
      else record { lower = []; top = level }

  -- the loop of `verify`
  unfoldable pub climb : H → List (H × Direction) → H
  climb current [] = current
  climb current ((sibling, left) ∷ siblings) = climb (combine sibling current) siblings
  climb current ((sibling, right) ∷ siblings) = climb (combine current sibling) siblings

  -- `verify`, for a test of equality of hashes
  unfoldable pub verify : ⦃e : Eq H⦄ → MerkleProof H → Bool
  unfolding climb
  verify ⦃e⦄ p = e.beq (climb p.leaf_hash p.siblings) p.root

  module _ {L : Type 0} (hash : L → H) where
    -- the padded leaves, hashed
    unfoldable pub leaf_hashes : List L → List H
    unfolding pad pad_size
    leaf_hashes leaves = map hash (pad (pad_size (length leaves) 1 (length leaves)) leaves)

    -- `__init__`
    unfoldable pub make : List L → Result (Levels H)
    unfolding leaf_hashes build
    make [] = raise value_error
    make (l ∷ leaves) = let level = leaf_hashes (l ∷ leaves) in ok (build (length level) level)

-- the first level of the tree
unfoldable pub first_level : {H : Type 0} → Levels H → List H
first_level t = elim t.lower [ [] ↦ t.top | level ∷ levels ↦ level ]

-- the proof, once its parts are found
unfoldable pub proof_of :
    {H : Type 0}
    → (leaf_index : ℕ) → Option H
    → Result (List (H × Direction))
    → Option H
    → Result (MerkleProof H)
proof_of leaf_index (some leaf_hash) (ok siblings) (some root) =
    ok (record { leaf_index = leaf_index; leaf_hash = leaf_hash; siblings = siblings; root = root })
proof_of leaf_index (some leaf_hash) (ok siblings) none = raise index_error
proof_of leaf_index (some leaf_hash) (raise e) root = raise e
proof_of leaf_index none siblings root = raise index_error

-- `get_proof`, for an index that is not negative
unfoldable pub get_proof : {H : Type 0} → Levels H → (leaf_index : ℕ) → Result (MerkleProof H)
unfolding proof_of siblings_up first_level
get_proof t leaf_index =
    if leb (length (first_level t)) leaf_index
    then raise index_error
    else proof_of leaf_index (get_elem? (first_level t) leaf_index) (siblings_up t.lower leaf_index)
        (get_elem? t.top 0)
