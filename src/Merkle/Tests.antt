-- ===== src/Merkle/Tests.antt =====
-- A tree over three leaves, with numbers for hashes.
use decentralized_llm.Base.{ℕ, ◌+◌, ◌*◌, ◌≡◌, refl, some, [], ◌∷◌, true, ok, get_elem?, arith}
use decentralized_llm.Base.Dict.{nat_eq}
use decentralized_llm.Merkle.{left, right, MerkleProof, Levels, make, verify, get_proof}
use decentralized_llm.Merkle.Binding.{Collision, sides, verify-Collision}
use decentralized_llm.Merkle.Proofs.{get_proof-verify}

-- stand-ins for the hash functions
abbrev mix : ℕ → ℕ → ℕ
mix a b = a * 10 + b

abbrev next : ℕ → ℕ
next n = n + 1

abbrev tree : Levels ℕ
tree = record { lower = (2 ∷ 3 ∷ 4 ∷ 4 ∷ []) ∷ (23 ∷ 44 ∷ []) ∷ []; top = 274 ∷ [] }

makes_tree : make mix next (1 ∷ 2 ∷ 3 ∷ []) ≡ ok tree
unfolding make
makes_tree = refl

-- the padding has a proof too
proves_padding :
    get_proof tree 3
    ≡ ok (record {
      leaf_index = 3;
      leaf_hash = 4;
      siblings = (4, left) ∷ (23, left) ∷ [];
      root = 274;
    })
unfolding get_proof
proves_padding = refl

get_proof-verify_example :
    (t : Levels ℕ) × (make mix next (1 ∷ 2 ∷ 3 ∷ []) ≡ ok t)
    × ((i x : ℕ)
        → get_elem? (1 ∷ 2 ∷ 3 ∷ []) i ≡ some x
        → (p : MerkleProof ℕ) × (get_proof t i ≡ ok p)
          × (p.leaf_hash ≡ next x)
          × (verify mix p ≡ true))
get_proof-verify_example = get_proof-verify mix next 1 (2 ∷ 3 ∷ [])

-- a hash function that forgets its left argument collides
abbrev weak : ℕ → ℕ → ℕ
weak a b = b

verify-Collision_example : Collision weak
unfolding sides verify
verify-Collision_example =
    verify-Collision weak
      (record { leaf_index = 0; leaf_hash = 1; siblings = (5, right) ∷ []; root = 5 })
      (record { leaf_index = 0; leaf_hash = 2; siblings = (5, right) ∷ []; root = 5 }) refl refl
      (λ h. omega (arith, h)) refl refl
