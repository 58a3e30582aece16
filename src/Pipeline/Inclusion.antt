-- ===== src/Pipeline/Inclusion.antt =====
-- The Merkle tree over the tokens: it has a root, and a token is included where it stands.
use decentralized_llm.Base.{
  ℕ, zero, suc, ◌^◌, ◌<◌, ◌≡◌, refl, sym, ap, ◌∙◌, inl, inr, Option, none, some, Bool, true, false,
  List, [], ◌∷◌, ◌++◌, arith, ltb, leb, ◌==◌, length, get_elem?, Result, ok, raise, Bool-cases,
}
use decentralized_llm.Base.Bytes.{to_bytes, bytes_beq, bytes_beq_iff, bytes_eq}
use decentralized_llm.Commitment.{Crypto}
use decentralized_llm.Merkle as Merkle
use decentralized_llm.Merkle.Proofs.{get_proof-verify}
use decentralized_llm.Pipeline.{InferenceProof, leaves_of, tree_of, root_of}
use decentralized_llm.Pipeline.Verify.{
  rebuild, caught, included, token_in_tree, verify_token_at_index,
}

-- ids that fit four bytes
abbrev pub AreTokens : List ℕ → Type 0
AreTokens [] = Unit
AreTokens (tid ∷ tids) = (tid < 256 ^ 4) × AreTokens tids

-- the leaves of the tokens
abbrev pub IsLeaves : List ℕ → List (List ℕ) → Type 0
IsLeaves tids leaves =
    (i tid : ℕ) → get_elem? tids i ≡ some tid → get_elem? leaves i ≡ some (to_bytes 4 tid)

IsLeaves-cons :
    (tid : ℕ) (tids : List ℕ) (leaves : List (List ℕ))
    → IsLeaves tids leaves
    → IsLeaves (tid ∷ tids) (to_bytes 4 tid ∷ leaves)
IsLeaves-cons tid tids leaves found zero x here = ground (arith, here)
IsLeaves-cons tid tids leaves found (suc i) x here = found i x here

pub leaves_of-IsLeaves :
    (tids : List ℕ)
    → AreTokens tids
    → (leaves : List (List ℕ)) × (leaves_of tids ≡ ok leaves) × IsLeaves tids leaves
unfolding leaves_of
leaves_of-IsLeaves [] h = ([], refl, λ i tid here. absurd (ground arith))
leaves_of-IsLeaves (tid ∷ tids) h =
    let (leaves, e, found) = leaves_of-IsLeaves tids h.1 in
    let small : ltb tid (256 ^ 4) ≡ true = ground (arith, h.0) in
    (to_bytes 4 tid ∷ leaves, rw e (rw small refl), IsLeaves-cons tid tids leaves found)

-- the token that stands at a place, if one does
abbrev pub is_token : Option ℕ → ℕ → Bool
is_token none token_id = false
is_token (some tid) token_id = tid == token_id

module _ (crypto : Crypto) where
  abbrev pub join_hash : List ℕ → List ℕ → List ℕ
  join_hash l r = crypto.sha256 (l ++ r)

  proof_of-root :
      (i : ℕ) (leaf : Option (List ℕ)) (siblings : Result (List (List ℕ × Merkle.Direction)))
      (root : Option (List ℕ)) (p : Merkle.MerkleProof (List ℕ))
      → Merkle.proof_of i leaf siblings root ≡ ok p
      → root ≡ some p.root
  unfolding Merkle.proof_of
  proof_of-root i none siblings root p found = absurd (ground arith)
  proof_of-root i (some leaf) (raise e) root p found = absurd (ground arith)
  proof_of-root i (some leaf) (ok siblings) none p found = absurd (ground arith)
  proof_of-root i (some leaf) (ok siblings) (some root) p found = ap some (ap root_in found)
    where
      root_in : Result (Merkle.MerkleProof (List ℕ)) → List ℕ
      root_in (ok q) = q.root
      root_in (raise e) = root

  get_proof-root :
      (t : Merkle.Levels (List ℕ)) (i : ℕ) (p : Merkle.MerkleProof (List ℕ))
      → Merkle.get_proof t i ≡ ok p
      → get_elem? t.top 0 ≡ some p.root
  unfolding Merkle.get_proof
  get_proof-root t i p found = elim (Bool-cases (leb (length (Merkle.first_level t)) i)) [
    | inl outside ↦ absurd (ground (arith, outside))
    | inr inside ↦
        proof_of-root i (get_elem? (Merkle.first_level t) i) (Merkle.siblings_up t.lower i)
          (get_elem? t.top 0) p (ground (arith, inside))
  ]

  pub tree_of-root :
      (tid : ℕ) (tids : List ℕ) (leaves : List (List ℕ))
      → IsLeaves (tid ∷ tids) leaves
      → (t : Merkle.Levels (List ℕ)) × (root : List ℕ) × (tree_of crypto leaves ≡ ok t)
        × (root_of crypto (ok t) ≡ ok root)
        × ((i x : ℕ)
            → get_elem? (tid ∷ tids) i ≡ some x
            → (p : Merkle.MerkleProof (List ℕ)) × (Merkle.get_proof t i ≡ ok p)
              × (Merkle.verify join_hash p ≡ true))
  unfolding tree_of root_of
  tree_of-root tid tids [] found = absurd (ground (arith, found 0 tid refl))
  tree_of-root tid tids (leaf ∷ leaves) found =
      let (t, made, proofs) = get_proof-verify join_hash crypto.sha256 leaf leaves in
      let (p, first, of_leaf, good) = proofs 0 leaf refl in
      (
        t,
        p.root,
        made,
        rw (get_proof-root t 0 p first, root_of) refl,
        λ i x here.
            let (q, proved, of_token, passes) = proofs i (to_bytes 4 x) (found i x here) in
            (q, proved, passes),
      )

  token_in_tree-is_token :
      (proof : InferenceProof) (token_id i : ℕ) (found : Option ℕ) (t : Merkle.Levels (List ℕ))
      → root_of crypto (ok t) ≡ ok proof.output_merkle_root
      → ((x : ℕ)
          → found ≡ some x
          → (p : Merkle.MerkleProof (List ℕ)) × (Merkle.get_proof t i ≡ ok p)
            × (Merkle.verify join_hash p ≡ true))
      → token_in_tree crypto proof token_id i found (ok t) ≡ ok (is_token found token_id)
  unfolding token_in_tree caught included
  token_in_tree-is_token proof token_id i none t rooted proofs = refl
  token_in_tree-is_token proof token_id i (some x) t rooted proofs =
      let (p, proved, passes) = proofs x refl in
      let same : bytes_beq proof.output_merkle_root proof.output_merkle_root ≡ true =
        (bytes_beq_iff proof.output_merkle_root proof.output_merkle_root).1 refl in
      elim (Bool-cases (x == token_id)) [
        | inl hit ↦ rw hit (rw (proved, rooted) (rw (passes, same) refl))
        | inr miss ↦ rw miss refl
      ]

  -- For at least one token, each of four bytes, and a proof with the root of their tree, verifying
  -- a token at an index returns, and returns True exactly if the token stands at that index.
  pub verify_token_at_index-is_token :
      (proof : InferenceProof) (tid : ℕ) (tids : List ℕ) (token_id i : ℕ)
      → AreTokens (tid ∷ tids)
      → root_of crypto (rebuild crypto (leaves_of (tid ∷ tids))) ≡ ok proof.output_merkle_root
      → verify_token_at_index crypto proof token_id i (tid ∷ tids)
        ≡ ok (is_token (get_elem? (tid ∷ tids) i) token_id)
  unfolding verify_token_at_index rebuild
  verify_token_at_index-is_token proof tid tids token_id i small rooted =
      let (leaves, cut, found) = leaves_of-IsLeaves (tid ∷ tids) small in
      let (t, root, made, its_root, proofs) = tree_of-root tid tids leaves found in
      let tree : rebuild crypto (leaves_of (tid ∷ tids)) ≡ ok t = ap (rebuild crypto) cut ∙ made in
      ap (token_in_tree crypto proof token_id i (get_elem? (tid ∷ tids) i)) tree
      ∙ token_in_tree-is_token proof token_id i (get_elem? (tid ∷ tids) i) t
          (ap (root_of crypto) (sym tree) ∙ rooted) (λ x here. proofs i x here)
