-- ===== src/Pipeline.antt =====
-- node/verification_pipeline.py: `InferenceProof` and `ProofBuilder`, on the commitments and the Merkle
-- trees. A root stands for its hex text.
mod Tests
pub mod Verify
pub mod Settling
pub mod Safety
pub mod Inclusion
use decentralized_llm.Base.{
  ℕ, zero, suc, ◌+◌, ◌*◌, ◌/◌, ◌%◌, ◌^◌, Option, none, some, Bool, true, false, not, ◌&&◌, List, [],
  ◌∷◌, ◌++◌, map, ltb, ◌==◌, if◌then◌else◌, length, get_elem?, Result, ok, raise, overflow_error,
  index_error,
}
use decentralized_llm.Base.Bytes.{to_bytes, bytes_beq, bytes_eq}
use decentralized_llm.Commitment.{
  ComputeCommitment, Crypto, default_sketch_seed, create_commitment, verify_commitment,
  verify_spot_check,
}
use decentralized_llm.Commitment.Votes.{count_votes, winner_of}
use decentralized_llm.Merkle as Merkle

pub record InferenceProof : Type 0 where
  pub job_id : ℕ
  pub commitment : ComputeCommitment
  pub output_merkle_root : List ℕ
  pub token_count : ℕ
  pub node_id : List ℕ
  pub timestamp : List ℕ
  pub proof_version : ℕ

-- `tid.to_bytes(4, "big")` for each id
unfoldable pub leaves_of : (output_token_ids : List ℕ) → Result (List (List ℕ))
unfolding to_bytes
leaves_of [] = ok []
leaves_of (tid ∷ tids) = elim (leaves_of tids) [
  | raise e ↦ raise e
  | ok leaves ↦ if ltb tid (256 ^ 4) then ok (to_bytes 4 tid ∷ leaves) else raise overflow_error
]

-- `b"".join(leaves)`
unfoldable pub join : List (List ℕ) → List ℕ
join [] = []
join (leaf ∷ leaves) = leaf ++ join leaves

-- `str(job_id)`: the decimal digits, on fuel
unfoldable pub digits : (fuel n : ℕ) → List ℕ → List ℕ
digits zero n after = after
digits (suc fuel) n after =
    let rest = digits fuel (n / 10) ((n % 10 + 48) ∷ after) in
    if ltb n 10 then (n + 48) ∷ after else rest

unfoldable pub str : ℕ → List ℕ
unfolding digits
str n = digits (suc n) n []

module _ (crypto : Crypto) where
  -- `MerkleTree(leaves)`, with the two hashes of node/merkle.py
  unfoldable pub tree_of : List (List ℕ) → Result (Merkle.Levels (List ℕ))
  tree_of leaves = Merkle.make (λ l r. crypto.sha256 (l ++ r)) crypto.sha256 leaves

  -- `tree.root`
  unfoldable pub root_of : Result (Merkle.Levels (List ℕ)) → Result (List ℕ)
  root_of (raise e) = raise e
  root_of (ok t) = elim (get_elem? t.top 0) [ none ↦ raise index_error | some root ↦ ok root ]

  -- `build_proof`, once the commitment and the root are there
  unfoldable pub proof_of :
      (job_id token_count : ℕ) (node_id timestamp : List ℕ)
      → Result ComputeCommitment
      → Result (List ℕ)
      → Result InferenceProof
  proof_of job_id token_count node_id timestamp (raise e) root = raise e
  proof_of job_id token_count node_id timestamp (ok commitment) (raise e) = raise e
  proof_of job_id token_count node_id timestamp (ok commitment) (ok root) = ok (record {
    job_id = job_id;
    commitment = commitment;
    output_merkle_root = root;
    token_count = token_count;
    node_id = node_id;
    timestamp = timestamp;
    proof_version = 1;
  })

  unfoldable pub build_from :
      (private_key : List ℕ) (job_id : ℕ) (input_ids activation_sample node_id : List ℕ)
      → (token_count : ℕ) (created timestamp : List ℕ) → Result (List (List ℕ))
      → Result InferenceProof
  unfolding proof_of root_of tree_of join str create_commitment
  build_from private_key job_id input_ids activation_sample node_id token_count created timestamp
        (raise e) =
      raise e
  build_from private_key job_id input_ids activation_sample node_id token_count created timestamp
        (ok leaves) =
      proof_of job_id token_count node_id timestamp
        (create_commitment crypto (str job_id) input_ids (join leaves) activation_sample private_key
          node_id default_sketch_seed created)
        (root_of (tree_of leaves))

  -- `build_proof`: the commitment has the time `created`, the proof the time `timestamp`
  unfoldable pub build_proof :
      (private_key : List ℕ) (job_id : ℕ)
      (input_ids output_token_ids activation_sample node_id created timestamp : List ℕ)
      → Result InferenceProof
  unfolding build_from leaves_of
  build_proof private_key job_id input_ids output_token_ids activation_sample node_id created
        timestamp =
      build_from private_key job_id input_ids activation_sample node_id (length output_token_ids)
        created timestamp (leaves_of output_token_ids)
