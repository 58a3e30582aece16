-- ===== src/Pipeline/Verify.antt =====
-- node/verification_pipeline.py: `ProofVerifier` and `SettlementVerifier`.
use decentralized_llm.Base.{
  ℕ, Option, none, some, Bool, true, false, ◌&&◌, List, [], ◌∷◌, ◌++◌, ◌==◌, if◌then◌else◌, length,
  get_elem?, Error, Result, ok, raise, value_error, memory_error, key_error, index_error,
  zero_division, runtime_error, eof_error, struct_error, timeout_error, cancelled_error,
  overflow_error, type_error,
}
use decentralized_llm.Base.Bytes.{bytes_beq, bytes_eq}
use decentralized_llm.Commitment.{Crypto, default_sketch_seed, verify_commitment, verify_spot_check}
use decentralized_llm.Commitment.Votes.{count_votes, winner_of}
use decentralized_llm.Merkle as Merkle
use decentralized_llm.Pipeline.{InferenceProof, leaves_of, tree_of, root_of}

-- why a job is settled, or not
pub data Reason : Type 0 where
  no_proof job_id_mismatch invalid_commitment spot_check_failed verified : Reason

module _ (crypto : Crypto) where
  -- `_rebuild_merkle_tree`
  unfoldable pub rebuild : Result (List (List ℕ)) → Result (Merkle.Levels (List ℕ))
  unfolding tree_of
  rebuild (raise e) = raise e
  rebuild (ok leaves) = tree_of crypto leaves

  -- the root against that of the proof
  unfoldable pub same_root : InferenceProof → Result (List ℕ) → Result Bool
  same_root proof (raise e) = raise e
  same_root proof (ok root) = ok (bytes_beq root proof.output_merkle_root)

  -- the second check of `verify_proof`
  unfoldable pub verify_tokens : InferenceProof → Option (List ℕ) → Result Bool
  unfolding same_root root_of rebuild leaves_of
  verify_tokens proof none = ok true
  verify_tokens proof (some []) = ok false
  verify_tokens proof (some (tid ∷ tids)) =
      same_root proof (root_of crypto (rebuild (leaves_of (tid ∷ tids))))

  unfoldable pub verify_proof :
      InferenceProof
      → (expected_input_hash public_key : List ℕ) → (output_token_ids : Option (List ℕ))
      → Result Bool
  unfolding verify_tokens verify_commitment
  verify_proof proof expected_input_hash public_key output_token_ids =
      if verify_commitment crypto proof.commitment expected_input_hash public_key
      then verify_tokens proof output_token_ids
      else ok false

  -- what `verify_token_at_index` does with an exception
  unfoldable pub caught : Error → Result Bool
  caught index_error = ok false
  caught value_error = ok false
  caught memory_error = raise memory_error
  caught key_error = raise key_error
  caught zero_division = raise zero_division
  caught runtime_error = raise runtime_error
  caught eof_error = raise eof_error
  caught struct_error = raise struct_error
  caught timeout_error = raise timeout_error
  caught cancelled_error = raise cancelled_error
  caught type_error = raise type_error
  caught overflow_error = raise overflow_error

  -- once the proof of the token and the root are there
  unfoldable pub included :
      InferenceProof → Result (Merkle.MerkleProof (List ℕ)) → Result (List ℕ) → Result Bool
  unfolding caught
  included proof (ok p) (ok root) =
      ok
        (Merkle.verify (λ l r. crypto.sha256 (l ++ r)) p && bytes_beq root proof.output_merkle_root)
  included proof (ok p) (raise e) = caught e
  included proof (raise e) root = caught e

  unfoldable pub token_in_tree :
      InferenceProof
      → (token_id token_index : ℕ) → (found : Option ℕ) → Result (Merkle.Levels (List ℕ))
      → Result Bool
  unfolding included caught root_of
  token_in_tree proof token_id token_index found (raise e) = caught e
  token_in_tree proof token_id token_index none (ok t) = caught index_error
  token_in_tree proof token_id token_index (some tid) (ok t) =
      if tid == token_id
      then included proof (Merkle.get_proof t token_index) (root_of crypto (ok t))
      else ok false

  -- `verify_token_at_index`, for an index that is not negative
  unfoldable pub verify_token_at_index :
      InferenceProof → (token_id token_index : ℕ) → (output_token_ids : List ℕ) → Result Bool
  unfolding token_in_tree rebuild leaves_of
  verify_token_at_index proof token_id token_index [] = ok false
  verify_token_at_index proof token_id token_index (tid ∷ tids) =
      token_in_tree proof token_id token_index (get_elem? (tid ∷ tids) token_index)
        (rebuild (leaves_of (tid ∷ tids)))

  unfoldable pub spot_check : InferenceProof → (fresh_activation : List ℕ) → Bool
  unfolding verify_spot_check
  spot_check proof fresh_activation =
      verify_spot_check crypto proof.commitment fresh_activation default_sketch_seed

  -- `SettlementVerifier`

  unfoldable pub settle_checked :
      InferenceProof → (fresh_activation : Option (List ℕ)) → Result Bool → Result (Bool × Reason)
  unfolding spot_check
  settle_checked proof fresh_activation (raise e) = raise e
  settle_checked proof fresh_activation (ok false) = ok (false, invalid_commitment)
  settle_checked proof none (ok true) = ok (true, verified)
  settle_checked proof (some fresh) (ok true) =
      if spot_check proof fresh then ok (true, verified) else ok (false, spot_check_failed)

  unfoldable pub should_settle :
      (job_id : ℕ)
      → Option InferenceProof
      → (public_key expected_input_hash : List ℕ)
      → (output_token_ids fresh_activation : Option (List ℕ)) → Result (Bool × Reason)
  unfolding settle_checked verify_proof
  should_settle job_id none public_key expected_input_hash output_token_ids fresh_activation =
      ok (true, no_proof)
  should_settle job_id (some proof) public_key expected_input_hash output_token_ids
        fresh_activation =
      if proof.job_id == job_id
      then settle_checked proof fresh_activation
          (verify_proof proof expected_input_hash public_key output_token_ids)
      else ok (false, job_id_mismatch)

-- `aggregate_peer_proofs`: the numerator and the denominator of the score
unfoldable pub roots : List InferenceProof → List (List ℕ)
roots [] = []
roots (p ∷ ps) = p.output_merkle_root ∷ roots ps

unfoldable pub aggregate_peer_proofs : List InferenceProof → ℕ × ℕ
unfolding roots count_votes winner_of
aggregate_peer_proofs ps = elim (winner_of (count_votes (roots ps) [])) [
  | none ↦ (0, 1)
  | some winner ↦ (winner.1, length ps)
]
