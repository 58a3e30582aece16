-- ===== src/Pipeline/Settling.antt =====
-- The proof of an honest node settles its job.
use decentralized_llm.Base.{ℕ, ◌≡◌, refl, ap, ◌∙◌, some, true, List, ◌∷◌, length, ok, ◌==◌, ==_iff}
use decentralized_llm.Base.Bytes.{bytes_beq_iff}
use decentralized_llm.Commitment.{
  Crypto, default_sketch_seed, sketch, sketch_dim, sign, verify_commitment, verify_spot_check,
}
use decentralized_llm.Commitment.Similar.{IsFiniteSketch}
use decentralized_llm.Commitment.Signing.{
  Lawful, IsVerifyingKey, create_commitment-verify_commitment,
}
use decentralized_llm.Pipeline.{
  InferenceProof, leaves_of, join, str, tree_of, root_of, proof_of, build_from, build_proof,
}
use decentralized_llm.Pipeline.Verify.{
  verified, rebuild, same_root, verify_tokens, verify_proof, spot_check, settle_checked,
  should_settle,
}
use decentralized_llm.Pipeline.Inclusion.{AreTokens, leaves_of-IsLeaves, tree_of-root}

module _ (crypto : Crypto) (lawful : Lawful crypto) where
  verify_tokens-root :
      (proof : InferenceProof) (tid : ℕ) (tids : List ℕ)
      → root_of crypto (rebuild crypto (leaves_of (tid ∷ tids))) ≡ ok proof.output_merkle_root
      → verify_tokens crypto proof (some (tid ∷ tids)) ≡ ok true
  unfolding verify_tokens same_root
  verify_tokens-root proof tid tids rooted =
      ap (same_root crypto proof) rooted
      ∙ ap ok ((bytes_beq_iff proof.output_merkle_root proof.output_merkle_root).1 refl)

  should_settle-good :
      (proof : InferenceProof) (public_key input_hash activation : List ℕ) (tid : ℕ) (tids : List ℕ)
      → verify_commitment crypto proof.commitment input_hash public_key ≡ true
      → verify_tokens crypto proof (some (tid ∷ tids)) ≡ ok true
      → verify_spot_check crypto proof.commitment activation default_sketch_seed ≡ true
      → should_settle crypto proof.job_id
          (some proof)
          public_key
          input_hash
          (some (tid ∷ tids))
          (some activation)
        ≡ ok (true, verified)
  unfolding should_settle settle_checked verify_proof spot_check
  should_settle-good proof public_key input_hash activation tid tids valid rooted checked =
      let own : (proof.job_id == proof.job_id) ≡ true = (==_iff proof.job_id proof.job_id).1 refl in
      rw own (rw valid (rw (rooted, settle_checked) (rw checked refl)))

  -- With lawful libraries, a key that signs, activations whose sketch is of finite floats and at
  -- least one token, each of four bytes, building a proof returns, and the job is settled as
  -- verified with that proof, the hash of its input, its tokens and its activations.
  pub build_proof-should_settle :
      (private_key public_key : List ℕ) (job_id : ℕ) (input_ids : List ℕ) (tid : ℕ) (tids : List ℕ)
      (activation node_id created timestamp : List ℕ)
      → IsVerifyingKey crypto private_key public_key
      → ((payload : List ℕ)
          → (signature : List ℕ) × (sign crypto payload private_key ≡ ok signature))
      → AreTokens (tid ∷ tids)
      → IsFiniteSketch crypto lawful.arithmetic
          (sketch crypto default_sketch_seed sketch_dim activation)
      → (proof : InferenceProof) × (build_proof crypto private_key job_id input_ids
            (tid ∷ tids)
            activation
            node_id
            created
            timestamp
          ≡ ok proof)
        × (should_settle crypto job_id
              (some proof)
              public_key
              (crypto.sha256 input_ids)
              (some (tid ∷ tids))
              (some activation)
            ≡ ok (true, verified))
  unfolding build_proof build_from proof_of rebuild
  build_proof-should_settle private_key public_key job_id input_ids tid tids activation node_id
        created timestamp key signs small finite =
      let (leaves, cut, found) = leaves_of-IsLeaves (tid ∷ tids) small in
      let (t, root, made, its_root, proofs) = tree_of-root crypto tid tids leaves found in
      let (c, committed, valid, checked) =
        create_commitment-verify_commitment crypto lawful (str job_id) input_ids (join leaves)
          activation private_key public_key node_id default_sketch_seed created key signs finite in
      let rooted : root_of crypto (tree_of crypto leaves) ≡ ok root =
        ap (root_of crypto) made ∙ its_root in
      let proof : InferenceProof = record {
        job_id = job_id;
        commitment = c;
        output_merkle_root = root;
        token_count = length (tid ∷ tids);
        node_id = node_id;
        timestamp = timestamp;
        proof_version = 1;
      } in
      (
        proof,
        rw (cut, build_from) (rw (committed, proof_of) (rw (rooted, proof_of) refl)),
        should_settle-good proof public_key (crypto.sha256 input_ids) activation tid tids valid
            (verify_tokens-root proof tid tids
              (ap (λ r. root_of crypto (rebuild crypto r)) cut ∙ rooted))
            checked,
      )
