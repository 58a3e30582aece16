-- ===== src/Pipeline/Safety.antt =====
-- What has been checked where a job with a proof is settled.
use decentralized_llm.Base.{
  ℕ, ◌≡◌, refl, inl, inr, Option, none, some, Bool, true, false, List, [], ◌∷◌, Result, ok, raise,
  ◌==◌, ==_iff, Bool-cases, arith,
}
use decentralized_llm.Base.Bytes.{bytes_beq, bytes_beq_iff}
use decentralized_llm.Commitment.{
  ComputeCommitment, Crypto, verify_sig, verify_decoded, verify_commitment,
}
use decentralized_llm.Commitment.Payload.{payload_of}
use decentralized_llm.Pipeline.{InferenceProof, leaves_of, root_of}
use decentralized_llm.Pipeline.Verify.{
  Reason, verified, rebuild, same_root, verify_tokens, verify_proof, spot_check, settle_checked,
  should_settle,
}

module _ (crypto : Crypto) where
  -- the commitment is for the input, and the key accepts its signature
  abbrev pub IsSigned : ComputeCommitment → (input_hash public_key : List ℕ) → Type 0
  IsSigned c input_hash public_key =
      (c.input_hash ≡ input_hash)
      × (signature : List ℕ) × (crypto.b64decode c.signature_b64 ≡ ok signature)
      × (verify_sig crypto (payload_of c) signature public_key ≡ true)

  -- the tokens, if there are any to check, have the root of the proof
  abbrev pub IsRooted : InferenceProof → Option (List ℕ) → Type 0
  IsRooted proof none = Unit
  IsRooted proof (some []) = ⊥
  IsRooted proof (some (tid ∷ tids)) =
      root_of crypto (rebuild crypto (leaves_of (tid ∷ tids))) ≡ ok proof.output_merkle_root

  abbrev pub IsSpotted : InferenceProof → Option (List ℕ) → Type 0
  IsSpotted proof none = Unit
  IsSpotted proof (some fresh) = spot_check crypto proof fresh ≡ true

  verify_commitment-IsSigned :
      (c : ComputeCommitment) (input_hash public_key : List ℕ)
      → verify_commitment crypto c input_hash public_key ≡ true
      → IsSigned c input_hash public_key
  unfolding verify_commitment verify_decoded
  verify_commitment-IsSigned c input_hash public_key valid =
      elim (Bool-cases (bytes_beq c.input_hash input_hash)) [
        | inr other ↦ absurd (ground (arith, other))
        | inl same ↦
            let (signature, e, accepted) =
              decoded (crypto.b64decode c.signature_b64) refl (ground (arith, same)) in
            ((bytes_beq_iff c.input_hash input_hash).0 same, signature, e, accepted)
      ]
    where
      decoded :
          (res : Result (List ℕ))
          → crypto.b64decode c.signature_b64 ≡ res
          → verify_decoded crypto (payload_of c) res public_key ≡ true
          → (signature : List ℕ) × (crypto.b64decode c.signature_b64 ≡ ok signature)
            × (verify_sig crypto (payload_of c) signature public_key ≡ true)
      decoded (ok signature) e accepted = (signature, e, accepted)
      decoded (raise x) e accepted = absurd (ground arith)

  same_root-eq :
      (proof : InferenceProof) (root : Result (List ℕ))
      → same_root crypto proof root ≡ ok true
      → root ≡ ok proof.output_merkle_root
  unfolding same_root
  same_root-eq proof (raise e) h = absurd (ground arith)
  same_root-eq proof (ok root) h = ground (arith, bytes_beq_iff root proof.output_merkle_root)

  verify_tokens-IsRooted :
      (proof : InferenceProof) (tokens : Option (List ℕ))
      → verify_tokens crypto proof tokens ≡ ok true
      → IsRooted proof tokens
  unfolding verify_tokens
  verify_tokens-IsRooted proof none h = tt
  verify_tokens-IsRooted proof (some []) h = absurd (ground arith)
  verify_tokens-IsRooted proof (some (tid ∷ tids)) h = same_root-eq proof _ h

  settle_checked-IsSpotted :
      (proof : InferenceProof) (fresh : Option (List ℕ)) (res : Result Bool) (reason : Reason)
      → settle_checked crypto proof fresh res ≡ ok (true, reason)
      → (res ≡ ok true) × IsSpotted proof fresh × (reason ≡ verified)
  unfolding settle_checked
  settle_checked-IsSpotted proof fresh (raise e) reason h = absurd (ground arith)
  settle_checked-IsSpotted proof fresh (ok false) reason h = absurd (ground arith)
  settle_checked-IsSpotted proof none (ok true) reason h = ground arith
  settle_checked-IsSpotted proof (some bytes) (ok true) reason h = ground arith

  -- A job with a proof is settled only as verified, and only if the proof is for the job, its
  -- commitment is for the hash of the input, the key accepts its signature over what it commits
  -- to, the tokens, where they are given, have the root of the proof, and the spot check, where it
  -- is made, accepts.
  pub should_settle-IsSigned :
      (job_id : ℕ) (proof : InferenceProof) (public_key input_hash : List ℕ)
      (tokens fresh : Option (List ℕ)) (reason : Reason)
      → should_settle crypto job_id (some proof) public_key input_hash tokens fresh
        ≡ ok (true, reason)
      → (reason ≡ verified)
        × (proof.job_id ≡ job_id)
        × IsSigned proof.commitment input_hash public_key
        × IsRooted proof tokens
        × IsSpotted proof fresh
  unfolding should_settle verify_proof
  should_settle-IsSigned job_id proof public_key input_hash tokens fresh reason settled =
      elim (Bool-cases (proof.job_id == job_id)) [
        | inr other ↦ absurd (ground (arith, other))
        | inl same ↦
            let (passes, spotted, why) =
              settle_checked-IsSpotted proof fresh
                (verify_proof crypto proof input_hash public_key tokens) reason
                (ground (arith, same)) in
            elim (Bool-cases (verify_commitment crypto proof.commitment input_hash public_key)) [
              | inr invalid ↦ absurd (ground (arith, invalid))
              | inl valid ↦ (
                why,
                (==_iff proof.job_id job_id).0 same,
                verify_commitment-IsSigned proof.commitment input_hash public_key valid,
                verify_tokens-IsRooted proof tokens (ground (arith, valid)),
                spotted,
              )
            ]
      ]
