-- ===== src/Commitment/Tests.antt =====
-- Commitments of two nodes, with the small stand-in for the cryptographic functions.
use decentralized_llm.Base.{ℕ, ◌≡◌, refl, List, [], ◌∷◌, arith, replicate, ok, true}
use decentralized_llm.Commitment.{
  ComputeCommitment, create_commitment, verify_commitment, verify_spot_check,
}
use decentralized_llm.Commitment.Payload.{IsSized, build_payload-injective}
use decentralized_llm.Commitment.Signing.{create_commitment-verify_commitment}
use decentralized_llm.Commitment.Toy.{
  toy, toy-Lawful, toy-IsVerifyingKey, toy_signs, toy-IsFiniteSketch,
}
use decentralized_llm.Commitment.Votes.{aggregate_verifications}
use decentralized_llm.Commitment.Majority.{IsMajority, aggregate_verifications-IsMajority}

abbrev by : (output_hash activation_sketch node_id : List ℕ) → ComputeCommitment
by output_hash activation_sketch node_id = record {
  job_id = 49 ∷ [];
  input_hash = 5 ∷ [];
  output_hash = output_hash;
  activation_sketch = activation_sketch;
  timestamp = replicate 8 0;
  node_id = node_id;
  signature_b64 = 9 ∷ 49 ∷ 0 ∷ 5 ∷ 1 ∷ 2 ∷ 3 ∷ 0 ∷ 0 ∷ 0 ∷ 0 ∷ 0 ∷ 0 ∷ 0 ∷ 0 ∷ 65 ∷ [];
}

-- one signature verifies for two output hashes, if bytes move over to the sketch
shifts :
    (verify_commitment toy (by (1 ∷ 2 ∷ []) (3 ∷ []) (65 ∷ [])) (5 ∷ []) (9 ∷ []) ≡ true)
    × (verify_commitment toy (by (1 ∷ []) (2 ∷ 3 ∷ []) (65 ∷ [])) (5 ∷ []) (9 ∷ []) ≡ true)
unfolding verify_commitment
shifts = (refl, refl)

abbrev sized : ComputeCommitment
sized = record {
  job_id = 49 ∷ [];
  input_hash = replicate 32 5;
  output_hash = replicate 32 6;
  activation_sketch = replicate 256 7;
  timestamp = replicate 8 0;
  node_id = 65 ∷ [];
  signature_b64 = [];
}

sized-IsSized : IsSized sized
sized-IsSized = (((λ h. omega (arith, h)), tt), refl, refl, refl, refl)

build_payload-injective_example :
    (sized.job_id ≡ sized.job_id)
    × (sized.input_hash ≡ sized.input_hash)
    × (sized.output_hash ≡ sized.output_hash)
    × (sized.activation_sketch ≡ sized.activation_sketch)
    × (sized.timestamp ≡ sized.timestamp)
    × (sized.node_id ≡ sized.node_id)
build_payload-injective_example =
    build_payload-injective sized sized sized-IsSized sized-IsSized refl

create_commitment-verify_example :
    (c : ComputeCommitment) × (create_commitment toy
        (49 ∷ [])
        (1 ∷ [])
        (2 ∷ [])
        (3 ∷ [])
        (9 ∷ [])
        []
        7
        []
      ≡ ok c)
    × (verify_commitment toy c (toy.sha256 (1 ∷ [])) (9 ∷ []) ≡ true)
    × (verify_spot_check toy c (3 ∷ []) 7 ≡ true)
create_commitment-verify_example =
    create_commitment-verify_commitment toy toy-Lawful (49 ∷ []) (1 ∷ []) (2 ∷ []) (3 ∷ []) (9 ∷ [])
      (9 ∷ []) [] 7 [] (toy-IsVerifyingKey (9 ∷ [])) (toy_signs (9 ∷ [])) (toy-IsFiniteSketch _)

aggregate_verifications-IsMajority_example :
    (h : List ℕ) × IsMajority h
      (by (1 ∷ []) [] (65 ∷ []) ∷ by (2 ∷ []) [] (66 ∷ []) ∷ [])
      (aggregate_verifications (by (1 ∷ []) [] (65 ∷ []) ∷ by (2 ∷ []) [] (66 ∷ []) ∷ []))
aggregate_verifications-IsMajority_example =
    aggregate_verifications-IsMajority (by (1 ∷ []) [] (65 ∷ [])) (by (2 ∷ []) [] (66 ∷ []) ∷ [])
