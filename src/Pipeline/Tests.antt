-- ===== src/Pipeline/Tests.antt =====
-- A job of three tokens, with the small stand-in for the cryptographic functions.
use decentralized_llm.Base.{◌≡◌, refl, [], ◌∷◌, arith, some, none, ok, true, get_elem?}
use decentralized_llm.Commitment.Toy.{
  toy, toy-Lawful, toy-IsVerifyingKey, toy_signs, toy-IsFiniteSketch,
}
use decentralized_llm.Merkle as Merkle
use decentralized_llm.Pipeline.{InferenceProof, build_proof, leaves_of, root_of}
use decentralized_llm.Pipeline.Verify.{
  verified, rebuild, should_settle, verify_tokens, verify_token_at_index,
}
use decentralized_llm.Pipeline.Inclusion.{is_token, verify_token_at_index-is_token}
use decentralized_llm.Pipeline.Settling.{build_proof-should_settle}
use decentralized_llm.Pipeline.Safety.{IsSigned, IsRooted, IsSpotted, should_settle-IsSigned}

abbrev proof : InferenceProof
proof = record {
  job_id = 4;
  commitment = record {
    job_id = 52 ∷ [];
    input_hash = 5 ∷ [];
    output_hash = 6 ∷ [];
    activation_sketch = [];
    timestamp = [];
    node_id = [];
    signature_b64 = 9 ∷ 52 ∷ 0 ∷ 5 ∷ 6 ∷ [];
  };
  output_merkle_root = 175 ∷ [];
  token_count = 3;
  node_id = [];
  timestamp = [];
  proof_version = 1;
}

-- the padding of the tree is accepted as a token: four tokens for a proof of three
accepts_padding :
    (verify_tokens toy proof (some (1 ∷ 2 ∷ 3 ∷ [])) ≡ ok true)
    × (verify_tokens toy proof (some (1 ∷ 2 ∷ 3 ∷ 3 ∷ [])) ≡ ok true)
unfolding verify_tokens Merkle.make
accepts_padding = (refl, refl)

build_proof-should_settle_example :
    (p : InferenceProof) × (build_proof toy (9 ∷ []) 4 (1 ∷ []) (1 ∷ 2 ∷ 3 ∷ []) (8 ∷ []) [] [] []
      ≡ ok p)
    × (should_settle toy 4
          (some p)
          (9 ∷ [])
          (toy.sha256 (1 ∷ []))
          (some (1 ∷ 2 ∷ 3 ∷ []))
          (some (8 ∷ []))
        ≡ ok (true, verified))
build_proof-should_settle_example =
    build_proof-should_settle toy toy-Lawful (9 ∷ []) (9 ∷ []) 4 (1 ∷ []) 1 (2 ∷ 3 ∷ []) (8 ∷ []) []
      [] [] (toy-IsVerifyingKey (9 ∷ [])) (toy_signs (9 ∷ []))
      (omega arith, (omega arith, (omega arith, tt))) (toy-IsFiniteSketch _)

verify_token_at_index-is_token_example :
    verify_token_at_index toy proof 3 2 (1 ∷ 2 ∷ 3 ∷ [])
    ≡ ok (is_token (get_elem? (1 ∷ 2 ∷ 3 ∷ []) 2) 3)
unfolding rebuild leaves_of root_of Merkle.make
verify_token_at_index-is_token_example =
    verify_token_at_index-is_token toy proof 1 (2 ∷ 3 ∷ []) 3 2
      (omega arith, (omega arith, (omega arith, tt))) refl

should_settle-IsSigned_example :
    (verified ≡ verified)
    × (proof.job_id ≡ 4)
    × IsSigned toy proof.commitment (5 ∷ []) (9 ∷ [])
    × IsRooted toy proof (some (1 ∷ 2 ∷ 3 ∷ []))
    × IsSpotted toy proof none
unfolding should_settle Merkle.make
should_settle-IsSigned_example =
    should_settle-IsSigned toy 4 proof (9 ∷ []) (5 ∷ []) (some (1 ∷ 2 ∷ 3 ∷ [])) none verified refl
