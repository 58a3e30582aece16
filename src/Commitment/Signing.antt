-- ===== src/Commitment/Signing.antt =====
-- A commitment that a node has created verifies.
use decentralized_llm.Base.{
  ℕ, ◌≡◌, refl, ap, ◌∙◌, inl, inr, none, some, true, List, [], ◌∷◌, arith, take, ok, Option-cases,
}
use decentralized_llm.Base.Bytes.{bytes_beq, bytes_beq_iff}
use decentralized_llm.Commitment.{
  ComputeCommitment, Ed25519, Crypto, sketch, sketch_dim, sign, verify_sig, build_payload,
  node_id_of, signed, commit_as, create_commitment, verify_decoded, verify_commitment,
  verify_spot_check, derived_id,
}
use decentralized_llm.Commitment.Similar.{LawfulFloats, IsFiniteSketch, verify_consistency_self}
use decentralized_llm.Commitment.Payload.{payload_of}

-- what the libraries promise: base64 and signatures are read back, and floats follow IEEE 754
pub record Lawful (crypto : Crypto) : Type 0 where
  pub b64_back : (bytes : List ℕ) → crypto.b64decode (crypto.b64encode bytes) ≡ ok bytes
  pub signs :
      (ed : Ed25519)
      → crypto.ed25519 ≡ some ed
      → (private_key public_key payload signature : List ℕ)
      → ed.public_key private_key ≡ ok public_key
      → ed.sign private_key payload ≡ ok signature
      → ed.accepts public_key signature payload ≡ true
  pub arithmetic : LawfulFloats crypto.floats

-- the key that verifies what another signs: HMAC takes the same one
abbrev pub IsVerifyingKey : Crypto → (private_key public_key : List ℕ) → Type 0
IsVerifyingKey crypto private_key public_key =
    ((ed : Ed25519) → crypto.ed25519 ≡ some ed → ed.public_key private_key ≡ ok public_key)
    × (crypto.ed25519 ≡ none → public_key ≡ private_key)

module _ (crypto : Crypto) (lawful : Lawful crypto) where
  sign-verify_sig :
      (private_key public_key payload signature : List ℕ)
      → IsVerifyingKey crypto private_key public_key
      → sign crypto payload private_key ≡ ok signature
      → verify_sig crypto payload signature public_key ≡ true
  unfolding sign verify_sig
  sign-verify_sig private_key public_key payload signature key signs =
      elim (Option-cases crypto.ed25519) [
        | inl absent ↦
            ground (
              arith,
              absent,
              key.1 absent,
              bytes_beq_iff (crypto.hmac public_key payload) signature,
            )
        | inr (ed, known) ↦ ground (
          arith,
          known,
          lawful.signs ed known private_key public_key payload signature (key.0 ed known),
        )
      ]

  node_id_of-total :
      (private_key public_key node_id : List ℕ)
      → IsVerifyingKey crypto private_key public_key
      → (name : List ℕ) × (node_id_of crypto private_key node_id ≡ ok name)
  unfolding node_id_of derived_id
  node_id_of-total private_key public_key (b ∷ bs) key = (b ∷ bs, refl)
  node_id_of-total private_key public_key [] key = elim (Option-cases crypto.ed25519) [
    | inl absent ↦ (take 16 (crypto.hex (crypto.sha256 private_key)), rw absent refl)
    | inr (ed, known) ↦
        (take 16 (crypto.hex public_key), rw known (rw (key.0 ed known, derived_id) refl))
  ]

  bytes_beq_self : (bs : List ℕ) → bytes_beq bs bs ≡ true
  bytes_beq_self bs = (bytes_beq_iff bs bs).1 refl

  verify_commitment-signed :
      (c : ComputeCommitment) (public_key signature : List ℕ)
      → c.signature_b64 ≡ crypto.b64encode signature
      → verify_sig crypto (payload_of c) signature public_key ≡ true
      → verify_commitment crypto c c.input_hash public_key ≡ true
  unfolding verify_commitment verify_decoded
  verify_commitment-signed c public_key signature encoded accepted =
      let back : crypto.b64decode c.signature_b64 ≡ ok signature =
        ap crypto.b64decode encoded ∙ lawful.b64_back signature in
      rw (bytes_beq_self c.input_hash) (rw (back, verify_decoded) accepted)

  -- With a key that signs and activations whose sketch is of finite floats, creating a commitment
  -- returns: it verifies for the hash of the input with
  -- the public key, and a spot check of the same activations with the same seed accepts it.
  pub create_commitment-verify_commitment :
      (job_id input_ids output_ids activation private_key public_key node_id : List ℕ) (seed : ℕ)
      (timestamp : List ℕ)
      → IsVerifyingKey crypto private_key public_key
      → ((payload : List ℕ)
          → (signature : List ℕ) × (sign crypto payload private_key ≡ ok signature))
      → IsFiniteSketch crypto lawful.arithmetic (sketch crypto seed sketch_dim activation)
      → (c : ComputeCommitment) × (create_commitment crypto job_id input_ids output_ids activation
            private_key node_id seed timestamp
          ≡ ok c)
        × (verify_commitment crypto c (crypto.sha256 input_ids) public_key ≡ true)
        × (verify_spot_check crypto c activation seed ≡ true)
  unfolding create_commitment commit_as signed verify_spot_check
  create_commitment-verify_commitment job_id input_ids output_ids activation private_key public_key
        node_id seed timestamp key signs finite =
      let (name, named) = node_id_of-total private_key public_key node_id key in
      let sketched : List ℕ = sketch crypto seed sketch_dim activation in
      let payload : List ℕ =
        build_payload job_id (crypto.sha256 input_ids) (crypto.sha256 output_ids) sketched timestamp
          name in
      let (signature, is_signed) = signs payload in
      let c : ComputeCommitment = record {
        job_id = job_id;
        input_hash = crypto.sha256 input_ids;
        output_hash = crypto.sha256 output_ids;
        activation_sketch = sketched;
        timestamp = timestamp;
        node_id = name;
        signature_b64 = crypto.b64encode signature;
      } in
      (
        c,
        rw (named, commit_as) (rw (is_signed, signed) refl),
        verify_commitment-signed c public_key signature refl
            (sign-verify_sig private_key public_key payload signature key is_signed),
        verify_consistency_self crypto lawful.arithmetic seed activation finite,
      )
