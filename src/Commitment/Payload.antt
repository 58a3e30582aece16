-- ===== src/Commitment/Payload.antt =====
-- What a signature binds.
use decentralized_llm.Base.{
  ℕ, ◌≡◌, ◌≢◌, refl, sym, ap, ◌∙◌, List, [], ◌∷◌, ◌++◌, length, take, drop,
}
use decentralized_llm.Base.Bytes.{take-length, drop-length}
use decentralized_llm.Commitment.{ComputeCommitment, build_payload}

-- a job id without the byte that ends it
abbrev pub NoNul : List ℕ → Type 0
NoNul [] = Unit
NoNul (b ∷ bs) = (b ≢ 0) × NoNul bs

-- the sizes of SHA-256, of a sketch of 64 floats and of a double
abbrev pub IsSized : ComputeCommitment → Type 0
IsSized c =
    NoNul c.job_id
    × (length c.input_hash ≡ 32)
    × (length c.output_hash ≡ 32)
    × (length c.activation_sketch ≡ 256)
    × (length c.timestamp ≡ 8)

abbrev pub payload_of : ComputeCommitment → List ℕ
payload_of c =
    build_payload c.job_id c.input_hash c.output_hash c.activation_sketch c.timestamp c.node_id

same_size :
    (k : ℕ) (a b xs ys : List ℕ)
    → length a ≡ k
    → length b ≡ k
    → a ++ xs ≡ b ++ ys
    → (a ≡ b) × (xs ≡ ys)
same_size k a b xs ys ha hb e = (
  sym (take-length k a xs ha) ∙ ap (take k) e ∙ take-length k b ys hb,
  sym (drop-length k a xs ha) ∙ ap (drop k) e ∙ drop-length k b ys hb,
)

head_of : List ℕ → ℕ
head_of [] = 0
head_of (b ∷ bs) = b

up_to_nul :
    (a b xs ys : List ℕ) → NoNul a → NoNul b → a ++ (0 ∷ xs) ≡ b ++ (0 ∷ ys) → (a ≡ b) × (xs ≡ ys)
unfolding head_of
up_to_nul [] [] xs ys ha hb e = (refl, ap (drop 1) e)
up_to_nul [] (y ∷ b) xs ys ha hb e = absurd (hb.0 (sym (ap head_of e)))
up_to_nul (x ∷ a) [] xs ys ha hb e = absurd (ha.0 (ap head_of e))
up_to_nul (x ∷ a) (y ∷ b) xs ys ha hb e =
    let (same, rest) = up_to_nul a b xs ys ha.1 hb.1 (ap (drop 1) e) in
    (ap (λ h. h ∷ a) (ap head_of e) ∙ ap (◌∷◌ y) same, rest)

-- Two commitments of the usual sizes, whose job ids have no zero byte, that have one payload agree
-- in everything that is signed: job id, hashes, sketch, time and node id.
pub build_payload-injective :
    (c d : ComputeCommitment)
    → IsSized c
    → IsSized d
    → payload_of c ≡ payload_of d
    → (c.job_id ≡ d.job_id)
      × (c.input_hash ≡ d.input_hash)
      × (c.output_hash ≡ d.output_hash)
      × (c.activation_sketch ≡ d.activation_sketch)
      × (c.timestamp ≡ d.timestamp)
      × (c.node_id ≡ d.node_id)
unfolding build_payload
build_payload-injective c d (cj, ci, co, cs, ct) (dj, di, do_, ds, dt) e =
    let (job, e1) = up_to_nul c.job_id d.job_id _ _ cj dj e in
    let (input, e2) = same_size 32 c.input_hash d.input_hash _ _ ci di e1 in
    let (output, e3) = same_size 32 c.output_hash d.output_hash _ _ co do_ e2 in
    let (sketched, e4) = same_size 256 c.activation_sketch d.activation_sketch _ _ cs ds e3 in
    let (time, node) = same_size 8 c.timestamp d.timestamp _ _ ct dt e4 in
    (job, input, output, sketched, time, node)
