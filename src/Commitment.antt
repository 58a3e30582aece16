-- ===== src/Commitment.antt =====
-- node/zk_verifier.py: the sketches, `ComputeCommitment` and `InferenceVerifier`. A string is its
-- UTF-8 bytes and a timestamp the bytes of its double. SHA-256, HMAC, Ed25519 and base64 are
-- parameters, and so is the arithmetic on floats; a float is its 64 bits, as a number.
mod Tests
pub mod Payload
pub mod Similar
pub mod Signing
pub mod Votes
pub mod Majority
pub mod Toy
use decentralized_llm.Base.{
  ℕ, zero, suc, ◌+◌, ◌*◌, ◌/◌, ◌%◌, ◌^◌, Option, none, some, Bool, true, false, not, ◌&&◌, ◌||◌,
  drop, List, [], ◌∷◌, ◌++◌, map, ltb, leb, ◌==◌, if◌then◌else◌, length, take, Result, ok, raise,
  value_error,
}
use decentralized_llm.Base.Bytes.{bytes_beq, bytes_eq}

pub record ComputeCommitment : Type 0 where
  pub job_id : List ℕ
  pub input_hash : List ℕ
  pub output_hash : List ℕ
  pub activation_sketch : List ℕ
  pub timestamp : List ℕ
  pub node_id : List ℕ
  pub signature_b64 : List ℕ

-- the package `cryptography`, where it is installed; a private key of a wrong size raises
pub record Ed25519 : Type 0 where
  pub public_key : (private_key : List ℕ) → Result (List ℕ)
  pub sign : (private_key payload : List ℕ) → Result (List ℕ)
  pub accepts : (public_key signature payload : List ℕ) → Bool

-- Python's floats, `sum` of them, and `struct`'s format `f`
pub record Floats : Type 0 where
  pub of_state : (state : ℕ) → ℕ
  pub of_byte : (byte : ℕ) → ℕ
  pub zero_float : ℕ
  pub one_float : ℕ
  pub default_threshold : ℕ
  pub mul : ℕ → ℕ → ℕ
  pub div : ℕ → ℕ → ℕ
  pub sqrt : ℕ → ℕ
  pub sum : List ℕ → ℕ
  pub equal : ℕ → ℕ → Bool
  pub at_least : ℕ → ℕ → Bool
  pub pack : ℕ → List ℕ
  pub unpack : List ℕ → ℕ

pub record Crypto : Type 0 where
  pub ed25519 : Option Ed25519
  pub hmac : (key payload : List ℕ) → List ℕ
  pub sha256 : List ℕ → List ℕ
  pub hex : List ℕ → List ℕ
  pub b64encode : List ℕ → List ℕ
  pub b64decode : List ℕ → Result (List ℕ)
  pub floats : Floats

-- `_dot_product`: `zip` stops at the end of the shorter vector
unfoldable pub products : Floats → List ℕ → List ℕ → List ℕ
products fl [] ys = []
products fl (x ∷ xs) [] = []
products fl (x ∷ xs) (y ∷ ys) = fl.mul x y ∷ products fl xs ys

unfoldable pub dot_product : Floats → List ℕ → List ℕ → ℕ
unfolding products
dot_product fl a b = fl.sum (products fl a b)

-- `_norm`
unfoldable pub norm : Floats → List ℕ → ℕ
norm fl v = fl.sqrt (fl.sum (map (λ x. fl.mul x x) v))

-- `_cosine`
unfoldable pub cosine : Floats → List ℕ → List ℕ → ℕ
unfolding norm dot_product
cosine fl a b =
    let na = norm fl a in
    let nb = norm fl b in
    if fl.equal na fl.zero_float || fl.equal nb fl.zero_float
    then (if fl.equal na nb then fl.one_float else fl.zero_float)
    else fl.div (dot_product fl a b) (fl.mul na nb)

-- `ActivationSketch`

-- the loop of `_lcg_floats`
unfoldable pub lcg : Floats → (n state : ℕ) → List ℕ
lcg fl zero state = []
lcg fl (suc n) state =
    let next = (1103515245 * state + 12345) % 2 ^ 31 in fl.of_state next ∷ lcg fl n next

unfoldable pub lcg_floats : Floats → (seed n offset : ℕ) → List ℕ
unfolding lcg
lcg_floats fl seed n offset = lcg fl n ((seed + offset) % 2 ^ 32)

unfoldable pub bytes_to_floats : Floats → List ℕ → List ℕ
bytes_to_floats fl [] = fl.zero_float ∷ []
bytes_to_floats fl (b ∷ bs) = map fl.of_byte (b ∷ bs)

-- the loop of `sketch` from row `row_idx` on, with `rows` left, for the floats `x`
unfoldable pub sketch_rows : Floats → (seed rows row_idx : ℕ) → List ℕ → List ℕ
unfolding lcg_floats dot_product
sketch_rows fl seed zero row_idx x = []
sketch_rows fl seed (suc rows) row_idx x =
    fl.pack (dot_product fl (lcg_floats fl seed (length x) (row_idx * 999983)) x)
    ++ sketch_rows fl seed rows (row_idx + 1) x

unfoldable pub sketch : Crypto → (seed sketch_dim : ℕ) → List ℕ → List ℕ
unfolding sketch_rows bytes_to_floats
sketch crypto seed sketch_dim tensor_bytes =
    sketch_rows crypto.floats seed sketch_dim 0 (bytes_to_floats crypto.floats tensor_bytes)

-- `struct.unpack_from` of `n` floats
unfoldable pub unpack_floats : Floats → (n : ℕ) → List ℕ → List ℕ
unpack_floats fl zero bytes = []
unpack_floats fl (suc n) bytes = fl.unpack (take 4 bytes) ∷ unpack_floats fl n (drop 4 bytes)

-- the floats of two sketches with as many of them
unfoldable pub consistent_floats : Floats → (v1 v2 : List ℕ) → Bool
unfolding cosine
consistent_floats fl v1 v2 = fl.at_least (cosine fl v1 v2) fl.default_threshold

unfoldable pub verify_consistency : Crypto → (sketch1 sketch2 : List ℕ) → Bool
unfolding unpack_floats consistent_floats
verify_consistency crypto sketch1 sketch2 =
    let n = length sketch1 / 4 in
    if n == 0
    then false
    else (if length sketch2 / 4 == n
        then consistent_floats crypto.floats (unpack_floats crypto.floats n sketch1)
            (unpack_floats crypto.floats n sketch2)
        else false)

-- `InferenceVerifier`

abbrev pub default_sketch_seed : ℕ
default_sketch_seed = 3735928559

abbrev pub sketch_dim : ℕ
sketch_dim = 64

-- `_sign`
unfoldable pub sign : Crypto → (payload private_key : List ℕ) → Result (List ℕ)
sign crypto payload private_key = elim crypto.ed25519 [
  | some ed ↦ ed.sign private_key payload
  | none ↦ ok (crypto.hmac private_key payload)
]

-- `_verify_sig`
unfoldable pub verify_sig : Crypto → (payload signature public_key : List ℕ) → Bool
verify_sig crypto payload signature public_key = elim crypto.ed25519 [
  | some ed ↦ ed.accepts public_key signature payload
  | none ↦ bytes_beq (crypto.hmac public_key payload) signature
]

-- `_build_payload`
unfoldable pub build_payload :
    (job_id input_hash output_hash activation_sketch timestamp node_id : List ℕ) → List ℕ
build_payload job_id input_hash output_hash activation_sketch timestamp node_id =
    job_id ++ (0 ∷ (input_hash ++ (output_hash ++ (activation_sketch ++ (timestamp ++ node_id)))))

-- the name of a node that gives none
unfoldable pub derived_id : Crypto → Result (List ℕ) → Result (List ℕ)
derived_id crypto (ok bytes) = ok (take 16 (crypto.hex bytes))
derived_id crypto (raise e) = raise e

unfoldable pub node_id_of : Crypto → (private_key node_id : List ℕ) → Result (List ℕ)
unfolding derived_id
node_id_of crypto private_key (b ∷ bs) = ok (b ∷ bs)
node_id_of crypto private_key [] = elim crypto.ed25519 [
  | some ed ↦ derived_id crypto (ed.public_key private_key)
  | none ↦ derived_id crypto (ok (crypto.sha256 private_key))
]

-- the commitment, once its name and signature are there
unfoldable pub signed :
    Crypto
    → (job_id input_hash output_hash activation_sketch timestamp node_id : List ℕ) → Result (List ℕ)
    → Result ComputeCommitment
signed crypto job_id input_hash output_hash activation_sketch timestamp node_id (raise e) = raise e
signed crypto job_id input_hash output_hash activation_sketch timestamp node_id (ok signature) =
    ok (record {
      job_id = job_id;
      input_hash = input_hash;
      output_hash = output_hash;
      activation_sketch = activation_sketch;
      timestamp = timestamp;
      node_id = node_id;
      signature_b64 = crypto.b64encode signature;
    })

unfoldable pub commit_as :
    Crypto
    → (job_id input_hash output_hash activation_sketch timestamp private_key : List ℕ)
    → Result (List ℕ)
    → Result ComputeCommitment
unfolding signed sign build_payload
commit_as crypto job_id input_hash output_hash activation_sketch timestamp private_key (raise e) =
    raise e
commit_as crypto job_id input_hash output_hash activation_sketch timestamp private_key
      (ok node_id) =
    signed crypto job_id input_hash output_hash activation_sketch timestamp node_id (
      sign crypto (build_payload job_id input_hash output_hash activation_sketch timestamp node_id)
        private_key)

-- `create_commitment`, with the seed and the time that it has chosen
unfoldable pub create_commitment :
    Crypto
    → (job_id input_ids output_ids activation_sample private_key node_id : List ℕ)
    → (sketch_seed : ℕ) → (timestamp : List ℕ) → Result ComputeCommitment
unfolding commit_as node_id_of sketch
create_commitment crypto job_id input_ids output_ids activation_sample private_key node_id
      sketch_seed timestamp =
    commit_as crypto job_id (crypto.sha256 input_ids) (crypto.sha256 output_ids)
      (sketch crypto sketch_seed sketch_dim activation_sample) timestamp private_key
      (node_id_of crypto private_key node_id)

unfoldable pub verify_decoded :
    Crypto → (payload : List ℕ) → Result (List ℕ) → (public_key : List ℕ) → Bool
unfolding verify_sig
verify_decoded crypto payload (ok signature) public_key =
    verify_sig crypto payload signature public_key
verify_decoded crypto payload (raise e) public_key = false

unfoldable pub verify_commitment :
    Crypto → ComputeCommitment → (expected_input_hash public_key : List ℕ) → Bool
unfolding verify_decoded build_payload
verify_commitment crypto c expected_input_hash public_key =
    if bytes_beq c.input_hash expected_input_hash
    then verify_decoded crypto
        (build_payload c.job_id c.input_hash c.output_hash c.activation_sketch c.timestamp
          c.node_id)
        (crypto.b64decode c.signature_b64) public_key
    else false

unfoldable pub verify_spot_check :
    Crypto → ComputeCommitment → (fresh_activation : List ℕ) → (sketch_seed : ℕ) → Bool
unfolding verify_consistency sketch
verify_spot_check crypto c fresh_activation sketch_seed =
    verify_consistency crypto c.activation_sketch
      (sketch crypto sketch_seed sketch_dim fresh_activation)
