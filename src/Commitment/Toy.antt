-- ===== src/Commitment/Toy.antt =====
-- A small stand-in for the cryptographic functions, for the tests: HMAC puts the key in front.
use decentralized_llm.Base.{
  arith, ℕ, zero, suc, ◌*◌, ◌/◌, ◌==◌, leb, true, false, ◌+◌, ◌%◌, ◌≡◌, refl, none, List, [], ◌∷◌,
  ◌++◌, ok,
}
use decentralized_llm.Commitment.{Floats, Crypto, sign}
use decentralized_llm.Commitment.Similar.{AllOf, LawfulFloats, IsFiniteSketch}
use decentralized_llm.Commitment.Signing.{Lawful, IsVerifyingKey}

abbrev weighted : ℕ → List ℕ → ℕ
weighted acc [] = acc
weighted acc (b ∷ bs) = weighted ((acc + acc + acc + b + 1) % 256) bs

-- whole numbers for floats: the root of a number is 1, unless the number is 0
abbrev total : List ℕ → ℕ
total [] = 0
total (x ∷ xs) = x + total xs

abbrev root : ℕ → ℕ
root zero = 0
root (suc n) = 1

abbrev whole : Floats
whole = record {
  of_state = λ s. s % 16;
  of_byte = λ b. b;
  zero_float = 0;
  one_float = 1;
  default_threshold = 1;
  mul = λ a b. a * b;
  div = λ a b. a / b;
  sqrt = root;
  sum = total;
  equal = λ a b. a == b;
  at_least = λ a b. leb b a;
  pack = λ x. x % 256 ∷ 0 ∷ 0 ∷ 0 ∷ [];
  unpack = λ bs. weighted 0 bs;
}

root_ratio : (x : ℕ) → true ≡ true → (root x == 0) ≡ false → leb 1 (x / (root x * root x)) ≡ true
root_ratio zero good some_left = absurd (ground (arith, some_left))
root_ratio (suc n) good some_left = ground arith

whole-LawfulFloats : LawfulFloats whole
whole-LawfulFloats = record {
  is_single = λ x. true;
  is_magnitude = λ x. true;
  pack_size = λ x. refl;
  squares = λ v small finite. refl;
  equal_self = λ x good. ground arith;
  ratio = root_ratio;
  one_enough = refl;
}

abbrev pub toy : Crypto
toy = record {
  ed25519 = none;
  hmac = λ key payload. key ++ payload;
  sha256 = λ bs. weighted 0 bs ∷ [];
  hex = λ bs. bs;
  b64encode = λ bs. bs;
  b64decode = λ bs. ok bs;
  floats = whole;
}

pub toy-Lawful : Lawful toy
toy-Lawful = record {
  b64_back = λ bs. refl;
  signs = λ ed known. absurd (ground (arith, known));
  arithmetic = whole-LawfulFloats;
}

pub toy-IsVerifyingKey : (key : List ℕ) → IsVerifyingKey toy key key
toy-IsVerifyingKey key = (λ ed known. absurd (ground (arith, known)), λ absent. refl)

pub toy_signs :
    (key payload : List ℕ) → (signature : List ℕ) × (sign toy payload key ≡ ok signature)
unfolding sign
toy_signs key payload = (key ++ payload, refl)

all_true : (xs : List ℕ) → AllOf (λ x. true) xs
unfolding AllOf
all_true [] = tt
all_true (x ∷ xs) = (refl, all_true xs)

pub toy-IsFiniteSketch : (bytes : List ℕ) → IsFiniteSketch toy toy-Lawful.arithmetic bytes
unfolding AllOf toy-Lawful whole-LawfulFloats
toy-IsFiniteSketch bytes = all_true _
