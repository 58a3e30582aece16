-- ===== src/Merkle/Padding.antt =====
-- The padded leaves of `MerkleTree`: their number is a power of two.
use decentralized_llm.Base.{
  ℕ, zero, suc, ◌+◌, ◌*◌, ◌-◌, ◌^◌, ◌≤◌, ◌<◌, ◌≡◌, refl, ap, sym, ◌∙◌, some, List, [], ◌∷◌, arith,
  map, replicate, length-append, get_elem?-append_lt, ltb, length, get_elem?, get_elem?_total,
  Bool-cases, inl, inr,
}
use decentralized_llm.Merkle.{pad_size, pad}

pub double_pow : (k : ℕ) → 2 ^ suc k ≡ 2 ^ k * 2
double_pow k = grind arith

pub pow_positive : (k : ℕ) → 0 < 2 ^ k
pow_positive zero = omega arith
pow_positive (suc k) = omega (arith, pow_positive k, double_pow k)

pub pad_size-pow :
    (fuel j leaves : ℕ)
    → leaves ≤ 2 ^ j + fuel
    → (k : ℕ) × (pad_size fuel (2 ^ j) leaves ≡ 2 ^ k) × (leaves ≤ 2 ^ k)
unfolding pad_size
pad_size-pow zero j leaves enough = (j, refl, omega arith)
pad_size-pow (suc fuel) j leaves enough = elim (Bool-cases (ltb (2 ^ j) leaves)) [
  | inl below ↦
      let (k, e, h) =
        pad_size-pow fuel (suc j) leaves (omega (arith, double_pow j, pow_positive j)) in
      (k, rw below (ap (λ n. pad_size fuel n leaves) (sym (double_pow j)) ∙ e), h)
  | inr above ↦ (j, rw above refl, ground arith)
]

pub below_pow : (k : ℕ) → k ≤ 2 ^ k
below_pow zero = omega arith
below_pow (suc k) = omega (arith, below_pow k, double_pow k, pow_positive k)

length-replicate : {A : Type 0} (n : ℕ) (a : A) → length (replicate n a) ≡ n
length-replicate zero a = refl
length-replicate (suc n) a = ap suc (length-replicate n a)

-- padding leaves the leaves, and reaches its size
pub pad_lem :
    {A : Type 0} (n : ℕ) (a : A) (leaves : List A)
    → length (a ∷ leaves) ≤ n
    → (length (pad n (a ∷ leaves)) ≡ n)
      × ((i : ℕ)
          → i < length (a ∷ leaves)
          → get_elem? (pad n (a ∷ leaves)) i ≡ get_elem? (a ∷ leaves) i)
unfolding pad
pad_lem n a leaves fits =
    let all = a ∷ leaves in
    let (l, last) = get_elem?_total all (length all - 1) (omega arith) in
    let more = replicate (n - length all) l in
    rw (last, pad)
      (
        omega (arith, length-append all more, length-replicate (n - length all) l),
        get_elem?-append_lt all more,
      )

pub get_elem?-map :
    {A B : Type 0} (f : A → B) (xs : List A) (i : ℕ) {a : A}
    → get_elem? xs i ≡ some a
    → get_elem? (map f xs) i ≡ some (f a)
get_elem?-map f [] i h = absurd (ground arith)
get_elem?-map f (x ∷ xs) zero {a} h = let e : x ≡ a = ground arith in ap (λ y. some (f y)) e
get_elem?-map f (x ∷ xs) (suc i) h = get_elem?-map f xs i h
