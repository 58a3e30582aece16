-- ===== src/Commitment/Similar.antt =====
-- A sketch of finite floats is consistent with itself.
use decentralized_llm.Base.{
  ℕ, zero, suc, ◌+◌, ◌*◌, ◌≡◌, ◌≤◌, refl, ap, inl, inr, true, false, Bool, Bool-cases, List, [],
  ◌∷◌, arith, length, length-append, drop, map,
}
use decentralized_llm.Commitment.{
  Floats, Crypto, products, dot_product, norm, cosine, lcg_floats, bytes_to_floats, sketch_rows,
  sketch, sketch_dim, unpack_floats, consistent_floats, verify_consistency,
}

unfoldable pub AllOf : (ℕ → Bool) → List ℕ → Type 0
AllOf test [] = Unit
AllOf test (x ∷ xs) = (test x ≡ true) × AllOf test xs

-- what IEEE 754 promises of doubles. `is_single` are the finite floats that 32 bits hold: the sum of the
-- squares of 64 of them is finite and not negative, which `is_magnitude` says. Such a number is, up to
-- rounding, the square of its root, and a root equals itself.
pub record LawfulFloats (fl : Floats) : Type 0 where
  pub is_single : ℕ → Bool
  pub is_magnitude : ℕ → Bool
  pub pack_size : (x : ℕ) → length (fl.pack x) ≡ 4
  pub squares :
      (v : List ℕ)
      → length v ≤ 64
      → AllOf is_single v
      → is_magnitude (fl.sum (map (λ x. fl.mul x x) v)) ≡ true
  pub equal_self : (x : ℕ) → is_magnitude x ≡ true → fl.equal (fl.sqrt x) (fl.sqrt x) ≡ true
  pub ratio :
      (x : ℕ)
      → is_magnitude x ≡ true
      → fl.equal (fl.sqrt x) fl.zero_float ≡ false
      → fl.at_least (fl.div x (fl.mul (fl.sqrt x) (fl.sqrt x))) fl.default_threshold ≡ true
  pub one_enough : fl.at_least fl.one_float fl.default_threshold ≡ true

products_self : (fl : Floats) (v : List ℕ) → products fl v v ≡ map (λ x. fl.mul x x) v
unfolding products
products_self fl [] = refl
products_self fl (x ∷ v) = ap (◌∷◌ (fl.mul x x)) (products_self fl v)

length-unpack_floats :
    (fl : Floats) (n : ℕ) (bytes : List ℕ) → length (unpack_floats fl n bytes) ≡ n
unfolding unpack_floats
length-unpack_floats fl zero bytes = refl
length-unpack_floats fl (suc n) bytes = ap suc (length-unpack_floats fl n (drop 4 bytes))

module _ (fl : Floats) (lawful : LawfulFloats fl) where
  consistent_floats_self :
      (v : List ℕ) → length v ≤ 64 → AllOf lawful.is_single v → consistent_floats fl v v ≡ true
  unfolding consistent_floats cosine norm dot_product
  consistent_floats_self v small finite =
      let size : ℕ = fl.sum (map (λ x. fl.mul x x) v) in
      let good = lawful.squares v small finite in
      elim (Bool-cases (fl.equal (fl.sqrt size) fl.zero_float)) [
        | inl none_left ↦
            rw (none_left, consistent_floats, cosine, norm)
              (rw (lawful.equal_self size good) lawful.one_enough)
        | inr some_left ↦
            rw (some_left, consistent_floats, cosine, norm)
              (rw (products_self fl v, dot_product) (lawful.ratio size good some_left))
      ]

  length-sketch_rows :
      (seed rows row_idx : ℕ) (x : List ℕ) → length (sketch_rows fl seed rows row_idx x) ≡ rows * 4
  unfolding sketch_rows
  length-sketch_rows seed zero row_idx x = refl
  length-sketch_rows seed (suc rows) row_idx x =
      let value : ℕ = dot_product fl (lcg_floats fl seed (length x) (row_idx * 999983)) x in
      omega (
        arith,
        length-append (fl.pack value) (sketch_rows fl seed rows (row_idx + 1) x),
        lawful.pack_size value,
        length-sketch_rows seed rows (row_idx + 1) x,
      )

-- the floats of a sketch are finite
abbrev pub IsFiniteSketch :
    (crypto : Crypto) → LawfulFloats crypto.floats → (sketched : List ℕ) → Type 0
IsFiniteSketch crypto lawful sketched =
    AllOf lawful.is_single (unpack_floats crypto.floats sketch_dim sketched)

pub verify_consistency_self :
    (crypto : Crypto) (lawful : LawfulFloats crypto.floats) (seed : ℕ) (bytes : List ℕ)
    → IsFiniteSketch crypto lawful (sketch crypto seed sketch_dim bytes)
    → verify_consistency crypto
        (sketch crypto seed sketch_dim bytes)
        (sketch crypto seed sketch_dim bytes)
      ≡ true
unfolding verify_consistency sketch
verify_consistency_self crypto lawful seed bytes finite =
    rw (length-sketch_rows crypto.floats lawful seed sketch_dim 0 _) (
      consistent_floats_self crypto.floats lawful _
        (omega (
          arith,
          length-unpack_floats crypto.floats sketch_dim
              (sketch_rows crypto.floats seed sketch_dim 0 (bytes_to_floats crypto.floats bytes)),
        ))
        finite)
