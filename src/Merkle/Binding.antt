-- ===== src/Merkle/Binding.antt =====
-- Two proofs of one root for one place bind their leaf, unless the hash function collides.
use decentralized_llm.Base.{
  ◌≡◌, ◌≢◌, ap, sym, ◌∙◌, true, List, [], ◌∷◌, arith, Bool-cases, inl, inr,
}
use decentralized_llm.Base.Dict.{Eq}
use decentralized_llm.Merkle.{Direction, left, right, MerkleProof, climb, verify}

-- two pairs of hashes that `_combine` does not tell apart
pub record Collision {H : Type 0} (combine : H → H → H) : Type 0 where
  pub first_left : H
  pub first_right : H
  pub second_left : H
  pub second_right : H
  pub differ : (first_left ≡ second_left) × (first_right ≡ second_right) → ⊥
  pub same : combine first_left first_right ≡ combine second_left second_right

-- on which sides the siblings stand, which is the place of the leaf
unfoldable pub sides : {H : Type 0} → List (H × Direction) → List Direction
sides [] = []
sides ((h, d) ∷ siblings) = d ∷ sides siblings

-- the sides but the first
abbrev drop_one : List Direction → List Direction
drop_one [] = []
drop_one (d ∷ ds) = ds

module _ {H : Type 0} ⦃e : Eq H⦄ (combine : H → H → H) where
  -- the parents are equal, or not
  one_up : (a b : H) → (a ≡ b → Collision combine) → (a ≢ b → Collision combine) → Collision combine
  one_up a b meets apart = elim (Bool-cases (e.beq a b)) [
    | inl eq ↦ meets ((e.beq_iff a b).0 eq)
    | inr ne ↦ apart (λ h. ground (arith, (e.beq_iff a b).1 h))
  ]

  climb-Collision :
      (x y : H) (ss ts : List (H × Direction))
      → sides ss ≡ sides ts
      → x ≢ y
      → climb combine x ss ≡ climb combine y ts
      → Collision combine
  unfolding sides climb
  climb-Collision x y [] [] same differ meet = absurd (differ meet)
  climb-Collision x y [] (t ∷ ts) same differ meet = absurd (ground arith)
  climb-Collision x y (s ∷ ss) [] same differ meet = absurd (ground arith)
  climb-Collision x y ((s, left) ∷ ss) ((t, left) ∷ ts) same differ meet =
      one_up (combine s x) (combine t y)
        (λ meets. record {
          first_left = s;
          first_right = x;
          second_left = t;
          second_right = y;
          differ = λ h. differ h.1;
          same = meets;
        })
        (λ apart. climb-Collision (combine s x) (combine t y) ss ts (ap drop_one same) apart meet)
  climb-Collision x y ((s, left) ∷ ss) ((t, right) ∷ ts) same differ meet = absurd (ground arith)
  climb-Collision x y ((s, right) ∷ ss) ((t, left) ∷ ts) same differ meet = absurd (ground arith)
  climb-Collision x y ((s, right) ∷ ss) ((t, right) ∷ ts) same differ meet =
      one_up (combine x s) (combine y t)
        (λ meets. record {
          first_left = x;
          first_right = s;
          second_left = y;
          second_right = t;
          differ = λ h. differ h.0;
          same = meets;
        })
        (λ apart. climb-Collision (combine x s) (combine y t) ss ts (ap drop_one same) apart meet)

  -- Two proofs that verify against one root, with siblings on the same sides and different leaf
  -- hashes, give two different pairs of hashes with one combined hash.
  pub verify-Collision :
      (p q : MerkleProof H)
      → p.root ≡ q.root
      → sides p.siblings ≡ sides q.siblings
      → p.leaf_hash ≢ q.leaf_hash
      → verify combine p ≡ true
      → verify combine q ≡ true
      → Collision combine
  unfolding verify
  verify-Collision p q one_root same differ first second =
      climb-Collision p.leaf_hash q.leaf_hash p.siblings q.siblings same differ (
        (e.beq_iff (climb combine p.leaf_hash p.siblings) p.root).0 first
        ∙ one_root
        ∙ sym ((e.beq_iff (climb combine q.leaf_hash q.siblings) q.root).0 second))
