-- ===== src/Merkle/Proofs.antt =====
-- Every proof that `get_proof` returns for a leaf verifies.
use decentralized_llm.Base.{
  ℕ, ◌^◌, ◌≤◌, ◌<◌, ◌≡◌, refl, ◌∙◌, some, true, List, ◌∷◌, arith, length-map, length, get_elem?,
  get_elem?_lt, ok,
}
use decentralized_llm.Base.Dict.{Eq}
use decentralized_llm.Merkle.{
  MerkleProof, Levels, build, climb, verify, pad, leaf_hashes, make, get_proof,
}
use decentralized_llm.Merkle.Padding.{pad_size-pow, below_pow, pad_lem, get_elem?-map}
use decentralized_llm.Merkle.Climb.{build-Way, get_proof-Way, first_level-build}

module _ {H L : Type 0} ⦃e : Eq H⦄ (combine : H → H → H) (hash : L → H) where
  leaf_hashes_lem :
      (l : L) (leaves : List L)
      → (k : ℕ) × (length (leaf_hashes combine hash (l ∷ leaves)) ≡ 2 ^ k)
        × (length (l ∷ leaves) ≤ 2 ^ k)
        × ((i : ℕ) (x : L)
            → get_elem? (l ∷ leaves) i ≡ some x
            → get_elem? (leaf_hashes combine hash (l ∷ leaves)) i ≡ some (hash x))
  unfolding leaf_hashes
  leaf_hashes_lem l leaves =
      let all = l ∷ leaves in
      let (k, size, fits) = pad_size-pow (length all) 0 (length all) (omega arith) in
      let (padded, kept) = pad_lem (2 ^ k) l leaves fits in
      (
        k,
        rw size (length-map hash (pad (2 ^ k) all) ∙ padded),
        fits,
        λ i x here.
            rw size
              (get_elem?-map hash (pad (2 ^ k) all) i (kept i (get_elem?_lt all i here) ∙ here)),
      )

  -- A tree over at least one leaf is made, and get_proof of each leaf returns a proof with the
  -- hash of that leaf, which verifies.
  pub get_proof-verify :
      (l : L) (leaves : List L)
      → (t : Levels H) × (make combine hash (l ∷ leaves) ≡ ok t)
        × ((i : ℕ) (x : L)
            → get_elem? (l ∷ leaves) i ≡ some x
            → (p : MerkleProof H) × (get_proof t i ≡ ok p)
              × (p.leaf_hash ≡ hash x)
              × (verify combine p ≡ true))
  unfolding make verify
  get_proof-verify l leaves =
      let level = leaf_hashes combine hash (l ∷ leaves) in
      let (k, size, fits, hashed) = leaf_hashes_lem l leaves in
      (
        build combine (length level) level,
        refl,
        λ i x here.
            let inside : i < 2 ^ k = omega (arith, get_elem?_lt (l ∷ leaves) i here, fits) in
            let way =
              build-Way combine k (length level) level i (hash x) size
                (omega (arith, size, below_pow k)) (hashed i x here) inside in
            (
              record {
                leaf_index = i;
                leaf_hash = hash x;
                siblings = way.siblings;
                root = way.root;
              },
              get_proof-Way combine (build combine (length level) level) level i (hash x)
                  (first_level-build combine (length level) level) (hashed i x here) way,
              refl,
              (e.beq_iff (climb combine (hash x) way.siblings) way.root).1 way.climbs,
            ),
      )
