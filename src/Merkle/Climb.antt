-- ===== src/Merkle/Climb.antt =====
-- The way from a place of the lowest level of the tree to the root.
use Prim.Native.Nat.{min}
use decentralized_llm.Base.{
  ℕ, zero, suc, ◌+◌, ◌*◌, ◌-◌, ◌/◌, ◌%◌, ◌^◌, ◌≤◌, ◌<◌, ◌≡◌, refl, ap, ◌∙◌, some, true, false, List,
  [], ◌∷◌, arith, ltb, leb, ◌==◌, length, get_elem?, get_elem?_total, get_elem?_lt, Bool-cases, inl,
  inr, if_ind, ok,
}
use decentralized_llm.Merkle.{
  Direction, left, right, Levels, sibling_of, add_sibling, siblings_up, pairs, build, climb,
  first_level, proof_of, get_proof,
}
use decentralized_llm.Merkle.Padding.{double_pow, pow_positive}

module _ {H : Type 0} (combine : H → H → H) where
  length-pairs : (xs : List H) (n : ℕ) → length xs ≡ n * 2 → length (pairs combine xs) ≡ n
  unfolding pairs
  length-pairs [] n e = omega arith
  length-pairs (x ∷ []) n e = absurd (omega arith)
  length-pairs (x ∷ y ∷ xs) zero e = absurd (omega arith)
  length-pairs (x ∷ y ∷ xs) (suc n) e = omega (arith, length-pairs xs n (omega arith))

  get_elem?-pairs :
      (xs : List H) (j m : ℕ) (a b : H)
      → m ≡ j * 2
      → get_elem? xs m ≡ some a
      → get_elem? xs (suc m) ≡ some b
      → get_elem? (pairs combine xs) j ≡ some (combine a b)
  unfolding pairs
  get_elem?-pairs [] j m a b e f g = absurd (ground arith)
  get_elem?-pairs (x ∷ []) zero zero a b e f g = absurd (ground arith)
  get_elem?-pairs (x ∷ []) zero (suc m) a b e f g = absurd (omega arith)
  get_elem?-pairs (x ∷ []) (suc j) zero a b e f g = absurd (omega arith)
  get_elem?-pairs (x ∷ []) (suc j) (suc m) a b e f g = absurd (ground arith)
  get_elem?-pairs (x ∷ y ∷ xs) zero zero a b e f g = ground arith
  get_elem?-pairs (x ∷ y ∷ xs) zero (suc m) a b e f g = absurd (omega arith)
  get_elem?-pairs (x ∷ y ∷ xs) (suc j) zero a b e f g = absurd (omega arith)
  get_elem?-pairs (x ∷ y ∷ xs) (suc j) (suc zero) a b e f g = absurd (omega arith)
  get_elem?-pairs (x ∷ y ∷ xs) (suc j) (suc (suc m)) a b e f g =
      get_elem?-pairs xs j m a b (omega arith) f g

  -- one level up: the sibling is found, and climbing it leads to the parent
  record Up (level : List H) (i : ℕ) (x : H) : Type 0 where
    sib : H
    side : Direction
    parent : H
    found : sibling_of level i ≡ ok (sib, side)
    above : get_elem? (pairs combine level) (i / 2) ≡ some parent
    climbs :
        (siblings : List (H × Direction))
        → climb combine x ((sib, side) ∷ siblings) ≡ climb combine parent siblings

  even-Up :
      (level : List H) (n i : ℕ) (x : H)
      → length level ≡ n * 2
      → (i % 2 == 0) ≡ true
      → get_elem? level i ≡ some x
      → i < n * 2
      → Up level i x
  unfolding sibling_of climb
  even-Up level n i x size even here inside =
      let (y, next) = get_elem?_total level (suc i) (ground (arith, size)) in
      let at : min (i + 1) (length level - 1) ≡ suc i = ground (arith, size) in
      record {
        sib = y;
        side = right;
        parent = combine x y;
        found = rw even (rw at (rw (next, sibling_of) refl));
        above = get_elem?-pairs level (i / 2) i x y (ground arith) here next;
        climbs = λ siblings. refl;
      }

  odd-Up :
      (level : List H) (n i : ℕ) (x : H)
      → length level ≡ n * 2
      → (i % 2 == 0) ≡ false
      → get_elem? level i ≡ some x
      → i < n * 2
      → Up level i x
  unfolding sibling_of climb
  odd-Up level n i x size odd here inside =
      let (y, before) = get_elem?_total level (i - 1) (ground (arith, size)) in
      let at : suc (i - 1) ≡ i = ground arith in
      record {
        sib = y;
        side = left;
        parent = combine y x;
        found = rw odd (rw (before, sibling_of) refl);
        above =
            get_elem?-pairs level (i / 2) (i - 1) y x (ground arith) before
              (ap (get_elem? level) at ∙ here);
        climbs = λ siblings. refl;
      }

  level-Up :
      (level : List H) (n i : ℕ) (x : H)
      → length level ≡ n * 2
      → get_elem? level i ≡ some x
      → i < n * 2
      → Up level i x
  level-Up level n i x size here inside = elim (Bool-cases (i % 2 == 0)) [
    | inl even ↦ even-Up level n i x size even here inside
    | inr odd ↦ odd-Up level n i x size odd here inside
  ]

  -- the way from a place of the lowest level to the root
  pub record Way (t : Levels H) (i : ℕ) (x : H) : Type 0 where
    pub siblings : List (H × Direction)
    pub root : H
    pub found : siblings_up t.lower i ≡ ok siblings
    pub above : get_elem? t.top 0 ≡ some root
    pub climbs : climb combine x siblings ≡ root

  pub build-Way :
      (k fuel : ℕ) (level : List H) (i : ℕ) (x : H)
      → length level ≡ 2 ^ k
      → k ≤ fuel
      → get_elem? level i ≡ some x
      → i < 2 ^ k
      → Way (build combine fuel level) i x
  unfolding build siblings_up climb
  build-Way zero zero level i x size enough here inside = record {
    siblings = [];
    root = x;
    found = refl;
    above = ap (get_elem? level) (omega arith) ∙ here;
    climbs = refl;
  }
  build-Way zero (suc fuel) level i x size enough here inside =
      let few : ltb 1 (length level) ≡ false = ground (arith, size) in
      rw few (record {
        siblings = [];
        root = x;
        found = refl;
        above = ap (get_elem? level) (omega arith) ∙ here;
        climbs = refl;
      })
  build-Way (suc k) zero level i x size enough here inside = absurd (omega arith)
  build-Way (suc k) (suc fuel) level i x size enough here inside =
      let double : length level ≡ 2 ^ k * 2 = omega (arith, size, double_pow k) in
      let many : ltb 1 (length level) ≡ true = ground (arith, double, pow_positive k) in
      let up = level-Up level (2 ^ k) i x double here (omega (arith, double_pow k)) in
      let way =
        build-Way k fuel (pairs combine level) (i / 2) up.parent (length-pairs level (2 ^ k) double)
          (omega arith) up.above (ground (arith, double_pow k)) in
      rw many (record {
        siblings = (up.sib, up.side) ∷ way.siblings;
        root = way.root;
        found = rw (up.found, way.found, add_sibling) refl;
        above = way.above;
        climbs = up.climbs way.siblings ∙ way.climbs;
      })

  -- the first level is the level that the tree is built from
  pub first_level-build :
      (fuel : ℕ) (level : List H) → first_level (build combine fuel level) ≡ level
  unfolding first_level build
  first_level-build zero level = refl
  first_level-build (suc fuel) level =
      if_ind (λ t. first_level t ≡ level) (ltb 1 (length level)) _ _ (λ many. refl) (λ few. refl)

  pub get_proof-Way :
      (t : Levels H) (level : List H) (i : ℕ) (x : H)
      → first_level t ≡ level
      → get_elem? level i ≡ some x
      → (w : Way t i x)
      → get_proof t i
        ≡ ok (record { leaf_index = i; leaf_hash = x; siblings = w.siblings; root = w.root })
  unfolding get_proof
  get_proof-Way t level i x first here w =
      let inside : leb (length level) i ≡ false = ground (arith, get_elem?_lt level i here) in
      rw first (rw inside (rw (here, w.found, w.above, proof_of) refl))
