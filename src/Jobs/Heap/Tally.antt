-- ===== src/Jobs/Heap/Tally.antt =====
-- The heap keeps its jobs: how many of them have a value of a field.
use decentralized_llm.Base.{
  ℕ, zero, suc, ◌+◌, ◌/◌, ◌≡◌, refl, sym, ap, subst, ◌∙◌, inl, inr, Option, none, some, Bool, true,
  false, List, [], ◌∷◌, ◌++◌, arith, ltb, ◌==◌, ==_iff, if◌then◌else◌, if_ind, length, get_elem?,
  set, get_elem?-set_self, get_elem?-set_ne, get_elem?_lt, Result, ok, raise, Bool-cases,
}
use decentralized_llm.Jobs.Heap.{
  OpenJob, swap_found, swap, parent, rise_if, sift_down, heappush, then_child, sift_up, last_of,
  but_last, Popped, empty, popped, dropped, pop_after, heappop,
}

module _ (field : OpenJob → ℕ) (value : ℕ) where
  unfoldable pub tally : List OpenJob → ℕ
  tally [] = 0
  tally (job ∷ jobs) = if field job == value then suc (tally jobs) else tally jobs

  pub tally_cons :
      (job : OpenJob) (jobs : List OpenJob) → tally (job ∷ jobs) ≡ tally (job ∷ []) + tally jobs
  unfolding tally
  tally_cons job jobs = ground arith

  pub tally-append : (xs ys : List OpenJob) → tally (xs ++ ys) ≡ tally xs + tally ys
  unfolding tally
  tally-append [] ys = omega arith
  tally-append (x ∷ xs) ys = ground (arith, tally-append xs ys)

  tally-set :
      (xs : List OpenJob) (i : ℕ) (v : OpenJob) {x : OpenJob}
      → get_elem? xs i ≡ some x
      → tally (set xs i v) + tally (x ∷ []) ≡ tally xs + tally (v ∷ [])
  unfolding tally
  tally-set [] i v h = absurd (ground arith)
  tally-set (y ∷ xs) zero v h = ground arith
  tally-set (y ∷ xs) (suc i) v {x} h = ground (arith, tally-set xs i v {x = x})

  set_found :
      (xs : List OpenJob) (i j : ℕ) {a b : OpenJob}
      → get_elem? xs i ≡ some a
      → get_elem? xs j ≡ some b
      → get_elem? (set xs i b) j ≡ some b
  set_found xs i j {a} {b} h k = elim (Bool-cases (i == j)) [
    | inl same ↦
        subst (λ k. get_elem? (set xs i b) k ≡ some b) ((==_iff i j).0 same)
          (get_elem?-set_self xs i b (get_elem?_lt xs i h))
    | inr other ↦ get_elem?-set_ne xs i j b (λ e. ground (arith, e, other)) ∙ k
  ]

  tally-swap_found :
      (x y : Option OpenJob) (i j : ℕ) (heap : List OpenJob)
      → get_elem? heap i ≡ x
      → get_elem? heap j ≡ y
      → tally (swap_found x y i j heap) ≡ tally heap
  unfolding swap_found
  tally-swap_found (some a) (some b) i j heap h k = omega (
    arith,
    tally-set heap i b {x = a} h,
    tally-set (set heap i b) j a {x = b} (set_found heap i j h k),
  )
  tally-swap_found (some a) none i j heap h k = refl
  tally-swap_found none b i j heap h k = refl

  pub tally-swap : (i j : ℕ) (heap : List OpenJob) → tally (swap i j heap) ≡ tally heap
  unfolding swap
  tally-swap i j heap = tally-swap_found _ _ i j heap refl refl

  tally-rise_if :
      (test : Result Bool) (risen : Result (Unit {0}) × List OpenJob) (heap : List OpenJob)
      → tally risen.1 ≡ tally heap
      → tally (rise_if test risen heap).1 ≡ tally heap
  unfolding rise_if
  tally-rise_if (ok true) risen heap h = h
  tally-rise_if (ok false) risen heap h = refl
  tally-rise_if (raise e) risen heap h = refl

  tally-sift_down :
      (fuel : ℕ) (heap : List OpenJob) (pos : ℕ) → tally (sift_down fuel heap pos).1 ≡ tally heap
  unfolding sift_down
  tally-sift_down zero heap pos = refl
  tally-sift_down (suc fuel) heap pos =
      let rest = tally-sift_down fuel (swap pos (parent pos) heap) (parent pos) in
      if_ind {A = Result (Unit {0}) × List OpenJob} (λ r. tally r.1 ≡ tally heap) (pos == 0) _ _
        (λ root. refl) (λ below. tally-rise_if _ _ heap (rest ∙ tally-swap pos (parent pos) heap))

  pub tally-heappush :
      (heap : List OpenJob) (job : OpenJob)
      → tally (heappush heap job).1 ≡ tally heap + tally (job ∷ [])
  unfolding heappush
  tally-heappush heap job =
      tally-sift_down (length heap) (heap ++ job ∷ []) (length heap) ∙ tally-append heap (job ∷ [])

  tally-then_child :
      (child : Result ℕ) (heap : List OpenJob) (sink : ℕ → Result (Unit {0}) × List OpenJob)
      → ((c : ℕ) → tally (sink c).1 ≡ tally heap)
      → tally (then_child child heap sink).1 ≡ tally heap
  unfolding then_child
  tally-then_child (ok c) heap sink h = h c
  tally-then_child (raise e) heap sink h = refl

  tally-sift_up :
      (fuel : ℕ) (heap : List OpenJob) (pos : ℕ) → tally (sift_up fuel heap pos).1 ≡ tally heap
  unfolding sift_up
  tally-sift_up zero heap pos = tally-sift_down pos heap pos
  tally-sift_up (suc fuel) heap pos =
      if_ind {A = Result (Unit {0}) × List OpenJob} (λ r. tally r.1 ≡ tally heap)
        (ltb pos (length heap / 2)) _ _
        (λ inner.
          tally-then_child _ heap _
            (λ c. tally-sift_up fuel (swap c pos heap) c ∙ tally-swap c pos heap))
        (λ leaf. tally-sift_down pos heap pos)

  pub tally-last_of :
      (y : OpenJob) (ys : List OpenJob) → tally (last_of y ys ∷ but_last y ys) ≡ tally (y ∷ ys)
  unfolding last_of but_last
  tally-last_of y [] = refl
  tally-last_of y (z ∷ ys) = omega (
    arith,
    tally-last_of z ys,
    tally_cons y (z ∷ ys),
    tally_cons (last_of z ys) (y ∷ but_last z ys),
    tally_cons y (but_last z ys),
    tally_cons (last_of z ys) (but_last z ys),
  )

  -- the jobs that `heappop` leaves, with the one that it takes off
  abbrev pub tally_popped : Popped → ℕ
  tally_popped empty = 0
  tally_popped (popped job heap) = tally (job ∷ heap)
  tally_popped (dropped e job heap) = tally (job ∷ heap)

  pop_after-tally :
      (job : OpenJob) (r : Result (Unit {0}) × List OpenJob)
      → tally_popped (pop_after job r) ≡ tally (job ∷ r.1)
  unfolding pop_after
  pop_after-tally job (ok _, heap) = refl
  pop_after-tally job (raise e, heap) = refl

  pub heappop-tally : (heap : List OpenJob) → tally_popped (heappop heap) ≡ tally heap
  unfolding heappop tally
  heappop-tally [] = refl
  heappop-tally (x ∷ []) = refl
  heappop-tally (x ∷ y ∷ heap) =
      let start : List OpenJob = last_of y heap ∷ but_last y heap in
      let rest = tally-sift_up (length heap + 1) start 0 ∙ tally-last_of y heap in
      pop_after-tally x (sift_up (length heap + 1) start 0)
      ∙ (tally_cons x _ ∙ ap (◌+◌ (tally (x ∷ []))) rest)
      ∙ sym (tally_cons x (y ∷ heap))
