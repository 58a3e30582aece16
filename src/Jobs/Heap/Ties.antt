-- ===== src/Jobs/Heap/Ties.antt =====
-- Where no two payments are equal, the heap never raises.
use decentralized_llm.Base.{
  Bool-cases, inl, inr, ℕ, zero, suc, ◌+◌, ◌*◌, ◌/◌, ◌≡◌, ◌≢◌, ◌≤◌, ◌<◌, refl, ap, ◌∙◌, Option,
  none, some, Bool, true, false, List, [], ◌∷◌, ◌++◌, arith, ltb, ◌==◌, if_ind, length, get_elem?,
  set, get_elem?_total, length-set, length-append, Result, ok, raise,
}
use decentralized_llm.Jobs.Heap.{
  OpenJob, less, less_found, swap_found, swap, parent, rise_if, sift_down, heappush, child_if,
  child_of, then_child, sift_up, last_of, but_last, Popped, empty, popped, dropped, pop_after,
  heappop,
}
use decentralized_llm.Jobs.Heap.Tally.{tally, tally_cons, tally-append, tally-swap, tally-last_of}

abbrev pub payment : OpenJob → ℕ
payment job = job.payment_amount

-- no two jobs have one payment
abbrev pub AreDistinct : List OpenJob → Type 0
AreDistinct jobs = (value : ℕ) → tally payment value jobs ≤ 1

tally-found :
    (jobs : List OpenJob) (i : ℕ) {a : OpenJob}
    → get_elem? jobs i ≡ some a
    → 1 ≤ tally payment a.payment_amount jobs
unfolding tally
tally-found [] i h = absurd (ground arith)
tally-found (x ∷ jobs) zero h = ground arith
tally-found (x ∷ jobs) (suc i) {a} h = ground (arith, tally-found jobs i {a = a} h)

tally-two :
    (jobs : List OpenJob) (i j : ℕ) {a b : OpenJob}
    → i ≢ j
    → get_elem? jobs i ≡ some a
    → get_elem? jobs j ≡ some b
    → a.payment_amount ≡ b.payment_amount
    → 2 ≤ tally payment a.payment_amount jobs
unfolding tally
tally-two [] i j ne h k e = absurd (ground arith)
tally-two (x ∷ jobs) zero zero ne h k e = absurd (ne refl)
tally-two (x ∷ jobs) zero (suc j) {a} {b} ne h k e = ground (arith, tally-found jobs j {a = b} k)
tally-two (x ∷ jobs) (suc i) zero {a} {b} ne h k e = ground (arith, tally-found jobs i {a = a} h)
tally-two (x ∷ jobs) (suc i) (suc j) {a} {b} ne h k e =
    ground (arith, tally-two jobs i j {a = a} {b = b} (λ same. ne (ap suc same)) h k e)

length-swap_found :
    (x y : Option OpenJob) (i j : ℕ) (heap : List OpenJob)
    → length (swap_found x y i j heap) ≡ length heap
unfolding swap_found
length-swap_found (some a) (some b) i j heap = length-set (set heap i b) j a ∙ length-set heap i b
length-swap_found (some a) none i j heap = refl
length-swap_found none b i j heap = refl

pub length-swap : (i j : ℕ) (heap : List OpenJob) → length (swap i j heap) ≡ length heap
unfolding swap
length-swap i j heap = length-swap_found _ _ i j heap

swap-AreDistinct : (i j : ℕ) (heap : List OpenJob) → AreDistinct heap → AreDistinct (swap i j heap)
swap-AreDistinct i j heap d value = omega (arith, d value, tally-swap payment value i j heap)

less-differ : (a b : OpenJob) → a.payment_amount ≢ b.payment_amount → (r : Bool) × (less a b ≡ ok r)
unfolding less
less-differ a b ne =
    let other : (a.payment_amount == b.payment_amount) ≡ false = ground (arith, ne) in
    (ltb b.payment_amount a.payment_amount, rw other refl)

less_found-ok :
    (heap : List OpenJob) (i j : ℕ)
    → AreDistinct heap
    → i ≢ j
    → i < length heap
    → j < length heap
    → (r : Bool) × (less_found (get_elem? heap i) (get_elem? heap j) ≡ ok r)
unfolding less_found
less_found-ok heap i j d ne hi hj =
    let (a, at) = get_elem?_total heap i hi in
    let (b, bt) = get_elem?_total heap j hj in
    rw (at, bt, less_found)
      (less-differ a b
        (λ e. omega (arith, d a.payment_amount, tally-two heap i j {a = a} {b = b} ne at bt e)))

rise_if-ok :
    (r : Bool) (risen : Result (Unit {0}) × List OpenJob) (heap : List OpenJob)
    → risen.0 ≡ ok tt
    → (rise_if (ok r) risen heap).0 ≡ ok tt
unfolding rise_if
rise_if-ok true risen heap h = h
rise_if-ok false risen heap h = refl

sift_down-ok :
    (fuel : ℕ) (heap : List OpenJob) (pos : ℕ)
    → AreDistinct heap
    → pos < length heap
    → (sift_down fuel heap pos).0 ≡ ok tt
unfolding sift_down
sift_down-ok zero heap pos d inside = refl
sift_down-ok (suc fuel) heap pos d inside =
    if_ind {A = Result (Unit {0}) × List OpenJob} (λ r. r.0 ≡ ok tt) (pos == 0) _ _ (λ root. refl)
      (λ below.
        let lower : parent pos < pos = ground arith in
        let (r, compared) =
          less_found-ok heap pos (parent pos) d (λ e. omega (arith, lower, e)) inside
            (omega (arith, lower, inside)) in
        rw compared (
          rise_if-ok r _ heap (
            sift_down-ok fuel (swap pos (parent pos) heap) (parent pos)
              (swap-AreDistinct pos (parent pos) heap d)
              (omega (arith, length-swap pos (parent pos) heap, lower, inside)))))

child_if-ok : (r : Bool) (left : ℕ) → (c : ℕ) × (child_if (ok r) left ≡ ok c) × (c ≤ left + 1)
unfolding child_if
child_if-ok true left = (left, refl, omega arith)
child_if-ok false left = (left + 1, refl, omega arith)

child_of-ok :
    (heap : List OpenJob) (pos : ℕ)
    → AreDistinct heap
    → pos < length heap / 2
    → (c : ℕ) × (child_of heap pos ≡ ok c) × (c < length heap)
unfolding child_of
child_of-ok heap pos d inner =
    let left : ℕ = 2 * pos + 1 in
    elim (Bool-cases (ltb (left + 1) (length heap))) [
      | inl both ↦
          let (r, compared) =
            less_found-ok heap left (left + 1) d (λ e. omega (arith, e)) (ground arith)
              (ground arith) in
          let (c, chosen, small) = child_if-ok r left in
          (c, rw (both, compared) chosen, ground arith)
      | inr one ↦ (left, rw one refl, omega (arith, inner))
    ]

sift_up-ok :
    (fuel : ℕ) (heap : List OpenJob) (pos : ℕ)
    → AreDistinct heap
    → pos < length heap
    → (sift_up fuel heap pos).0 ≡ ok tt
unfolding sift_up then_child
sift_up-ok zero heap pos d inside = sift_down-ok pos heap pos d inside
sift_up-ok (suc fuel) heap pos d inside =
    if_ind {A = Result (Unit {0}) × List OpenJob} (λ r. r.0 ≡ ok tt) (ltb pos (length heap / 2)) _ _
      (λ inner.
        let (c, chosen, within) = child_of-ok heap pos d (ground arith) in
        rw (chosen, then_child)
          (sift_up-ok fuel (swap c pos heap) c (swap-AreDistinct c pos heap d)
            (omega (arith, length-swap c pos heap, within))))
      (λ leaf. sift_down-ok pos heap pos d inside)

pub heappush-ok :
    (heap : List OpenJob) (job : OpenJob) → AreDistinct (job ∷ heap) → (heappush heap job).0 ≡ ok tt
unfolding heappush
heappush-ok heap job d =
    sift_down-ok (length heap) (heap ++ job ∷ []) (length heap)
      (λ value. omega (
        arith,
        d value,
        tally-append payment value heap (job ∷ []),
        tally_cons payment value job heap,
      ))
      (omega (arith, length-append heap (job ∷ [])))

-- what a heap gives: nothing if it is empty, and else a job
abbrev pub IsTaken : List OpenJob → Popped → Type 0
IsTaken heap empty = length heap ≡ 0
IsTaken heap (popped job rest) = 0 < length heap
IsTaken heap (dropped e job rest) = ⊥

pop_after-IsTaken :
    (heap : List OpenJob) (job : OpenJob) (r : Result (Unit {0}) × List OpenJob)
    → 0 < length heap
    → r.0 ≡ ok tt
    → IsTaken heap (pop_after job r)
unfolding pop_after
pop_after-IsTaken heap job (ok _, rest) some_job fine = some_job
pop_after-IsTaken heap job (raise e, rest) some_job fine = absurd (ground (arith, fine))

pub heappop-IsTaken : (heap : List OpenJob) → AreDistinct heap → IsTaken heap (heappop heap)
unfolding heappop
heappop-IsTaken [] d = refl
heappop-IsTaken (x ∷ []) d = omega arith
heappop-IsTaken (x ∷ y ∷ heap) d =
    let start : List OpenJob = last_of y heap ∷ but_last y heap in
    pop_after-IsTaken (x ∷ y ∷ heap) x (sift_up (length heap + 1) start 0) (omega arith) (
      sift_up-ok (length heap + 1) start 0
        (λ value. omega (
          arith,
          d value,
          tally-last_of payment value y heap,
          tally_cons payment value x (y ∷ heap),
        ))
        (omega arith))
