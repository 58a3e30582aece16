-- ===== src/Jobs/Heap/Fuel.antt =====
-- The fuel of the two loops is enough: more of it changes nothing.
use decentralized_llm.Base.{
  ℕ, zero, suc, ◌+◌, ◌*◌, ◌/◌, ◌≡◌, ◌≤◌, ◌<◌, refl, ap, true, false, Bool, List, arith, ltb, ◌==◌,
  if◌then◌else◌, if_ind, length, get_elem?, Result, ok, raise,
}
use decentralized_llm.Jobs.Heap.{
  OpenJob, less_found, swap, parent, rise_if, sift_down, child_if, child_of, then_child, sift_up,
}
use decentralized_llm.Jobs.Heap.Ties.{length-swap}

-- The entry at a position rises at most so many times.
sift_down_enough :
    (fuel : ℕ) (heap : List OpenJob) (pos : ℕ)
    → pos ≤ fuel
    → sift_down fuel heap pos ≡ sift_down (suc fuel) heap pos
unfolding sift_down
sift_down_enough zero heap pos small =
    let root : (pos == 0) ≡ true = ground arith in rw (root, sift_down) refl
sift_down_enough (suc fuel) heap pos small =
    ap
      (λ r.
        if pos == 0
        then (ok tt, heap)
        else rise_if (less_found (get_elem? heap pos) (get_elem? heap (parent pos))) r heap)
      (sift_down_enough fuel (swap pos (parent pos) heap) (parent pos) (omega arith))

-- a child stands below its parent
Below : (pos : ℕ) → Result ℕ → Type 0
Below pos (ok child) = pos < child
Below pos (raise e) = Unit

child_if-Below : (test : Result Bool) (pos left : ℕ) → pos < left → Below pos (child_if test left)
unfolding child_if Below
child_if-Below (ok true) pos left h = h
child_if-Below (ok false) pos left h = omega arith
child_if-Below (raise e) pos left h = tt

child_of-Below : (heap : List OpenJob) (pos : ℕ) → Below pos (child_of heap pos)
unfolding child_of Below
child_of-Below heap pos =
    if_ind (Below pos) (ltb (2 * pos + 1 + 1) (length heap)) _ _
      (λ both. child_if-Below _ pos (2 * pos + 1) (omega arith)) (λ one. omega arith)

then_child_same :
    (child : Result ℕ) (pos : ℕ) (heap : List OpenJob) (f g : ℕ → Result (Unit {0}) × List OpenJob)
    → Below pos child
    → ((c : ℕ) → pos < c → f c ≡ g c)
    → then_child child heap f ≡ then_child child heap g
unfolding then_child Below
then_child_same (ok c) pos heap f g h same = same c h
then_child_same (raise e) pos heap f g h same = refl

-- An entry sinks below each position once at most.
sift_up_enough :
    (fuel : ℕ) (heap : List OpenJob) (pos : ℕ)
    → length heap ≤ fuel + pos
    → sift_up fuel heap pos ≡ sift_up (suc fuel) heap pos
unfolding sift_up
sift_up_enough zero heap pos deep =
    let leaf : ltb pos (length heap / 2) ≡ false = ground arith in rw (leaf, sift_up) refl
sift_up_enough (suc fuel) heap pos deep =
    ap (λ r. if ltb pos (length heap / 2) then r else sift_down pos heap pos)
      (then_child_same (child_of heap pos) pos heap (λ c. sift_up fuel (swap c pos heap) c)
        (λ c. sift_up (suc fuel) (swap c pos heap) c) (child_of-Below heap pos)
        (λ c lower.
          sift_up_enough fuel (swap c pos heap) c
            (omega (arith, length-swap c pos heap, deep, lower))))
