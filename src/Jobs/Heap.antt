-- ===== src/Jobs/Heap.antt =====
-- `asyncio.PriorityQueue` of node/server.py: `heapq` on the pairs of a negated payment and its job. Pairs
-- with one payment compare their jobs, and `OpenJob` has no order: that raises TypeError. The heap is
-- then left as the swaps so far have made it.
pub mod Tally
pub mod Ties
mod Fuel
use decentralized_llm.Base.{
  ℕ, zero, suc, ◌+◌, ◌-◌, ◌*◌, ◌/◌, Option, none, some, Bool, true, false, ◌&&◌, List, [], ◌∷◌,
  ◌++◌, ltb, ◌==◌, if◌then◌else◌, length, get_elem?, set, Result, ok, raise, Error, type_error,
  index_error,
}

-- the fields of `OpenJob` that the server reads
pub record OpenJob : Type 0 where
  pub job_id : ℕ
  pub payment_amount : ℕ
  pub max_tokens : ℕ
  pub deadline : ℕ

-- `==` of two jobs with one payment
unfoldable pub same_job : OpenJob → OpenJob → Bool
same_job a b =
    (a.job_id == b.job_id) && (a.max_tokens == b.max_tokens) && (a.deadline == b.deadline)

-- `(-a.payment_amount, a) < (-b.payment_amount, b)`
unfoldable pub less : OpenJob → OpenJob → Result Bool
unfolding same_job
less a b =
    if a.payment_amount == b.payment_amount
    then (if same_job a b then ok false else raise type_error)
    else ok (ltb b.payment_amount a.payment_amount)

unfoldable pub less_found : Option OpenJob → Option OpenJob → Result Bool
unfolding less
less_found (some a) (some b) = less a b
less_found (some a) none = raise index_error
less_found none b = raise index_error

unfoldable pub swap_found : Option OpenJob → Option OpenJob → ℕ → ℕ → List OpenJob → List OpenJob
swap_found (some a) (some b) i j heap = set (set heap i b) j a
swap_found (some a) none i j heap = heap
swap_found none b i j heap = heap

unfoldable pub swap : ℕ → ℕ → List OpenJob → List OpenJob
unfolding swap_found
swap i j heap = swap_found (get_elem? heap i) (get_elem? heap j) i j heap

abbrev pub parent : ℕ → ℕ
parent pos = (pos - 1) / 2

-- a comparison that raises, one that goes on with `risen`, and one that stops
unfoldable pub rise_if :
    Result Bool
    → (risen : Result (Unit {0}) × List OpenJob) → List OpenJob
    → Result (Unit {0}) × List OpenJob
rise_if (ok true) risen heap = risen
rise_if (ok false) risen heap = (ok tt, heap)
rise_if (raise e) risen heap = (raise e, heap)

-- `_siftdown` to the root: the entry rises while it is less than its parent
unfoldable pub sift_down : (fuel : ℕ) → List OpenJob → (pos : ℕ) → Result (Unit {0}) × List OpenJob
unfolding less_found swap rise_if
sift_down zero heap pos = (ok tt, heap)
sift_down (suc fuel) heap pos =
    let risen = sift_down fuel (swap pos (parent pos) heap) (parent pos) in
    if pos == 0
    then (ok tt, heap)
    else rise_if (less_found (get_elem? heap pos) (get_elem? heap (parent pos))) risen heap

-- `heappush`
unfoldable pub heappush : List OpenJob → OpenJob → Result (Unit {0}) × List OpenJob
unfolding sift_down
heappush heap job = sift_down (length heap) (heap ++ job ∷ []) (length heap)

unfoldable pub child_if : Result Bool → (left : ℕ) → Result ℕ
child_if (ok true) left = ok left
child_if (ok false) left = ok (left + 1)
child_if (raise e) left = raise e

-- the lesser child of `pos`
unfoldable pub child_of : List OpenJob → (pos : ℕ) → Result ℕ
unfolding child_if less_found
child_of heap pos =
    let left = 2 * pos + 1 in
    if ltb (left + 1) (length heap)
    then child_if (less_found (get_elem? heap left) (get_elem? heap (left + 1))) left
    else ok left

unfoldable pub then_child :
    Result ℕ
    → List OpenJob
    → (ℕ → Result (Unit {0}) × List OpenJob)
    → Result (Unit {0}) × List OpenJob
then_child (ok child) heap sink = sink child
then_child (raise e) heap sink = (raise e, heap)

-- `_siftup` from the root: the lesser child rises until a leaf is reached, where the entry goes
unfoldable pub sift_up : (fuel : ℕ) → List OpenJob → (pos : ℕ) → Result (Unit {0}) × List OpenJob
unfolding child_of swap then_child sift_down
sift_up zero heap pos = sift_down pos heap pos
sift_up (suc fuel) heap pos =
    if ltb pos (length heap / 2)
    then then_child (child_of heap pos) heap (λ child. sift_up fuel (swap child pos heap) child)
    else sift_down pos heap pos

unfoldable pub last_of : OpenJob → List OpenJob → OpenJob
last_of x [] = x
last_of x (y ∷ ys) = last_of y ys

unfoldable pub but_last : OpenJob → List OpenJob → List OpenJob
but_last x [] = []
but_last x (y ∷ ys) = x ∷ but_last y ys

-- what `heappop` does: it has nothing to take, it returns a job, or it raises and the job is lost
pub data Popped : Type 0 where
  empty : Popped
  popped : OpenJob → List OpenJob → Popped
  dropped : Error → OpenJob → List OpenJob → Popped

unfoldable pub pop_after : OpenJob → Result (Unit {0}) × List OpenJob → Popped
pop_after job (ok _, heap) = popped job heap
pop_after job (raise e, heap) = dropped e job heap

-- `heappop`
unfoldable pub heappop : List OpenJob → Popped
unfolding last_of but_last pop_after sift_up
heappop [] = empty
heappop (x ∷ []) = popped x []
heappop (x ∷ y ∷ heap) =
    pop_after x (sift_up (length heap + 1) (last_of y heap ∷ but_last y heap) 0)
