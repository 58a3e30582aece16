-- ===== src/KvCache/Reach.antt =====
-- The caches that a program can reach from a new one, by any calls in any order.
use decentralized_llm.Base.{ℕ, ok, raise, Result, ℤ}
use decentralized_llm.KvCache.State.{Cache}
use decentralized_llm.KvCache.Ops.{allocate, free, share_prefix}
use decentralized_llm.KvCache.Write.{write}
use decentralized_llm.KvCache.Invariant.{IsValid}
use decentralized_llm.KvCache.Invariant.Keeps.{allocate-IsValid, free-IsValid, share_prefix-IsValid}
use decentralized_llm.KvCache.Cells.Writes.{Wrote, write-Wrote}

-- a call that raises may have changed the object, and the program may go on
pub data Reach {ℓ} {V : Type ℓ} (start : Cache V) : Cache V → Type ℓ where
  begin : Reach start start
  allocated : (c : Cache V) (s : ℕ) (n : ℤ) → Reach start c → Reach start (allocate c s n).1
  freed : (c : Cache V) (s : ℕ) → Reach start c → Reach start (free c s)
  shared : (c : Cache V) (r s : ℕ) (n : ℤ) → Reach start c → Reach start (share_prefix c r s n).1
  written :
      (c : Cache V) (s l token : ℕ) (key value : V)
      → Reach start c
      → Reach start (write c s l token key value).1

Wrote-IsValid {ℓ} :
    {V : Type ℓ} (c : Cache V) (s l token : ℕ) (key value : V) (r : Result (Unit {0}) × Cache V)
    → Wrote c s l token key value r
    → IsValid r.1
Wrote-IsValid c s l token key value (ok _, c') w = w.valid
Wrote-IsValid c s l token key value (raise e, c') w = w.valid

-- Every cache that calls of allocate, free, share_prefix and write, in any order and also where
-- they raise, reach from a valid one is valid: the references count the places in the block
-- tables, the free blocks are those without one, and no fill level exceeds its blocks.
pub Reach-IsValid {ℓ} : {V : Type ℓ} (start c : Cache V) → IsValid start → Reach start c → IsValid c
Reach-IsValid start _ v begin = v
Reach-IsValid start _ v (allocated c s n h) = allocate-IsValid c s n (Reach-IsValid start c v h)
Reach-IsValid start _ v (freed c s h) = free-IsValid c s (Reach-IsValid start c v h)
Reach-IsValid start _ v (shared c r s n h) =
    share_prefix-IsValid c r s n (Reach-IsValid start c v h)
Reach-IsValid start _ v (written c s l token key value h) =
    Wrote-IsValid c s l token key value (write c s l token key value)
      (write-Wrote c s l token key value (Reach-IsValid start c v h))
