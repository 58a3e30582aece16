-- ===== src/Batching/Sorting.antt =====
-- `sorted`, `_running.pop` and `_running[id] = seq` by how often each id occurs.
use decentralized_llm.Base.{ℕ, suc, ◌+◌, ◌≤◌, ◌≡◌, refl, List, [], ◌∷◌, Bool, arith, length}
use decentralized_llm.Base.Counts.{hit, sign, count}
use decentralized_llm.Batching.State.{remove_id, insert_id, insert_by, sort_by}

insert_by_lem :
    (f : ℕ → ℕ → Bool) (x : ℕ) (xs : List ℕ) (q : ℕ)
    → (count q (insert_by f x xs) ≡ hit q x + count q xs)
      × (length (insert_by f x xs) ≡ suc (length xs))
unfolding insert_by count
insert_by_lem f x [] q = (refl, refl)
insert_by_lem f x (y ∷ xs) q = ground (arith, insert_by_lem f x xs q)

-- Sorting keeps each id as often as it stood there.
pub count-sort_by : (f : ℕ → ℕ → Bool) (xs : List ℕ) (q : ℕ) → count q (sort_by f xs) ≡ count q xs
unfolding sort_by count
count-sort_by f [] q = refl
count-sort_by f (x ∷ xs) q =
    omega (arith, (insert_by_lem f x (sort_by f xs) q).0, count-sort_by f xs q)

pub length-sort_by : (f : ℕ → ℕ → Bool) (xs : List ℕ) → length (sort_by f xs) ≡ length xs
unfolding sort_by
length-sort_by f [] = refl
length-sort_by f (x ∷ xs) =
    omega (arith, (insert_by_lem f x (sort_by f xs) 0).1, length-sort_by f xs)

pub remove_id_lem :
    (id : ℕ) (xs : List ℕ) (q : ℕ)
    → (count q (remove_id id xs) ≤ count q xs)
      × (count id (remove_id id xs) ≡ 0)
      × (length (remove_id id xs) ≤ length xs)
unfolding remove_id count
remove_id_lem id [] q = ground arith
remove_id_lem id (x ∷ xs) q = ground (arith, remove_id_lem id xs q)

pub count-remove_id_ne :
    (id : ℕ) (xs : List ℕ) (q : ℕ) → hit q id ≡ 0 → count q (remove_id id xs) ≡ count q xs
unfolding remove_id count
count-remove_id_ne id [] q ne = refl
count-remove_id_ne id (x ∷ xs) q ne = ground (arith, count-remove_id_ne id xs q ne)

pub insert_id_lem :
    (id : ℕ) (xs : List ℕ) (q : ℕ)
    → (sign (count q (insert_id id xs)) ≡ sign (hit q id + count q xs))
      × (length (insert_id id xs) ≤ suc (length xs))
unfolding insert_id count
insert_id_lem id [] q = ground arith
insert_id_lem id (x ∷ xs) q = ground (arith, insert_id_lem id xs q)
