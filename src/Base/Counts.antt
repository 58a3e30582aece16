-- ===== src/Base/Counts.antt =====
-- How often a number occurs in a list: pools and tables of block ids are compared by this count.
use Prim.Native.Nat.{ℕ, zero, suc, ◌+◌, ◌≤◌, ◌<◌}
use mathlib.Core.Path.{◌≡◌, refl}
use mathlib.Core.List.{List, [], ◌∷◌, ◌++◌}
use mathlib.Core.Option.{some}
use native.Mathlib.Omega.{arith}
use decentralized_llm.Base.Tests.{◌==◌, ltb, if◌then◌else◌}
use decentralized_llm.Base.Lists.{length, get_elem?, set, take, drop}

-- 1 if the two numbers are equal
abbrev pub hit : ℕ → ℕ → ℕ
hit a b = if a == b then 1 else 0

-- 1 if the number is not 0
abbrev pub sign : ℕ → ℕ
sign zero = 0
sign (suc n) = 1

-- 1 for the ids below the size of a pool
abbrev pub inside : ℕ → ℕ → ℕ
inside n b = if ltb b n then 1 else 0

unfoldable pub count : ℕ → List ℕ → ℕ
count b [] = 0
count b (x ∷ xs) = hit b x + count b xs

-- the ids `0 … n - 1`, the last first
unfoldable pub ids_below : ℕ → List ℕ
ids_below zero = []
ids_below (suc n) = n ∷ ids_below n

pub count-ids_below : (n b : ℕ) → count b (ids_below n) ≡ inside n b
unfolding count ids_below
count-ids_below zero b = ground arith
count-ids_below (suc n) b = ground (arith, count-ids_below n b)

pub length-ids_below : (n : ℕ) → length (ids_below n) ≡ n
unfolding ids_below
length-ids_below zero = refl
length-ids_below (suc n) = omega (arith, length-ids_below n)

pub count-append : (b : ℕ) (xs ys : List ℕ) → count b (xs ++ ys) ≡ count b xs + count b ys
unfolding count
count-append b [] ys = omega arith
count-append b (x ∷ xs) ys = omega (arith, count-append b xs ys)

pub count-get_elem? : (xs : List ℕ) (i : ℕ) {b : ℕ} → get_elem? xs i ≡ some b → 1 ≤ count b xs
unfolding count
count-get_elem? [] i h = absurd (ground arith)
count-get_elem? (x ∷ xs) zero h = ground arith
count-get_elem? (x ∷ xs) (suc i) {b} h = omega (arith, count-get_elem? xs i {b = b} h)

-- a number at two places is counted twice
pub count-get_elem?_ne :
    (xs : List ℕ) (i j : ℕ) {b : ℕ}
    → get_elem? xs i ≡ some b
    → get_elem? xs j ≡ some b
    → i < j
    → 2 ≤ count b xs
unfolding count
count-get_elem?_ne [] i j h k lt = absurd (ground arith)
count-get_elem?_ne (x ∷ xs) zero zero h k lt = absurd (omega arith)
count-get_elem?_ne (x ∷ xs) zero (suc j) {b} h k lt = ground (arith, count-get_elem? xs j {b = b} k)
count-get_elem?_ne (x ∷ xs) (suc i) zero h k lt = absurd (omega arith)
count-get_elem?_ne (x ∷ xs) (suc i) (suc j) {b} h k lt =
    omega (arith, count-get_elem?_ne xs i j {b = b} h k (omega arith))

pub count-set :
    (xs : List ℕ) (i v b : ℕ) {a : ℕ}
    → get_elem? xs i ≡ some a
    → count b (set xs i v) + hit b a ≡ count b xs + hit b v
unfolding count
count-set [] i v b h = absurd (ground arith)
count-set (x ∷ xs) zero v b h = ground arith
count-set (x ∷ xs) (suc i) v b {a} h = omega (arith, count-set xs i v b {a = a} h)

pub count-take-le : (n : ℕ) (xs : List ℕ) (b : ℕ) → count b (take n xs) ≤ count b xs
unfolding count
count-take-le zero xs b = omega arith
count-take-le (suc n) [] b = omega arith
count-take-le (suc n) (x ∷ xs) b = omega (arith, count-take-le n xs b)

pub count-take-drop :
    (n : ℕ) (xs : List ℕ) (b : ℕ) → count b (take n xs) + count b (drop n xs) ≡ count b xs
unfolding count
count-take-drop zero xs b = omega arith
count-take-drop (suc n) [] b = omega arith
count-take-drop (suc n) (x ∷ xs) b = omega (arith, count-take-drop n xs b)

-- `set.add`, for a set that is a list without repetition
unfoldable pub set_add : ℕ → List ℕ → List ℕ
set_add b xs = elim (count b xs) [ zero ↦ b ∷ xs | suc _ ↦ xs ]

pub count-set_add :
    (b a : ℕ) (xs : List ℕ) → count b xs ≡ 0 → count a (set_add b xs) ≡ hit a b + count a xs
unfolding set_add count
count-set_add b a xs h = ground arith

-- a function changed at one number
abbrev pub update {ℓ} : {A : Type ℓ} → (ℕ → A) → ℕ → A → ℕ → A
update f k v j = if k == j then v else f j

pub length-set_add : (b : ℕ) (xs : List ℕ) → count b xs ≡ 0 → length (set_add b xs) ≡ length xs + 1
unfolding set_add
length-set_add b xs h = ground arith
