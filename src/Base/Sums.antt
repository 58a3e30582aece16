-- ===== src/Base/Sums.antt =====
-- Sums over lists and over the values of a dictionary.
use Prim.Native.Nat.{ℕ, ◌+◌, ◌≤◌}
use mathlib.Core.Path.{◌≡◌}
use mathlib.Core.List.{List, [], ◌∷◌, ◌++◌}
use mathlib.Core.Option.{none, some}
use native.Mathlib.Omega.{arith}
use decentralized_llm.Base.Dict.{Eq, Dict, lookup, insert}

unfoldable pub sum_of : {A : Type 0} → (A → ℕ) → List A → ℕ
sum_of f [] = 0
sum_of f (x ∷ xs) = f x + sum_of f xs

pub sum_of-append :
    {A : Type 0} (f : A → ℕ) (xs ys : List A) → sum_of f (xs ++ ys) ≡ sum_of f xs + sum_of f ys
unfolding sum_of
sum_of-append f [] ys = omega arith
sum_of-append f (x ∷ xs) ys = omega (arith, sum_of-append f xs ys)

unfoldable pub sum_values : {K V : Type 0} → (V → ℕ) → Dict K V → ℕ
sum_values f [] = 0
sum_values f ((k, v) ∷ d) = f v + sum_values f d

module _ {K V : Type 0} ⦃e : Eq K⦄ (f : V → ℕ) where
  pub sum_values-insert_new :
      (k : K) (v : V) (d : Dict K V)
      → lookup k d ≡ none
      → sum_values f (insert k v d) ≡ sum_values f d + f v
  unfolding sum_values insert lookup
  sum_values-insert_new k v [] new = omega arith
  sum_values-insert_new k v ((j, w) ∷ d) new = ground (arith, sum_values-insert_new k v d)

  pub sum_values-insert :
      (k : K) (v w : V) (d : Dict K V)
      → lookup k d ≡ some w
      → sum_values f (insert k v d) + f w ≡ sum_values f d + f v
  unfolding sum_values insert lookup
  sum_values-insert k v w [] known = absurd (ground arith)
  sum_values-insert k v w ((j, u) ∷ d) known = ground (arith, sum_values-insert k v w d)

pub sum_values-le :
    {K V : Type 0} (f g : V → ℕ) (d : Dict K V)
    → ((v : V) → f v ≤ g v)
    → sum_values f d ≤ sum_values g d
unfolding sum_values
sum_values-le f g [] h = omega arith
sum_values-le f g ((k, v) ∷ d) h = omega (arith, h v, sum_values-le f g d h)
