-- ===== src/Base/Sizes.antt =====
-- The number of entries of a dictionary.
use Prim.Native.Nat.{suc, ◌≤◌, ◌<◌}
use mathlib.Core.Path.{◌≡◌}
use mathlib.Core.List.{[], ◌∷◌}
use mathlib.Core.Option.{some}
use native.Mathlib.Omega.{arith}
use decentralized_llm.Base.Dict.{Eq, Dict, lookup, insert, erase}
use decentralized_llm.Base.Lists.{length}

module _ {K V : Type 0} ⦃e : Eq K⦄ where
  pub length-erase : (k : K) (d : Dict K V) → length (erase k d) ≤ length d
  unfolding erase
  length-erase k [] = omega arith
  length-erase k ((i, w) ∷ d) = ground (arith, length-erase k d)

  pub length-erase_known :
      (k : K) (d : Dict K V) {v : V} → lookup k d ≡ some v → length (erase k d) < length d
  unfolding erase lookup
  length-erase_known k [] known = absurd (ground arith)
  length-erase_known k ((i, w) ∷ d) {v} known =
      ground (arith, length-erase k d, length-erase_known k d {v = v})

  pub length-insert : (k : K) (v : V) (d : Dict K V) → length (insert k v d) ≤ suc (length d)
  unfolding insert
  length-insert k v [] = omega arith
  length-insert k v ((i, w) ∷ d) = ground (arith, length-insert k v d)

  pub length-insert_known :
      (k : K) (v : V) (d : Dict K V) {u : V}
      → lookup k d ≡ some u
      → length (insert k v d) ≤ length d
  unfolding insert lookup
  length-insert_known k v [] known = absurd (ground arith)
  length-insert_known k v ((i, w) ∷ d) {u} known = ground (arith, length-insert_known k v d {u = u})
