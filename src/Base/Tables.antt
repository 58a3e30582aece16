-- ===== src/Base/Tables.antt =====
-- Dictionaries from ids to tables of block ids: how often a block occurs in all tables together.
use Prim.Native.Nat.{ℕ, ◌+◌, ◌≤◌}
use mathlib.Core.Path.{◌≡◌, refl}
use mathlib.Core.Logic.{◌≢◌}
use mathlib.Core.List.{List, [], ◌∷◌}
use mathlib.Core.Option.{none, some}
use native.Mathlib.Omega.{arith}
use decentralized_llm.Base.Tests.{==_iff}
use decentralized_llm.Base.Counts.{count}
use decentralized_llm.Base.Dict.{nat_eq, Dict, lookup, insert, erase, IsDict}

unfoldable pub total : ℕ → Dict ℕ (List ℕ) → ℕ
total b [] = 0
total b ((k, t) ∷ d) = count b t + total b d

pub total-insert_new :
    (b k : ℕ) (t : List ℕ) (d : Dict ℕ (List ℕ))
    → lookup k d ≡ none
    → total b (insert k t d) ≡ total b d + count b t
unfolding total lookup insert
total-insert_new b k t [] h = omega arith
total-insert_new b k t ((j, u) ∷ d) h = ground (arith, total-insert_new b k t d)

pub total-insert :
    (b k : ℕ) (t u : List ℕ) (d : Dict ℕ (List ℕ))
    → lookup k d ≡ some u
    → total b (insert k t d) + count b u ≡ total b d + count b t
unfolding total lookup insert
total-insert b k t u [] h = cc
total-insert b k t u ((j, w) ∷ d) h = ground (arith, total-insert b k t u d)

pub erase_absent {ℓ} : {V : Type ℓ} (k : ℕ) (d : Dict ℕ V) → lookup k d ≡ none → erase k d ≡ d
unfolding lookup erase
erase_absent k [] h = refl
erase_absent k ((j, w) ∷ d) h = ground (arith, erase_absent k d)

pub total-erase :
    (b k : ℕ) (t : List ℕ) (d : Dict ℕ (List ℕ))
    → IsDict d
    → lookup k d ≡ some t
    → total b (erase k d) + count b t ≡ total b d
unfolding total lookup erase
total-erase b k t [] u h = cc
total-erase b k t ((j, w) ∷ d) u h =
    ground (arith, ==_iff j k, erase_absent k d, total-erase b k t d u.1)

pub count-le-total :
    (b k : ℕ) (t : List ℕ) (d : Dict ℕ (List ℕ)) → lookup k d ≡ some t → count b t ≤ total b d
unfolding total lookup
count-le-total b k t [] h = absurd (ground arith)
count-le-total b k t ((j, w) ∷ d) h = ground (arith, count-le-total b k t d)

-- the tables of two ids are counted side by side
pub count_add-le-total :
    (b k j : ℕ) (t u : List ℕ) (d : Dict ℕ (List ℕ))
    → k ≢ j
    → lookup k d ≡ some t
    → lookup j d ≡ some u
    → count b t + count b u ≤ total b d
unfolding total lookup
count_add-le-total b k j t u [] ne h g = absurd (ground arith)
count_add-le-total b k j t u ((i, w) ∷ d) ne h g =
    ground (arith, count_add-le-total b k j t u d, count-le-total b k t d, count-le-total b j u d)
