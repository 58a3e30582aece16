-- ===== src/Base/Bytes.antt =====
-- Python's `bytes`: lists of numbers with their equality, and numbers as big-endian bytes.
use Prim.Native.Nat.{ℕ, zero, suc, ◌+◌, ◌*◌, ◌/◌, ◌%◌, ◌^◌, ◌<◌}
use mathlib.Core.Path.{◌≡◌, refl, ap, ◌∙◌}
use mathlib.Core.Logic.{◌↔◌}
use mathlib.Core.Bool.{Bool, true, false, ◌&&◌}
use mathlib.Core.List.{List, [], ◌∷◌, ◌++◌}
use native.Mathlib.Omega.{arith}
use decentralized_llm.Base.Dict.{Eq}
use decentralized_llm.Base.Lists.{length, length-append, take, drop}
use decentralized_llm.Base.Tests.{◌==◌}

abbrev pub bytes_beq : List ℕ → List ℕ → Bool
bytes_beq [] [] = true
bytes_beq [] (y ∷ ys) = false
bytes_beq (x ∷ xs) [] = false
bytes_beq (x ∷ xs) (y ∷ ys) = (x == y) && bytes_beq xs ys

pub bytes_beq_iff : (xs ys : List ℕ) → (bytes_beq xs ys ≡ true) ↔ (xs ≡ ys)
bytes_beq_iff [] [] = (λ h. refl, λ h. refl)
bytes_beq_iff [] (y ∷ ys) = ground arith
bytes_beq_iff (x ∷ xs) [] = ground arith
bytes_beq_iff (x ∷ xs) (y ∷ ys) = ground (arith, bytes_beq_iff xs ys)

instance abbrev pub bytes_eq : Eq (List ℕ)
bytes_eq = record { beq = bytes_beq; beq_iff = bytes_beq_iff }

-- the big-endian bytes of a number, `width` of them: `struct.pack`, `int.to_bytes`
unfoldable pub to_bytes : (width n : ℕ) → List ℕ
to_bytes zero n = []
to_bytes (suc width) n = to_bytes width (n / 256) ++ n % 256 ∷ []

-- `acc` is the value of the bytes before
unfoldable pub from_bytes : (acc : ℕ) → List ℕ → ℕ
from_bytes acc [] = acc
from_bytes acc (b ∷ bs) = from_bytes (acc * 256 + b) bs

pub length-to_bytes : (width n : ℕ) → length (to_bytes width n) ≡ width
unfolding to_bytes
length-to_bytes zero n = refl
length-to_bytes (suc width) n = omega (
  arith,
  length-append (to_bytes width (n / 256)) (n % 256 ∷ []),
  length-to_bytes width (n / 256),
)

from_bytes-append :
    (acc : ℕ) (xs ys : List ℕ) → from_bytes acc (xs ++ ys) ≡ from_bytes (from_bytes acc xs) ys
unfolding from_bytes
from_bytes-append acc [] ys = refl
from_bytes-append acc (x ∷ xs) ys = from_bytes-append (acc * 256 + x) xs ys

pub from_bytes-to_bytes : (width n : ℕ) → n < 256 ^ width → from_bytes 0 (to_bytes width n) ≡ n
unfolding to_bytes from_bytes
from_bytes-to_bytes zero n h = omega arith
from_bytes-to_bytes (suc width) n h =
    from_bytes-append 0 (to_bytes width (n / 256)) (n % 256 ∷ [])
    ∙ omega (arith, from_bytes-to_bytes width (n / 256) (omega arith))

pub take-length {ℓ} : {A : Type ℓ} (k : ℕ) (xs ys : List A) → length xs ≡ k → take k (xs ++ ys) ≡ xs
take-length zero [] ys h = refl
take-length zero (x ∷ xs) ys h = absurd (omega arith)
take-length (suc k) [] ys h = absurd (omega arith)
take-length (suc k) (x ∷ xs) ys h = ap (◌∷◌ x) (take-length k xs ys (omega arith))

pub drop-length {ℓ} : {A : Type ℓ} (k : ℕ) (xs ys : List A) → length xs ≡ k → drop k (xs ++ ys) ≡ ys
drop-length zero [] ys h = refl
drop-length zero (x ∷ xs) ys h = absurd (omega arith)
drop-length (suc k) [] ys h = absurd (omega arith)
drop-length (suc k) (x ∷ xs) ys h = drop-length k xs ys (omega arith)
