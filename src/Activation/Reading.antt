-- ===== src/Activation/Reading.antt =====
-- `_read_exactly` on a stream that comes in any chunks.
use mathlib.Core.List.{append-nil, append_assoc}
use decentralized_llm.Base.{
  ℕ, zero, suc, ◌+◌, ◌-◌, ◌≤◌, ◌<◌, ◌≡◌, refl, sym, ap, ◌∙◌, ◌⊎◌, inl, inr, true, false, List, [],
  ◌∷◌, ◌++◌, arith, length, length-append, take, drop, take-append-drop, length-take, Result, ok,
  raise, eof_error, ltb, if_ind,
}
use decentralized_llm.Activation.{Stream, bytes_of, read, read_more, read_loop, read_exactly}

-- a read of `n` bytes takes some from the front, none only at the end
abbrev IsSplit : ℕ → List ℕ → List ℕ × Stream → Type 0
IsSplit n bytes (chunk, r) =
    (bytes ≡ chunk ++ bytes_of r) × (length chunk ≤ n) × (chunk ≡ [] → length bytes ≡ 0)

read-IsSplit : (n : ℕ) (r : Stream) → 0 < n → IsSplit n (bytes_of r) (read n r)
unfolding read bytes_of
read-IsSplit n [] h = (refl, omega arith, λ none_left. refl)
read-IsSplit n ([] ∷ r) h = read-IsSplit n r h
read-IsSplit zero ((b ∷ chunk) ∷ r) h = absurd (omega arith)
read-IsSplit (suc n) ((b ∷ chunk) ∷ r) h = (
  ap (λ xs. b ∷ xs)
      (ap (λ xs. xs ++ bytes_of r) (sym (take-append-drop n chunk))
        ∙ append_assoc (take n chunk) (drop n chunk) (bytes_of r)),
  omega (arith, length-take n chunk),
  λ none_left. absurd (ground arith),
)

-- what a read of exactly `n` bytes gives, after `buf`, where `bytes` come before the end
abbrev pub IsRead : (n : ℕ) → (buf bytes : List ℕ) → Result (List ℕ) × Stream → Type 0
IsRead n buf bytes (result, r) =
    ((length bytes < n) × (result ≡ raise eof_error))
    ⊎ ((front : List ℕ) × (back : List ℕ) × (bytes ≡ front ++ back)
        × (length front ≡ n)
        × (result ≡ ok (buf ++ front))
        × (bytes_of r ≡ back))

after_chunk :
    (m : ℕ) (buf bytes chunk : List ℕ) (r : Stream) (rest : Result (List ℕ) × Stream)
    → 0 < m
    → IsSplit m bytes (chunk, r)
    → (0 < length chunk → IsRead (m - length chunk) (buf ++ chunk) (bytes_of r) rest)
    → IsRead m buf bytes (read_more chunk r rest)
unfolding read_more
after_chunk m buf bytes [] r rest h split go = inl (omega (arith, split.2 refl), refl)
after_chunk m buf bytes (b ∷ chunk) r rest h split go = elim (go (omega arith)) [
  | inl (short, e) ↦
      inl (
        omega (arith, ap length split.0, length-append (b ∷ chunk) (bytes_of r), split.1, short),
        e,
      )
  | inr (front, back, cut, size, e, left) ↦ inr (
    (b ∷ chunk) ++ front,
    back,
    split.0 ∙ ap (λ xs. (b ∷ chunk) ++ xs) cut ∙ sym (append_assoc (b ∷ chunk) front back),
    omega (arith, length-append (b ∷ chunk) front, size, split.1),
    e ∙ ap ok (append_assoc buf (b ∷ chunk) front),
    left,
  )
]

nothing_missing :
    (buf : List ℕ) (r : Stream) (m : ℕ) → m ≡ 0 → IsRead m buf (bytes_of r) (ok buf, r)
nothing_missing buf r m none_left =
    inr ([], bytes_of r, refl, sym none_left, ap ok (sym (append-nil buf)), refl)

read_loop-IsRead :
    (fuel n m : ℕ) (buf : List ℕ) (r : Stream)
    → length buf + m ≡ n
    → m ≤ fuel
    → IsRead m buf (bytes_of r) (read_loop fuel n buf r)
unfolding read_loop
read_loop-IsRead zero n m buf r total enough = nothing_missing buf r m (omega arith)
read_loop-IsRead (suc fuel) n m buf r total enough =
    if_ind (IsRead m buf (bytes_of r)) (ltb (length buf) n) _ _
      (λ more.
        after_chunk m buf (bytes_of r) (read (n - length buf) r).0 (read (n - length buf) r).1 _
          (missing (length buf) n m total more)
          (rw (same (length buf) n m total)
            (read-IsSplit m r (missing (length buf) n m total more)))
          (λ some_read.
            read_loop-IsRead fuel n (m - length (read (n - length buf) r).0)
              (buf ++ (read (n - length buf) r).0) (read (n - length buf) r).1
              (omega (
                arith,
                length-append buf (read (n - length buf) r).0,
                bounded (length buf) n m r total (missing (length buf) n m total more),
              ))
              (omega arith)))
      (λ full. nothing_missing buf r m (none_missing (length buf) n m total full))
  where
    missing : (have n m : ℕ) → have + m ≡ n → ltb have n ≡ true → 0 < m
    missing have n m total more = ground arith

    none_missing : (have n m : ℕ) → have + m ≡ n → ltb have n ≡ false → m ≡ 0
    none_missing have n m total full = ground arith

    same : (have n m : ℕ) → have + m ≡ n → n - have ≡ m
    same have n m total = omega arith

    bounded : (have n m : ℕ) (r : Stream) → have + m ≡ n → 0 < m → length (read (n - have) r).0 ≤ m
    bounded have n m r total h = rw (same have n m total) (read-IsSplit m r h).1

-- Reading exactly n bytes returns the first n bytes of the stream and leaves the others, however
-- the stream is cut into chunks, or raises EOFError if it has fewer.
pub read_exactly-IsRead : (n : ℕ) (r : Stream) → IsRead n [] (bytes_of r) (read_exactly n r)
unfolding read_exactly
read_exactly-IsRead n r = read_loop-IsRead n n n [] r (omega arith) (omega arith)
