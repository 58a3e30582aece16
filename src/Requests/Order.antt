-- ===== src/Requests/Order.antt =====
-- What a turn sends and leaves is what waited before.
use Prim.Native.String.{String}
use decentralized_llm.Base.{
  ℕ, ◌-◌, ◌≡◌, refl, sym, ap, ◌∙◌, inl, inr, Option, none, some, List, [], ◌∷◌, ◌++◌, map, leb,
  if◌then◌else◌, length, take, drop, take-append-drop, if_ind, Bool-cases,
}
use decentralized_llm.Base.Dict.{
  Dict, lookup, insert, lookup-insert, lookup-erase, nat_eq, string_eq,
}
use decentralized_llm.Requests.{
  Request, Batcher, ensure, id_of, batch_of, keep_rest, count_size, drain, Turn, dispatched,
  nothing, waiting, send_batch, drain_late, drain_ready, turn,
}

-- the ids that wait for a model
abbrev pub ids : Option (List Request) → List ℕ
ids none = []
ids (some buf) = map id_of buf

abbrev pub queued : String → Batcher → List ℕ
queued model_name b = ids (lookup model_name b.buffers)

-- the ids that a turn sends out
abbrev pub sent : Turn → List ℕ
sent (dispatched batch) = batch.job_ids
sent nothing = []
sent waiting = []

pub map-append :
    {A B : Type 0} (f : A → B) (xs ys : List A) → map f (xs ++ ys) ≡ map f xs ++ map f ys
map-append f [] ys = refl
map-append f (x ∷ xs) ys = ap (λ t. f x ∷ t) (map-append f xs ys)

-- the queue of a model after its buffer is written, and that of any other
pub queued-insert :
    (p q : String) (buf : List Request) (buffers : Dict String (List Request))
    → ids (lookup q (insert p buf buffers))
      ≡ (if string_eq.beq p q then map id_of buf else ids (lookup q buffers))
queued-insert p q buf buffers = elim (Bool-cases (string_eq.beq p q)) [
  | inl same ↦ ap ids (lookup-insert p q buf buffers) ∙ rw same refl
  | inr other ↦ ap ids (lookup-insert p q buf buffers) ∙ rw other refl
]

pub ensure-queued :
    (now : ℕ) (p q : String) (o : Option (List Request)) (b : Batcher)
    → lookup p b.buffers ≡ o
    → queued q (ensure now p o b) ≡ queued q b
unfolding ensure
ensure-queued now p q (some buf) b known = refl
ensure-queued now p q none b known = elim (Bool-cases (string_eq.beq p q)) [
  | inl same ↦
      queued-insert p q [] b.buffers
      ∙ rw same refl
      ∙ sym (ap ids known)
      ∙ ap (λ k. queued k b) ((string_eq.beq_iff p q).0 same)
  | inr other ↦ queued-insert p q [] b.buffers ∙ rw other refl
]

-- what a batch takes and what stays are the buffer
keep_rest-queued :
    (now : ℕ) (p q : String) (rest : List Request) (b : Batcher)
    → queued q (keep_rest now p rest b) ≡ (if string_eq.beq p q then map id_of rest else queued q b)
unfolding keep_rest
keep_rest-queued now p q [] b = elim (Bool-cases (string_eq.beq p q)) [
  | inl same ↦ ap ids (lookup-erase p q b.buffers) ∙ rw same refl
  | inr other ↦ ap ids (lookup-erase p q b.buffers) ∙ rw other refl
]
keep_rest-queued now p q (r ∷ rest) b = queued-insert p q (r ∷ rest) b.buffers

count_size-queued :
    (q : String) (size : ℕ) (o : Option ℕ) (b : Batcher)
    → queued q (count_size size o b) ≡ queued q b
unfolding count_size
count_size-queued q size none b = refl
count_size-queued q size (some n) b = refl

-- what a turn for `p` sends and leaves, for `p` and for any other
abbrev pub IsTurn : (p q : String) → Batcher → Turn × Batcher → Type 0
IsTurn p q b (t, b') = (if string_eq.beq p q then sent t else []) ++ queued q b' ≡ queued q b

drain-IsTurn :
    (now : ℕ) (p q : String) (buf : List Request) (b : Batcher)
    → lookup p b.buffers ≡ some buf
    → IsTurn p q b (send_batch (drain now p buf b))
unfolding send_batch drain batch_of
drain-IsTurn now p q buf b known =
    let n : ℕ = b.max_batch_size in
    let after : Batcher = keep_rest now p (drop n buf) b in
    let left : queued q (
          count_size (length (take n buf)) (lookup (length (take n buf)) after.batch_size_histogram)
            after)
        ≡ (if string_eq.beq p q then map id_of (drop n buf) else queued q b) =
      count_size-queued q (length (take n buf))
        (lookup (length (take n buf)) after.batch_size_histogram) after
      ∙ keep_rest-queued now p q (drop n buf) b in
    elim (Bool-cases (string_eq.beq p q)) [
      | inl same ↦ rw same (
          ap (λ t. map id_of (take n buf) ++ t) (left ∙ rw same refl)
          ∙ sym (map-append id_of (take n buf) (drop n buf))
          ∙ ap (map id_of) (take-append-drop n buf)
          ∙ sym (ap ids known)
          ∙ ap (λ k. queued k b) ((string_eq.beq_iff p q).0 same))
      | inr other ↦ rw other (left ∙ rw other refl)
    ]

-- a turn that sends nothing
quiet :
    (p q : String) (b : Batcher) (x : List ℕ)
    → x ≡ queued q b
    → (if string_eq.beq p q then [] else []) ++ x ≡ queued q b
quiet p q b x same = elim (Bool-cases (string_eq.beq p q)) [
  | inl here ↦ rw here same
  | inr other ↦ rw other same
]

drain_late-IsTurn :
    (now : ℕ) (p q : String) (o : Option (List Request)) (b : Batcher)
    → lookup p b.buffers ≡ o
    → IsTurn p q b (drain_late now p o b)
unfolding drain_late
drain_late-IsTurn now p q none b known = quiet p q b _ refl
drain_late-IsTurn now p q (some []) b known = quiet p q b _ refl
drain_late-IsTurn now p q (some (r ∷ buf)) b known = drain-IsTurn now p q (r ∷ buf) b known

drain_ready-IsTurn :
    (now : ℕ) (p q : String) (o : Option (List Request)) (created : Option ℕ) (b : Batcher)
    → lookup p b.buffers ≡ o
    → IsTurn p q b (drain_ready now p o created b)
unfolding drain_ready
drain_ready-IsTurn now p q none created b known = quiet p q b _ refl
drain_ready-IsTurn now p q (some []) created b known = quiet p q b _ refl
drain_ready-IsTurn now p q (some (r ∷ buf)) none b known = quiet p q b _ refl
drain_ready-IsTurn now p q (some (r ∷ buf)) (some created) b known =
    if_ind {A = Turn × Batcher} (IsTurn p q b) (leb b.max_batch_size (length (r ∷ buf))) _ _
      (λ full. drain-IsTurn now p q (r ∷ buf) b known)
      (λ room.
        if_ind {A = Turn × Batcher} (IsTurn p q b) (leb b.max_wait_ms (now - created)) _ _
          (λ late. drain-IsTurn now p q (r ∷ buf) b known) (λ early. quiet p q b _ refl))

pub turn-IsTurn :
    (now deadline : ℕ) (p q : String) (b : Batcher) → IsTurn p q b (turn now deadline p b)
unfolding turn
turn-IsTurn now deadline p q b =
    let b' : Batcher = ensure now p (lookup p b.buffers) b in
    if_ind {A = Turn × Batcher} (IsTurn p q b) (leb deadline now) _ _
      (λ over. drain_late-IsTurn now p q (lookup p b.buffers) b refl)
      (λ time.
        drain_ready-IsTurn now p q (lookup p b'.buffers) (lookup p b'.buffer_created_at) b' refl
        ∙ ensure-queued now p q (lookup p b.buffers) b refl)
