-- ===== src/Requests/Runs.antt =====
-- Requests leave in the order in which they came, and none is lost, whoever waits for them.
use Prim.Native.String.{String}
use mathlib.Core.List.{append-nil, append_assoc}
use decentralized_llm.Base.{
  ℕ, ◌≡◌, refl, sym, ap, ◌∙◌, inl, inr, Option, none, some, List, [], ◌∷◌, ◌++◌, arith,
  if◌then◌else◌, Bool-cases,
}
use decentralized_llm.Base.Dict.{lookup, lookup-insert, nat_eq, string_eq}
use decentralized_llm.Requests.{Request, Batcher, ensure, append_to, add_job, id_of, Turn, turn}
use decentralized_llm.Requests.Order.{
  ids, queued, sent, map-append, queued-insert, ensure-queued, turn-IsTurn,
}

-- a job comes in, or a waiting `next_batch` takes a turn
pub data Event : Type 0 where
  added : (now : ℕ) → Request → (model_name : String) → Event
  turned : (now deadline : ℕ) (model_name : String) → Event

-- the ids that come in for a model
unfoldable pub arrivals : String → List Event → List ℕ
arrivals q [] = []
arrivals q (added now r p ∷ events) =
    (if string_eq.beq p q then r.job_id ∷ [] else []) ++ arrivals q events
arrivals q (turned now deadline p ∷ events) = arrivals q events

-- the ids that go out for a model, and the batcher after all events
unfoldable pub run : String → List Event → Batcher → List ℕ × Batcher
unfolding add_job turn
run q [] b = ([], b)
run q (added now r p ∷ events) b = run q events (add_job now r p b)
run q (turned now deadline p ∷ events) b =
    let (t, b') = turn now deadline p b in
    let (out, end) = run q events b' in ((if string_eq.beq p q then sent t else []) ++ out, end)

append_to-queued :
    (p q : String) (r : Request) (o : Option (List Request)) (b : Batcher)
    → lookup p b.buffers ≡ o
    → ((buf : List Request) × (o ≡ some buf))
    → queued q (append_to p r o b) ≡ queued q b ++ (if string_eq.beq p q then r.job_id ∷ [] else [])
unfolding append_to id_of
append_to-queued p q r none b known (buf, some_buf) = absurd (ground arith)
append_to-queued p q r (some buf) b known some_buf = elim (Bool-cases (string_eq.beq p q)) [
  | inl same ↦
      queued-insert p q (buf ++ r ∷ []) b.buffers
      ∙ rw same (
          map-append id_of buf (r ∷ [])
          ∙ ap (λ t. t ++ r.job_id ∷ [])
              (sym (ap ids known) ∙ ap (λ k. queued k b) ((string_eq.beq_iff p q).0 same)))
  | inr other ↦
      queued-insert p q (buf ++ r ∷ []) b.buffers ∙ rw other (sym (append-nil (queued q b)))
]

ensure-buffer :
    (now : ℕ) (p : String) (o : Option (List Request)) (b : Batcher)
    → lookup p b.buffers ≡ o
    → (buf : List Request) × (lookup p (ensure now p o b).buffers ≡ some buf)
unfolding ensure
ensure-buffer now p (some buf) b known = (buf, known)
ensure-buffer now p none b known =
    ([], lookup-insert p p [] b.buffers ∙ rw ((string_eq.beq_iff p p).1 refl) refl)

add_job-queued :
    (now : ℕ) (r : Request) (p q : String) (b : Batcher)
    → queued q (add_job now r p b) ≡ queued q b ++ (if string_eq.beq p q then r.job_id ∷ [] else [])
unfolding add_job
add_job-queued now r p q b =
    let b' : Batcher = ensure now p (lookup p b.buffers) b in
    append_to-queued p q r (lookup p b'.buffers) b' refl
      (ensure-buffer now p (lookup p b.buffers) b refl)
    ∙ ap (λ t. t ++ (if string_eq.beq p q then r.job_id ∷ [] else []))
        (ensure-queued now p q (lookup p b.buffers) b refl)

-- For every model, whatever jobs come in and whoever waits for batches of it or of others: the
-- jobs of its batches, one batch after the other, and then those that still wait, are those that
-- waited at the start and then those that came in, in this order.
pub run-queued :
    (q : String) (events : List Event) (b : Batcher)
    → let (out, end) = run q events b in out ++ queued q end ≡ queued q b ++ arrivals q events
unfolding run arrivals
run-queued q [] b = sym (append-nil (queued q b))
run-queued q (added now r p ∷ events) b =
    run-queued q events (add_job now r p b)
    ∙ ap (λ t. t ++ arrivals q events) (add_job-queued now r p q b)
    ∙ append_assoc (queued q b) (if string_eq.beq p q then r.job_id ∷ [] else [])
        (arrivals q events)
run-queued q (turned now deadline p ∷ events) b =
    let t : Turn = (turn now deadline p b).0 in
    let b' : Batcher = (turn now deadline p b).1 in
    let out : List ℕ = (run q events b').0 in
    let end : Batcher = (run q events b').1 in
    let first : List ℕ = if string_eq.beq p q then sent t else [] in
    append_assoc first out (queued q end)
    ∙ ap (λ u. first ++ u) (run-queued q events b')
    ∙ sym (append_assoc first (queued q b') (arrivals q events))
    ∙ ap (λ u. u ++ arrivals q events) (turn-IsTurn now deadline p q b)
