-- ===== src/Settlement/Ledger.antt =====
-- Lamports through any run of the tracker.
use Prim.Native.String.{String}
use decentralized_llm.Base.{
  ℕ, ◌+◌, ◌≤◌, ◌<◌, ◌≡◌, refl, ap, sym, ◌∙◌, Option, none, some, true, false, List, [], ◌∷◌, arith,
  if◌then◌else◌, ◌==◌, Option-cases, inl, inr,
}
use decentralized_llm.Base.Dict.{nat_eq, lookup, insert, lookup-insert}
use decentralized_llm.Base.Sums.{
  sum_of, sum_of-append, sum_values, sum_values-insert_new, sum_values-insert, sum_values-le,
}
use decentralized_llm.Settlement.{
  PaymentRecord, SettlementBatch, SettlementTracker, lamports, flush_records, record_payment, flush,
  confirm, fail, pending_lamports, get_batch, confirmed_part, total_confirmed_lamports,
}

pub data Event (P : Type 0) : Type 0 where
  recorded : (now job_id amount_lamports : ℕ) (client_pubkey : String) → Option P → Event P
  flushed : (now : ℕ) → Event P
  confirmed_as : (batch_id : ℕ) (tx_signature : String) → Event P
  failed_as : (batch_id : ℕ) → Event P

module _ {P : Type 0} where
  unfoldable pub apply : Event P → SettlementTracker P → SettlementTracker P
  unfolding record_payment flush confirm fail
  apply (recorded now job amount client proof) t = record_payment now job amount client proof t
  apply (flushed now) t = (flush now t).1
  apply (confirmed_as id signature) t = (confirm id signature t).1
  apply (failed_as id) t = (fail id t).1

  unfoldable pub apply_all : List (Event P) → SettlementTracker P → SettlementTracker P
  unfolding apply
  apply_all [] t = t
  apply_all (e ∷ events) t = apply_all events (apply e t)

  -- the amount that an event records
  unfoldable pub amount_of : Event P → ℕ
  amount_of (recorded now job amount client proof) = amount
  amount_of _ = 0

  -- all that the tracker holds, pending or in batches
  unfoldable pub volume : SettlementTracker P → ℕ
  unfolding pending_lamports sum_values lamports
  volume t = pending_lamports t + sum_values (λ b. lamports b.records) t.batches

  -- the ids above the counter are new
  unfoldable pub IsValid : SettlementTracker P → Type 0
  IsValid t = (id : ℕ) → t.batch_counter < id → lookup id t.batches ≡ none

  known_id :
      (t : SettlementTracker P) (id : ℕ) (b : SettlementBatch P)
      → IsValid t
      → lookup id t.batches ≡ some b
      → id ≤ t.batch_counter
  unfolding IsValid
  known_id t id b v known = ground (arith, v id)

  replace-IsValid :
      (t : SettlementTracker P) (id : ℕ) (b c : SettlementBatch P)
      → IsValid t
      → lookup id t.batches ≡ some b
      → IsValid (record t { batches = insert id c t.batches })
  unfolding IsValid
  replace-IsValid t id b c v known j above =
      ground (arith, v j above, lookup-insert id j c t.batches, known_id t id b v known)

  flush_records-IsValid :
      (now : ℕ) (records : List (PaymentRecord P)) (t : SettlementTracker P)
      → IsValid t
      → IsValid (flush_records now records t).1
  unfolding IsValid flush_records
  flush_records-IsValid now [] t v id above = v id above
  flush_records-IsValid now (r ∷ records) t v id above =
      let differ : (t.batch_counter + 1 == id) ≡ false = ground arith in
      lookup-insert (t.batch_counter + 1) id _ t.batches ∙ rw differ (v id (omega arith))

  apply-IsValid : (e : Event P) (t : SettlementTracker P) → IsValid t → IsValid (apply e t)
  unfolding apply IsValid record_payment flush
  apply-IsValid (recorded now job amount client proof) t v = v
  apply-IsValid (flushed now) t v = flush_records-IsValid now t.pending_records t v
  apply-IsValid (confirmed_as id signature) t v = elim (Option-cases (lookup id t.batches)) [
    | inl unknown ↦ rw (unknown, apply, confirm) v
    | inr (b, known) ↦ rw (known, apply, confirm) (replace-IsValid t id b _ v known)
  ]
  apply-IsValid (failed_as id) t v = elim (Option-cases (lookup id t.batches)) [
    | inl unknown ↦ rw (unknown, apply, fail) v
    | inr (b, known) ↦ rw (known, apply, fail) (replace-IsValid t id b _ v known)
  ]

  -- what `confirm` and `fail` do keeps the lamports of the batch
  replace-volume :
      (t : SettlementTracker P) (id : ℕ) (b c : SettlementBatch P)
      → lookup id t.batches ≡ some b
      → c.records ≡ b.records
      → volume (record t { batches = insert id c t.batches }) ≡ volume t
  unfolding volume pending_lamports lamports
  replace-volume t id b c known same =
      omega (
        arith,
        sum_values-insert (λ b. lamports b.records) id c b t.batches known,
        ap lamports same,
      )

  flush_records-volume :
      (now : ℕ) (records : List (PaymentRecord P)) (t : SettlementTracker P)
      → IsValid t
      → t.pending_records ≡ records
      → volume (flush_records now records t).1 ≡ volume t
  unfolding IsValid flush_records volume pending_lamports lamports sum_of
  flush_records-volume now [] t v same = refl
  flush_records-volume now (r ∷ records) t v same = omega (
    arith,
    sum_values-insert_new (λ (b : SettlementBatch P). lamports b.records) (t.batch_counter + 1) _
        t.batches (v (t.batch_counter + 1) (omega arith)),
    ap lamports same,
  )

  record_payment-volume :
      (now job amount : ℕ) (client : String) (proof : Option P) (t : SettlementTracker P)
      → volume (record_payment now job amount client proof t) ≡ volume t + amount
  unfolding record_payment volume pending_lamports lamports sum_of
  record_payment-volume now job amount client proof t =
      omega (
        arith,
        sum_of-append (λ (r : PaymentRecord P). r.amount_lamports) t.pending_records (_ ∷ []),
      )

  apply-volume :
      (e : Event P) (t : SettlementTracker P)
      → IsValid t
      → volume (apply e t) ≡ volume t + amount_of e
  unfolding apply amount_of flush
  apply-volume (recorded now job amount client proof) t v =
      record_payment-volume now job amount client proof t
  apply-volume (flushed now) t v =
      omega (arith, flush_records-volume now t.pending_records t v refl)
  apply-volume (confirmed_as id signature) t v = elim (Option-cases (lookup id t.batches)) [
    | inl unknown ↦ rw (unknown, apply, confirm) (omega arith)
    | inr (b, known) ↦
        rw (known, apply, confirm) (omega (arith, replace-volume t id b _ known refl))
  ]
  apply-volume (failed_as id) t v = elim (Option-cases (lookup id t.batches)) [
    | inl unknown ↦ rw (unknown, apply, fail) (omega arith)
    | inr (b, known) ↦ rw (known, apply, fail) (omega (arith, replace-volume t id b _ known refl))
  ]

  confirmed-le-volume : (t : SettlementTracker P) → total_confirmed_lamports t ≤ volume t
  unfolding total_confirmed_lamports volume confirmed_part
  confirmed-le-volume t =
      omega (
        arith,
        sum_values-le confirmed_part (λ b. lamports b.records) t.batches (λ b. ground arith),
      )

  -- After any run from a valid tracker, the lamports pending and in batches are those it held
  -- before and those that the run recorded, and the lamports confirmed are at most that many.
  pub apply_all-volume :
      (events : List (Event P)) (t : SettlementTracker P)
      → IsValid t
      → (volume (apply_all events t) ≡ volume t + sum_of amount_of events)
        × (total_confirmed_lamports (apply_all events t) ≤ volume t + sum_of amount_of events)
  unfolding apply_all sum_of
  apply_all-volume [] t v = (omega arith, omega (arith, confirmed-le-volume t))
  apply_all-volume (e ∷ events) t v =
      let (kept, below) = apply_all-volume events (apply e t) (apply-IsValid e t v) in
      (omega (arith, kept, apply-volume e t v), omega (arith, below, apply-volume e t v))

  -- A flush of pending records on a valid tracker makes one batch of them all, under an id that no
  -- batch had, and nothing is pending after it; the other batches are as before.
  pub flush-batch :
      (now : ℕ) (r : PaymentRecord P) (records : List (PaymentRecord P)) (t : SettlementTracker P)
      → IsValid t
      → t.pending_records ≡ r ∷ records
      → (batch : SettlementBatch P) × (t' : SettlementTracker P) × (flush now t ≡ (some batch, t'))
        × (batch.records ≡ t.pending_records)
        × (t'.pending_records ≡ [])
        × (get_batch batch.batch_id t ≡ none)
        × ((id : ℕ)
            → get_batch id t' ≡ (if batch.batch_id == id then some batch else get_batch id t))
  unfolding flush get_batch IsValid flush_records
  flush-batch now r records t v some_pending = (
    _,
    _,
    ap (λ rs. flush_records now rs t) some_pending,
    sym some_pending,
    refl,
    v (t.batch_counter + 1) (omega arith),
    λ id. lookup-insert (t.batch_counter + 1) id _ t.batches,
  )

  -- Settling an unknown batch changes nothing and returns False; settling a known one returns True
  -- and moves its lamports into the confirmed ones or out of them.
  pub settle-total :
      (t : SettlementTracker P) (id : ℕ) (signature : String)
      → (get_batch id t ≡ none → (confirm id signature t ≡ (false, t)) × (fail id t ≡ (false, t)))
        × ((b : SettlementBatch P)
            → get_batch id t ≡ some b
            → ((confirm id signature t).0 ≡ true)
              × ((fail id t).0 ≡ true)
              × (total_confirmed_lamports (confirm id signature t).1 + confirmed_part b
                  ≡ total_confirmed_lamports t + lamports b.records)
              × (total_confirmed_lamports (fail id t).1 + confirmed_part b
                  ≡ total_confirmed_lamports t))
  unfolding confirm fail get_batch total_confirmed_lamports
  settle-total t id signature = (
    λ unknown. (rw (unknown, confirm) refl, rw (unknown, fail) refl),
    λ b known.
        rw (known, confirm, fail)
          (
            refl,
            refl,
            sum_values-insert confirmed_part id _ b t.batches known,
            omega (arith, sum_values-insert confirmed_part id _ b t.batches known),
          ),
  )
