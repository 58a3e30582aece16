-- ===== src/Settlement.antt =====
-- node/settlement.py: `SettlementTracker`. Amounts are in lamports; the batch id
-- `batch-{counter:06d}` is the counter, and the proof of a record a value of the type `P`.

mod Tests
pub mod Ledger
use Prim.Native.String.{String}
use decentralized_llm.Base.{
  ℕ, zero, suc, ◌+◌, Option, none, some, Bool, true, false, List, [], ◌∷◌, ◌++◌, leb, ◌||◌, length,
}
use decentralized_llm.Base.Dict.{nat_eq, Dict, lookup, insert}
use decentralized_llm.Base.Sums.{sum_of, sum_values}

pub data SettlementStatus : Type 0 where
  pending submitted confirmed failed : SettlementStatus

pub record PaymentRecord (P : Type 0) : Type 0 where
  pub job_id : ℕ
  pub amount_lamports : ℕ
  pub client_pubkey : String
  pub earned_at : ℕ
  pub proof : Option P

pub record SettlementBatch (P : Type 0) : Type 0 where
  pub batch_id : ℕ
  pub records : List (PaymentRecord P)
  pub created_at : ℕ
  pub status : SettlementStatus
  pub tx_signature : String

pub record SettlementTracker (P : Type 0) : Type 0 where
  pub min_batch_lamports : ℕ
  pub max_batch_size : ℕ
  pub pending_records : List (PaymentRecord P)
  pub batches : Dict ℕ (SettlementBatch P)
  pub batch_counter : ℕ

-- `sum(r.amount_lamports for r in records)`
abbrev pub lamports : {P : Type 0} → List (PaymentRecord P) → ℕ
unfolding sum_of
lamports records = sum_of (λ r. r.amount_lamports) records

module _ {P : Type 0} where
  -- `__init__`
  unfoldable pub init : (min_batch_lamports max_batch_size : ℕ) → SettlementTracker P
  init min_batch_lamports max_batch_size = record {
    min_batch_lamports = min_batch_lamports;
    max_batch_size = max_batch_size;
    pending_records = [];
    batches = [];
    batch_counter = 0;
  }

  unfoldable pub record_payment :
      (now job_id amount_lamports : ℕ) (client_pubkey : String)
      → Option P
      → SettlementTracker P
      → SettlementTracker P
  record_payment now job_id amount_lamports client_pubkey proof t =
      let payment : PaymentRecord P = record {
        job_id = job_id;
        amount_lamports = amount_lamports;
        client_pubkey = client_pubkey;
        earned_at = now;
        proof = proof;
      } in
      record t { pending_records = t.pending_records ++ payment ∷ [] }

  unfoldable pub should_flush : SettlementTracker P → Bool
  unfolding lamports
  should_flush t =
      leb t.max_batch_size (length t.pending_records)
      || leb t.min_batch_lamports (lamports t.pending_records)

  -- `flush`, for the pending records
  unfoldable pub flush_records :
      (now : ℕ)
      → List (PaymentRecord P)
      → SettlementTracker P
      → Option (SettlementBatch P) × SettlementTracker P
  flush_records now [] t = (none, t)
  flush_records now (r ∷ records) t =
      let batch : SettlementBatch P = record {
        batch_id = t.batch_counter + 1;
        records = r ∷ records;
        created_at = now;
        status = pending;
        tx_signature = "";
      } in
      (
        some batch,
        record t {
          batch_counter = t.batch_counter + 1;
          batches = insert (t.batch_counter + 1) batch t.batches;
          pending_records = [];
        },
      )

  unfoldable pub flush :
      (now : ℕ) → SettlementTracker P → Option (SettlementBatch P) × SettlementTracker P
  unfolding flush_records
  flush now t = flush_records now t.pending_records t

  unfoldable pub confirm :
      (batch_id : ℕ) (tx_signature : String) → SettlementTracker P → Bool × SettlementTracker P
  confirm batch_id tx_signature t = elim (lookup batch_id t.batches) [
    | none ↦ (false, t)
    | some batch ↦
        let batch' : SettlementBatch P = record batch {
          status = confirmed;
          tx_signature = tx_signature;
        } in
        (true, record t { batches = insert batch_id batch' t.batches })
  ]

  unfoldable pub fail : (batch_id : ℕ) → SettlementTracker P → Bool × SettlementTracker P
  fail batch_id t = elim (lookup batch_id t.batches) [
    | none ↦ (false, t)
    | some batch ↦
        let batch' : SettlementBatch P = record batch { status = failed } in
        (true, record t { batches = insert batch_id batch' t.batches })
  ]

  unfoldable pub pending_lamports : SettlementTracker P → ℕ
  unfolding lamports
  pending_lamports t = lamports t.pending_records

  unfoldable pub get_batch : (batch_id : ℕ) → SettlementTracker P → Option (SettlementBatch P)
  get_batch batch_id t = lookup batch_id t.batches

  -- a batch in the sum over the confirmed ones
  unfoldable pub confirmed_part : SettlementBatch P → ℕ
  unfolding lamports
  confirmed_part b = elim b.status [ confirmed ↦ lamports b.records | _ ↦ 0 ]

  unfoldable pub total_confirmed_lamports : SettlementTracker P → ℕ
  unfolding confirmed_part sum_values
  total_confirmed_lamports t = sum_values confirmed_part t.batches
