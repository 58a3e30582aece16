-- ===== src/Settlement/Tests.antt =====
-- Runs of the tracker over two payments.
use decentralized_llm.Base.{ℕ, ◌+◌, ◌≤◌, ◌≡◌, refl, none, some, List, [], ◌∷◌, ◌==◌, if◌then◌else◌}
use decentralized_llm.Base.Dict.{nat_eq, lookup, insert}
use decentralized_llm.Base.Sums.{sum_of}
use decentralized_llm.Settlement.{
  PaymentRecord, SettlementBatch, SettlementTracker, flush, fail, get_batch,
  total_confirmed_lamports,
}
use decentralized_llm.Settlement.Ledger.{
  Event, recorded, flushed, confirmed_as, apply_all, amount_of, volume, IsValid, apply_all-volume,
  flush-batch,
}

abbrev payment : ℕ → PaymentRecord ℕ
payment n = record {
  job_id = n;
  amount_lamports = n;
  client_pubkey = "client";
  earned_at = 0;
  proof = none;
}

abbrev waiting_tracker : SettlementTracker ℕ
waiting_tracker = record {
  min_batch_lamports = 10;
  max_batch_size = 5;
  pending_records = payment 3 ∷ payment 4 ∷ [];
  batches = [];
  batch_counter = 0;
}

waiting_tracker-IsValid : IsValid waiting_tracker
unfolding IsValid lookup
waiting_tracker-IsValid id above = refl

abbrev events : List (Event ℕ)
events = recorded 1 8 20 "client" none ∷ flushed 2 ∷ confirmed_as 1 "signature" ∷ []

settles_all : total_confirmed_lamports (apply_all events waiting_tracker) ≡ 27
unfolding apply_all total_confirmed_lamports lookup insert
settles_all = refl

-- a confirmed batch can be marked as failed
unsettles : total_confirmed_lamports (fail 1 (apply_all events waiting_tracker)).1 ≡ 0
unfolding apply_all total_confirmed_lamports fail lookup insert
unsettles = refl

apply_all-volume_example :
    (volume (apply_all events waiting_tracker) ≡ volume waiting_tracker + sum_of amount_of events)
    × (total_confirmed_lamports (apply_all events waiting_tracker)
        ≤ volume waiting_tracker + sum_of amount_of events)
apply_all-volume_example = apply_all-volume events waiting_tracker waiting_tracker-IsValid

flush-batch_example :
    (batch : SettlementBatch ℕ) × (t' : SettlementTracker ℕ) × (flush 2 waiting_tracker
      ≡ (some batch, t'))
    × (batch.records ≡ payment 3 ∷ payment 4 ∷ [])
    × (t'.pending_records ≡ [])
    × (get_batch batch.batch_id waiting_tracker ≡ none)
    × ((id : ℕ)
        → get_batch id t'
          ≡ (if batch.batch_id == id then some batch else get_batch id waiting_tracker))
flush-batch_example =
    flush-batch 2 (payment 3) (payment 4 ∷ []) waiting_tracker waiting_tracker-IsValid refl
