-- ===== src/CircuitBreaker/Tests.antt =====
-- Runs of a breaker that opens after two failures.
use decentralized_llm.Base.{ℕ, ◌≡◌, ◌≢◌, ◌≤◌, ◌<◌, refl, [], ◌∷◌, arith}
use decentralized_llm.CircuitBreaker.{
  closed, opened, half_open, Config, Breaker, init, returned, failed, ran, circuit_open, call,
}
use decentralized_llm.CircuitBreaker.Runs.{looked, succeeded, failed_at, apply_all}
use decentralized_llm.CircuitBreaker.Rows.{in_a_row, apply_all-in_a_row}
use decentralized_llm.CircuitBreaker.Blocked.{
  Call, AllBefore, call_all, after_failing, call_all-after_failing,
}

abbrev config : Config
config = record { failure_threshold = 2; success_threshold = 1; timeout_seconds = 10 }

abbrev fresh : Breaker
unfolding init
fresh = init config

abbrev attempt : Call ℕ
attempt = record { starts = 7; ends = 8; outcome = returned 1 }

opens : (apply_all (failed_at 3 ∷ failed_at 5 ∷ []) fresh).state ≡ opened
unfolding apply_all fresh
opens = refl

closes_again :
    (apply_all (failed_at 3 ∷ failed_at 5 ∷ looked 15 ∷ succeeded ∷ []) fresh).state ≡ closed
unfolding apply_all fresh
closes_again = refl

apply_all-in_a_row_example :
    let b = apply_all (failed_at 3 ∷ succeeded ∷ failed_at 5 ∷ []) (init config) in
    (b.state ≡ closed → (b.failure_count ≡ 1) × (1 < 2))
    × (b.state ≢ closed → 2 ≤ b.failure_count)
    × (b.state ≡ half_open → b.success_count < 1)
unfolding in_a_row
apply_all-in_a_row_example =
    apply_all-in_a_row (failed_at 3 ∷ succeeded ∷ failed_at 5 ∷ []) config (omega arith)
      (omega arith)

call_all-after_failing_example :
    let (called, b') = call {A = ℕ} 4 5 failed (after_failing ℕ ((1, 3) ∷ []) fresh) in
    (called ≡ ran failed) × (call_all (attempt ∷ []) b' ≡ (circuit_open ∷ [], b'))
unfolding fresh init AllBefore
call_all-after_failing_example =
    call_all-after_failing ℕ ((1, 3) ∷ []) 4 5 (attempt ∷ []) fresh refl refl (omega arith, tt)
