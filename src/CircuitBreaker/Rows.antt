-- ===== src/CircuitBreaker/Rows.antt =====
-- What a closed circuit counts: the failures in a row.
use decentralized_llm.Base.{ℕ, suc, ◌≤◌, ◌<◌, ◌≡◌, ◌≢◌, refl, ap, ◌∙◌, List, [], ◌∷◌, arith}
use decentralized_llm.CircuitBreaker.{
  closed, half_open, Config, Breaker, init, refresh, on_success, on_failure, reset,
}
use decentralized_llm.CircuitBreaker.Runs.{
  Event, looked, succeeded, failed_at, was_reset, apply, apply_all, IsValid, init-IsValid,
  apply_all-IsValid,
}

-- the failures in a row at the end of some events, after `before` of them
unfoldable pub in_a_row : (before : ℕ) → List Event → ℕ
in_a_row before [] = before
in_a_row before (looked now ∷ events) = in_a_row before events
in_a_row before (succeeded ∷ events) = in_a_row 0 events
in_a_row before (failed_at now ∷ events) = in_a_row (suc before) events
in_a_row before (was_reset ∷ events) = in_a_row 0 events

-- a closed circuit counts the failures in a row
Counts : ℕ → Breaker → Type 0
Counts k b = b.state ≡ closed → b.failure_count ≡ k

apply_all-Counts :
    (events : List Event) (k : ℕ) (b : Breaker)
    → Counts k b
    → Counts (in_a_row k events) (apply_all events b)
unfolding apply_all apply in_a_row refresh on_success on_failure reset Counts
apply_all-Counts [] k b h = h
apply_all-Counts (looked now ∷ events) k b h =
    apply_all-Counts events k (refresh now b) (λ e. ground (arith, h))
apply_all-Counts (succeeded ∷ events) k b h =
    apply_all-Counts events 0 (on_success b) (λ e. ground (arith, h))
apply_all-Counts (failed_at now ∷ events) k b h =
    apply_all-Counts events (suc k) (on_failure now b) (λ e. ground (arith, h))
apply_all-Counts (was_reset ∷ events) k b h = apply_all-Counts events 0 (reset b) (λ e. refl)

apply_all-config : (events : List Event) (b : Breaker) → (apply_all events b).config ≡ b.config
unfolding apply_all apply refresh on_success on_failure reset
apply_all-config [] b = refl
apply_all-config (looked now ∷ events) b = apply_all-config events (refresh now b) ∙ ground arith
apply_all-config (succeeded ∷ events) b = apply_all-config events (on_success b) ∙ ground arith
apply_all-config (failed_at now ∷ events) b =
    apply_all-config events (on_failure now b) ∙ ground arith
apply_all-config (was_reset ∷ events) b = apply_all-config events (reset b) ∙ refl

-- After any interleaving of looks at the state, ends of calls and resets on a new breaker with
-- positive thresholds: a closed circuit counts the failures since the last success or reset, and
-- they are fewer than the threshold; one that is not closed has counted the threshold at least,
-- and a half open one fewer successes than close it.
pub apply_all-in_a_row :
    (events : List Event) (config : Config)
    → 0 < config.failure_threshold
    → 0 < config.success_threshold
    → let b = apply_all events (init config) in
      (b.state ≡ closed
        → (b.failure_count ≡ in_a_row 0 events) × (in_a_row 0 events < config.failure_threshold))
      × (b.state ≢ closed → config.failure_threshold ≤ b.failure_count)
      × (b.state ≡ half_open → b.success_count < config.success_threshold)
unfolding init Counts
apply_all-in_a_row events config h k =
    let b : Breaker = apply_all events (init config) in
    let v : IsValid b = apply_all-IsValid events (init config) (init-IsValid config h k) in
    let counts = apply_all-Counts events 0 (init config) (λ e. refl) in
    let same : b.config ≡ config = apply_all-config events (init config) in
    let fails : b.config.failure_threshold ≡ config.failure_threshold =
      ap (λ c. c.failure_threshold) same in
    let succeeds : b.config.success_threshold ≡ config.success_threshold =
      ap (λ c. c.success_threshold) same in
    (
      λ e. (counts e, omega (arith, counts e, v.below e, fails)),
      λ ne. omega (arith, v.tripped ne, fails),
      λ e. omega (arith, v.probing e, succeeds),
    )
