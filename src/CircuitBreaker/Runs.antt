-- ===== src/CircuitBreaker/Runs.antt =====
-- What holds after any interleaving of calls.
use decentralized_llm.Base.{ℕ, zero, suc, ◌+◌, ◌≤◌, ◌<◌, ◌≡◌, ◌≢◌, ◌↔◌, refl, List, [], ◌∷◌, arith}
use decentralized_llm.CircuitBreaker.{
  closed, half_open, Config, Breaker, init, refresh, on_success, on_failure, reset,
}

-- what a program does with a breaker: look at the state, end a call, reset
pub data Event : Type 0 where
  looked : (now : ℕ) → Event
  succeeded : Event
  failed_at : (now : ℕ) → Event
  was_reset : Event

unfoldable pub apply : Event → Breaker → Breaker
unfolding refresh on_success on_failure reset
apply (looked now) b = refresh now b
apply succeeded b = on_success b
apply (failed_at now) b = on_failure now b
apply was_reset b = reset b

unfoldable pub apply_all : List Event → Breaker → Breaker
unfolding apply
apply_all [] b = b
apply_all (e ∷ events) b = apply_all events (apply e b)

-- the counts that go with a state
pub record IsValid (b : Breaker) : Type 0 where
  pub fails : 0 < b.config.failure_threshold
  pub succeeds : 0 < b.config.success_threshold
  pub below : b.state ≡ closed → b.failure_count < b.config.failure_threshold
  pub tripped : b.state ≢ closed → b.config.failure_threshold ≤ b.failure_count
  pub probing : b.state ≡ half_open → b.success_count < b.config.success_threshold

pub init-IsValid :
    (config : Config)
    → 0 < config.failure_threshold
    → 0 < config.success_threshold
    → IsValid (init config)
unfolding init
init-IsValid config h k = record {
  fails = h;
  succeeds = k;
  below = λ e. h;
  tripped = λ ne. absurd (ne refl);
  probing = λ e. ground arith;
}

apply-IsValid : (e : Event) (b : Breaker) → IsValid b → IsValid (apply e b)
unfolding apply
apply-IsValid (looked now) b v = record {
  fails = ground (arith, v.fails);
  succeeds = ground (arith, v.succeeds);
  below = λ e. ground (arith, v.below);
  tripped = λ ne. ground (arith, v.tripped);
  probing = λ e. ground (arith, v.probing, v.succeeds);
}
apply-IsValid succeeded b v = record {
  fails = ground (arith, v.fails);
  succeeds = ground (arith, v.succeeds);
  below = λ e. ground (arith, v.below, v.fails);
  tripped = λ ne. ground (arith, v.tripped);
  probing = λ e. ground (arith, v.probing);
}
apply-IsValid (failed_at now) b v = record {
  fails = ground (arith, v.fails);
  succeeds = ground (arith, v.succeeds);
  below = λ e. ground (arith, v.below);
  tripped = λ ne. ground (arith, v.tripped);
  probing = λ e. ground (arith, v.probing, v.tripped);
}
apply-IsValid was_reset b v = record {
  fails = v.fails;
  succeeds = v.succeeds;
  below = λ e. v.fails;
  tripped = λ ne. absurd (ne refl);
  probing = λ e. ground arith;
}

pub apply_all-IsValid :
    (events : List Event) (b : Breaker) → IsValid b → IsValid (apply_all events b)
unfolding apply_all
apply_all-IsValid [] b v = v
apply_all-IsValid (e ∷ events) b v = apply_all-IsValid events (apply e b) (apply-IsValid e b v)

-- so many failures, all at one time
unfoldable pub fail_times : (n now : ℕ) → Breaker → Breaker
unfolding on_failure
fail_times zero now b = b
fail_times (suc n) now b = fail_times n now (on_failure now b)

-- After n failures a circuit that was valid is closed exactly if it was closed before and its
-- failures in a row stay below the threshold.
pub fail_times-closed :
    (n now : ℕ) (b : Breaker)
    → IsValid b
    → let after = fail_times n now b in
      (after.state ≡ closed)
      ↔ ((b.state ≡ closed) × (b.failure_count + n < b.config.failure_threshold))
unfolding fail_times apply
fail_times-closed zero now b v = ground (arith, v.below)
fail_times-closed (suc n) now b v = ground (
  arith,
  fail_times-closed n now (on_failure now b) (apply-IsValid (failed_at now) b v),
  v.tripped,
  v.below,
)

unfoldable pub succeed_times : (n : ℕ) → Breaker → Breaker
unfolding on_success
succeed_times zero b = b
succeed_times (suc n) b = succeed_times n (on_success b)

succeed_times-stays : (n : ℕ) (b : Breaker) → b.state ≡ closed → (succeed_times n b).state ≡ closed
unfolding succeed_times on_success
succeed_times-stays zero b e = e
succeed_times-stays (suc n) b e = succeed_times-stays n (on_success b) (ground arith)

-- After n successes a half open circuit whose successes are below the threshold is closed exactly
-- if they reach it.
pub succeed_times-closed :
    (n : ℕ) (b : Breaker)
    → b.state ≡ half_open
    → b.success_count < b.config.success_threshold
    → ((succeed_times n b).state ≡ closed) ↔ (b.config.success_threshold ≤ b.success_count + n)
unfolding succeed_times on_success
succeed_times-closed zero b e below = ground arith
succeed_times-closed (suc n) b e below =
    ground (arith, succeed_times-stays n (on_success b), succeed_times-closed n (on_success b))
