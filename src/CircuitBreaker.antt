-- ===== src/CircuitBreaker.antt =====
-- node/circuit_breaker.py: `CircuitBreaker`. Times are natural numbers of a clock; a call is two
-- events, since other calls can run while it awaits its coroutine.
mod Tests
pub mod Runs
pub mod Rows
pub mod Blocked
use decentralized_llm.Base.{ℕ, ◌+◌, List, [], ◌∷◌, leb, if◌then◌else◌}

pub data CircuitState : Type 0 where
  closed opened half_open : CircuitState

pub record Config : Type 0 where
  pub failure_threshold : ℕ
  pub success_threshold : ℕ
  pub timeout_seconds : ℕ

pub record Breaker : Type 0 where
  pub config : Config
  pub state : CircuitState
  pub failure_count : ℕ
  pub success_count : ℕ
  pub last_failure_time : ℕ

-- `__init__`
unfoldable pub init : Config → Breaker
init config = record {
  config = config;
  state = closed;
  failure_count = 0;
  success_count = 0;
  last_failure_time = 0;
}

-- the property `state`: an open circuit turns half open after the timeout
unfoldable pub refresh : (now : ℕ) → Breaker → Breaker
refresh now b = elim b.state [
  | opened ↦
      if leb (b.last_failure_time + b.config.timeout_seconds) now
      then record b { state = half_open; success_count = 0 }
      else b
  | _ ↦ b
]

unfoldable pub on_success : Breaker → Breaker
on_success b = elim b.state [
  | half_open ↦
      if leb b.config.success_threshold (b.success_count + 1)
      then record b { success_count = b.success_count + 1; state = closed; failure_count = 0 }
      else record b { success_count = b.success_count + 1 }
  | closed ↦ record b { failure_count = 0 }
  | opened ↦ b
]

unfoldable pub on_failure : (now : ℕ) → Breaker → Breaker
on_failure now b =
    if leb b.config.failure_threshold (b.failure_count + 1)
    then record b { failure_count = b.failure_count + 1; last_failure_time = now; state = opened }
    else record b { failure_count = b.failure_count + 1; last_failure_time = now }

unfoldable pub reset : Breaker → Breaker
reset b = record b { state = closed; failure_count = 0; success_count = 0 }

-- how a coroutine ends: with a result, with an exception that counts as a failure, or with another
pub data Outcome {ℓ} (A : Type ℓ) : Type ℓ where
  returned : A → Outcome A
  failed : Outcome A
  raised : Outcome A

-- what a caller gets: the coroutine's outcome, or `CircuitOpenError`
pub data Called {ℓ} (A : Type ℓ) : Type ℓ where
  ran : Outcome A → Called A
  circuit_open : Called A

-- the end of a call whose coroutine has run
unfoldable pub leave {ℓ} : {A : Type ℓ} → (now : ℕ) → Outcome A → Breaker → Breaker
unfolding on_success on_failure
leave now (returned x) b = on_success b
leave now failed b = on_failure now b
leave now raised b = b

-- `call`, once the state is known
unfoldable pub call_when {ℓ} :
    {A : Type ℓ} → CircuitState → (later : ℕ) → Outcome A → Breaker → Called A × Breaker
unfolding leave
call_when opened later outcome b = (circuit_open, b)
call_when closed later outcome b = (ran outcome, leave later outcome b)
call_when half_open later outcome b = (ran outcome, leave later outcome b)

-- `call`, for a coroutine that starts at `now` and ends at `later`, with no other call between
unfoldable pub call {ℓ} : {A : Type ℓ} → (now later : ℕ) → Outcome A → Breaker → Called A × Breaker
unfolding refresh call_when
call now later outcome b = let b' = refresh now b in call_when b'.state later outcome b'
