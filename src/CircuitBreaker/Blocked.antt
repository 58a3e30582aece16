-- ===== src/CircuitBreaker/Blocked.antt =====
-- The calls of an open circuit, and those that open it.
use decentralized_llm.Base.{
  ℕ, ◌+◌, ◌≤◌, ◌<◌, ◌≡◌, refl, ap, ◌∙◌, sym, subst, length, List, [], ◌∷◌, arith, map,
}
use mathlib.Core.Path.{ap₂}
use decentralized_llm.CircuitBreaker.{
  closed, opened, Config, Breaker, refresh, on_failure, Outcome, failed, Called, ran, circuit_open,
  call_when, call,
}

-- a call: when it starts, when it ends, and how
pub record Call {ℓ} (A : Type ℓ) : Type ℓ where
  pub starts : ℕ
  pub ends : ℕ
  pub outcome : Outcome A

-- one call after the other
unfoldable pub call_all {ℓ} : {A : Type ℓ} → List (Call A) → Breaker → List (Called A) × Breaker
unfolding call
call_all [] b = ([], b)
call_all (c ∷ calls) b =
    let (r, b') = call c.starts c.ends c.outcome b in
    let (rs, b'') = call_all calls b' in (r ∷ rs, b'')

-- every call starts before the time
unfoldable pub AllBefore {ℓ} : {A : Type ℓ} → ℕ → List (Call A) → Type 0
AllBefore limit [] = Unit
AllBefore limit (c ∷ calls) = (c.starts < limit) × AllBefore limit calls

refresh-blocked :
    (now : ℕ) (b : Breaker)
    → b.state ≡ opened
    → now < b.last_failure_time + b.config.timeout_seconds
    → refresh now b ≡ b
unfolding refresh
refresh-blocked now b e early = ground arith

call-blocked {ℓ} :
    {A : Type ℓ} (now later : ℕ) (outcome : Outcome A) (b : Breaker)
    → b.state ≡ opened
    → now < b.last_failure_time + b.config.timeout_seconds
    → call now later outcome b ≡ (circuit_open, b)
unfolding call
call-blocked now later outcome b e early =
    rw (refresh-blocked now b e early) (ap (λ s. call_when s later outcome b) e)

call_all-blocked {ℓ} :
    {A : Type ℓ} (calls : List (Call A)) (b : Breaker)
    → b.state ≡ opened
    → AllBefore (b.last_failure_time + b.config.timeout_seconds) calls
    → call_all calls b ≡ (map (λ c. circuit_open) calls, b)
unfolding call_all AllBefore
call_all-blocked [] b e early = refl
call_all-blocked (c ∷ calls) b e (first, rest) =
    rw (call-blocked c.starts c.ends c.outcome b e first)
      (rw (call_all-blocked calls b e rest) refl)

-- the breaker after calls that fail: when each starts and ends
unfoldable pub after_failing {ℓ} : (A : Type ℓ) → List (ℕ × ℕ) → Breaker → Breaker
unfolding call
after_failing A [] b = b
after_failing A ((starts, ends) ∷ times) b =
    after_failing A times (call {A = A} starts ends failed b).1

refresh-closed : (now : ℕ) (b : Breaker) → b.state ≡ closed → refresh now b ≡ b
unfolding refresh
refresh-closed now b e = ground arith

call-failed {ℓ} :
    (A : Type ℓ) (starts ends : ℕ) (b : Breaker)
    → b.state ≡ closed
    → call {A = A} starts ends failed b ≡ (ran failed, on_failure ends b)
unfolding call
call-failed A starts ends b e =
    let still : refresh starts b ≡ b = refresh-closed starts b e in
    rw still (ap (λ s. call_when {A = A} s ends failed b) e)

on_failure-closed :
    (now : ℕ) (b : Breaker)
    → b.state ≡ closed
    → b.failure_count + 1 < b.config.failure_threshold
    → ((on_failure now b).state ≡ closed)
      × ((on_failure now b).failure_count ≡ b.failure_count + 1)
      × ((on_failure now b).config ≡ b.config)
unfolding on_failure
on_failure-closed now b e below = (ground arith, ground arith, ground arith)

on_failure-opened :
    (now : ℕ) (b : Breaker)
    → b.config.failure_threshold ≤ b.failure_count + 1
    → ((on_failure now b).state ≡ opened)
      × ((on_failure now b).last_failure_time ≡ now)
      × ((on_failure now b).config ≡ b.config)
unfolding on_failure
on_failure-opened now b enough = (ground arith, ground arith, ground arith)

after_failing-closed {ℓ} :
    (A : Type ℓ) (times : List (ℕ × ℕ)) (b : Breaker)
    → b.state ≡ closed
    → b.failure_count + length times < b.config.failure_threshold
    → ((after_failing A times b).state ≡ closed)
      × ((after_failing A times b).failure_count ≡ b.failure_count + length times)
      × ((after_failing A times b).config ≡ b.config)
unfolding after_failing
after_failing-closed A [] b e below = (e, omega arith, refl)
after_failing-closed A ((starts, ends) ∷ times) b e below =
    let (still, more, same) = on_failure-closed ends b e (omega arith) in
    let threshold = ap (λ (c : Config). c.failure_threshold) same in
    let (closed_yet, counted, kept) =
      after_failing-closed A times (on_failure ends b) still (omega (arith, more, threshold)) in
    rw (call-failed A starts ends b e, after_failing)
      (closed_yet, omega (arith, counted, more), kept ∙ same)

-- On a closed circuit, let calls fail one after the other, as many as its failure count leaves to
-- the threshold: the last one still runs its coroutine. Then, until the timeout after its end has
-- passed, no call runs its coroutine, however it would end: each gets CircuitOpenError, and the
-- circuit stays.
pub call_all-after_failing {ℓ} :
    (A : Type ℓ) (times : List (ℕ × ℕ)) (starts ends : ℕ) (calls : List (Call A)) (b : Breaker)
    → b.state ≡ closed
    → b.failure_count + length times + 1 ≡ b.config.failure_threshold
    → AllBefore (ends + b.config.timeout_seconds) calls
    → let (called, b') = call {A = A} starts ends failed (after_failing A times b) in
      (called ≡ ran failed) × (call_all calls b' ≡ (map (λ c. circuit_open) calls, b'))
call_all-after_failing A times starts ends calls b e enough early =
    let before : Breaker = after_failing A times b in
    let (still, counted, kept) = after_failing-closed A times b e (omega arith) in
    let threshold = ap (λ (c : Config). c.failure_threshold) kept in
    let (tripped, at_end, same) =
      on_failure-opened ends before (omega (arith, counted, threshold)) in
    let limit = ap₂ ◌+◌ at_end (ap (λ (c : Config). c.timeout_seconds) (same ∙ kept)) in
    rw (call-failed A starts ends before still) (
      refl,
      call_all-blocked calls (on_failure ends before) tripped
          (subst (λ t. AllBefore t calls) (sym limit) early),
    )
