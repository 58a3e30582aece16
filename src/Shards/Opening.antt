-- ===== src/Shards/Opening.antt =====
-- A call that gives up leaves the circuit open.
use Prim.Native.String.{String}
use decentralized_llm.Base.{
  ℕ, zero, suc, ◌+◌, ◌≤◌, ◌<◌, ◌≡◌, refl, ap, ◌∙◌, Option, none, some, List, [], ◌∷◌, arith,
}
use decentralized_llm.CircuitBreaker.{
  CircuitState, closed, opened, half_open, Config, Breaker, refresh, on_failure, Outcome, returned,
  failed, raised, Called, ran, circuit_open, call_when, leave, on_success, call,
}
use decentralized_llm.CircuitBreaker.Runs.{fail_times}
use decentralized_llm.Peers.{Peers}
use decentralized_llm.Shards.{
  Attempt, mark_suspected, fail_unless, force_open, try_once, after_attempt, attempt_all, give_up,
  remote_forward,
}

-- a breaker with the configuration, whose circuit is open
abbrev pub IsOpen : Config → Option Breaker → Type 0
IsOpen config none = ⊥
IsOpen config (some b) = (b.state ≡ opened) × (b.config ≡ config)

-- a breaker with the configuration
abbrev pub HasConfig : Config → Option Breaker → Type 0
HasConfig config none = ⊥
HasConfig config (some b) = b.config ≡ config

on_failure_opens :
    (now : ℕ) (b : Breaker)
    → b.config.failure_threshold ≤ suc b.failure_count
    → (on_failure now b).state ≡ opened
unfolding on_failure
on_failure_opens now b h = ground arith

on_failure_counts :
    (now : ℕ) (b : Breaker)
    → ((on_failure now b).failure_count ≡ suc b.failure_count)
      × ((on_failure now b).config ≡ b.config)
unfolding on_failure
on_failure_counts now b = ground arith

fail_times-IsOpen :
    (n now : ℕ) (b : Breaker)
    → b.config.failure_threshold ≤ b.failure_count + suc n
    → IsOpen b.config (some (fail_times (suc n) now b))
unfolding fail_times
fail_times-IsOpen zero now b h = (on_failure_opens now b (omega arith), (on_failure_counts now b).1)
fail_times-IsOpen (suc n) now b h =
    let (count, config) = on_failure_counts now b in
    let (is_open, same) =
      fail_times-IsOpen n now (on_failure now b)
        (omega (arith, count, ap (λ (c : Config). c.failure_threshold) config, h)) in
    (is_open, same ∙ config)

fail_times-IsOpen_all :
    (k now : ℕ) (b : Breaker)
    → 0 < k
    → b.config.failure_threshold ≡ k
    → IsOpen b.config (some (fail_times k now b))
fail_times-IsOpen_all zero now b positive same = absurd (omega arith)
fail_times-IsOpen_all (suc n) now b positive same = fail_times-IsOpen n now b (omega arith)

fail_unless-IsOpen :
    (state : CircuitState) (now : ℕ) (b : Breaker)
    → b.state ≡ state
    → 0 < b.config.failure_threshold
    → IsOpen b.config (some (fail_unless state now b))
unfolding fail_unless
fail_unless-IsOpen opened now b same positive = (same, refl)
fail_unless-IsOpen closed now b same positive =
    fail_times-IsOpen_all b.config.failure_threshold now b positive refl
fail_unless-IsOpen half_open now b same positive =
    fail_times-IsOpen_all b.config.failure_threshold now b positive refl

pub refresh-config : (now : ℕ) (b : Breaker) → (refresh now b).config ≡ b.config
unfolding refresh
refresh-config now b = ground arith

force_open-IsOpen :
    (config : Config) (now : ℕ) (o : Option Breaker)
    → HasConfig config o
    → 0 < config.failure_threshold
    → IsOpen config (force_open now o)
unfolding force_open
force_open-IsOpen config now none has positive = absurd has
force_open-IsOpen config now (some b) has positive =
    let same : (refresh now b).config ≡ config = refresh-config now b ∙ has in
    let (is_open, kept) =
      fail_unless-IsOpen (refresh now b).state now (refresh now b) refl
        (omega (arith, ap (λ (c : Config). c.failure_threshold) same, positive)) in
    (is_open, kept ∙ same)

leave-config :
    {A : Type 0} (later : ℕ) (outcome : Outcome A) (b : Breaker)
    → (leave later outcome b).config ≡ b.config
unfolding leave on_success on_failure
leave-config later (returned x) b = ground arith
leave-config later failed b = ground arith
leave-config later raised b = refl

call_when-config :
    {A : Type 0} (state : CircuitState) (later : ℕ) (outcome : Outcome A) (b : Breaker)
    → (call_when state later outcome b).1.config ≡ b.config
unfolding call_when
call_when-config opened later outcome b = refl
call_when-config closed later outcome b = leave-config later outcome b
call_when-config half_open later outcome b = leave-config later outcome b

module _ {A : Type 0} where
  try_once-HasConfig :
      (a : Attempt A) (config : Config) (o : Option Breaker)
      → HasConfig config o
      → HasConfig config (try_once a o).1
  unfolding try_once call
  try_once-HasConfig a config none has = absurd has
  try_once-HasConfig a config (some b) has =
      call_when-config (refresh a.now b).state a.later a.outcome (refresh a.now b)
      ∙ refresh-config a.now b
      ∙ has

  after_attempt-HasConfig :
      (endpoint : String) (config : Config) (called : Called A) (o : Option Breaker)
      (peers : Option Peers) (rest : Option A × (Option Breaker × Option Peers))
      → HasConfig config o
      → HasConfig config rest.1.0
      → HasConfig config (after_attempt endpoint called o peers rest).1.0
  unfolding after_attempt
  after_attempt-HasConfig endpoint config (ran (returned x)) o peers rest has later = has
  after_attempt-HasConfig endpoint config (ran failed) o peers rest has later = later
  after_attempt-HasConfig endpoint config (ran raised) o peers rest has later = later
  after_attempt-HasConfig endpoint config circuit_open o peers rest has later = has

  attempt_all-HasConfig :
      (endpoint : String) (config : Config) (attempts : List (Attempt A)) (o : Option Breaker)
      (peers : Option Peers)
      → HasConfig config o
      → HasConfig config (attempt_all endpoint attempts o peers).1.0
  unfolding attempt_all
  attempt_all-HasConfig endpoint config [] o peers has = has
  attempt_all-HasConfig endpoint config (a ∷ attempts) o peers has =
      let kept : HasConfig config (try_once a o).1 = try_once-HasConfig a config o has in
      after_attempt-HasConfig endpoint config (try_once a o).0 (try_once a o).1 peers _ kept (
        attempt_all-HasConfig endpoint config attempts (try_once a o).1
          (mark_suspected endpoint peers) kept)

  give_up-IsOpen :
      (after : ℕ) (config : Config) (res : Option A × (Option Breaker × Option Peers))
      → HasConfig config res.1.0
      → 0 < config.failure_threshold
      → HasConfig config (give_up after res).1.0
        × ((give_up after res).0 ≡ none → IsOpen config (give_up after res).1.0)
  unfolding give_up
  give_up-IsOpen after config (some x, (o, peers)) has positive =
      (has, λ failed_all. absurd (ground arith))
  give_up-IsOpen after config (none, (o, peers)) has positive =
      let is_open : IsOpen config (force_open after o) =
        force_open-IsOpen config after o has positive in
      (weaken (force_open after o) is_open, λ failed_all. is_open)
    where
      weaken : (o : Option Breaker) → IsOpen config o → HasConfig config o
      weaken none h = h
      weaken (some b) h = h.1

  -- A client whose breaker has a positive threshold keeps its configuration, and where all attempts
  -- failed or the circuit was open, it leaves the circuit open.
  pub remote_forward-IsOpen :
      (endpoint : String) (attempts : List (Attempt A)) (after : ℕ) (b : Breaker)
      (peers : Option Peers)
      → 0 < b.config.failure_threshold
      → let (answer, (o, peers')) = remote_forward endpoint attempts after (some b) peers in
        HasConfig b.config o × (answer ≡ none → IsOpen b.config o)
  unfolding remote_forward
  remote_forward-IsOpen endpoint attempts after b peers positive =
      give_up-IsOpen after b.config (attempt_all endpoint attempts (some b) peers)
        (attempt_all-HasConfig endpoint b.config attempts (some b) peers refl) positive
