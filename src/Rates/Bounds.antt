-- ===== src/Rates/Bounds.antt =====
-- How many requests of a key any run allows.
use Prim.Native.String.{String}
use native.Mathlib.Nat.{mul-le-mul_left}
use decentralized_llm.Base.{
  ℕ, suc, ◌+◌, ◌-◌, ◌*◌, ◌≤◌, ◌≡◌, refl, ap, ◌∙◌, subst, inl, inr, Option, none, some, Bool, true,
  false, List, [], ◌∷◌, arith, if◌then◌else◌, Bool-cases,
}
use decentralized_llm.Base.Dict.{lookup, insert, lookup-insert, lookup-erase, string_eq}
use decentralized_llm.Rates.{
  RateLimitConfig, BucketState, Buckets, one_token, full, bucket_of, refill, take_token, ask_bucket,
  is_allowed, reset,
}

-- a call of one of the two methods
pub data Call : Type 0 where
  ask : String → Call
  clear : String → Call

abbrev pub Run : Type 0
Run = List (ℕ × Call)

-- the ticks that pass
unfoldable pub duration : Run → ℕ
duration [] = 0
duration ((wait, c) ∷ run) = wait + duration run

-- how often a key is reset
unfoldable pub resets : String → Run → ℕ
resets key [] = 0
resets key ((wait, ask k) ∷ run) = resets key run
resets key ((wait, clear k) ∷ run) = (if string_eq.beq k key then 1 else 0) + resets key run

abbrev pub count : Bool → ℕ
count true = 1
count false = 0

module _ (second : ℕ) (config : RateLimitConfig) where
  -- how many requests of a key are allowed in a run from the time `now`, each call after its wait
  unfoldable pub allowed : (key : String) (now : ℕ) → Run → Buckets → ℕ
  unfolding is_allowed reset
  allowed key now [] buckets = 0
  allowed key now ((wait, ask k) ∷ run) buckets =
      let answer = is_allowed second config (now + wait) k buckets in
      let rest = allowed key (now + wait) run answer.1 in
      (if string_eq.beq k key then count answer.0 else 0) + rest
  allowed key now ((wait, clear k) ∷ run) buckets =
      allowed key (now + wait) run (reset second config k buckets)

  -- the parts of a token that a key can use at a time, when no bucket is full
  abbrev credit : (now : ℕ) → Option BucketState → ℕ
  credit now none = full second config
  credit now (some bucket) = bucket.tokens + config.requests_per_minute * (now - bucket.last_refill)

  later_credit :
      (now wait : ℕ) (found : Option BucketState)
      → credit (now + wait) found ≤ credit now found + config.requests_per_minute * wait
  later_credit now wait none = omega arith
  later_credit now wait (some bucket) =
      let more : (now + wait) - bucket.last_refill ≤ (now - bucket.last_refill) + wait =
        omega arith in
      let scaled = mul-le-mul_left config.requests_per_minute more in omega arith

  take_token-credit :
      (bucket : BucketState)
      → one_token second config * count (take_token second config bucket).0
          + (take_token second config bucket).1.tokens
        ≤ bucket.tokens
  unfolding take_token
  take_token-credit bucket = ground arith

  refill-credit :
      (now : ℕ) (found : Option BucketState)
      → (refill second config now (bucket_of second config now found)).tokens ≤ credit now found
  unfolding refill bucket_of
  refill-credit now none = ground arith
  refill-credit now (some bucket) = ground arith

  take_token-last_refill :
      (bucket : BucketState) → (take_token second config bucket).1.last_refill ≡ bucket.last_refill
  unfolding take_token
  take_token-last_refill bucket = ground arith

  ask_bucket-credit :
      (now : ℕ) (found : Option BucketState)
      → one_token second config * count (ask_bucket second config now found).0
          + credit now (some (ask_bucket second config now found).1)
        ≤ credit now found
  unfolding ask_bucket refill
  ask_bucket-credit now found =
      let bucket : BucketState = refill second config now (bucket_of second config now found) in
      let same : now - (take_token second config bucket).1.last_refill ≡ 0 =
        rw (take_token-last_refill bucket) (omega arith) in
      let taken = take_token-credit bucket in
      let had = refill-credit now found in rw same (omega arith)

  is_allowed-credit :
      (now : ℕ) (k key : String) (buckets : Buckets)
      → one_token second config
            * (if string_eq.beq k key then count (is_allowed second config now k buckets).0 else 0)
          + credit now (lookup key (is_allowed second config now k buckets).1)
        ≤ credit now (lookup key buckets)
  unfolding is_allowed
  is_allowed-credit now k key buckets =
      let asked = ask_bucket second config now (lookup k buckets) in
      let found = lookup-insert k key asked.1 buckets in
      elim (Bool-cases (string_eq.beq k key)) [
        | inl same ↦
            let known : lookup k buckets ≡ lookup key buckets =
              ap (λ j. lookup j buckets) ((string_eq.beq_iff k key).0 same) in
            let after : lookup key (insert k asked.1 buckets) ≡ some asked.1 =
              found ∙ rw same refl in
            let step = ask_bucket-credit now (lookup k buckets) in
            rw (same, after)
              (subst
                (λ o.
                  one_token second config * count asked.0 + credit now (some asked.1)
                  ≤ credit now o)
                known step)
        | inr other ↦
            let after : lookup key (insert k asked.1 buckets) ≡ lookup key buckets =
              found ∙ rw other refl in
            rw (other, after) (omega arith)
      ]

  reset-credit :
      (now : ℕ) (k key : String) (buckets : Buckets)
      → credit now (lookup key (reset second config k buckets))
        ≤ credit now (lookup key buckets)
          + full second config * (if string_eq.beq k key then 1 else 0)
  unfolding reset
  reset-credit now k key buckets = elim (Bool-cases (string_eq.beq k key)) [
    | inl same ↦ rw (lookup-erase k key buckets, same) (omega arith)
    | inr other ↦ rw (lookup-erase k key buckets, other) (omega arith)
  ]

  allowed-credit :
      (key : String) (now : ℕ) (run : Run) (buckets : Buckets)
      → one_token second config * allowed key now run buckets
        ≤ credit now (lookup key buckets)
          + config.requests_per_minute * duration run
          + full second config * resets key run
  unfolding allowed duration resets
  allowed-credit key now [] buckets = omega arith
  allowed-credit key now ((wait, ask k) ∷ run) buckets =
      let rest =
        allowed-credit key (now + wait) run (is_allowed second config (now + wait) k buckets).1 in
      let step = is_allowed-credit (now + wait) k key buckets in
      let later = later_credit now wait (lookup key buckets) in omega arith
  allowed-credit key now ((wait, clear k) ∷ run) buckets =
      let rest = allowed-credit key (now + wait) run (reset second config k buckets) in
      let step = reset-credit (now + wait) k key buckets in
      let later = later_credit now wait (lookup key buckets) in omega arith

  -- In any run of is_allowed and reset on a new limiter, whatever the keys: the requests of a key
  -- that are allowed are at most burst_size for each of its resets and once more, and as many as
  -- the time of the run gives at requests_per_minute, in parts of a token.
  pub allowed_bound :
      (key : String) (now : ℕ) (run : Run)
      → one_token second config * allowed key now run []
        ≤ full second config * suc (resets key run) + config.requests_per_minute * duration run
  unfolding lookup
  allowed_bound key now run = let h = allowed-credit key now run [] in omega arith
