-- ===== src/Rates.antt =====
-- node/rate_limiter.py: `RateLimiter`. A clock counts ticks, `second` of them in a second, and a bucket
-- counts parts of a token, 60 * second of them in one, so that no fraction is lost.
mod Tests
pub mod Bounds
use Prim.Native.String.{String}
use Prim.Native.Nat.{min}
use decentralized_llm.Base.{
  ℕ, ◌+◌, ◌-◌, ◌*◌, Option, none, some, Bool, true, false, leb, if◌then◌else◌,
}
use decentralized_llm.Base.Dict.{Dict, lookup, insert, erase, string_eq}

pub record RateLimitConfig : Type 0 where
  pub requests_per_minute : ℕ
  pub burst_size : ℕ

pub record BucketState : Type 0 where
  pub tokens : ℕ
  pub last_refill : ℕ

-- `_buckets`
abbrev pub Buckets : Type 0
Buckets = Dict String BucketState

module _ (second : ℕ) (config : RateLimitConfig) where
  -- the parts of one token
  abbrev pub one_token : ℕ
  one_token = 60 * second

  -- the parts of a full bucket
  abbrev pub full : ℕ
  full = one_token * config.burst_size

  -- the bucket of a key, or a new one
  unfoldable pub bucket_of : (now : ℕ) → Option BucketState → BucketState
  bucket_of now none = record { tokens = full; last_refill = now }
  bucket_of now (some bucket) = bucket

  unfoldable pub refill : (now : ℕ) → BucketState → BucketState
  refill now bucket =
      let elapsed = now - bucket.last_refill in
      let added = config.requests_per_minute * elapsed in
      record { tokens = min full (bucket.tokens + added); last_refill = now }

  -- takes a token, if there is one
  unfoldable pub take_token : BucketState → Bool × BucketState
  take_token bucket =
      if leb one_token bucket.tokens
      then (true, record bucket { tokens = bucket.tokens - one_token })
      else (false, bucket)

  -- what `is_allowed` answers for the bucket of a key, and the bucket after it
  unfoldable pub ask_bucket : (now : ℕ) → Option BucketState → Bool × BucketState
  unfolding bucket_of refill take_token
  ask_bucket now found = take_token (refill now (bucket_of now found))

  unfoldable pub is_allowed : (now : ℕ) (key : String) → Buckets → Bool × Buckets
  unfolding ask_bucket lookup insert
  is_allowed now key buckets =
      let asked = ask_bucket now (lookup key buckets) in (asked.0, insert key asked.1 buckets)

  unfoldable pub reset : (key : String) → Buckets → Buckets
  unfolding erase
  reset key buckets = erase key buckets
