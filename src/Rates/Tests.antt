-- ===== src/Rates/Tests.antt =====
-- A limiter of one request in a second, with two at once.
use decentralized_llm.Base.{suc, ◌+◌, ◌*◌, ◌≤◌, ◌≡◌, refl, [], ◌∷◌}
use decentralized_llm.Base.Dict.{lookup, insert, erase, string_eq}
use decentralized_llm.Rates.{
  RateLimitConfig, one_token, full, bucket_of, refill, take_token, ask_bucket, is_allowed, reset,
}
use decentralized_llm.Rates.Bounds.{ask, clear, Run, duration, resets, allowed, allowed_bound}

abbrev config : RateLimitConfig
config = record { requests_per_minute = 60; burst_size = 2 }

-- three requests of "a" at once with one of "b", a fourth after a second, and a fifth after a reset
abbrev run : Run
run =
    (0, ask "a")
    ∷ (0, ask "a")
    ∷ (0, ask "b")
    ∷ (0, ask "a")
    ∷ (1000, ask "a")
    ∷ (0, clear "a")
    ∷ (0, ask "a")
    ∷ []

allows : allowed 1000 config "a" 5 run [] ≡ 4
unfolding allowed is_allowed reset ask_bucket take_token refill bucket_of lookup insert erase
allows = refl

allowed_bound_example :
    one_token 1000 config * allowed 1000 config "a" 5 run []
    ≤ full 1000 config * suc (resets "a" run) + config.requests_per_minute * duration run
allowed_bound_example = allowed_bound 1000 config "a" 5 run
