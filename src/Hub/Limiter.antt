-- ===== src/Hub/Limiter.antt =====
-- internal/hub/ratelimit.go: the token bucket of each asker. Go counts tokens in float64, and a
-- number of tokens is here the natural number of grains that it is worth: each float64 is a whole
-- number of grains, and so is what the rate adds in a nanosecond.
pub mod Rate
use talkintent.Common.{
  ℕ, ◌-◌, ◌*◌, String, Bool, true, false, min, Option, none, some, [], leb, if◌then◌else◌,
}
use talkintent.Common.Int.{ℤ}
use talkintent.Common.GoMap
use talkintent.Common.GoMap.{GoMap}
use talkintent.Hub.Records.{or_default}

-- a minute in nanoseconds
abbrev pub minute_ns : ℕ
minute_ns = 60000000000

-- The float64 arithmetic of the machine. A token is `minute_ns * scale` grains, with a scale of
-- 2 ^ 1074 for float64. `fill` is the rounded result of `tokens + elapsed.Seconds() * (qpm / 60.0)`,
-- for the tokens, the nanoseconds and the rate. The other operations are exact: to compare, to take
-- the smaller of two, and to take 1.0 from a number that is no smaller and below 2 ^ 53.
pub record Floats : Type 0 where
  pub scale : ℕ
  pub fill : ℕ → ℕ → ℕ → ℕ

pub record TokenBucket : Type 0 where
  pub tokens : ℕ
  pub last_refill : ℕ

pub record RateLimiter : Type 0 where
  pub floats : Floats
  pub qpm : ℕ
  pub burst : ℕ
  pub buckets : GoMap TokenBucket

abbrev pub new_rate_limiter : Floats → ℤ → ℤ → RateLimiter
new_rate_limiter floats qpm burst = record {
  floats = floats;
  qpm = or_default 30 qpm;
  burst = or_default 10 burst;
  buckets = [];
}

-- 1.0
abbrev pub one_token : RateLimiter → ℕ
one_token rl = minute_ns * rl.floats.scale

-- The bucket at `now`, filled up to the burst.
abbrev pub refill : ℕ → RateLimiter → TokenBucket → TokenBucket
refill now rl b = record {
  tokens = min (rl.floats.fill b.tokens (now - b.last_refill) rl.qpm) (rl.burst * one_token rl);
  last_refill = now;
}

-- A token is taken if there is one.
abbrev pub take_token : ℕ → TokenBucket → Bool × TokenBucket
take_token one b =
    if leb one b.tokens then (true, record b { tokens = b.tokens - one }) else (false, b)

abbrev pub first_bucket : ℕ → RateLimiter → TokenBucket
first_bucket now rl = record { tokens = rl.burst * one_token rl - one_token rl; last_refill = now }

abbrev pub put_bucket : String → RateLimiter → Bool × TokenBucket → Bool × RateLimiter
put_bucket key rl (allowed, b) = (allowed, record rl { buckets = GoMap.insert key b rl.buckets })

abbrev pub admit : String → ℕ → RateLimiter → Option TokenBucket → Bool × RateLimiter
admit key now rl none = put_bucket key rl (true, first_bucket now rl)
admit key now rl (some b) = put_bucket key rl (take_token (one_token rl) (refill now rl b))

unfoldable pub allow : String → ℕ → RateLimiter → Bool × RateLimiter
allow key now rl = admit key now rl (GoMap.lookup key rl.buckets)
