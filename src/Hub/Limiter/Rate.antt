-- ===== src/Hub/Limiter/Rate.antt =====
-- internal/hub/ratelimit.go: how many requests of an asker `Allow` lets through in a stretch of
-- time.
use talkintent.Common.{
  zero, suc, min, length, ◌^◌, Option-cases, inl, inr, ℕ, ◌+◌, ◌-◌, ◌*◌, ◌≤◌, String, Bool, true,
  false, ◌<◌, ◌≡◌, refl, ap, ◌∙◌, sym, some, List, [], ◌∷◌, arith, eq_iff, if◌then◌else◌,
}
use mathlib.Core.Path.{subst}
use talkintent.Common.GoMap
use talkintent.Hub.Limiter.{
  Floats, one_token, TokenBucket, RateLimiter, refill, take_token, first_bucket, put_bucket, admit,
  allow,
}

-- How many of the requests that `key` makes at these times are let through.
abbrev pub admitted : String → List ℕ → RateLimiter → ℕ
admitted key [] rl = 0
admitted key (t ∷ ts) rl =
    let (allowed, after) = allow key t rl in (if allowed then 1 else 0) + admitted key ts after

-- The times are in order, from `t` on.
abbrev pub Ascends : ℕ → List ℕ → Type 0
Ascends t [] = Unit
Ascends t (s ∷ ts) = (t ≤ s) × Ascends s ts

abbrev pub last_of : ℕ → List ℕ → ℕ
last_of t [] = t
last_of t (s ∷ ts) = last_of s ts

last_of-Ascends : (t : ℕ) (ts : List ℕ) → Ascends t ts → t ≤ last_of t ts
last_of-Ascends t [] h = omega arith
last_of-Ascends t (s ∷ ts) (h, k) = omega (arith, last_of-Ascends s ts k)

-- A stretch of time in two parts.
split_time : (a b c q : ℕ) → a ≤ b → b ≤ c → (c - a) * q ≡ (b - a) * q + (c - b) * q
split_time a b c q h k = ap (λ (n : ℕ). n * q) (parts a b c h k) ∙ omega arith
  where
    parts : (a b c : ℕ) → a ≤ b → b ≤ c → c - a ≡ (b - a) + (c - b)
    parts a b c h k = omega arith

-- Each operation of float64 is off by one part in 2 ^ 53 at most, and a refill is made of five.
pub record IsClose (fl : Floats) : Type 0 where
  pub positive : 0 < fl.scale
  pub near :
      (tokens elapsed qpm : ℕ)
      → fl.fill tokens elapsed qpm * 1125899906842624
        ≤ (tokens + elapsed * qpm * fl.scale) * 1125899906842625

-- What is filled up to `most` exceeds the exact sum by one part in 2 ^ 50 of `most` at most.
capped :
    (f x most : ℕ)
    → f * 1125899906842624 ≤ x * 1125899906842625
    → min f most * 1125899906842624 ≤ x * 1125899906842624 + most
capped f x most h = omega (arith, h)

-- A call at `t` that leaves a bucket with no more than `most`, the token that it took included.
record Pays (key : String) (t most : ℕ) (rl : RateLimiter) (p : Bool × RateLimiter) : Type 0 where
  after : TokenBucket
  stored : GoMap.lookup key p.1.buckets ≡ some after
  at : after.last_refill ≡ t
  paid : (if p.0 then one_token rl else 0) + after.tokens ≤ most
  same : p.1 ≡ record rl { buckets = p.1.buckets }

first_fits : (burst one : ℕ) → 0 < burst → one + (burst * one - one) ≤ burst * one
first_fits zero one h = omega (arith, h)
first_fits (suc n) one h = omega arith

taken_fits :
    (one : ℕ) (b : TokenBucket)
    → (if (take_token one b).0 then one else 0) + (take_token one b).1.tokens ≤ b.tokens
taken_fits one b = ground arith

module _ (key : String) (t : ℕ) (rl : RateLimiter) where
  put-Pays :
      (most : ℕ) (p : Bool × TokenBucket)
      → p.1.last_refill ≡ t
      → (if p.0 then one_token rl else 0) + p.1.tokens ≤ most
      → Pays key t most rl (put_bucket key rl p)
  put-Pays most (a, b) e h = record {
    after = b;
    stored = ground (arith, GoMap.lookup-insert key key b rl.buckets, eq_iff key key);
    at = e;
    paid = h;
    same = refl;
  }

  admit-old :
      (b : TokenBucket) (most : ℕ)
      → (refill t rl b).tokens ≤ most
      → Pays key t most rl (admit key t rl (some b))
  admit-old b most h =
      let r = refill t rl b in
      let taken = taken_fits (one_token rl) r in
      put-Pays most (take_token (one_token rl) r) (ground arith) (omega (arith, taken, h))

  -- Whatever the bucket was, there is no more than the burst.
  allow-burst : 0 < rl.burst → Pays key t (rl.burst * one_token rl) rl (allow key t rl)
  unfolding allow
  allow-burst h = elim (Option-cases (GoMap.lookup key rl.buckets)) [
    | inl e ↦ rw e (put-Pays _ (true, first_bucket t rl) refl (first_fits _ _ h))
    | inr (b, e) ↦ rw e (admit-old b _ (omega arith))
  ]

  allow-old :
      (b : TokenBucket)
      → GoMap.lookup key rl.buckets ≡ some b
      → Pays key t (refill t rl b).tokens rl (allow key t rl)
  unfolding allow
  allow-old b e =
      subst (λ o. Pays key t (refill t rl b).tokens rl (admit key t rl o)) (sym e)
        (admit-old b _ (omega arith))

-- What the rate adds in a stretch of time.
abbrev pub gain : RateLimiter → ℕ → ℕ
gain rl elapsed = elapsed * rl.qpm * rl.floats.scale

gain_split :
    (rl : RateLimiter) (a b c : ℕ)
    → a ≤ b
    → b ≤ c
    → gain rl (c - a) ≡ gain rl (b - a) + gain rl (c - b)
gain_split rl a b c h k = ap (λ n. n * rl.floats.scale) (split_time a b c rl.qpm h k) ∙ omega arith

count_one :
    (a : Bool) (n one : ℕ) → ((if a then 1 else 0) + n) * one ≡ (if a then one else 0) + n * one
count_one true n one = omega arith
count_one false n one = omega arith

-- One call and those behind it.
join_lem :
    (taken n after most left slack : ℕ)
    → taken + after ≤ most
    → n * 1125899906842624 ≤ (after + left) * 1125899906842624 + slack
    → (taken + n) * 1125899906842624 ≤ (most + left) * 1125899906842624 + slack
join_lem taken n after most left slack h k = omega (arith, h, k)

-- The bound of the calls at `ts`, whatever the bucket is.
abbrev TailBound : String → List ℕ → RateLimiter → Type 0
TailBound key ts rl =
    (b : TokenBucket)
    → GoMap.lookup key rl.buckets ≡ some b
    → Ascends b.last_refill ts
    → admitted key ts rl * one_token rl * 1125899906842624
      ≤ (b.tokens + gain rl (last_of b.last_refill ts - b.last_refill)) * 1125899906842624
        + length ts * (rl.burst * one_token rl)

-- The calls behind one that left `most` at `t`.
admitted_from :
    (key : String) (ts : List ℕ) (t most : ℕ) (rl : RateLimiter) (p : Bool × RateLimiter)
    → TailBound key ts (record rl { buckets = p.1.buckets })
    → Pays key t most rl p
    → Ascends t ts
    → ((if p.0 then 1 else 0) + admitted key ts p.1) * one_token rl * 1125899906842624
      ≤ (most + gain rl (last_of t ts - t)) * 1125899906842624
        + length ts * (rl.burst * one_token rl)
admitted_from key ts t most rl p tail y k =
    rw (count_one p.0 (admitted key ts p.1) (one_token rl), ap (admitted key ts) y.same)
      (join_lem _ _ y.after.tokens most (gain rl (last_of t ts - t)) _ y.paid (
        subst
          (λ s.
            admitted key ts (record rl { buckets = p.1.buckets }) * one_token rl * 1125899906842624
            ≤ (y.after.tokens + gain rl (last_of s ts - s)) * 1125899906842624
              + length ts * (rl.burst * one_token rl))
          y.at (tail y.after y.stored (subst (λ s. Ascends s ts) (sym y.at) k))))

step_lem :
    (n r x most left l g : ℕ)
    → n ≤ (r + left) * 1125899906842624 + l
    → r * 1125899906842624 ≤ x * 1125899906842624 + most
    → g ≡ x + left
    → n ≤ g * 1125899906842624 + (most + l)
step_lem n r x most left l g h k e = omega (arith, h, k, e)

admitted_after :
    (key : String) (ts : List ℕ) (rl : RateLimiter) → IsClose rl.floats → TailBound key ts rl
admitted_after key [] rl c b e h = omega arith
admitted_after key (t ∷ ts) rl c b e (h, k) =
    let p = allow key t rl in
    subst
      (λ l.
        admitted key (t ∷ ts) rl * one_token rl * 1125899906842624
        ≤ (b.tokens + gain rl (last_of t ts - b.last_refill)) * 1125899906842624 + l)
      (omega arith)
      (step_lem _ (refill t rl b).tokens (b.tokens + gain rl (t - b.last_refill))
        (rl.burst * one_token rl) (gain rl (last_of t ts - t))
        (length ts * (rl.burst * one_token rl)) _
        (admitted_from key ts t _ rl p
          (admitted_after key ts (record rl { buckets = p.1.buckets }) c) (allow-old key t rl b e)
          k)
        (capped (rl.floats.fill b.tokens (t - b.last_refill) rl.qpm) _ _
          (c.near b.tokens (t - b.last_refill) rl.qpm))
        (omega (arith, gain_split rl b.last_refill t (last_of t ts) h (last_of-Ascends t ts k))))

-- Of the requests that an asker makes from `t` on, no more are let through than the burst, what
-- the rate adds from the first to the last, and for each request behind the first one part in
-- 2 ^ 50 of the burst, which the rounding of float64 may add. The burst is positive, the times are
-- in order, and a refill is off by one part in 2 ^ 50 at most.
pub admitted_rate :
    (key : String) (t : ℕ) (ts : List ℕ) (rl : RateLimiter)
    → IsClose rl.floats
    → 0 < rl.burst
    → Ascends t ts
    → admitted key (t ∷ ts) rl * one_token rl * 2 ^ 50
      ≤ (rl.burst * one_token rl + gain rl (last_of t ts - t)) * 2 ^ 50
        + length ts * (rl.burst * one_token rl)
admitted_rate key t ts rl c h k =
    admitted_from key ts t _ rl (allow key t rl)
      (admitted_after key ts (record rl { buckets = (allow key t rl).1.buckets }) c)
      (allow-burst key t rl h) k
