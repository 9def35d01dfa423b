-- ===== src/Daemon/Retry/Growth.antt =====
-- internal/daemon/daemon.go: how long the daemon waits between connections.
use native.Mathlib.Nat.{mul-le-mul_left}
use talkintent.Common.{
  ℕ, zero, suc, ◌-◌, ◌*◌, ◌/◌, ◌^◌, ◌≤◌, ◌<◌, ◌≡◌, ap, ◌∙◌, List, [], ◌∷◌, ltb, min, max, ltb→lt,
  arith, get_elem?, Bool-cases, inl, inr, All, some,
}
use talkintent.Daemon.Retry.{
  Round, goes_on, millisecond, with_jitter, sleep_duration, reset, next_backoff, start,
}

-- The connection lasted 15 seconds at most, and no stop was noticed.
abbrev pub IsShort : Round → Type 0
IsShort r = (r.lasted ≤ 15000 * millisecond) × (r.stop ≡ goes_on)

le-mul : (a p : ℕ) → 1 ≤ p → a ≤ a * p
le-mul a zero h = absurd (omega arith)
le-mul a (suc p) h = grind arith

one-le-pow : (k : ℕ) → 1 ≤ 2 ^ k
one-le-pow zero = omega arith
one-le-pow (suc k) = omega (arith, one-le-pow k)

twice : (k : ℕ) → 2 ^ k * 2 ≡ 2 ^ suc k
twice k = omega arith

-- Twice the wait up to the limit, and then twice as often.
capped : (b most p : ℕ) → 1 ≤ p → min (next_backoff most b * p) most ≡ min (b * (p * 2)) most
unfolding next_backoff
capped b most p h = elim (Bool-cases (ltb most (b * 2))) [
  | inl y ↦ rw y (omega (arith, le-mul most p h, le-mul (b * 2) p h, ltb→lt most (b * 2) y))
  | inr z ↦ rw z (omega arith)
]

short-reset : (initial lasted b : ℕ) → lasted ≤ 15000 * millisecond → reset initial lasted b ≡ b
short-reset initial lasted b h = ground arith

part_of : (b c : ℕ) → c ≤ 2000 → b * c / 10000 * 5 ≤ b
part_of b c h = omega (arith, mul-le-mul_left b h)

jitter_bounds :
    (draw b : ℕ) → draw < 1000 → (4 * b ≤ 5 * with_jitter draw b) × (5 * with_jitter draw b ≤ 6 * b)
jitter_bounds draw b h =
    ground
      (arith, part_of b (4 * draw - 2000) (omega arith), part_of b (2000 - 4 * draw) (omega arith))

sleep_bounds :
    (draw b : ℕ)
    → draw < 1000
    → (4 * b ≤ 5 * sleep_duration draw b)
      × (5 * sleep_duration draw b ≤ max (50 * millisecond) (6 * b))
unfolding sleep_duration
sleep_bounds draw b h = let j = jitter_bounds draw b h in (omega (arith, j.0), omega (arith, j.1))

start-short :
    (initial most b : ℕ) (x : Round) (rs : List Round)
    → IsShort x
    → (start initial most b (x ∷ rs)).0
      ≡ sleep_duration x.draw b ∷ (start initial most (next_backoff most b) rs).0
unfolding start
start-short initial most b x rs a = simp (a.1) (
    ap (λ c. sleep_duration x.draw c ∷ (start initial most (next_backoff most c) rs).0)
      (short-reset initial x.lasted b a.0))

next-le : (most b : ℕ) → next_backoff most b ≤ most
unfolding next_backoff
next-le most b = ground arith

waits_at :
    (initial most b : ℕ) (rs : List Round) (k : ℕ) (r : Round)
    → b ≤ most
    → All IsShort rs
    → get_elem? rs k ≡ some r
    → get_elem? (start initial most b rs).0 k ≡ some (sleep_duration r.draw (min (b * 2 ^ k) most))
waits_at initial most b [] k r h a e = ground (arith, e)
waits_at initial most b (x ∷ rs) zero r h a e =
    let same : x ≡ r = cc in
    ap (λ l. get_elem? l 0) (start-short initial most b x rs a.0)
    ∙ ap (λ (y : Round). some (sleep_duration y.draw b)) same
    ∙ ap (λ c. some (sleep_duration r.draw c)) (omega (arith, h))
waits_at initial most b (x ∷ rs) (suc k) r h a e =
    ap (λ l. get_elem? l (suc k)) (start-short initial most b x rs a.0)
    ∙ waits_at initial most (next_backoff most b) rs k r (next-le most b) a.1 e
    ∙ ap (λ c. some (sleep_duration r.draw c)) (capped b most (2 ^ k) (one-le-pow k))
    ∙ ap (λ p. some (sleep_duration r.draw (min (b * p) most))) (twice k)

-- After k connections of 15 seconds at most, while no stop is noticed, the next one too, the wait is
-- 10 milliseconds at least and, beyond that, within a fifth of the first wait times 2^k, cut at the
-- longest wait, which is no less than the first; the random numbers are below 1000.
pub wait-doubles :
    (initial most : ℕ) (rs : List Round) (k : ℕ) (r : Round)
    → initial ≤ most
    → All IsShort rs
    → get_elem? rs k ≡ some r
    → r.draw < 1000
    → (wait : ℕ) × (get_elem? (start initial most initial rs).0 k ≡ some wait)
      × (10 * millisecond ≤ wait)
      × (4 * min (initial * 2 ^ k) most ≤ 5 * wait)
      × (5 * wait ≤ max (50 * millisecond) (6 * min (initial * 2 ^ k) most))
unfolding sleep_duration
wait-doubles initial most rs k r h a e d =
    let s = sleep_bounds r.draw (min (initial * 2 ^ k) most) d in
    (
      sleep_duration r.draw (min (initial * 2 ^ k) most),
      waits_at initial most initial rs k r h a e,
      omega arith,
      s.0,
      s.1,
    )
