-- ===== src/Daemon/Retry.antt =====
-- `Start` and `computeJitter` (internal/daemon/daemon.go): the loop over the connections, with the
-- waits between them. Times are nanoseconds; a wait is below 2^62, so that twice it is no overflow.
-- The jitter's product of floating-point numbers is taken exactly and rounded to zero.
pub mod Growth
use talkintent.Common.{
  ℕ, ◌+◌, ◌-◌, ◌*◌, ◌/◌, Bool, true, false, Option, none, some, List, [], ◌∷◌, ltb, leb, max,
  if◌then◌else◌,
}
use talkintent.Common.Effect.{Result, ok, err}

-- When a stop is noticed, and whether the context was cancelled.
pub data Stop : Type 0 where
  goes_on : Stop
  stops_serving stops_waiting : (is_cancelled : Bool) → Stop

-- How long the connection lasted, the random number of the jitter, and the stop.
pub record Round : Type 0 where
  pub lasted : ℕ
  pub draw : ℕ
  pub stop : Stop

abbrev pub millisecond : ℕ
millisecond = 1000000

-- A quotient of 10000 between -2000 and 1996 of the wait is added.
abbrev pub with_jitter : ℕ → ℕ → ℕ
with_jitter draw wait =
    if leb 500 draw
    then wait + wait * (4 * draw - 2000) / 10000
    else wait - wait * (2000 - 4 * draw) / 10000

unfoldable pub sleep_duration : ℕ → ℕ → ℕ
sleep_duration draw wait = max (10 * millisecond) (with_jitter draw wait)

abbrev pub reset : ℕ → ℕ → ℕ → ℕ
reset initial lasted backoff = if ltb (15000 * millisecond) lasted then initial else backoff

unfoldable pub next_backoff : ℕ → ℕ → ℕ
next_backoff most backoff = if ltb most (backoff * 2) then most else backoff * 2

pub data ContextError : Type 0 where
  cancelled : ContextError

abbrev pub returned : Bool → Result ContextError (Unit {0})
returned is_cancelled = if is_cancelled then err cancelled else ok tt

-- The waits that were begun, and what `Start` returns, none while it has not.
unfoldable pub start : ℕ → ℕ → ℕ → List Round → List ℕ × Option (Result ContextError (Unit {0}))
start initial most backoff [] = ([], none)
start initial most backoff (r ∷ rs) =
    let b = reset initial r.lasted backoff in
    let wait = sleep_duration r.draw b in
    let rest = start initial most (next_backoff most b) rs in
    elim r.stop [
      | stops_serving c ↦ ([], some (returned c))
      | stops_waiting c ↦ (wait ∷ [], some (returned c))
      | goes_on ↦ (wait ∷ rest.0, rest.1)
    ]
