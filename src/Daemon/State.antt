-- ===== src/Daemon/State.antt =====
-- The state of a `ClientDaemon` (internal/daemon/daemon.go), its goroutines and its events. What the
-- select statements, the timers, the network and the scheduler choose is an event. A connection that
-- has ended keeps its goroutines, with their context cancelled. Times are nanoseconds of the
-- monotonic clock; the status file is left out.
use talkintent.Common.{
  ℕ, String, Bool, true, false, ◌||◌, Option, none, some, List, [], ◌∷◌, ◌++◌, ◌==◌, if◌then◌else◌,
}
use talkintent.Common.GoMap.{GoMap}
use talkintent.Hub.Records.{QueryRequest, Message, Envelope, or_default}
use talkintent.Daemon.Dispatch.{Settings}

-- Where a goroutine of `handleQueryRequest` stands: before it is in `activeQueries`; before it has a
-- slot; with a slot, before it is counted; in `dispatchQuery`; behind it, with the deferred calls
-- to come: still counted, still with its slot, and with the entry in `activeQueries` alone.
pub data Phase : Type 0 where
  spawned waiting holding running answered uncounted released : Phase

pub record Task : Type 0 where
  pub id : ℕ
  pub request : QueryRequest
  pub phase : Phase
  -- its context is cancelled
  pub is_cancelled : Bool

-- How `connectAndServe` returned.
pub data Exit : Type 0 where
  read_failed ping_failed pong_timeout pong_missed : Exit
  stopped_drained stopped_late : Exit

pub record Daemon : Type 0 where
  -- stopCh is closed; the loop has seen it; `draining`
  pub is_stopping : Bool
  pub is_closing : Bool
  pub draining : Bool
  pub tasks : List Task
  pub next : ℕ
  -- the slots of `sem` in use, and `activeProbeCount`
  pub slots : ℕ
  pub active_probe_count : ℕ
  -- the task whose cancel function is registered
  pub active_queries : GoMap ℕ
  pub session_id : String
  pub interval : ℕ
  pub last_pong : ℕ
  pub awaiting_pong : Bool
  pub ping_sent_at : ℕ
  -- the loop runs; the returns so far
  pub is_serving : Bool
  pub exits : List Exit
  pub sent : List Envelope

pub data Event : Type 0 where
  -- `requestShutdown`, and the loop's case for it
  stops sees_stop : Event
  -- drainDone, and the end of the grace
  drains grace_ends : Event
  read_fails : Event
  -- the watchdog; the heartbeat, and whether the ping is written
  watches : (now : ℕ) → Event
  pings : (now : ℕ) (wrote : Bool) → Event
  receives : (now : ℕ) → Message → Event
  -- a goroutine registers, gets a slot, leaves while it waits, runs out of time while it waits
  registers starts leaves : (id : ℕ) → Event
  -- it is counted; the deferred calls
  counts uncounts releases ends : (id : ℕ) → Event
  times_out : (id : ℕ) (wrote : Bool) → Event
  -- `dispatchQuery` returns, with its context expired or not
  finishes : (id : ℕ) (expired wrote : Bool) → Event
  -- a connection, after its hello; the argument tells the files, which are no directories
  connects : (now : ℕ) (is_file : String → Bool) → Event

-- The first task with the id, and the others.
abbrev pub take_task : ℕ → List Task → Option (Task × List Task)
take_task id [] = none
take_task id (t ∷ ts) =
    if t.id == id
    then some (t, ts)
    else (elim (take_task id ts) [ none ↦ none | some (u, rest) ↦ some (u, t ∷ rest) ])

abbrev pub default_max_concurrency : ℕ
default_max_concurrency = 2

abbrev pub max_concurrency : Settings → ℕ
max_concurrency cfg =
    or_default (or_default default_max_concurrency cfg.daemon_max_concurrency)
      cfg.client.max_concurrency

abbrev pub write_if : Bool → Envelope → Daemon → Daemon
write_if wrote e d = record d { sent = if wrote then d.sent ++ e ∷ [] else d.sent }

abbrev pub is_spawned : Phase → Bool
is_spawned spawned = true
is_spawned _ = false

abbrev pub is_waiting : Phase → Bool
is_waiting waiting = true
is_waiting _ = false

abbrev pub is_holding : Phase → Bool
is_holding holding = true
is_holding _ = false

abbrev pub is_running : Phase → Bool
is_running running = true
is_running _ = false

abbrev pub is_answered : Phase → Bool
is_answered answered = true
is_answered _ = false

abbrev pub is_uncounted : Phase → Bool
is_uncounted uncounted = true
is_uncounted _ = false

abbrev pub is_released : Phase → Bool
is_released released = true
is_released _ = false

abbrev pub cancel_task : ℕ → List Task → List Task
cancel_task id [] = []
cancel_task id (t ∷ ts) =
    record t { is_cancelled = t.is_cancelled || t.id == id } ∷ cancel_task id ts

-- `cancelConn`: the context of every query of the connection is cancelled.
abbrev pub cancel_all : List Task → List Task
cancel_all [] = []
cancel_all (t ∷ ts) = record t { is_cancelled = true } ∷ cancel_all ts

abbrev pub leave_loop : Exit → Daemon → Daemon
leave_loop e d = record d { is_serving = false; exits = e ∷ d.exits; tasks = cancel_all d.tasks }
