-- ===== src/Daemon/Serve/Slots.antt =====
-- internal/daemon/daemon.go: the concurrency limit.
use talkintent.Common.{
  ℕ, ◌-◌, ◌≤◌, ◌*◌, ◌/◌, String, Bool, true, false, ◌&&◌, ◌≡◌, refl, Option, none, some, List, [],
  ◌∷◌, ltb, arith, if◌then◌else◌,
}
use talkintent.Common.GoMap
use talkintent.Hub.Records.{
  QueryRequest, Message, hub_ack, heartbeat_pong, query_request, query_cancel,
}
use talkintent.Daemon.Dispatch.{DaemonLibrary, Settings, Agent}
use talkintent.Daemon.State.{
  Task, Daemon, Event, stops, sees_stop, drains, grace_ends, read_fails, watches, pings, receives,
  registers, starts, leaves, times_out, finishes, connects, max_concurrency, Phase, spawned,
  waiting, holding, running, answered, uncounted, released, counts, uncounts, releases, ends, Exit,
  stopped_drained, stopped_late, read_failed, leave_loop, pong_timeout, pong_missed, ping_failed,
}
use talkintent.Daemon.Serve.{
  step, task_step, follow, receive, watch, ping, serve, on_task, try_acquire_probe, cancel_found,
  new_client_daemon, accept, pong_timeout_ns,
}
use talkintent.Daemon.Serve.Histories.{Holds, only_if-Holds, follow-keeps}
use talkintent.Daemon.Serve.Totals.{
  total, one_if, AddsUp, AddsUp-take_task, total-append, total-cancel_task, total-cancel_all,
}

-- With a slot, and counted.
abbrev pub has_slot : Phase → Bool
has_slot holding = true
has_slot running = true
has_slot answered = true
has_slot uncounted = true
has_slot _ = false

abbrev pub is_counted : Phase → Bool
is_counted running = true
is_counted answered = true
is_counted _ = false

abbrev pub occupies : Task → ℕ
occupies t = one_if (has_slot t.phase)

abbrev pub runs : Task → ℕ
runs t = one_if (is_counted t.phase)

phase-le : (p : Phase) → one_if (is_counted p) ≤ one_if (has_slot p)
phase-le spawned = omega arith
phase-le waiting = omega arith
phase-le holding = omega arith
phase-le running = omega arith
phase-le answered = omega arith
phase-le uncounted = omega arith
phase-le released = omega arith

runs-le-occupies : (ts : List Task) → total runs ts ≤ total occupies ts
runs-le-occupies [] = omega arith
runs-le-occupies (t ∷ ts) = omega (arith, phase-le t.phase, runs-le-occupies ts)

-- The slots in use are the goroutines that hold one, no more than allowed, and the count is that of
-- those that are counted.
record IsCounted (cfg : Settings) (d : Daemon) : Type 0 where
  held : total occupies d.tasks ≡ d.slots
  counted : total runs d.tasks ≡ d.active_probe_count
  limited : d.slots ≤ max_concurrency cfg

module _ (cfg : Settings) where
  abbrev Counted : Option Daemon → Type 0
  Counted = Holds (IsCounted cfg)

  same-Counted :
      (d d' : Daemon)
      → total occupies d'.tasks ≡ total occupies d.tasks
      → total runs d'.tasks ≡ total runs d.tasks
      → d'.slots ≡ d.slots
      → d'.active_probe_count ≡ d.active_probe_count
      → IsCounted cfg d
      → IsCounted cfg d'
  same-Counted d d' u t s a c = record {
    held = omega (arith, c.held);
    counted = omega (arith, c.counted);
    limited = omega (arith, c.limited);
  }

  if-Counted :
      (b : Bool) (d d' : Daemon)
      → IsCounted cfg d
      → IsCounted cfg d'
      → IsCounted cfg (if b then d else d')
  if-Counted true d d' c c' = c
  if-Counted false d d' c c' = c'

  leave-Counted : (x : Exit) (d : Daemon) → IsCounted cfg d → IsCounted cfg (leave_loop x d)
  leave-Counted x d c =
      same-Counted d (leave_loop x d) (total-cancel_all occupies (λ t b. refl) d.tasks)
        (total-cancel_all runs (λ t b. refl) d.tasks) refl refl c

  cancel-Counted : (o : Option ℕ) (d : Daemon) → IsCounted cfg d → IsCounted cfg (cancel_found o d)
  cancel-Counted none d c = c
  cancel-Counted (some id) d c =
      same-Counted d (cancel_found (some id) d)
        (total-cancel_task occupies (λ t b. refl) id d.tasks)
        (total-cancel_task runs (λ t b. refl) id d.tasks) refl refl c

  accept-Counted : (q : QueryRequest) (d : Daemon) → IsCounted cfg d → IsCounted cfg (accept q d)
  accept-Counted q d c =
      same-Counted d (accept q d) (omega (arith, total-append occupies d.tasks))
        (omega (arith, total-append runs d.tasks)) refl refl c

  receive-Counted :
      (now : ℕ) (m : Message) (d : Daemon) → IsCounted cfg d → IsCounted cfg (receive now m d)
  unfolding receive
  receive-Counted now (heartbeat_pong t) d c = same-Counted d _ refl refl refl refl c
  receive-Counted now (hub_ack a) d c = same-Counted d _ refl refl refl refl c
  receive-Counted now (query_cancel id r) d c =
      cancel-Counted (GoMap.lookup id d.active_queries) d c
  receive-Counted now (query_request q) d c =
      if-Counted (try_acquire_probe d) (accept q d) d (accept-Counted q d c) c

  watch-Counted : (now : ℕ) (d : Daemon) → IsCounted cfg d → IsCounted cfg (watch now d)
  unfolding watch
  watch-Counted now d c =
      if-Counted (d.awaiting_pong && ltb pong_timeout_ns (now - d.ping_sent_at)) _ _
        (leave-Counted pong_timeout d c)
        (if-Counted (ltb (d.interval * 5 / 2) (now - d.last_pong)) _ d
          (leave-Counted pong_missed d c) c)

  ping-Counted :
      (now : ℕ) (wrote : Bool) (d : Daemon) → IsCounted cfg d → IsCounted cfg (ping now wrote d)
  unfolding ping
  ping-Counted now true d c = same-Counted d _ refl refl refl refl c
  ping-Counted now false d c = leave-Counted ping_failed d c

  module _ (lib : DaemonLibrary) (agent : ℕ → Agent) where
    serve-Counted :
        (now : ℕ) (f : String → Bool) (d : Daemon)
        → IsCounted cfg d
        → IsCounted cfg (serve lib cfg now f d)
    unfolding serve
    serve-Counted now f d c = same-Counted d _ refl refl refl refl c

    task-Counted :
        (e : Event) (d : Daemon) (o : Option (Task × List Task))
        → IsCounted cfg d
        → AddsUp occupies d.tasks o
        → AddsUp runs d.tasks o
        → Counted (on_task (task_step lib cfg agent e d) o)
    unfolding task_step
    task-Counted e d none c b a = tt
    task-Counted (registers id) d (some (t, rest)) c b a =
        only_if-Holds (IsCounted cfg) _ _
          (λ h. ground (arith, h, a, b, c.held, c.counted, c.limited))
    task-Counted (starts id) d (some (t, rest)) c b a =
        only_if-Holds (IsCounted cfg) _ _
          (λ h. ground (arith, h, a, b, c.held, c.counted, c.limited))
    task-Counted (leaves id) d (some (t, rest)) c b a =
        only_if-Holds (IsCounted cfg) _ _
          (λ h. ground (arith, h, a, b, c.held, c.counted, c.limited))
    task-Counted (counts id) d (some (t, rest)) c b a =
        only_if-Holds (IsCounted cfg) _ _
          (λ h. ground (arith, h, a, b, c.held, c.counted, c.limited))
    task-Counted (uncounts id) d (some (t, rest)) c b a =
        only_if-Holds (IsCounted cfg) _ _
          (λ h. ground (arith, h, a, b, c.held, c.counted, c.limited))
    task-Counted (releases id) d (some (t, rest)) c b a =
        only_if-Holds (IsCounted cfg) _ _
          (λ h. ground (arith, h, a, b, c.held, c.counted, c.limited))
    task-Counted (ends id) d (some (t, rest)) c b a =
        only_if-Holds (IsCounted cfg) _ _
          (λ h. ground (arith, h, a, b, c.held, c.counted, c.limited))
    task-Counted (times_out id w) d (some (t, rest)) c b a =
        only_if-Holds (IsCounted cfg) _ _
          (λ h. ground (arith, h, a, b, c.held, c.counted, c.limited))
    task-Counted (finishes id x w) d (some (t, rest)) c b a =
        only_if-Holds (IsCounted cfg) _ _
          (λ h. ground (arith, h, a, b, c.held, c.counted, c.limited))
    task-Counted stops d (some p) c b a = tt
    task-Counted sees_stop d (some p) c b a = tt
    task-Counted drains d (some p) c b a = tt
    task-Counted grace_ends d (some p) c b a = tt
    task-Counted read_fails d (some p) c b a = tt
    task-Counted (watches now) d (some p) c b a = tt
    task-Counted (pings now w) d (some p) c b a = tt
    task-Counted (receives now m) d (some p) c b a = tt
    task-Counted (connects now f) d (some p) c b a = tt

    step-Counted : (e : Event) (d : Daemon) → IsCounted cfg d → Counted (step lib cfg agent e d)
    unfolding step
    step-Counted stops d c = same-Counted d _ refl refl refl refl c
    step-Counted sees_stop d c =
        only_if-Holds (IsCounted cfg) _ _ (λ h. same-Counted d _ refl refl refl refl c)
    step-Counted drains d c =
        only_if-Holds (IsCounted cfg) _ _ (λ h. leave-Counted stopped_drained d c)
    step-Counted grace_ends d c =
        only_if-Holds (IsCounted cfg) _ _ (λ h. leave-Counted stopped_late d c)
    step-Counted read_fails d c =
        only_if-Holds (IsCounted cfg) _ _ (λ h. leave-Counted read_failed d c)
    step-Counted (watches now) d c = only_if-Holds (IsCounted cfg) _ _ (λ h. watch-Counted now d c)
    step-Counted (pings now w) d c = only_if-Holds (IsCounted cfg) _ _ (λ h. ping-Counted now w d c)
    step-Counted (receives now m) d c =
        only_if-Holds (IsCounted cfg) _ _ (λ h. receive-Counted now m d c)
    step-Counted (connects now f) d c =
        only_if-Holds (IsCounted cfg) _ _ (λ h. serve-Counted now f d c)
    step-Counted (registers id) d c =
        task-Counted (registers id) d _ c (AddsUp-take_task occupies id d.tasks)
          (AddsUp-take_task runs id d.tasks)
    step-Counted (starts id) d c =
        task-Counted (starts id) d _ c (AddsUp-take_task occupies id d.tasks)
          (AddsUp-take_task runs id d.tasks)
    step-Counted (leaves id) d c =
        task-Counted (leaves id) d _ c (AddsUp-take_task occupies id d.tasks)
          (AddsUp-take_task runs id d.tasks)
    step-Counted (counts id) d c =
        task-Counted (counts id) d _ c (AddsUp-take_task occupies id d.tasks)
          (AddsUp-take_task runs id d.tasks)
    step-Counted (uncounts id) d c =
        task-Counted (uncounts id) d _ c (AddsUp-take_task occupies id d.tasks)
          (AddsUp-take_task runs id d.tasks)
    step-Counted (releases id) d c =
        task-Counted (releases id) d _ c (AddsUp-take_task occupies id d.tasks)
          (AddsUp-take_task runs id d.tasks)
    step-Counted (ends id) d c =
        task-Counted (ends id) d _ c (AddsUp-take_task occupies id d.tasks)
          (AddsUp-take_task runs id d.tasks)
    step-Counted (times_out id w) d c =
        task-Counted (times_out id w) d _ c (AddsUp-take_task occupies id d.tasks)
          (AddsUp-take_task runs id d.tasks)
    step-Counted (finishes id x w) d c =
        task-Counted (finishes id x w) d _ c (AddsUp-take_task occupies id d.tasks)
          (AddsUp-take_task runs id d.tasks)

-- After any events of a new daemon, the slots in use are the goroutines that hold one, and no more than
-- the configuration allows; `activeProbeCount` is the number of those that are counted, which all
-- hold one.
pub slots_limited :
    (lib : DaemonLibrary) (cfg : Settings) (agent : ℕ → Agent) (es : List Event) (d : Daemon)
    → follow lib cfg agent es new_client_daemon ≡ some d
    → (total occupies d.tasks ≡ d.slots)
      × (total runs d.tasks ≡ d.active_probe_count)
      × (d.active_probe_count ≤ d.slots)
      × (d.slots ≤ max_concurrency cfg)
slots_limited lib cfg agent es d e =
    let c =
      follow-keeps (IsCounted cfg) lib cfg agent (step-Counted cfg lib agent) es new_client_daemon d
        (record { held = refl; counted = refl; limited = omega arith }) e in
    (c.held, c.counted, omega (arith, c.held, c.counted, runs-le-occupies d.tasks), c.limited)
