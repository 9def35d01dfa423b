-- ===== src/Daemon/Serve/Shutdown.antt =====
-- internal/daemon/daemon.go: the work that is left once a stop is requested.
use talkintent.Common.{
  ℕ, ◌+◌, ◌-◌, ◌≤◌, ◌*◌, ◌/◌, Bool, true, false, ◌&&◌, ◌≡◌, refl, sym, ap, ◌∙◌, ◌⊎◌, inl, inr,
  Option, none, some, List, [], ◌∷◌, ltb, arith, ◌==◌, if◌then◌else◌, length,
}
use talkintent.Common.GoMap
use talkintent.Hub.Records.{Message, hub_ack, heartbeat_pong, query_request, query_cancel}
use talkintent.Daemon.Dispatch.{DaemonLibrary, Settings, Agent}
use talkintent.Daemon.State.{
  Phase, Task, spawned, waiting, holding, running, answered, uncounted, released, counts, uncounts,
  releases, ends, Daemon, Event, stops, sees_stop, drains, grace_ends, read_fails, watches, pings,
  receives, registers, starts, leaves, times_out, finishes, connects, take_task, Exit, leave_loop,
  stopped_drained, stopped_late, read_failed, pong_timeout, pong_missed, ping_failed,
}
use talkintent.Daemon.Serve.{
  step, task_step, follow, receive, watch, ping, serve, only_if, on_task, try_acquire_probe,
  cancel_found, pong_timeout_ns,
}
use talkintent.Daemon.Serve.Histories.{Holds, only_if-Holds, sum_of, Pays, follow-Pays}
use talkintent.Daemon.Serve.Totals.{
  total, AddsUp, AddsUp-take_task, total-cancel_task, total-cancel_all,
}

-- The steps that a goroutine still has to take, at most.
abbrev pub steps_left : Phase → ℕ
steps_left spawned = 7
steps_left waiting = 6
steps_left holding = 5
steps_left running = 4
steps_left answered = 3
steps_left uncounted = 2
steps_left released = 1

abbrev pub left : Daemon → ℕ
left d = total (λ (t : Task). steps_left t.phase) d.tasks

-- The event is a step of a goroutine.
abbrev pub work : Event → ℕ
work (registers id) = 1
work (starts id) = 1
work (leaves id) = 1
work (counts id) = 1
work (uncounts id) = 1
work (releases id) = 1
work (ends id) = 1
work (times_out id w) = 1
work (finishes id x w) = 1
work e = 0

abbrev IsStopping : Daemon → Type 0
IsStopping d = d.is_stopping ≡ true

Drops : ℕ → Daemon → Daemon → Type 0
Drops n d d' = Pays IsStopping work (λ e. 0) left n 0 d d'

none_left : (es : List Event) → sum_of (λ x. 0) es ≡ 0
none_left [] = refl
none_left (e ∷ es) = omega (arith, none_left es)

phase-le : (p : Phase) → steps_left p ≤ 7
phase-le spawned = omega arith
phase-le waiting = omega arith
phase-le holding = omega arith
phase-le running = omega arith
phase-le answered = omega arith
phase-le uncounted = omega arith
phase-le released = omega arith

left-le : (ts : List Task) → total (λ (t : Task). steps_left t.phase) ts ≤ 7 * length ts
left-le [] = omega arith
left-le (t ∷ ts) = omega (arith, phase-le t.phase, left-le ts)

module _ (lib : DaemonLibrary) (cfg : Settings) (agent : ℕ → Agent) where
  cancelled-Drops : (x : Exit) (d : Daemon) → IsStopping d → Drops 0 d (leave_loop x d)
  unfolding Drops
  cancelled-Drops x d h =
      (h, omega (arith, total-cancel_all (λ (t : Task). steps_left t.phase) (λ t b. refl) d.tasks))

  task-Drops :
      (e : Event) (d : Daemon) (o : Option (Task × List Task))
      → IsStopping d
      → AddsUp (λ (t : Task). steps_left t.phase) d.tasks o
      → Holds (Drops (work e) d) (on_task (task_step lib cfg agent e d) o)
  unfolding task_step Drops
  task-Drops e d none h a = tt
  task-Drops (registers id) d (some (t, rest)) h a =
      only_if-Holds (Drops 1 d) _ _ (λ g. ground (arith, g, a, h))
  task-Drops (starts id) d (some (t, rest)) h a =
      only_if-Holds (Drops 1 d) _ _ (λ g. ground (arith, g, a, h))
  task-Drops (leaves id) d (some (t, rest)) h a =
      only_if-Holds (Drops 1 d) _ _ (λ g. ground (arith, g, a, h))
  task-Drops (counts id) d (some (t, rest)) h a =
      only_if-Holds (Drops 1 d) _ _ (λ g. ground (arith, g, a, h))
  task-Drops (uncounts id) d (some (t, rest)) h a =
      only_if-Holds (Drops 1 d) _ _ (λ g. ground (arith, g, a, h))
  task-Drops (releases id) d (some (t, rest)) h a =
      only_if-Holds (Drops 1 d) _ _ (λ g. ground (arith, g, a, h))
  task-Drops (ends id) d (some (t, rest)) h a =
      only_if-Holds (Drops 1 d) _ _ (λ g. ground (arith, g, a, h))
  task-Drops (times_out id w) d (some (t, rest)) h a =
      only_if-Holds (Drops 1 d) _ _ (λ g. ground (arith, g, a, h))
  task-Drops (finishes id x w) d (some (t, rest)) h a =
      only_if-Holds (Drops 1 d) _ _ (λ g. ground (arith, g, a, h))
  task-Drops stops d (some p) h a = tt
  task-Drops sees_stop d (some p) h a = tt
  task-Drops drains d (some p) h a = tt
  task-Drops grace_ends d (some p) h a = tt
  task-Drops read_fails d (some p) h a = tt
  task-Drops (watches now) d (some p) h a = tt
  task-Drops (pings now w) d (some p) h a = tt
  task-Drops (receives now m) d (some p) h a = tt
  task-Drops (connects now f) d (some p) h a = tt

  same-Drops :
      (d d' : Daemon)
      → IsStopping d
      → d'.is_stopping ≡ d.is_stopping
      → left d' ≡ left d
      → Drops 0 d d'
  unfolding Drops
  same-Drops d d' h s l = (s ∙ h, omega arith)

  cancel-Drops : (o : Option ℕ) (d : Daemon) → IsStopping d → Drops 0 d (cancel_found o d)
  cancel-Drops none d h = same-Drops d d h refl refl
  cancel-Drops (some id) d h =
      same-Drops d _ h refl
        (total-cancel_task (λ (t : Task). steps_left t.phase) (λ t b. refl) id d.tasks)

  declined-Drops :
      (b : Bool) (d u : Daemon) → b ≡ false → IsStopping d → Drops 0 d (if b then u else d)
  declined-Drops true d u f h = ground (arith, f)
  declined-Drops false d u f h = same-Drops d d h refl refl

  receive-Drops : (now : ℕ) (m : Message) (d : Daemon) → IsStopping d → Drops 0 d (receive now m d)
  unfolding receive try_acquire_probe
  receive-Drops now (heartbeat_pong t) d h = same-Drops d _ h refl refl
  receive-Drops now (hub_ack a) d h = same-Drops d _ h refl refl
  receive-Drops now (query_cancel id r) d h = cancel-Drops (GoMap.lookup id d.active_queries) d h
  receive-Drops now (query_request q) d h =
      declined-Drops (try_acquire_probe d) d _ (ground (arith, h)) h

  if-Drops :
      (b : Bool) (d u v : Daemon) → Drops 0 d u → Drops 0 d v → Drops 0 d (if b then u else v)
  if-Drops true d u v k l = k
  if-Drops false d u v k l = l

  watch-Drops : (now : ℕ) (d : Daemon) → IsStopping d → Drops 0 d (watch now d)
  unfolding watch
  watch-Drops now d h =
      if-Drops (d.awaiting_pong && ltb pong_timeout_ns (now - d.ping_sent_at)) d _ _
        (cancelled-Drops pong_timeout d h)
        (if-Drops (ltb (d.interval * 5 / 2) (now - d.last_pong)) d _ d
          (cancelled-Drops pong_missed d h) (same-Drops d d h refl refl))

  ping-Drops : (now : ℕ) (wrote : Bool) (d : Daemon) → IsStopping d → Drops 0 d (ping now wrote d)
  unfolding ping
  ping-Drops now true d h = same-Drops d _ h refl refl
  ping-Drops now false d h = cancelled-Drops ping_failed d h

  step-Drops :
      (e : Event) (d : Daemon) → IsStopping d → Holds (Drops (work e) d) (step lib cfg agent e d)
  unfolding step serve
  step-Drops stops d h = same-Drops d _ h (sym h) refl
  step-Drops sees_stop d h = only_if-Holds (Drops 0 d) _ _ (λ g. same-Drops d _ h refl refl)
  step-Drops drains d h = only_if-Holds (Drops 0 d) _ _ (λ g. cancelled-Drops stopped_drained d h)
  step-Drops grace_ends d h = only_if-Holds (Drops 0 d) _ _ (λ g. cancelled-Drops stopped_late d h)
  step-Drops read_fails d h = only_if-Holds (Drops 0 d) _ _ (λ g. cancelled-Drops read_failed d h)
  step-Drops (watches now) d h = only_if-Holds (Drops 0 d) _ _ (λ g. watch-Drops now d h)
  step-Drops (pings now w) d h = only_if-Holds (Drops 0 d) _ _ (λ g. ping-Drops now w d h)
  step-Drops (receives now m) d h = only_if-Holds (Drops 0 d) _ _ (λ g. receive-Drops now m d h)
  step-Drops (connects now f) d h = only_if-Holds (Drops 0 d) _ _ (λ g. same-Drops d _ h refl refl)
  step-Drops (registers id) d h = task-Drops (registers id) d _ h (AddsUp-take_task _ id d.tasks)
  step-Drops (starts id) d h = task-Drops (starts id) d _ h (AddsUp-take_task _ id d.tasks)
  step-Drops (leaves id) d h = task-Drops (leaves id) d _ h (AddsUp-take_task _ id d.tasks)
  step-Drops (counts id) d h = task-Drops (counts id) d _ h (AddsUp-take_task _ id d.tasks)
  step-Drops (uncounts id) d h = task-Drops (uncounts id) d _ h (AddsUp-take_task _ id d.tasks)
  step-Drops (releases id) d h = task-Drops (releases id) d _ h (AddsUp-take_task _ id d.tasks)
  step-Drops (ends id) d h = task-Drops (ends id) d _ h (AddsUp-take_task _ id d.tasks)
  step-Drops (times_out id w) d h =
      task-Drops (times_out id w) d _ h (AddsUp-take_task _ id d.tasks)
  step-Drops (finishes id x w) d h =
      task-Drops (finishes id x w) d _ h (AddsUp-take_task _ id d.tasks)

  -- No goroutine is left, or one of them can take a step.
  abbrev pub CanWork : Daemon → Type 0
  CanWork d =
      (d.tasks ≡ [])
      ⊎ ((e : Event) × (work e ≡ 1) × ((u : Daemon) × (step lib cfg agent e d ≡ some u)))

  take_first :
      (ts : List Task) (t : Task) (rest : List Task)
      → ts ≡ t ∷ rest
      → take_task t.id ts ≡ some (t, rest)
  take_first ts t rest e = ap (take_task t.id) e ∙ rw same refl
    where
      same : t.id == t.id ≡ true
      same = ground arith

  only_if-true : {b : Bool} (d : Daemon) → b ≡ true → only_if b d ≡ some d
  only_if-true d e = rw e refl

  first-CanWork :
      (d : Daemon) (t : Task) (rest : List Task) (p : Phase)
      → d.is_stopping ≡ true
      → d.tasks ≡ t ∷ rest
      → t.phase ≡ p
      → CanWork d
  unfolding step task_step
  first-CanWork d t rest spawned h e q = inr (
    registers t.id,
    refl,
    (
      _,
      ap (on_task (task_step lib cfg agent (registers t.id) d)) (take_first d.tasks t rest e)
          ∙ only_if-true _ (rw q refl),
    ),
  )
  first-CanWork d t rest waiting h e q = inr (
    leaves t.id,
    refl,
    (
      _,
      ap (on_task (task_step lib cfg agent (leaves t.id) d)) (take_first d.tasks t rest e)
          ∙ only_if-true _ (ground (arith, q, h)),
    ),
  )
  first-CanWork d t rest running h e q = inr (
    finishes t.id false false,
    refl,
    (
      _,
      ap (on_task (task_step lib cfg agent (finishes t.id false false) d))
            (take_first d.tasks t rest e)
          ∙ only_if-true _ (rw q refl),
    ),
  )
  first-CanWork d t rest holding h e q = inr (
    counts t.id,
    refl,
    (
      _,
      ap (on_task (task_step lib cfg agent (counts t.id) d)) (take_first d.tasks t rest e)
          ∙ only_if-true _ (rw q refl),
    ),
  )
  first-CanWork d t rest answered h e q = inr (
    uncounts t.id,
    refl,
    (
      _,
      ap (on_task (task_step lib cfg agent (uncounts t.id) d)) (take_first d.tasks t rest e)
          ∙ only_if-true _ (rw q refl),
    ),
  )
  first-CanWork d t rest uncounted h e q = inr (
    releases t.id,
    refl,
    (
      _,
      ap (on_task (task_step lib cfg agent (releases t.id) d)) (take_first d.tasks t rest e)
          ∙ only_if-true _ (rw q refl),
    ),
  )
  first-CanWork d t rest released h e q = inr (
    ends t.id,
    refl,
    (
      _,
      ap (on_task (task_step lib cfg agent (ends t.id) d)) (take_first d.tasks t rest e)
          ∙ only_if-true _ (rw q refl),
    ),
  )

  any-CanWork : (d : Daemon) (ts : List Task) → d.is_stopping ≡ true → d.tasks ≡ ts → CanWork d
  any-CanWork d [] h e = inl e
  any-CanWork d (t ∷ rest) h e = first-CanWork d t rest t.phase h e refl

-- From a state where a stop was requested on, the goroutines take at most seven steps for each query
-- in flight, whatever else happens, and those that an earlier state had left bound those of a later
-- one; while a query is in flight, a step of a goroutine is possible.
pub stop_ends :
    (lib : DaemonLibrary) (cfg : Settings) (agent : ℕ → Agent) (es : List Event) (d d' : Daemon)
    → d.is_stopping ≡ true
    → follow lib cfg agent es d ≡ some d'
    → (sum_of work es + left d' ≤ left d) × (left d ≤ 7 * length d.tasks) × CanWork lib cfg agent d'
unfolding Drops
stop_ends lib cfg agent es d d' h e =
    let k =
      follow-Pays IsStopping work (λ x. 0) left lib cfg agent (step-Drops lib cfg agent) es d d' h
        e in
    (
      omega (arith, k.1, none_left es),
      left-le d.tasks,
      any-CanWork lib cfg agent d' d'.tasks k.0 refl,
    )
