-- ===== src/Daemon/Serve/Answers.antt =====
-- internal/daemon/daemon.go: the responses of a daemon against the requests that it was sent.
use talkintent.Common.{
  ℕ, ◌+◌, ◌-◌, ◌≤◌, ◌*◌, ◌/◌, String, Bool, true, false, ◌&&◌, not, ◌≡◌, refl, ap, Option, none,
  some, List, [], ◌∷◌, ◌++◌, ltb, arith, str_eq, if◌then◌else◌,
}
use talkintent.Common.GoMap
use talkintent.Hub.Records.{
  Message, hub_ack, heartbeat_pong, query_request, query_cancel, Envelope, daemon_hello,
  heartbeat_ping, query_response, unknown_type,
}
use talkintent.Daemon.Dispatch.{DaemonLibrary, Settings, Agent, dispatch_query, failure}
use talkintent.Store.Records.{status_timeout}
use talkintent.Daemon.Dispatch.Answer.{Names, dispatch_query-query_id}
use talkintent.Daemon.State.{
  Phase, answered, uncounted, released, counts, uncounts, releases, ends, Task, Daemon, Event,
  stops, sees_stop, drains, grace_ends, read_fails, watches, pings, receives, registers, starts,
  leaves, times_out, finishes, connects, Exit, leave_loop, stopped_drained, stopped_late,
  read_failed, pong_timeout, pong_missed, ping_failed, write_if,
}
use talkintent.Daemon.Serve.{
  step, task_step, follow, receive, watch, ping, serve, on_task, try_acquire_probe, cancel_found,
  accept, pong_timeout_ns, new_client_daemon, hello_of,
}
use talkintent.Daemon.Serve.Histories.{Holds, only_if-Holds, sum_of, Pays, follow-Pays}
use talkintent.Daemon.Serve.Totals.{
  total, one_if, AddsUp, AddsUp-take_task, total-append, total-cancel_task, total-cancel_all,
}

abbrev pub has_answered : Phase → Bool
has_answered answered = true
has_answered uncounted = true
has_answered released = true
has_answered _ = false

module _ (q : String) where
  abbrev pub is_answer : Envelope → Bool
  is_answer (daemon_hello h) = false
  is_answer heartbeat_ping = false
  is_answer (query_response r) = str_eq r.query_id q
  is_answer unknown_type = false

  -- The responses to the query, the goroutines that may still answer it, and the requests for it.
  abbrev pub answers : List Envelope → ℕ
  answers [] = 0
  answers (e ∷ es) = one_if (is_answer e) + answers es

  -- Before its response.
  abbrev pub asks : Task → ℕ
  asks t = one_if (not (has_answered t.phase) && str_eq t.request.query_id q)

  abbrev pub asked : Message → ℕ
  asked (query_request r) = one_if (str_eq r.query_id q)
  asked m = 0

  abbrev pub requests : Event → ℕ
  requests (receives now m) = asked m
  requests e = 0

  abbrev pub handled : Daemon → ℕ
  handled d = answers d.sent + total asks d.tasks

  answers-append :
      (es : List Envelope) (e : Envelope)
      → answers (es ++ e ∷ []) ≡ answers es + one_if (is_answer e)
  answers-append [] e = omega arith
  answers-append (x ∷ es) e = omega (arith, answers-append es e)

  answers-write_if :
      (b : Bool) (e : Envelope) (d : Daemon)
      → answers (write_if b e d).sent ≤ answers d.sent + one_if (is_answer e)
  answers-write_if true e d = omega (arith, answers-append d.sent e)
  answers-write_if false e d = omega arith

  Grows : ℕ → Daemon → Daemon → Type 0
  Grows g d d' = Pays (λ x. Unit {0}) (λ x. 0) requests handled 0 g d d'

  by_parts :
      (g : ℕ) (d d' : Daemon)
      → answers d'.sent + total asks d'.tasks ≤ g + (answers d.sent + total asks d.tasks)
      → Grows g d d'
  unfolding Grows
  by_parts g d d' h = (tt, omega (arith, h))

  module _ (lib : DaemonLibrary) (cfg : Settings) (agent : ℕ → Agent)
      (names : (n : ℕ) → Names (agent n)) where
    response_lem :
        (expired : Bool) (t : Task)
        → is_answer (query_response (dispatch_query lib cfg (agent t.id) expired t.request))
          ≡ str_eq t.request.query_id q
    response_lem expired t =
        ap (λ s. str_eq s q)
          (dispatch_query-query_id lib cfg (agent t.id) (names t.id) expired t.request)

    task-Grows :
        (e : Event) (d : Daemon) (o : Option (Task × List Task))
        → AddsUp asks d.tasks o
        → Holds (Grows 0 d) (on_task (task_step lib cfg agent e d) o)
    unfolding task_step
    task-Grows e d none a = tt
    task-Grows (registers id) d (some (t, rest)) a =
        only_if-Holds (Grows 0 d) _ _ (λ g. by_parts 0 d _ (ground (arith, a, g)))
    task-Grows (starts id) d (some (t, rest)) a =
        only_if-Holds (Grows 0 d) _ _ (λ g. by_parts 0 d _ (ground (arith, a, g)))
    task-Grows (leaves id) d (some (t, rest)) a =
        only_if-Holds (Grows 0 d) _ _ (λ g. by_parts 0 d _ (ground (arith, a, g)))
    task-Grows (counts id) d (some (t, rest)) a =
        only_if-Holds (Grows 0 d) _ _ (λ g. by_parts 0 d _ (ground (arith, a, g)))
    task-Grows (uncounts id) d (some (t, rest)) a =
        only_if-Holds (Grows 0 d) _ _ (λ g. by_parts 0 d _ (ground (arith, a, g)))
    task-Grows (releases id) d (some (t, rest)) a =
        only_if-Holds (Grows 0 d) _ _ (λ g. by_parts 0 d _ (ground (arith, a, g)))
    task-Grows (ends id) d (some (t, rest)) a =
        only_if-Holds (Grows 0 d) _ _ (λ g. by_parts 0 d _ (ground (arith, a, g)))
    task-Grows (times_out id w) d (some (t, rest)) a = only_if-Holds (Grows 0 d) _ _ (λ g.
        by_parts 0 d _ (
          ground (
            arith,
            a,
            g,
            answers-write_if w
                (query_response
                  (failure t.request status_timeout "query timed out waiting in daemon queue"))
                d,
          )))
    task-Grows (finishes id x w) d (some (t, rest)) a = only_if-Holds (Grows 0 d) _ _ (λ g.
        by_parts 0 d _ (
          ground (
            arith,
            a,
            g,
            answers-write_if w (query_response (dispatch_query lib cfg (agent t.id) x t.request)) d,
            ap one_if (response_lem x t),
          )))
    task-Grows stops d (some p) a = tt
    task-Grows sees_stop d (some p) a = tt
    task-Grows drains d (some p) a = tt
    task-Grows grace_ends d (some p) a = tt
    task-Grows read_fails d (some p) a = tt
    task-Grows (watches now) d (some p) a = tt
    task-Grows (pings now w) d (some p) a = tt
    task-Grows (receives now m) d (some p) a = tt
    task-Grows (connects now f) d (some p) a = tt

    if-Grows :
        (g : ℕ) (b : Bool) (d u v : Daemon)
        → Grows g d u
        → Grows g d v
        → Grows g d (if b then u else v)
    if-Grows g true d u v k l = k
    if-Grows g false d u v k l = l

    leave-Grows : (x : Exit) (d : Daemon) → Grows 0 d (leave_loop x d)
    leave-Grows x d = by_parts 0 d _ (omega (arith, total-cancel_all asks (λ t b. refl) d.tasks))

    cancel-Grows : (o : Option ℕ) (d : Daemon) → Grows 0 d (cancel_found o d)
    cancel-Grows none d = by_parts 0 d _ (omega arith)
    cancel-Grows (some id) d =
        by_parts 0 d _ (omega (arith, total-cancel_task asks (λ t b. refl) id d.tasks))

    receive-Grows : (now : ℕ) (m : Message) (d : Daemon) → Grows (asked m) d (receive now m d)
    unfolding receive
    receive-Grows now (heartbeat_pong t) d = by_parts 0 d _ (omega arith)
    receive-Grows now (hub_ack a) d = by_parts 0 d _ (omega arith)
    receive-Grows now (query_cancel id r) d = cancel-Grows (GoMap.lookup id d.active_queries) d
    receive-Grows now (query_request r) d =
        if-Grows (asked (query_request r)) (try_acquire_probe d) d _ d
          (by_parts _ d (accept r d) (omega (arith, total-append asks d.tasks)))
          (by_parts _ d d (omega arith))

    watch-Grows : (now : ℕ) (d : Daemon) → Grows 0 d (watch now d)
    unfolding watch
    watch-Grows now d =
        if-Grows 0 (d.awaiting_pong && ltb pong_timeout_ns (now - d.ping_sent_at)) d _ _
          (leave-Grows pong_timeout d)
          (if-Grows 0 (ltb (d.interval * 5 / 2) (now - d.last_pong)) d _ d
            (leave-Grows pong_missed d) (by_parts 0 d d (omega arith)))

    ping-Grows : (now : ℕ) (wrote : Bool) (d : Daemon) → Grows 0 d (ping now wrote d)
    unfolding ping
    ping-Grows now true d = by_parts 0 d _ (omega (arith, answers-append d.sent heartbeat_ping))
    ping-Grows now false d = leave-Grows ping_failed d

    step-Grows : (e : Event) (d : Daemon) → Holds (Grows (requests e) d) (step lib cfg agent e d)
    unfolding step serve
    step-Grows stops d = by_parts 0 d _ (omega arith)
    step-Grows sees_stop d = only_if-Holds (Grows 0 d) _ _ (λ g. by_parts 0 d _ (omega arith))
    step-Grows drains d = only_if-Holds (Grows 0 d) _ _ (λ g. leave-Grows stopped_drained d)
    step-Grows grace_ends d = only_if-Holds (Grows 0 d) _ _ (λ g. leave-Grows stopped_late d)
    step-Grows read_fails d = only_if-Holds (Grows 0 d) _ _ (λ g. leave-Grows read_failed d)
    step-Grows (watches now) d = only_if-Holds (Grows 0 d) _ _ (λ g. watch-Grows now d)
    step-Grows (pings now w) d = only_if-Holds (Grows 0 d) _ _ (λ g. ping-Grows now w d)
    step-Grows (receives now m) d =
        only_if-Holds (Grows (asked m) d) _ _ (λ g. receive-Grows now m d)
    step-Grows (connects now f) d = only_if-Holds (Grows 0 d) _ _ (λ g.
        by_parts 0 d _ (omega (arith, answers-append d.sent (daemon_hello (hello_of lib cfg f)))))
    step-Grows (registers id) d = task-Grows (registers id) d _ (AddsUp-take_task asks id d.tasks)
    step-Grows (starts id) d = task-Grows (starts id) d _ (AddsUp-take_task asks id d.tasks)
    step-Grows (leaves id) d = task-Grows (leaves id) d _ (AddsUp-take_task asks id d.tasks)
    step-Grows (counts id) d = task-Grows (counts id) d _ (AddsUp-take_task asks id d.tasks)
    step-Grows (uncounts id) d = task-Grows (uncounts id) d _ (AddsUp-take_task asks id d.tasks)
    step-Grows (releases id) d = task-Grows (releases id) d _ (AddsUp-take_task asks id d.tasks)
    step-Grows (ends id) d = task-Grows (ends id) d _ (AddsUp-take_task asks id d.tasks)
    step-Grows (times_out id w) d =
        task-Grows (times_out id w) d _ (AddsUp-take_task asks id d.tasks)
    step-Grows (finishes id x w) d =
        task-Grows (finishes id x w) d _ (AddsUp-take_task asks id d.tasks)

-- Whatever happens to a new daemon, it has written no more responses under an id than it was sent
-- requests for it, less the queries under that id that are in flight without a response, when the agent answers
-- under the id of its request.
pub answers-le-requests :
    (lib : DaemonLibrary) (cfg : Settings) (agent : ℕ → Agent) (es : List Event) (d : Daemon)
    (q : String)
    → ((n : ℕ) → Names (agent n))
    → follow lib cfg agent es new_client_daemon ≡ some d
    → answers q d.sent + total (asks q) d.tasks ≤ sum_of (requests q) es
unfolding Grows
answers-le-requests lib cfg agent es d q names e =
    let k =
      follow-Pays (λ x. Unit {0}) (λ x. 0) (requests q) (handled q) lib cfg agent
        (λ x u h. step-Grows q lib cfg agent names x u) es new_client_daemon d tt e in
    omega (arith, k.1)
