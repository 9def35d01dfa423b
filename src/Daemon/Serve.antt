-- ===== src/Daemon/Serve.antt =====
-- The life of a `ClientDaemon` (internal/daemon/daemon.go): the loop of `connectAndServe`, the
-- goroutines of `handleQueryRequest`, and the stop. A state where an event cannot happen has no next
-- state.
pub mod Totals
pub mod Histories
pub mod Slots
pub mod Shutdown
pub mod Cancels
pub mod Answers
use talkintent.Common.{
  ℕ, suc, ◌+◌, ◌-◌, ◌*◌, ◌/◌, String, Bool, true, false, ◌&&◌, ◌||◌, not, Option, none, some, List,
  [], ◌∷◌, ◌++◌, ltb, ◌==◌, str_eq, if◌then◌else◌, map, length,
}
use talkintent.Common.GoMap
use talkintent.Common.GoMap.{GoMap}
use talkintent.Common.Int.{ℤ, pos}
use talkintent.Config.Workspaces.{WorkspaceConfig}
use talkintent.Common.Effect.{Result}
use talkintent.Store.Records.{status_timeout}
use talkintent.Hub.Records.{
  WorkspaceInfo, DaemonHello, HubAck, QueryRequest, QueryResponse, Message, hub_ack, heartbeat_pong,
  query_request, query_cancel, Envelope, daemon_hello, heartbeat_ping, query_response, or_default,
}
use talkintent.Daemon.Dispatch.{DaemonLibrary, Settings, Agent, failure, dispatch_query, timeout_of}
use talkintent.Daemon.State.{
  Phase, spawned, waiting, holding, running, answered, uncounted, released, counts, uncounts,
  releases, ends, is_holding, is_answered, is_uncounted, is_released, Task, Exit, read_failed,
  ping_failed, pong_timeout, pong_missed, stopped_drained, stopped_late, Daemon, Event, stops,
  sees_stop, drains, grace_ends, read_fails, watches, pings, receives, registers, starts, leaves,
  times_out, finishes, connects, take_task, max_concurrency, write_if, is_waiting, is_running,
  is_spawned, cancel_task, cancel_all, leave_loop,
}

unfoldable pub try_acquire_probe : Daemon → Bool
try_acquire_probe d = not d.is_stopping && not d.draining

abbrev pub accept : QueryRequest → Daemon → Daemon
accept req d = record d {
  tasks =
      d.tasks ++ record { id = d.next; request = req; phase = spawned; is_cancelled = false } ∷ [];
  next = suc d.next;
}

abbrev pub cancel_found : Option ℕ → Daemon → Daemon
cancel_found none d = d
cancel_found (some id) d = record d { tasks = cancel_task id d.tasks }

abbrev pub second : ℕ
second = 1000000000

abbrev pub greeted : HubAck → Daemon → Daemon
greeted ack d = record d {
  session_id = ack.session_id;
  interval =
      if ltb 0 ack.heartbeat_interval_sec then ack.heartbeat_interval_sec * second else d.interval;
}

-- The cases of `env.Type`.
unfoldable pub receive : ℕ → Message → Daemon → Daemon
receive now (heartbeat_pong t) d = record d { last_pong = now; awaiting_pong = false }
receive now (hub_ack ack) d = greeted ack d
receive now (query_cancel id reason) d = cancel_found (GoMap.lookup id d.active_queries) d
receive now (query_request req) d = if try_acquire_probe d then accept req d else d

abbrev pub pong_timeout_ns : ℕ
pong_timeout_ns = 10 * second

-- `2.5 * interval` in floating point is exact for an interval below 2^51.
unfoldable pub watch : ℕ → Daemon → Daemon
watch now d =
    if d.awaiting_pong && ltb pong_timeout_ns (now - d.ping_sent_at)
    then leave_loop pong_timeout d
    else (if ltb (d.interval * 5 / 2) (now - d.last_pong) then leave_loop pong_missed d else d)

unfoldable pub ping : ℕ → Bool → Daemon → Daemon
ping now wrote d =
    if wrote
    then write_if true heartbeat_ping (record d { awaiting_pong = true; ping_sent_at = now })
    else leave_loop ping_failed d

-- The last of the deferred calls of `handleQueryRequest`.
abbrev pub end_task : Task → List Task → Daemon → Daemon
end_task t rest d = record d {
  tasks = rest;
  active_queries = GoMap.erase t.request.query_id d.active_queries;
}

abbrev pub register : Task → List Task → Daemon → Daemon
register t rest d = record d {
  tasks = record t { phase = waiting } ∷ rest;
  active_queries = GoMap.insert t.request.query_id t.id d.active_queries;
}

abbrev pub move_to : Phase → Task → List Task → Daemon → Daemon
move_to p t rest d = record d { tasks = record t { phase = p } ∷ rest }

-- `d.sem <- struct{}{}` and `<-d.sem`
abbrev pub start : Task → List Task → Daemon → Daemon
start t rest d = move_to holding t rest (record d { slots = suc d.slots })

abbrev pub give_back : Task → List Task → Daemon → Daemon
give_back t rest d = move_to released t rest (record d { slots = d.slots - 1 })

-- The two calls of `atomic.AddInt32`
abbrev pub count_in : Task → List Task → Daemon → Daemon
count_in t rest d =
    move_to running t rest (record d { active_probe_count = suc d.active_probe_count })

abbrev pub count_out : Task → List Task → Daemon → Daemon
count_out t rest d =
    move_to uncounted t rest (record d { active_probe_count = d.active_probe_count - 1 })

abbrev pub compute_has_privacy_prompt : DaemonLibrary → (String → Bool) → WorkspaceConfig → Bool
compute_has_privacy_prompt lib is_file ws =
    (not (str_eq ws.privacy_prompt_path "") && is_file ws.privacy_prompt_path)
    || (not (str_eq ws.root_path "")
        && (is_file (lib.join_path (lib.join_path ws.root_path ".talkintent") "privacy-prompt.md")
            || is_file (lib.join_path ws.root_path "privacy-prompt.md")))

abbrev pub info_of : DaemonLibrary → (String → Bool) → WorkspaceConfig → WorkspaceInfo
info_of lib is_file ws = record {
  id = ws.id;
  name = ws.name;
  root_path = ws.root_path;
  has_privacy_prompt = compute_has_privacy_prompt lib is_file ws;
}

abbrev pub hello_of : DaemonLibrary → Settings → (String → Bool) → DaemonHello
hello_of lib cfg is_file = record {
  machine_name = cfg.machine_name;
  max_concurrency = pos (max_concurrency cfg);
  workspaces = map (info_of lib is_file) cfg.client.workspaces;
}

abbrev pub default_heartbeat_interval_sec : ℕ
default_heartbeat_interval_sec = 20

unfoldable pub serve : DaemonLibrary → Settings → ℕ → (String → Bool) → Daemon → Daemon
serve lib cfg now is_file d = write_if true (daemon_hello (hello_of lib cfg is_file)) (record d {
  is_serving = true;
  is_closing = false;
  draining = false;
  interval = or_default default_heartbeat_interval_sec cfg.client.heartbeat_interval_sec * second;
  last_pong = now;
  awaiting_pong = false;
})

abbrev pub only_if : Bool → Daemon → Option Daemon
only_if true d = some d
only_if false d = none

abbrev pub on_task : (Task → List Task → Option Daemon) → Option (Task × List Task) → Option Daemon
on_task act none = none
on_task act (some (t, rest)) = act t rest

module _ (lib : DaemonLibrary) (cfg : Settings) (agent : ℕ → Agent) where
  -- What happens in the goroutine of the task.
  unfoldable pub task_step : Event → Daemon → Task → List Task → Option Daemon
  task_step (registers id) d t rest = only_if (is_spawned t.phase) (register t rest d)
  task_step (starts id) d t rest =
      only_if (is_waiting t.phase && ltb d.slots (max_concurrency cfg)) (start t rest d)
  task_step (leaves id) d t rest =
      only_if (is_waiting t.phase && (t.is_cancelled || d.is_stopping)) (move_to released t rest d)
  task_step (times_out id wrote) d t rest = only_if (is_waiting t.phase && not t.is_cancelled) (
      move_to released t rest (
        write_if wrote
          (query_response
            (failure t.request status_timeout "query timed out waiting in daemon queue"))
          d))
  task_step (counts id) d t rest = only_if (is_holding t.phase) (count_in t rest d)
  task_step (finishes id expired wrote) d t rest = only_if (is_running t.phase) (
      move_to answered t rest
        (write_if wrote (query_response (dispatch_query lib cfg (agent t.id) expired t.request)) d))
  task_step (uncounts id) d t rest = only_if (is_answered t.phase) (count_out t rest d)
  task_step (releases id) d t rest = only_if (is_uncounted t.phase) (give_back t rest d)
  task_step (ends id) d t rest = only_if (is_released t.phase) (end_task t rest d)
  task_step e d t rest = none

  unfoldable pub step : Event → Daemon → Option Daemon
  step stops d = some (record d { is_stopping = true })
  step sees_stop d =
      only_if (d.is_serving && (d.is_stopping && not d.is_closing))
        (record d { is_closing = true; draining = true })
  step drains d =
      only_if (d.is_serving && (d.is_closing && length d.tasks == 0)) (leave_loop stopped_drained d)
  step grace_ends d = only_if (d.is_serving && d.is_closing) (leave_loop stopped_late d)
  step read_fails d = only_if d.is_serving (leave_loop read_failed d)
  step (watches now) d = only_if d.is_serving (watch now d)
  step (pings now wrote) d = only_if d.is_serving (ping now wrote d)
  step (receives now m) d = only_if d.is_serving (receive now m d)
  step (connects now is_file) d =
      only_if (not d.is_serving && not d.is_stopping) (serve lib cfg now is_file d)
  step (registers id) d = on_task (task_step (registers id) d) (take_task id d.tasks)
  step (starts id) d = on_task (task_step (starts id) d) (take_task id d.tasks)
  step (counts id) d = on_task (task_step (counts id) d) (take_task id d.tasks)
  step (uncounts id) d = on_task (task_step (uncounts id) d) (take_task id d.tasks)
  step (releases id) d = on_task (task_step (releases id) d) (take_task id d.tasks)
  step (ends id) d = on_task (task_step (ends id) d) (take_task id d.tasks)
  step (leaves id) d = on_task (task_step (leaves id) d) (take_task id d.tasks)
  step (times_out id wrote) d = on_task (task_step (times_out id wrote) d) (take_task id d.tasks)
  step (finishes id expired wrote) d =
      on_task (task_step (finishes id expired wrote) d) (take_task id d.tasks)

  unfoldable pub follow : List Event → Daemon → Option Daemon
  follow [] d = some d
  follow (e ∷ es) d = elim (step e d) [ none ↦ none | some d' ↦ follow es d' ]

-- `NewClientDaemon`
abbrev pub new_client_daemon : Daemon
new_client_daemon = record {
  is_stopping = false;
  is_closing = false;
  draining = false;
  tasks = [];
  next = 0;
  slots = 0;
  active_probe_count = 0;
  active_queries = [];
  session_id = "";
  interval = 0;
  last_pong = 0;
  awaiting_pong = false;
  ping_sent_at = 0;
  is_serving = false;
  exits = [];
  sent = [];
}
