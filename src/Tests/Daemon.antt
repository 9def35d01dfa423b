-- ===== src/Tests/Daemon.antt =====
-- A daemon with one workspace that is sent a query, and the waits between its connections.
use talkintent.Common.{
  ℕ, ◌+◌, ◌*◌, ◌≤◌, true, false, ◌≡◌, refl, Option, none, some, List, [], ◌∷◌, str_eq, arith,
  get_elem?, length,
}
use talkintent.Common.Int.{pos}
use talkintent.Common.GoMap
use talkintent.Common.Effect.{err}
use talkintent.Store.Event.{or_keep}
use talkintent.Hub.Records.{QueryRequest, query_request, query_cancel}
use talkintent.Hub.Waiters.Notified.{outcome_in}
use talkintent.Hub.Frames.{handle_response}
use talkintent.Daemon.Dispatch.{
  DaemonLibrary, Settings, Agent, dispatch_query, resolve_workspace, prepare,
}
use talkintent.Daemon.Dispatch.Answer.{Names, probe_agent, dispatch_completes}
use talkintent.Daemon.State.{
  counts, uncounts, releases, ends, released, Task, waiting, Daemon, Event, receives, registers,
  starts, finishes, connects, take_task,
}
use talkintent.Daemon.Serve.{
  follow, step, task_step, receive, serve, try_acquire_probe, new_client_daemon,
}
use talkintent.Daemon.Serve.Totals.{total}
use talkintent.Daemon.Serve.Slots.{occupies, runs, slots_limited}
use talkintent.Daemon.Serve.Shutdown.{left, CanWork, stop_ends}
use talkintent.Daemon.Serve.Answers.{answers, asks, answers-le-requests}
use talkintent.Daemon.Serve.Cancels.{cancel_ignored}
use talkintent.Daemon.Retry.{Round, goes_on, millisecond, start}
use talkintent.Daemon.Retry.Growth.{wait-doubles}
use talkintent.Tests.Fixtures.{query}
use talkintent.Tests.HubFixtures.{hub, hub-IsHealthy}
use talkintent.Tests.Probe.{text, world, workspace}

abbrev library : DaemonLibrary
library = record { text = text; clean = λ p. p; join_path = λ a b. b; equal_fold = str_eq }

abbrev settings : Settings
settings = record {
  client = record {
    hub_url = "http://hub";
    hub_ca_file = "";
    member_id = "mem_bob";
    token = "token";
    max_concurrency = pos 1;
    heartbeat_interval_sec = pos 20;
    probe_timeout_seconds = pos 60;
    workspaces = workspace "src" "/src" ∷ [];
    llm = record {
      provider = "openai";
      base_url = "";
      max_tokens = pos 0;
      temperature_is_out = false;
      ca_file = "";
    };
  };
  machine_name = "pc";
  daemon_max_concurrency = pos 0;
  no_provider = none;
  max_steps = pos 4;
}

abbrev request : QueryRequest
request = record {
  query_id = "q1";
  asker_id = "mem_ann";
  asker_name = "Ann";
  asker_type = "member";
  query = "where is the parser?";
  target_workspace = "";
  timeout_seconds = 30;
  created_at = 5;
}

dispatch_completes_example :
    let s = dispatch_query library settings (probe_agent world) false request in
    let g = handle_response 9 "mem_bob" s hub in
    (outcome_in "q1" g ≡ some (s.status, or_keep s.answer ""))
    × (GoMap.lookup "q1" g.waiters ≡ none)
dispatch_completes_example =
    dispatch_completes library settings world false request 9 "mem_bob" hub
      (query "q1" "queued" 500) hub-IsHealthy refl refl

abbrev silent : ℕ → Agent
silent n r = err (record { text = "no model"; is_deadline = false })

silent-Names : (n : ℕ) → Names (silent n)
silent-Names n r s e = cc

-- The query runs.
abbrev events : List Event
events =
    connects 5 (λ p. false)
    ∷ receives 6 (query_request request)
    ∷ registers 0
    ∷ starts 0
    ∷ counts 0
    ∷ []

abbrev or_new : Option Daemon → Daemon
or_new none = new_client_daemon
or_new (some d) = d

busy : Daemon
unfolding follow step task_step receive serve try_acquire_probe
busy = or_new (follow library settings silent events new_client_daemon)

busy_reached : follow library settings silent events new_client_daemon ≡ some busy
unfolding busy
busy_reached = refl

slots_limited_example :
    (total occupies busy.tasks ≡ busy.slots)
    × (total runs busy.tasks ≡ busy.active_probe_count)
    × (busy.active_probe_count ≤ busy.slots)
    × (busy.slots ≤ 1)
slots_limited_example = slots_limited library settings silent events busy busy_reached

answers-le-requests_example : answers "q1" busy.sent + total (asks "q1") busy.tasks ≤ 1
answers-le-requests_example =
    answers-le-requests library settings silent events busy "q1" silent-Names busy_reached

stopping : Daemon
unfolding busy
stopping = record busy { is_stopping = true }

freed : Daemon
unfolding follow step task_step
freed = or_new (follow library settings silent (finishes 0 false true ∷ []) stopping)

freed_reached : follow library settings silent (finishes 0 false true ∷ []) stopping ≡ some freed
unfolding freed stopping dispatch_query resolve_workspace prepare
freed_reached = refl

is_stopping-stopping : stopping.is_stopping ≡ true
unfolding stopping
is_stopping-stopping = refl

stop_ends_example :
    (1 + left freed ≤ left stopping)
    × (left stopping ≤ 7 * length stopping.tasks)
    × CanWork library settings silent freed
stop_ends_example =
    stop_ends library settings silent (finishes 0 false true ∷ []) stopping freed
      is_stopping-stopping freed_reached

-- The same query is sent again while it runs, and the first goroutine comes to its last step.
abbrev again : List Event
again =
    connects 5 (λ p. false)
    ∷ receives 6 (query_request request)
    ∷ receives 7 (query_request request)
    ∷ registers 0
    ∷ starts 0
    ∷ counts 0
    ∷ registers 1
    ∷ finishes 0 false true
    ∷ uncounts 0
    ∷ releases 0
    ∷ []

doubled : Daemon
unfolding follow step task_step receive serve try_acquire_probe
doubled = or_new (follow library settings silent again new_client_daemon)

abbrev first : Task
first = record { id = 0; request = request; phase = released; is_cancelled = false }

abbrev second : Task
second = record { id = 1; request = request; phase = waiting; is_cancelled = false }

after_first : Daemon
unfolding follow step task_step
after_first = or_new (step library settings silent (ends 0) doubled)

took_first : take_task 0 doubled.tasks ≡ some (first, second ∷ [])
unfolding doubled
took_first = refl

first_ends : step library settings silent (ends 0) doubled ≡ some after_first
unfolding after_first doubled
first_ends = refl

cancel_ignored_example : receive 9 (query_cancel "q1" "asker left") after_first ≡ after_first
cancel_ignored_example =
    cancel_ignored library settings silent doubled after_first 0 9 first (second ∷ []) "asker left"
      took_first first_ends

abbrev short : Round
short = record { lasted = 5 * millisecond; draw = 900; stop = goes_on }

wait-doubles_example :
    (wait : ℕ) × (get_elem?
        (start
          (1000 * millisecond)
          (30000 * millisecond)
          (1000 * millisecond)
          (short ∷ short ∷ short ∷ [])).0
        2
      ≡ some wait)
    × (10 * millisecond ≤ wait)
    × (4 * 4000 * millisecond ≤ 5 * wait)
    × (5 * wait ≤ 6 * 4000 * millisecond)
wait-doubles_example =
    wait-doubles (1000 * millisecond) (30000 * millisecond) (short ∷ short ∷ short ∷ []) 2 short
      (omega arith) ((omega arith, refl), ((omega arith, refl), ((omega arith, refl), tt))) refl
      (omega arith)
