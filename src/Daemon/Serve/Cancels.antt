-- ===== src/Daemon/Serve/Cancels.antt =====
-- internal/daemon/daemon.go: the registry of the queries that can be cancelled.
use mathlib.Core.Path.{subst}
use talkintent.Common.{ℕ, String, ◌≡◌, ap, ◌∙◌, none, some, List, arith, eq_iff}
use talkintent.Common.GoMap
use talkintent.Common.GoMap.{GoMap}
use talkintent.Hub.Records.{query_cancel}
use talkintent.Daemon.Dispatch.{DaemonLibrary, Settings, Agent}
use talkintent.Daemon.State.{Task, Daemon, ends, take_task, is_released}
use talkintent.Daemon.Serve.Histories.{Holds, only_if-Holds}
use talkintent.Daemon.Serve.{step, task_step, receive, cancel_found}

-- The query of the goroutine is not registered.
abbrev IsUnlisted : Task → Daemon → Type 0
IsUnlisted t u = GoMap.lookup t.request.query_id u.active_queries ≡ none

erased :
    (t : Task) (m : GoMap ℕ)
    → GoMap.lookup t.request.query_id (GoMap.erase t.request.query_id m) ≡ none
erased t m =
    GoMap.lookup-erase t.request.query_id t.request.query_id m
    ∙ ground (arith, eq_iff t.request.query_id t.request.query_id)

finished-IsUnlisted :
    (lib : DaemonLibrary) (cfg : Settings) (agent : ℕ → Agent) (d : Daemon) (id : ℕ) (t : Task)
    (rest : List Task)
    → take_task id d.tasks ≡ some (t, rest)
    → Holds (IsUnlisted t) (step lib cfg agent (ends id) d)
unfolding step task_step
finished-IsUnlisted lib cfg agent d id t rest e =
    rw e (only_if-Holds (IsUnlisted t) (is_released t.phase) _ (λ g. erased t _))

-- Once a goroutine that worked on a query has ended, a cancellation of the query changes nothing, also
-- while another goroutine works on the same query.
pub cancel_ignored :
    (lib : DaemonLibrary) (cfg : Settings) (agent : ℕ → Agent) (d d' : Daemon) (id now : ℕ)
    (t : Task) (rest : List Task) (reason : String)
    → take_task id d.tasks ≡ some (t, rest)
    → step lib cfg agent (ends id) d ≡ some d'
    → receive now (query_cancel t.request.query_id reason) d' ≡ d'
unfolding receive
cancel_ignored lib cfg agent d d' id now t rest reason e s =
    ap (λ o. cancel_found o d')
      (subst (Holds (IsUnlisted t)) s (finished-IsUnlisted lib cfg agent d id t rest e))
