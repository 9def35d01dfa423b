-- ===== src/Daemon/Dispatch/Answer.antt =====
-- internal/daemon/daemon.go, internal/probe/probe.go and internal/hub/hub.go: the response to
-- a query, and what the hub makes of it.
use mathlib.Core.Path.{subst}
use talkintent.Common.{
  ℕ, String, Bool, true, false, ◌||◌, ◌≡◌, refl, ap, ◌∙◌, Option, none, some, str_eq, Bool-cases,
  inl, inr, if◌then◌else◌,
}
use talkintent.Common.GoMap
use talkintent.Common.Effect.{Result, ok, err}
use talkintent.Store.Records.{QueryDetail, is_terminal, status_error}
use talkintent.Store.Event.{or_keep}
use talkintent.Store.Durable.Commit.{IsHealthy}
use talkintent.Config.Workspaces.{WorkspaceConfig}
use talkintent.Hub.Records.{QueryRequest, QueryResponse}
use talkintent.Hub.State.{Hub}
use talkintent.Hub.Waiters.Notified.{outcome_in}
use talkintent.Hub.Frames.{handle_response, response_status}
use talkintent.Hub.Frames.Response.{response_completes}
use talkintent.Probe.Chat.{World}
use talkintent.Probe.Run.{RunRequest, run}
use talkintent.Probe.Run.Answer.{run-IsFinal}
use talkintent.Daemon.Dispatch.{
  DaemonLibrary, Settings, AgentError, Agent, is_nil, shown_status, failure, prepare, run_request,
  run_agent, dispatch_query, resolve_workspace,
}

-- An answer to the request with a status in which a query ends.
record IsAnswer (req : QueryRequest) (s : QueryResponse) : Type 0 where
  named : s.query_id ≡ req.query_id
  terminal : is_terminal s.status ≡ true
  same : response_status s.status ≡ s.status

if-IsAnswer :
    (req : QueryRequest) (b : Bool) (x y : QueryResponse)
    → IsAnswer req x
    → IsAnswer req y
    → IsAnswer req (if b then x else y)
if-IsAnswer req true x y k l = k
if-IsAnswer req false x y k l = l

error-IsAnswer : (req : QueryRequest) (t : String) → IsAnswer req (failure req status_error t)
error-IsAnswer req t = record { named = refl; terminal = refl; same = refl }

-- The agent names its request, and ends with such a status, or none, or "success".
Honest : Agent → Type 0
Honest agent =
    (r : RunRequest) (s : QueryResponse)
    → agent r ≡ ok s
    → (s.query_id ≡ r.query_id)
      × (is_terminal (shown_status s.status) ≡ true)
      × (response_status (shown_status s.status) ≡ shown_status s.status)

module _ (lib : DaemonLibrary) (cfg : Settings) (agent : Agent) (honest : Honest agent)
    (expired : Bool) (req : QueryRequest) where
  prepare-IsAnswer :
      (ws : WorkspaceConfig) (o : Result AgentError QueryResponse)
      → agent (run_request cfg req ws) ≡ o
      → IsAnswer req (prepare lib req expired o)
  unfolding prepare Honest
  prepare-IsAnswer ws (ok s) e =
      let h = honest (run_request cfg req ws) s e in
      record { named = h.0; terminal = h.1; same = h.2 }
  prepare-IsAnswer ws (err e) h = elim (Bool-cases (e.is_deadline || expired)) [
    | inl y ↦ record { named = refl; terminal = rw y refl; same = rw y refl }
    | inr n0 ↦ record { named = refl; terminal = rw n0 refl; same = rw n0 refl }
  ]

  agent-IsAnswer :
      (o : Option WorkspaceConfig) → IsAnswer req (run_agent lib cfg agent expired req o)
  agent-IsAnswer none = error-IsAnswer req _
  agent-IsAnswer (some ws) =
      if-IsAnswer req (str_eq ws.root_path "") _ _ (error-IsAnswer req _)
        (prepare-IsAnswer ws (agent (run_request cfg req ws)) refl)

  dispatch-IsAnswer : IsAnswer req (dispatch_query lib cfg agent expired req)
  unfolding dispatch_query
  dispatch-IsAnswer =
      if-IsAnswer req (is_nil cfg.client.workspaces) _ _ (error-IsAnswer req _)
        (agent-IsAnswer (resolve_workspace lib req.target_workspace cfg.client.workspaces))

-- The agent answers under the id of its request.
abbrev pub Names : Agent → Type 0
Names agent = (r : RunRequest) (s : QueryResponse) → agent r ≡ ok s → s.query_id ≡ r.query_id

module _ (lib : DaemonLibrary) (cfg : Settings) (agent : Agent) (names : Names agent)
    (expired : Bool) (req : QueryRequest) where
  prepare-query_id :
      (ws : WorkspaceConfig) (o : Result AgentError QueryResponse)
      → agent (run_request cfg req ws) ≡ o
      → (prepare lib req expired o).query_id ≡ req.query_id
  unfolding prepare
  prepare-query_id ws (ok s) e = names (run_request cfg req ws) s e
  prepare-query_id ws (err x) e = refl

  run_agent-query_id :
      (o : Option WorkspaceConfig) → (run_agent lib cfg agent expired req o).query_id ≡ req.query_id
  run_agent-query_id none = refl
  run_agent-query_id (some ws) = elim (Bool-cases (str_eq ws.root_path "")) [
    | inl y ↦ rw y refl
    | inr z ↦ rw z (prepare-query_id ws (agent (run_request cfg req ws)) refl)
  ]

  pub dispatch_query-query_id : (dispatch_query lib cfg agent expired req).query_id ≡ req.query_id
  unfolding dispatch_query
  dispatch_query-query_id = elim (Bool-cases (is_nil cfg.client.workspaces)) [
    | inl y ↦ rw y refl
    | inr z ↦
        rw z (run_agent-query_id (resolve_workspace lib req.target_workspace cfg.client.workspaces))
  ]

-- probe.Agent as internal/probe implements it.
abbrev pub probe_agent : World → Agent
probe_agent w r = ok (run w r).0

shown_lem :
    (status : String)
    → is_terminal status ≡ true
    → response_status status ≡ status
    → (is_terminal (shown_status status) ≡ true)
      × (response_status (shown_status status) ≡ shown_status status)
shown_lem status t e = elim (Bool-cases (str_eq status "" || str_eq status "success")) [
  | inl y ↦ rw y (refl, refl)
  | inr n0 ↦ rw n0 (t, e)
]

ok_injective :
    (a b : QueryResponse) → ◌≡◌ {A = Result AgentError QueryResponse} (ok a) (ok b) → a ≡ b
ok_injective a b h = cc

probe_agent-Honest : (w : World) → Honest (probe_agent w)
unfolding Honest
probe_agent-Honest w r s e =
    let f = run-IsFinal w r in
    subst
      (λ (x : QueryResponse).
        (x.query_id ≡ r.query_id)
        × (is_terminal (shown_status x.status) ≡ true)
        × (response_status (shown_status x.status) ≡ shown_status x.status))
      (ok_injective (run w r).0 s e)
      (let g = shown_lem (run w r).0.status f.terminal f.same in (f.named, g.0, g.1))

module _ (now : ℕ) (member : String) (h : Hub) (q : QueryDetail) (k : IsHealthy h.store)
    (target : str_eq q.target_member_id member ≡ true) where
  Completed : QueryResponse → String → Type 0
  Completed s id =
      (outcome_in id (handle_response now member s h) ≡ some (s.status, or_keep s.answer q.answer))
      × (GoMap.lookup id (handle_response now member s h).waiters ≡ none)

  completed :
      (req : QueryRequest) (s : QueryResponse)
      → IsAnswer req s
      → GoMap.lookup req.query_id h.store.index.queries ≡ some q
      → Completed s req.query_id
  unfolding Completed
  completed req s a e =
      subst (λ (id : String). GoMap.lookup id h.store.index.queries ≡ some q → Completed s id)
        a.named direct e
    where
      direct : GoMap.lookup s.query_id h.store.index.queries ≡ some q → Completed s s.query_id
      direct e0 =
          let c =
            response_completes now member s h q k e0 target (ap is_terminal a.same ∙ a.terminal) in
          (c.0 ∙ ap (λ t. some (t, or_keep s.answer q.answer)) a.same, c.1)

-- Whatever the workspaces of the daemon, the model and the tools are, the response to a query that a
-- daemon with the probe writes ends the query in the hub, when a session of the target delivers it
-- and no write fails: the query has the response's status and answer, and no one waits for it.
pub dispatch_completes :
    (lib : DaemonLibrary) (cfg : Settings) (w : World) (expired : Bool) (req : QueryRequest)
    (now : ℕ) (member : String) (h : Hub) (q : QueryDetail)
    → IsHealthy h.store
    → GoMap.lookup req.query_id h.store.index.queries ≡ some q
    → str_eq q.target_member_id member ≡ true
    → let s = dispatch_query lib cfg (probe_agent w) expired req in
      let g = handle_response now member s h in
      (outcome_in req.query_id g ≡ some (s.status, or_keep s.answer q.answer))
      × (GoMap.lookup req.query_id g.waiters ≡ none)
unfolding Completed
dispatch_completes lib cfg w expired req now member h q k e t =
    completed now member h q k t req (dispatch_query lib cfg (probe_agent w) expired req)
      (dispatch-IsAnswer lib cfg (probe_agent w) (probe_agent-Honest w) expired req) e
