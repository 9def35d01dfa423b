-- ===== src/Daemon/Dispatch.antt =====
-- `dispatchQuery` and `resolveWorkspace` (internal/daemon/daemon.go), and what the daemon reads of its
-- configuration. The agent is an argument: the interface probe.Agent, which Probe.Run implements.
pub mod Answer
use talkintent.Common.{
  ℕ, String, Bool, true, false, ◌&&◌, ◌||◌, not, Option, none, some, List, [], ◌∷◌, ltb, str_eq,
  if◌then◌else◌,
}
use talkintent.Common.Int.{ℤ, pos, is_positive}
use talkintent.Common.Effect.{Result, ok, err}
use talkintent.Store.Records.{no_usage, status_completed, status_error, status_timeout}
use talkintent.Hub.Records.{QueryRequest, QueryResponse, or_default}
use talkintent.Config.Workspaces.{WorkspaceConfig}
use talkintent.Config.Validation.{ClientConfig}
use talkintent.Probe.Text.{TextLibrary, redact, truncate_answer}
use talkintent.Probe.Run.{RunRequest}

-- filepath.Clean, filepath.Join, strings.EqualFold, and what the answers are cut and redacted with.
pub record DaemonLibrary : Type 0 where
  pub text : TextLibrary
  pub clean : String → String
  pub join_path : String → String → String
  pub equal_fold : String → String → Bool

-- `config.ClientConfig`, with the fields that its check does not read.
pub record Settings : Type 0 where
  pub client : ClientConfig
  pub machine_name : String
  pub daemon_max_concurrency : ℤ
  -- of the model: why it has no provider, and the steps of a run
  pub no_provider : Option String
  pub max_steps : ℤ

-- An error of the agent, and whether it is context.DeadlineExceeded.
pub record AgentError : Type 0 where
  pub text : String
  pub is_deadline : Bool

abbrev pub has_root : DaemonLibrary → String → WorkspaceConfig → Bool
has_root lib target ws =
    not (str_eq ws.root_path "")
    && (str_eq ws.root_path target || str_eq (lib.clean ws.root_path) (lib.clean target))

abbrev pub is_workspace : DaemonLibrary → String → WorkspaceConfig → Bool
is_workspace lib target ws =
    str_eq ws.id target || (lib.equal_fold ws.name target || has_root lib target ws)

abbrev pub first_workspace :
    (WorkspaceConfig → Bool) → List WorkspaceConfig → Option WorkspaceConfig
first_workspace test [] = none
first_workspace test (ws ∷ rest) = if test ws then some ws else first_workspace test rest

unfoldable pub resolve_workspace :
    DaemonLibrary → String → List WorkspaceConfig → Option WorkspaceConfig
resolve_workspace lib target [] = none
resolve_workspace lib target (ws ∷ rest) =
    if str_eq target "" then some ws else first_workspace (is_workspace lib target) (ws ∷ rest)

abbrev pub default_timeout_sec : ℕ
default_timeout_sec = 60

abbrev pub timeout_of : Settings → QueryRequest → ℕ
timeout_of cfg req =
    if ltb 0 req.timeout_seconds
    then req.timeout_seconds
    else or_default default_timeout_sec cfg.client.probe_timeout_seconds

abbrev pub run_request : Settings → QueryRequest → WorkspaceConfig → RunRequest
run_request cfg req ws = record {
  query_id = req.query_id;
  query = req.query;
  workspace = ws;
  workspaces = cfg.client.workspaces;
  no_provider = cfg.no_provider;
  max_steps = cfg.max_steps;
}

-- An answer that is an error.
abbrev pub failure : QueryRequest → String → String → QueryResponse
failure req status text = record {
  query_id = req.query_id;
  status = status;
  answer = "";
  tools_used = none;
  duration_ms = pos 0;
  token_usage = no_usage;
  error_message = text;
}

-- `if t != "" { t = f(t) }`
abbrev pub if_any : (String → String) → String → String
if_any f t = if str_eq t "" then t else f t

abbrev pub shown_status : String → String
shown_status status =
    if str_eq status "" || str_eq status "success" then status_completed else status

-- The answer of the agent, or its error; `expired` is ctx.Err() being DeadlineExceeded.
unfoldable pub prepare :
    DaemonLibrary → QueryRequest → Bool → Result AgentError QueryResponse → QueryResponse
prepare lib req expired (err e) =
    failure req (if e.is_deadline || expired then status_timeout else status_error)
      (redact lib.text e.text)
prepare lib req expired (ok res) = record res {
  answer = if_any (λ t. truncate_answer lib.text (redact lib.text t)) res.answer;
  error_message = if_any (redact lib.text) res.error_message;
  status = shown_status res.status;
}

abbrev pub Agent : Type 0
Agent = RunRequest → Result AgentError QueryResponse

abbrev pub run_agent :
    DaemonLibrary → Settings → Agent → Bool → QueryRequest → Option WorkspaceConfig → QueryResponse
run_agent lib cfg agent expired req none = failure req status_error (
    lib.text.join "target workspace "
      (lib.text.join (lib.text.quoted req.target_workspace) " not found on daemon"))
run_agent lib cfg agent expired req (some ws) =
    if str_eq ws.root_path ""
    then failure req status_error "selected workspace has empty root path"
    else prepare lib req expired (agent (run_request cfg req ws))

abbrev pub is_nil : List WorkspaceConfig → Bool
is_nil [] = true
is_nil (ws ∷ rest) = false

-- The response that is written.
unfoldable pub dispatch_query :
    DaemonLibrary → Settings → Agent → Bool → QueryRequest → QueryResponse
dispatch_query lib cfg agent expired req =
    if is_nil cfg.client.workspaces
    then failure req status_error "no workspaces configured on daemon"
    else run_agent lib cfg agent expired req
        (resolve_workspace lib req.target_workspace cfg.client.workspaces)
