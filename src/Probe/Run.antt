-- ===== src/Probe/Run.antt =====
-- `Run` of internal/probe/probe.go: the choice of the workspace, and what comes of the loop of turns.
pub mod Turns
pub mod Answer
pub mod Completion
use talkintent.Common.{
  ℕ, zero, suc, ◌+◌, String, Bool, true, false, ◌&&◌, ◌||◌, not, Option, none, some, List, [], ◌∷◌,
  ◌++◌, str_eq, if◌then◌else◌,
}
use talkintent.Common.Int.{ℤ, pos, ◌+ℤ◌}
use talkintent.Common.Names.{has}
use talkintent.Common.Effect.{Result, ok, err}
use talkintent.Store.Records.{
  TokenUsage, no_usage, status_completed, status_refused, status_error, status_timeout,
}
use talkintent.Hub.Records.{QueryResponse, or_default}
use talkintent.Config.Workspaces.{WorkspaceConfig}
use talkintent.Probe.Text.{
  TextLibrary, max_tool_output_bytes, redact, truncate_answer, truncate_output,
}
use talkintent.Probe.Chat.{
  ChatMessage, ChatResponse, Failure, World, Chat, Ended, default_refusal, or_else, count_call,
  with_usage, turns, refused, failed, answered, exhausted,
}

pub record RunRequest : Type 0 where
  pub query_id : String
  pub query : String
  pub workspace : WorkspaceConfig
  pub workspaces : List WorkspaceConfig
  -- an error of the provider's making
  pub no_provider : Option String
  pub max_steps : ℤ

abbrev pub is_wanted : World → WorkspaceConfig → WorkspaceConfig → Bool
is_wanted w ws cand =
    (not (str_eq ws.id "") && str_eq cand.id ws.id)
    || (not (str_eq ws.name "") && w.equal_fold cand.name ws.name)

abbrev pub wanted_of : World → WorkspaceConfig → List WorkspaceConfig → WorkspaceConfig
wanted_of w ws [] = ws
wanted_of w ws (c ∷ cs) = if is_wanted w ws c then c else wanted_of w ws cs

abbrev pub or_first : WorkspaceConfig → WorkspaceConfig → WorkspaceConfig
or_first first ws = if str_eq ws.root_path "" then first else ws

abbrev pub resolve_in : World → WorkspaceConfig → List WorkspaceConfig → WorkspaceConfig
resolve_in w ws [] = ws
resolve_in w ws (c ∷ cs) = or_first c (wanted_of w ws (c ∷ cs))

unfoldable pub resolve_workspace : World → RunRequest → WorkspaceConfig
resolve_workspace w r =
    if str_eq r.workspace.root_path "" then resolve_in w r.workspace r.workspaces else r.workspace

abbrev pub respond : World → RunRequest → Chat → String → String → String → QueryResponse × Chat
respond w r c status answer error = (
  record {
    query_id = r.query_id;
    status = status;
    answer = answer;
    tools_used = some (w.text.sort_strings c.tools_used);
    duration_ms = w.duration_ms;
    token_usage = c.usage;
    error_message = error;
  },
  c,
)

abbrev pub refuse : World → RunRequest → String → Chat → QueryResponse × Chat
refuse w r reason c =
    respond w r c status_refused (truncate_answer w.text (redact w.text reason)) ""

abbrev pub has_refusal : World → String → Bool
has_refusal w trimmed = w.text.has_prefix (w.text.to_upper trimmed) "REFUSED:"

-- The answer, or a refusal that it starts with.
unfoldable pub conclude : World → RunRequest → String → Chat → QueryResponse × Chat
conclude w r answer c =
    let trimmed = w.text.trim_space answer in
    if has_refusal w trimmed
    then refuse w r (or_else default_refusal (w.text.trim_space (w.text.after_bytes 8 trimmed))) c
    else respond w r c status_completed (truncate_answer w.text (redact w.text answer)) ""

-- The last words of the assistant, or `said`.
abbrev pub last_said : String → List ChatMessage → String
last_said said [] = said
last_said said (m ∷ ms) =
    last_said (if str_eq m.role "assistant" && not (str_eq m.content "") then m.content else said)
      ms

abbrev pub limit_message : ChatMessage
limit_message = record {
  role = "user";
  content =
      "Step limit reached. Please synthesize your final answer now based on the workspace observations collected so far.";
  tool_call_id = "";
  tool_calls = [];
}

abbrev pub fall_back : World → RunRequest → Chat → QueryResponse × Chat
fall_back w r c =
    conclude w r
      (last_said "Probe completed workspace inspection but reached step limit." c.messages) c

abbrev pub summarized :
    World → RunRequest → Chat → Result Failure ChatResponse → QueryResponse × Chat
summarized w r c (err e) = fall_back w r c
summarized w r c (ok s) =
    if str_eq s.content "" then fall_back w r c else conclude w r s.content (with_usage s c)

-- Without an answer the model is asked once more, without tools.
unfoldable pub summarize : World → RunRequest → Chat → QueryResponse × Chat
summarize w r c =
    summarized w r (count_call c) (w.chat c.calls (c.messages ++ limit_message ∷ []) false)

abbrev pub fail_run : World → RunRequest → Failure → Chat → QueryResponse × Chat
fail_run w r e c =
    respond w r c (if e.is_deadline then status_timeout else status_error) "" (redact w.text e.text)

abbrev pub close_run : World → RunRequest → Ended → QueryResponse × Chat
close_run w r (refused reason c) = refuse w r reason c
close_run w r (failed e c) = fail_run w r e c
close_run w r (answered a c) = if str_eq a "" then summarize w r c else conclude w r a c
close_run w r (exhausted c) = summarize w r c

abbrev pub opening : RunRequest → Chat
opening r = record {
  messages = record { role = "user"; content = r.query; tool_call_id = ""; tool_calls = [] } ∷ [];
  tools_used = [];
  usage = no_usage;
  calls = 0;
}

-- The runs that end before the loop.
abbrev pub reject : World → RunRequest → String → QueryResponse × Chat
reject w r text = (
  record {
    query_id = r.query_id;
    status = status_error;
    answer = "";
    tools_used = none;
    duration_ms = w.duration_ms;
    token_usage = no_usage;
    error_message = redact w.text text;
  },
  opening r,
)

abbrev pub default_max_steps : ℕ
default_max_steps = 10

abbrev pub steps_of : RunRequest → ℕ
steps_of r = or_default default_max_steps r.max_steps

abbrev pub run_in : World → RunRequest → String → Option String → QueryResponse × Chat
run_in w r root (some e) = reject w r (w.text.join "failed to initialize LLM provider: " e)
run_in w r root none = close_run w r (turns w root (steps_of r) (opening r))

unfoldable pub run : World → RunRequest → QueryResponse × Chat
run w r =
    let root = (resolve_workspace w r).root_path in
    if str_eq root ""
    then reject w r "selected workspace has empty root path"
    else run_in w r root r.no_provider
