-- ===== src/Tests/Probe.antt =====
-- A run of the agent against a model that looks once, the paths of a small tree, and a list of two
-- workspaces.
use Prim.Native.String.{◌++◌ as text_append, len as text_length}
use talkintent.Common.{
  ◌+◌, ◌≤◌, ◌==◌, String, true, false, none, some, [], ◌∷◌, All, str_eq, if◌then◌else◌,
}
use talkintent.Common.Int.{pos}
use talkintent.Common.Effect.{ok}
use talkintent.Store.Records.{no_usage}
use talkintent.Probe.Text.{TextLibrary}
use talkintent.Probe.Chat.{World}
use talkintent.Probe.Run.{RunRequest, steps_of, run}
use talkintent.Probe.Run.Turns.{IsShielded, run-calls, run-AllShielded}
use talkintent.Probe.Sandbox.{Paths}
use talkintent.Config.Workspaces.{WorkspaceConfig}

abbrev pub text : TextLibrary
text = record {
  trim_space = λ t. t;
  to_upper = λ t. t;
  has_prefix = λ t p. false;
  join = text_append;
  byte_length = text_length;
  first_bytes = λ n t. "";
  after_bytes = λ n t. t;
  quoted = λ t. t;
  replace_all = λ p t r. t;
  sort_strings = λ l. l;
  reason_in = λ t. t;
}

abbrev pub world : World
world = record {
  text = text;
  equal_fold = str_eq;
  chat = λ n messages tools.
      if n == 0
      then ok (record {
        content = "";
        tool_calls = record { id = "t1"; name = "read_file"; arguments = "{}" } ∷ [];
        usage = no_usage;
      })
      else ok (record { content = "in Parser.go"; tool_calls = []; usage = no_usage });
  tool = λ name.
      if str_eq name "read_file" then some (λ root arguments. ok "package parser") else none;
  expired = λ n. none;
  duration_ms = pos 3;
}

abbrev pub workspace : String → String → WorkspaceConfig
workspace id root = record { id = id; name = id; root_path = root; privacy_prompt_path = "" }

abbrev request : RunRequest
request = record {
  query_id = "q1";
  query = "where is the parser?";
  workspace = workspace "src" "/src";
  workspaces = [];
  no_provider = none;
  max_steps = pos 4;
}

run-calls_example : (run world request).1.calls ≤ steps_of request + 1
run-calls_example = run-calls world request

run-AllShielded_example : All (IsShielded world) (run world request).1.messages
run-AllShielded_example = run-AllShielded world request

-- One file, which is there.
abbrev pub paths : Paths
paths = record {
  clean = λ p. p;
  dir = λ p. if str_eq p "/src/a.go" then "/src" else "/";
  base = λ p. "a.go";
  join = text_append;
  to_slash = λ p. p;
  volume_name = λ p. "";
  is_abs = λ p. true;
  abs = some;
  rel = λ r t. some "a.go";
  matches = λ p t. false;
  is_there = λ p. true;
  eval_symlinks = some;
  separator = "/";
  to_lower = λ t. t;
  to_upper = λ t. t;
  has_prefix = λ t p. false;
  has_suffix = λ t s. false;
  contains = λ t s. false;
  trim_prefix = λ t p. t;
  trim_suffix = λ t s. t;
  append = text_append;
  after = λ p t. t;
}
