-- ===== src/Probe/Chat.antt =====
-- The conversation of a run (internal/probe/probe.go, llm/llm.go): one turn of the model, and the
-- loop of turns. The model, the tools and the deadline are the record `World`; `expired` is asked
-- before each turn.
use talkintent.Common.{
  ℕ, zero, suc, ◌+◌, String, Bool, true, Option, none, some, List, [], ◌∷◌, ◌++◌, str_eq,
  if◌then◌else◌,
}
use talkintent.Common.Int.{ℤ, ◌+ℤ◌}
use talkintent.Common.Names.{has}
use talkintent.Common.Effect.{Result, ok, err}
use talkintent.Store.Records.{TokenUsage}
use talkintent.Probe.Text.{TextLibrary, max_tool_output_bytes, redact, truncate_output}

pub record ToolCall : Type 0 where
  pub id : String
  pub name : String
  pub arguments : String

pub record ChatMessage : Type 0 where
  pub role : String
  pub content : String
  pub tool_call_id : String
  pub tool_calls : List ToolCall

pub record ChatResponse : Type 0 where
  pub content : String
  pub tool_calls : List ToolCall
  pub usage : TokenUsage

-- An error of the run: its text, and whether it is, or comes with, a deadline that is over.
pub record Failure : Type 0 where
  pub text : String
  pub is_deadline : Bool

-- The provider is asked with the number of calls before, the messages, and whether tools are
-- offered; a tool of the registry with the root and the arguments.
pub record World : Type 0 where
  pub text : TextLibrary
  pub equal_fold : String → String → Bool
  pub chat : ℕ → List ChatMessage → Bool → Result Failure ChatResponse
  pub tool : String → Option (String → String → Result String String)
  pub expired : ℕ → Option Failure
  pub duration_ms : ℤ

-- The conversation: the messages, the keys of `toolsUsedMap`, the usage, and the calls so far.
pub record Chat : Type 0 where
  pub messages : List ChatMessage
  pub tools_used : List String
  pub usage : TokenUsage
  pub calls : ℕ

-- How the loop ends.
pub data Ended : Type 0 where
  refused : String → Chat → Ended
  failed : Failure → Chat → Ended
  answered : String → Chat → Ended
  exhausted : Chat → Ended

pub data Turn : Type 0 where
  ended : Ended → Turn
  goes_on : Chat → Turn

abbrev pub default_refusal : String
default_refusal = "Query touched areas restricted by the member's natural-language privacy rules."

abbrev pub or_else : String → String → String
or_else d t = if str_eq t "" then d else t

abbrev pub reason_of : World → String → ToolCall → String
reason_of w content t =
    let given = if str_eq t.arguments "" then "" else w.text.reason_in t.arguments in
    or_else default_refusal (or_else (w.text.trim_space content) (w.text.trim_space given))

abbrev pub first_refusal : World → String → List ToolCall → Option String
first_refusal w content [] = none
first_refusal w content (t ∷ ts) =
    if str_eq t.name "refuse" then some (reason_of w content t) else first_refusal w content ts

abbrev pub add_usage : TokenUsage → TokenUsage → TokenUsage
add_usage a b = record {
  prompt_tokens = a.prompt_tokens +ℤ b.prompt_tokens;
  completion_tokens = a.completion_tokens +ℤ b.completion_tokens;
  total_tokens = a.total_tokens +ℤ b.total_tokens;
}

abbrev pub executed :
    World → Option (String → String → Result String String) → String → ToolCall → String
executed w none root t = w.text.join "Error: unknown tool " (w.text.quoted t.name)
executed w (some f) root t = elim (f root t.arguments) [
  | ok out ↦ out
  | err e ↦ w.text.join "Tool error: " e
]

abbrev pub tool_output : World → String → ToolCall → String
tool_output w root t =
    redact w.text (truncate_output w.text (executed w (w.tool t.name) root t) max_tool_output_bytes)

abbrev pub add_name : String → List String → List String
add_name n names = if has n names then names else names ++ n ∷ []

abbrev pub use_tool : World → String → ToolCall → Chat → Chat
use_tool w root t c = record c {
  messages =
      c.messages
      ++ record {
        role = "tool";
        content = tool_output w root t;
        tool_call_id = t.id;
        tool_calls = [];
      }
        ∷ [];
  tools_used = add_name t.name c.tools_used;
}

abbrev pub use_tools : World → String → List ToolCall → Chat → Chat
use_tools w root [] c = c
use_tools w root (t ∷ ts) c = use_tools w root ts (use_tool w root t c)

abbrev pub say : ChatResponse → Chat → Chat
say r c = record c {
  messages =
      c.messages
      ++ record {
        role = "assistant";
        content = r.content;
        tool_call_id = "";
        tool_calls = r.tool_calls;
      }
        ∷ [];
}

abbrev pub act : World → String → ChatResponse → List ToolCall → Chat → Turn
act w root r [] c = ended (answered r.content c)
act w root r (t ∷ ts) c = goes_on (use_tools w root (t ∷ ts) (say r c))

abbrev pub judge : World → String → ChatResponse → Chat → Option String → Turn
judge w root r c (some reason) = ended (refused reason c)
judge w root r c none = act w root r r.tool_calls c

abbrev pub count_call : Chat → Chat
count_call c = record c { calls = c.calls + 1 }

abbrev pub with_usage : ChatResponse → Chat → Chat
with_usage r c = record c { usage = add_usage c.usage r.usage }

abbrev pub hear : World → String → Chat → Result Failure ChatResponse → Turn
hear w root c (err e) = ended (failed e c)
hear w root c (ok r) = judge w root r (with_usage r c) (first_refusal w r.content r.tool_calls)

abbrev pub turn_at : World → String → Chat → Option Failure → Turn
turn_at w root c (some e) = ended (failed e c)
turn_at w root c none = hear w root (count_call c) (w.chat c.calls c.messages true)

-- One round of the loop.
unfoldable pub turn : World → String → Chat → Turn
turn w root c = turn_at w root c (w.expired c.calls)

-- The loop, with the steps that are left.
unfoldable pub turns : World → String → ℕ → Chat → Ended
turns w root zero c = exhausted c
turns w root (suc n) c = elim (turn w root c) [ ended e ↦ e | goes_on d ↦ turns w root n d ]
