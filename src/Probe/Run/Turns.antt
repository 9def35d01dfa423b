-- ===== src/Probe/Run/Turns.antt =====
-- internal/probe/probe.go: the loop of a run, the calls of the model and the messages that it is
-- sent.
use mathlib.Core.Path.{subst}
use talkintent.Common.{
  ℕ, zero, suc, ◌+◌, ◌≤◌, String, Bool, true, false, ◌≡◌, ◌⊎◌, inl, inr, refl, sym, Option, none,
  some, List, [], ◌∷◌, ◌++◌, All, str_eq, arith, if◌then◌else◌,
}
use talkintent.Common.Effect.{Result, ok, err}
use talkintent.Hub.Records.{QueryResponse}
use talkintent.Probe.Text.{redact, truncate_output, max_tool_output_bytes}
use talkintent.Probe.Chat.{
  World, ToolCall, ChatMessage, ChatResponse, Failure, Chat, Ended, refused, failed, answered,
  exhausted, Turn, ended, goes_on, first_refusal, use_tool, use_tools, say, act, judge, count_call,
  with_usage, hear, turn_at, turn, turns,
}
use talkintent.Probe.Run.{
  RunRequest, limit_message, summarize, summarized, conclude, has_refusal, close_run, run_in, run,
  opening, steps_of, resolve_workspace,
}

abbrev pub chat_of : Ended → Chat
chat_of (refused reason c) = c
chat_of (failed e c) = c
chat_of (answered a c) = c
chat_of (exhausted c) = c

abbrev pub after_turn : Turn → Chat
after_turn (ended e) = chat_of e
after_turn (goes_on c) = c

-- A message of a tool is redacted, after it was cut.
abbrev pub IsShielded : World → ChatMessage → Type 0
IsShielded w m =
    (str_eq m.role "tool" ≡ false)
    ⊎ ((raw : String) × (m.content
          ≡ redact w.text (truncate_output w.text raw max_tool_output_bytes)))

All-append :
    (w : World) (ms ns : List ChatMessage)
    → All (IsShielded w) ms
    → All (IsShielded w) ns
    → All (IsShielded w) (ms ++ ns)
All-append w [] ns a b = b
All-append w (m ∷ ms) ns a b = (a.0, All-append w ms ns a.1 b)

module _ (w : World) (root : String) where
  calls-use_tools : (ts : List ToolCall) (c : Chat) → (use_tools w root ts c).calls ≡ c.calls
  calls-use_tools [] c = refl
  calls-use_tools (t ∷ ts) c = calls-use_tools ts (use_tool w root t c)

  use_tools-AllShielded :
      (ts : List ToolCall) (c : Chat)
      → All (IsShielded w) c.messages
      → All (IsShielded w) (use_tools w root ts c).messages
  use_tools-AllShielded [] c a = a
  use_tools-AllShielded (t ∷ ts) c a =
      use_tools-AllShielded ts (use_tool w root t c)
        (All-append w c.messages _ a (inr (_, refl), tt))

  -- What a turn keeps.
  record Keeps (c d : Chat) : Type 0 where
    calls : d.calls ≤ c.calls + 1
    shields : All (IsShielded w) c.messages → All (IsShielded w) d.messages

  act-Keeps :
      (r : ChatResponse) (ts : List ToolCall) (c d : Chat)
      → Keeps c d
      → Keeps c (after_turn (act w root r ts d))
  act-Keeps r [] c d k = k
  act-Keeps r (t ∷ ts) c d k = record {
    calls = rw (calls-use_tools (t ∷ ts) (say r d)) k.calls;
    shields = λ a.
        use_tools-AllShielded (t ∷ ts) (say r d)
          (All-append w d.messages _ (k.shields a) (inl refl, tt));
  }

  judge-Keeps :
      (r : ChatResponse) (c d : Chat) (o : Option String)
      → Keeps c d
      → Keeps c (after_turn (judge w root r d o))
  judge-Keeps r c d (some reason) k = k
  judge-Keeps r c d none k = act-Keeps r r.tool_calls c d k

  hear-Keeps :
      (c : Chat) (x : Result Failure ChatResponse)
      → Keeps c (after_turn (hear w root (count_call c) x))
  hear-Keeps c (err e) = record { calls = omega arith; shields = λ a. a }
  hear-Keeps c (ok r) =
      judge-Keeps r c (with_usage r (count_call c)) (first_refusal w r.content r.tool_calls)
        (record { calls = omega arith; shields = λ a. a })

  turn_at-Keeps : (c : Chat) (o : Option Failure) → Keeps c (after_turn (turn_at w root c o))
  turn_at-Keeps c (some e) = record { calls = omega arith; shields = λ a. a }
  turn_at-Keeps c none = hear-Keeps c (w.chat c.calls c.messages true)

  -- What a loop keeps, with `n` steps left.
  pub record Loops (n : ℕ) (c d : Chat) : Type 0 where
    pub calls : d.calls ≤ c.calls + n
    pub shields : All (IsShielded w) c.messages → All (IsShielded w) d.messages

  next-Loops :
      (n : ℕ) (c : Chat) (t : Turn)
      → ((d : Chat) → Loops n d (chat_of (turns w root n d)))
      → Keeps c (after_turn t)
      → Loops (suc n) c (chat_of (elim t [ ended e ↦ e | goes_on d ↦ turns w root n d ]))
  next-Loops n c (ended e) l k = record { calls = ground (arith, k.calls); shields = k.shields }
  next-Loops n c (goes_on d) l k =
      let m = l d in
      record { calls = ground (arith, k.calls, m.calls); shields = λ a. m.shields (k.shields a) }

  pub turns-Loops : (n : ℕ) (c : Chat) → Loops n c (chat_of (turns w root n c))
  unfolding turns turn
  turns-Loops zero c = record { calls = omega arith; shields = λ a. a }
  turns-Loops (suc n) c =
      next-Loops n c (turn_at w root c (w.expired c.calls)) (turns-Loops n)
        (turn_at-Keeps c (w.expired c.calls))

-- The end of a run has at most one call more, and adds no message that is kept.
record Closes (c d : Chat) : Type 0 where
  calls : d.calls ≤ c.calls + 1
  messages : d.messages ≡ c.messages

if-Closes :
    (b : Bool) (x y : QueryResponse × Chat) (c : Chat)
    → Closes c x.1
    → Closes c y.1
    → Closes c (if b then x else y).1
if-Closes true x y c k l = k
if-Closes false x y c k l = l

module _ (w : World) (r : RunRequest) where
  same-Closes : (c : Chat) → Closes c c
  same-Closes c = record { calls = omega arith; messages = refl }

  conclude-Closes : (a : String) (c d : Chat) → Closes c d → Closes c (conclude w r a d).1
  unfolding conclude
  conclude-Closes a c d k = if-Closes (has_refusal w (w.text.trim_space a)) _ _ c k k

  summarized-Closes :
      (c : Chat) (x : Result Failure ChatResponse) → Closes c (summarized w r (count_call c) x).1
  summarized-Closes c (err e) =
      conclude-Closes _ c (count_call c) (record { calls = omega arith; messages = refl })
  summarized-Closes c (ok s) =
      if-Closes (str_eq s.content "") _ _ c
        (conclude-Closes _ c (count_call c) (record { calls = omega arith; messages = refl }))
        (conclude-Closes s.content c (with_usage s (count_call c))
          (record { calls = omega arith; messages = refl }))

  summarize-Closes : (c : Chat) → Closes c (summarize w r c).1
  unfolding summarize
  summarize-Closes c = summarized-Closes c (w.chat c.calls (c.messages ++ limit_message ∷ []) false)

  close_run-Closes : (e : Ended) → Closes (chat_of e) (close_run w r e).1
  close_run-Closes (refused reason c) = same-Closes c
  close_run-Closes (failed e c) = same-Closes c
  close_run-Closes (answered a c) =
      if-Closes (str_eq a "") _ _ c (summarize-Closes c) (conclude-Closes a c c (same-Closes c))
  close_run-Closes (exhausted c) = summarize-Closes c

  -- What the run leaves of its conversation.
  record Runs (c : Chat) : Type 0 where
    calls : c.calls ≤ steps_of r + 1
    shields : All (IsShielded w) c.messages

  opening-Runs : Runs (opening r)
  opening-Runs = record { calls = omega arith; shields = (inl refl, tt) }

  run_in-Runs : (root : String) (o : Option String) → Runs (run_in w r root o).1
  run_in-Runs root (some e) = opening-Runs
  run_in-Runs root none =
      let e = turns w root (steps_of r) (opening r) in
      let l = turns-Loops w root (steps_of r) (opening r) in
      let k = close_run-Closes e in
      record {
        calls = ground (arith, l.calls, k.calls);
        shields = subst (All (IsShielded w)) (sym k.messages) (l.shields opening-Runs.shields);
      }

  if-Runs :
      (b : Bool) (x y : QueryResponse × Chat) → Runs x.1 → Runs y.1 → Runs (if b then x else y).1
  if-Runs true x y k l = k
  if-Runs false x y k l = l

  run-Runs : Runs (run w r).1
  unfolding run
  run-Runs =
      let root = (resolve_workspace w r).root_path in
      if-Runs (str_eq root "") _ _ opening-Runs (run_in-Runs root r.no_provider)

-- A run ends after at most one call of the model more than the steps of its configuration,
-- whatever the model and the tools do.
pub run-calls : (w : World) (r : RunRequest) → (run w r).1.calls ≤ steps_of r + 1
run-calls w r = (run-Runs w r).calls

-- Whatever a tool put out has been cut and redacted where it stands among the messages to the model.
pub run-AllShielded : (w : World) (r : RunRequest) → All (IsShielded w) (run w r).1.messages
run-AllShielded w r = (run-Runs w r).shields
