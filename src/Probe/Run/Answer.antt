-- ===== src/Probe/Run/Answer.antt =====
-- internal/probe/probe.go: the response of a run.
use talkintent.Common.{
  ◌+◌, ◌≤◌, String, Bool, true, false, ◌≡◌, refl, Option, none, some, [], ◌∷◌, ◌++◌, leb, leb→le,
  arith, Bool-cases, inl, inr, str_eq, if◌then◌else◌,
}
use talkintent.Common.Effect.{Result, ok, err}
use talkintent.Store.Records.{is_terminal, status_error, status_timeout}
use talkintent.Hub.Records.{QueryResponse}
use talkintent.Hub.Frames.{response_status}
use talkintent.Probe.Text.{TextLibrary, Measures, truncate_answer, max_answer_bytes, answer_mark}
use talkintent.Probe.Chat.{
  World, ChatResponse, Failure, Chat, Ended, refused, failed, answered, exhausted, count_call,
  with_usage, turns,
}
use talkintent.Probe.Run.{
  RunRequest, conclude, has_refusal, summarize, summarized, close_run, run_in, run, reject, opening,
  steps_of, resolve_workspace, limit_message,
}

-- The length of an answer in bytes, with the mark of a cut one.
truncate-bound :
    (lib : TextLibrary) (t : String)
    → Measures lib
    → lib.byte_length (truncate_answer lib t) ≤ max_answer_bytes + lib.byte_length answer_mark
unfolding truncate_answer
truncate-bound lib t k = elim (Bool-cases (leb (lib.byte_length t) max_answer_bytes)) [
  | inl e ↦ rw e (ground (arith, leb→le (lib.byte_length t) max_answer_bytes e))
  | inr e ↦
      rw (e, k.length-join (lib.first_bytes max_answer_bytes t) answer_mark)
        (ground (arith, k.length-first_bytes max_answer_bytes t))
]

-- What every response of a run has: the id of its query, a status in which a query ends, which the hub takes as it
-- is, and an answer of a bounded length.
pub record IsFinal (w : World) (r : RunRequest) (s : QueryResponse) : Type 0 where
  pub named : s.query_id ≡ r.query_id
  pub terminal : is_terminal s.status ≡ true
  pub same : response_status s.status ≡ s.status
  pub bounded :
      Measures w.text
      → w.text.byte_length s.answer ≤ max_answer_bytes + w.text.byte_length answer_mark

module _ (w : World) (r : RunRequest) where
  if-IsFinal :
      (b : Bool) (x y : QueryResponse × Chat)
      → IsFinal w r x.0
      → IsFinal w r y.0
      → IsFinal w r (if b then x else y).0
  if-IsFinal true x y k l = k
  if-IsFinal false x y k l = l

  cut :
      (t : String)
      → Measures w.text
      → w.text.byte_length (truncate_answer w.text t)
        ≤ max_answer_bytes + w.text.byte_length answer_mark
  cut t k = truncate-bound w.text t k

  empty :
      Measures w.text → w.text.byte_length "" ≤ max_answer_bytes + w.text.byte_length answer_mark
  empty k = rw (k.length-empty) (omega arith)

  conclude-IsFinal : (a : String) (c : Chat) → IsFinal w r (conclude w r a c).0
  unfolding conclude
  conclude-IsFinal a c =
      if-IsFinal (has_refusal w (w.text.trim_space a)) _ _
        (record { named = refl; terminal = refl; same = refl; bounded = cut _ })
        (record { named = refl; terminal = refl; same = refl; bounded = cut _ })

  summarized-IsFinal :
      (c : Chat) (x : Result Failure ChatResponse) → IsFinal w r (summarized w r c x).0
  summarized-IsFinal c (err e) = conclude-IsFinal _ c
  summarized-IsFinal c (ok s) =
      if-IsFinal (str_eq s.content "") _ _ (conclude-IsFinal _ c)
        (conclude-IsFinal s.content (with_usage s c))

  summarize-IsFinal : (c : Chat) → IsFinal w r (summarize w r c).0
  unfolding summarize
  summarize-IsFinal c =
      summarized-IsFinal (count_call c) (w.chat c.calls (c.messages ++ limit_message ∷ []) false)

  failed_status :
      (b : Bool)
      → (is_terminal (if b then status_timeout else status_error) ≡ true)
        × (response_status (if b then status_timeout else status_error)
            ≡ (if b then status_timeout else status_error))
  failed_status true = (refl, refl)
  failed_status false = (refl, refl)

  close_run-IsFinal : (e : Ended) → IsFinal w r (close_run w r e).0
  close_run-IsFinal (refused reason c) = record {
    named = refl;
    terminal = refl;
    same = refl;
    bounded = cut _;
  }
  close_run-IsFinal (failed e c) =
      let (terminal, same) = failed_status e.is_deadline in
      record { named = refl; terminal = terminal; same = same; bounded = empty }
  close_run-IsFinal (answered a c) =
      if-IsFinal (str_eq a "") _ _ (summarize-IsFinal c) (conclude-IsFinal a c)
  close_run-IsFinal (exhausted c) = summarize-IsFinal c

  reject-IsFinal : (t : String) → IsFinal w r (reject w r t).0
  reject-IsFinal t = record { named = refl; terminal = refl; same = refl; bounded = empty }

  run_in-IsFinal : (root : String) (o : Option String) → IsFinal w r (run_in w r root o).0
  run_in-IsFinal root (some e) = reject-IsFinal _
  run_in-IsFinal root none = close_run-IsFinal (turns w root (steps_of r) (opening r))

  pub run-IsFinal : IsFinal w r (run w r).0
  unfolding run
  run-IsFinal =
      let root = (resolve_workspace w r).root_path in
      if-IsFinal (str_eq root "") _ _ (reject-IsFinal _) (run_in-IsFinal root r.no_provider)

-- The answer of a run has at most 16384 bytes, or so many and the mark of a cut one.
pub run-answer :
    (w : World) (r : RunRequest)
    → Measures w.text
    → w.text.byte_length (run w r).0.answer ≤ max_answer_bytes + w.text.byte_length answer_mark
run-answer w r k = (run-IsFinal w r).bounded k
