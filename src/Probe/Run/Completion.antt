-- ===== src/Probe/Run/Completion.antt =====
-- internal/probe/probe.go and internal/hub/hub.go: a run's response, handled by the hub.
use mathlib.Core.Path.{subst}
use talkintent.Common.{ℕ, String, true, ◌≡◌, ap, ◌∙◌, none, some, str_eq}
use talkintent.Common.GoMap
use talkintent.Store.Records.{QueryDetail, is_terminal}
use talkintent.Store.Event.{or_keep}
use talkintent.Store.Durable.Commit.{IsHealthy}
use talkintent.Hub.Records.{QueryResponse}
use talkintent.Hub.State.{Hub}
use talkintent.Hub.Waiters.Notified.{outcome_in}
use talkintent.Hub.Frames.{handle_response}
use talkintent.Hub.Frames.Response.{response_completes}
use talkintent.Probe.Chat.{World}
use talkintent.Probe.Run.{RunRequest, run}
use talkintent.Probe.Run.Answer.{IsFinal, run-IsFinal}

module _ (now : ℕ) (member : String) (h : Hub) (q : QueryDetail) (k : IsHealthy h.store)
    (target : str_eq q.target_member_id member ≡ true) (w : World) (r : RunRequest) where
  -- Answered under the id.
  Done : QueryResponse → String → Type 0
  Done s id =
      (outcome_in id (handle_response now member s h) ≡ some (s.status, or_keep s.answer q.answer))
      × (GoMap.lookup id (handle_response now member s h).waiters ≡ none)

  done :
      (s : QueryResponse)
      → IsFinal w r s
      → GoMap.lookup s.query_id h.store.index.queries ≡ some q
      → Done s s.query_id
  unfolding Done
  done s f e =
      let c = response_completes now member s h q k e target (ap is_terminal f.same ∙ f.terminal) in
      (c.0 ∙ ap (λ t. some (t, or_keep s.answer q.answer)) f.same, c.1)

-- Whatever the model and the tools do, the response of a run ends its query in the hub, when
-- a session of the target delivers it and no write fails: the query has the run's status and
-- answer, and no one waits for it any more.
pub run_completes :
    (w : World) (r : RunRequest) (now : ℕ) (member : String) (h : Hub) (q : QueryDetail)
    → IsHealthy h.store
    → GoMap.lookup r.query_id h.store.index.queries ≡ some q
    → str_eq q.target_member_id member ≡ true
    → let s = (run w r).0 in
      let g = handle_response now member s h in
      (outcome_in r.query_id g ≡ some (s.status, or_keep s.answer q.answer))
      × (GoMap.lookup r.query_id g.waiters ≡ none)
unfolding Done
run_completes w r now member h q k e t =
    let f = run-IsFinal w r in
    subst
      (λ (id : String).
        GoMap.lookup id h.store.index.queries ≡ some q → Done now member h q k t w r (run w r).0 id)
      f.named (done now member h q k t w r (run w r).0 f) e
