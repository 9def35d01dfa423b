-- ===== src/Hub/Frames/Race.antt =====
-- internal/hub/hub.go: `sendEnvelope` and the `UpdateQueryStatus` after it are two steps, which
-- the handler of an answer may come between.
use talkintent.Common.{
  ℕ, String, true, ◌≡◌, refl, ap, ◌∙◌, Option, none, some, arith, eq_iff, str_eq,
}
use talkintent.Common.GoMap
use talkintent.Store.Records.{QueryDetail, is_terminal, status_dispatched}
use talkintent.Store.Event.{or_keep}
use talkintent.Store.Queries.{update_query_status, live_update, bare_update}
use talkintent.Store.Durable.Commit.{IsHealthy}
use talkintent.Store.Durable.Completion.{sent, update_healthy}
use talkintent.Hub.Records.{QueryResponse}
use talkintent.Hub.State.{Hub, call_only}
use talkintent.Hub.Waiters.Notified.{outcome_in}
use talkintent.Hub.Frames.{response_status, handle_response}
use talkintent.Hub.Frames.Response.{answered, answer_of-expire_if}

pub update_outcome :
    (now : ℕ) (id : String) (a b : String) (h : Hub) (m : Option QueryDetail)
    → GoMap.lookup id h.store.index.queries ≡ m
    → IsHealthy h.store
    → outcome_in id h ≡ some (a, b)
    → outcome_in id (call_only (update_query_status now (bare_update id status_dispatched)) h)
      ≡ some (status_dispatched, b)
update_outcome now id a b h none e k f = ground (arith, e, f)
update_outcome now id a b h (some q) e k f =
    rw (update_healthy now (bare_update id status_dispatched) h.store q k e) (
      ground (
        arith,
        e,
        f,
        eq_iff id id,
        GoMap.lookup-modify id id (live_update (sent now (bare_update id status_dispatched)))
            h.store.index.queries,
      ))

-- The hub writes a query to a session before it marks it as dispatched. An answer that is handled
-- in between is undone: the mark puts the query back to `dispatched`, and its waiters are gone.
pub answer_overtaken :
    (now : ℕ) (member : String) (r : QueryResponse) (h : Hub) (q : QueryDetail)
    → IsHealthy h.store
    → GoMap.lookup r.query_id h.store.index.queries ≡ some q
    → str_eq q.target_member_id member ≡ true
    → is_terminal (response_status r.status) ≡ true
    → let g =
        call_only
          (update_query_status now (bare_update r.query_id status_dispatched))
          (handle_response now member r h) in
      (outcome_in r.query_id g ≡ some (status_dispatched, or_keep r.answer q.answer))
      × (GoMap.lookup r.query_id g.waiters ≡ none)
answer_overtaken now member r h q k e t d =
    let a = answered now member r h q k e t d in
    let g = handle_response now member r h in
    (
      update_outcome now r.query_id (response_status r.status) (or_keep r.answer q.answer) g
          (GoMap.lookup r.query_id g.store.index.queries) refl (a.healthy k)
          (a.stored ∙ ap some (answer_of-expire_if now r q)),
      a.no_waiter,
    )
