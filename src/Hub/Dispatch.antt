-- ===== src/Hub/Dispatch.antt =====
-- internal/hub/hub.go: the queries that a daemon is sent, `drainOfflineQueue` and
-- `cancelDispatchedQuery`. `now` is the clock's reading, one for the whole of a method.
use talkintent.Common.{
  ℕ, ◌+◌, String, true, false, Option, none, some, List, [], ◌∷◌, str_eq, leb, ◌==◌, if◌then◌else◌,
}
use talkintent.Common.Effect.{Result, ok, err}
use talkintent.Store.Records.{QueryDetail, status_dispatched}
use talkintent.Store.Journal.{Error}
use talkintent.Store.Queries.{is_stale, bare_update, get_query, update_query_status}
use talkintent.Store.Queue.{sweep_expired_queries, get_queued_queries_for_member}
use talkintent.Hub.Records.{QueryRequest, query_request, query_cancel}
use talkintent.Hub.State.{Session, Hub, call, call_only, send_envelope}
use talkintent.Hub.Sessions.{default_max_concurrency, select_session}
use talkintent.Hub.Waiters.{get_query_timeout}

abbrev pub or_text : String → String → String
or_text d s = if str_eq s "" then d else s

abbrev pub request_of : ℕ → QueryDetail → QueryRequest
request_of timeout q = record {
  query_id = q.query_id;
  asker_id = q.asker_id;
  asker_name = q.asker_name;
  asker_type = or_text "member" q.origin;
  query = q.query;
  target_workspace = q.target_workspace;
  timeout_seconds = timeout;
  created_at = q.created_at;
}

-- A query is written to the session, and then marked as dispatched.
unfoldable pub hand_over : ℕ → String → QueryRequest → Hub → Hub
hand_over now id request h =
    call_only (update_query_status now (bare_update request.query_id status_dispatched))
      (send_envelope id (query_request request) h)

-- The loop of `drainOfflineQueue`.
unfoldable pub drain_loop : ℕ → String → ℕ → ℕ → List QueryDetail → Hub → Hub
drain_loop now id limit count [] h = h
drain_loop now id limit count (q ∷ qs) h = elim (leb limit count) [
  | true ↦ h
  | false ↦ elim (is_stale now q) [
    | true ↦ drain_loop now id limit count qs h
    | false ↦
        drain_loop now id limit (count + 1) qs
          (hand_over now id (request_of (get_query_timeout q.query_id h) q) h)
  ]
]

abbrev pub limit_of : Session → ℕ
limit_of s = if s.max_concurrency == 0 then default_max_concurrency else s.max_concurrency

abbrev pub drain_found : ℕ → Session → Result Error (List QueryDetail) × Hub → Hub
drain_found now s (err e, h) = h
drain_found now s (ok qs, h) = drain_loop now s.session_id (limit_of s) 0 qs h

unfoldable pub drain_offline_queue : ℕ → Session → Hub → Hub
drain_offline_queue now s h =
    drain_found now s (
      call (get_queued_queries_for_member now s.member_id)
        (call_only (sweep_expired_queries now) h))

abbrev pub cancel_at : Option String → String → String → Hub → Hub
cancel_at none id reason h = h
cancel_at (some session) id reason h = send_envelope session (query_cancel id reason) h

abbrev pub cancel_found : String → String → String → String → Result Error QueryDetail × Hub → Hub
cancel_found id member workspace reason (err e, h) = h
cancel_found id member workspace reason (ok q, h) =
    if str_eq q.status status_dispatched
    then cancel_at
        (select_session (or_text q.target_member_id member) (or_text q.target_workspace workspace)
          h)
        id reason h
    else h

unfoldable pub cancel_dispatched_query : ℕ → String → String → String → String → Hub → Hub
cancel_dispatched_query now id member workspace reason h =
    cancel_found id member workspace reason (call (get_query now id) h)
