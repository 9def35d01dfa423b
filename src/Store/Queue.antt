-- ===== src/Store/Queue.antt =====
-- The offline queue: `RequeueInFlightQueries`, `SweepExpiredQueries`, `GetQueuedQueriesForMember`,
-- and the idempotency keys. A loop over the ids of an audit list, or over the keys of the map, is
-- a recursion on them.
use talkintent.Common.{
  ℕ, ◌+◌, String, ◌&&◌, Option, none, some, List, [], ◌∷◌, ◌++◌, map, str_eq, ltb, if◌then◌else◌,
}
use talkintent.Common.Int.{ℤ, is_positive, clamp_zero}
use talkintent.Common.Effect.{ok, pure, gets, or_raise, raise, ◌>>=◌, ◌>>◌}
use talkintent.Common.GoMap
use talkintent.Store.Records.{QueryDetail, status_queued, status_dispatched, is_waiting}
use talkintent.Store.Event.{query_updated, idempotency_indexed}
use talkintent.Store.Journal.{Action, not_found, append_event, set_index}
use talkintent.Store.Queries.{is_stale, audit_of, bare_update, change_query, log_only, expire_query}

abbrev pub set_queued : QueryDetail → QueryDetail
set_queued q = record q { status = status_queued }

-- One round of a loop over ids: an id that names no query is passed over.
unfoldable pub found_query :
    {A : Type 0} → Option QueryDetail → A → (QueryDetail → Action A) → Action A
found_query none skipped f s = (ok skipped, s)
found_query (some q) skipped f s = f q s

unfoldable pub with_query : {A : Type 0} → String → A → (QueryDetail → Action A) → Action A
unfolding found_query
with_query id skipped f s = found_query (GoMap.lookup id s.index.queries) skipped f s

-- `for _, id := range ids`, with what the rounds add to the loop's result.
unfoldable pub each_query :
    {A : Type 0} → (A → A → A) → A → (String → QueryDetail → Action A) → List String → Action A
each_query add none_yet round [] = pure none_yet
each_query add none_yet round (id ∷ rest) = do
  first ← with_query id none_yet (round id)
  more ← each_query add none_yet round rest
  pure (add first more)

-- One round of the loop of `RequeueInFlightQueries`; the result is what it adds to `requeued`.
unfoldable pub requeue_one : ℕ → String → QueryDetail → Action (List String)
requeue_one now id q =
    if str_eq q.status status_dispatched
    then (if is_stale now q then (do expire_query now id q; pure []) else (do
      change_query id set_queued
      log_only (query_updated (bare_update q.query_id status_queued))
      pure (q.query_id ∷ [])))
    else pure []

unfoldable pub requeue_in_flight_queries : ℕ → String → Action (List String)
requeue_in_flight_queries now member_id = do
  inbound ← gets (λ s. s.index.inbound)
  each_query ◌++◌ [] (requeue_one now) (audit_of member_id inbound)

-- One round of the loop of `SweepExpiredQueries`; the result is what it adds to `count`.
unfoldable pub sweep_one : ℕ → String → QueryDetail → Action ℕ
sweep_one now id q =
    if is_waiting q.status && is_stale now q then (do expire_query now id q; pure 1) else pure 0

unfoldable pub sweep_expired_queries : ℕ → Action ℕ
sweep_expired_queries now = do
  queries ← gets (λ s. s.index.queries)
  each_query ◌+◌ 0 (sweep_one now) (map (λ e. e.0) queries)

-- One round of the first loop of `GetQueuedQueriesForMember`.
unfoldable pub queued_one : ℕ → String → QueryDetail → Action (List QueryDetail)
queued_one now id q =
    if is_waiting q.status
    then (if is_stale now q then (do expire_query now id q; pure []) else pure (q ∷ []))
    else pure []

-- The second loop: `q.QueuePosition = i + 1` on the copies.
unfoldable pub numbered : ℕ → List QueryDetail → List QueryDetail
numbered i [] = []
numbered i (q ∷ qs) = record q { queue_position = i + 1 } ∷ numbered (i + 1) qs

unfoldable pub get_queued_queries_for_member : ℕ → String → Action (List QueryDetail)
get_queued_queries_for_member now member_id = do
  inbound ← gets (λ s. s.index.inbound)
  found ← each_query ◌++◌ [] (queued_one now) (audit_of member_id inbound)
  pure (numbered 0 found)

-- An expiry that is not positive stands for one hour from now.
unfoldable pub save_idempotency_key : ℕ → String → String → ℤ → Action (Unit {0})
save_idempotency_key now key query_id expires_at = do
  let at = if is_positive expires_at then clamp_zero expires_at else now + 3600000
  append_event (idempotency_indexed key query_id at)
  set_index (λ x. record x {
    idempotency = GoMap.insert key (record { query_id = query_id; expires_at = at }) x.idempotency;
  })

unfoldable pub get_query_by_idempotency_key : ℕ → String → Action QueryDetail
get_query_by_idempotency_key now key = do
  x ← gets (λ s. s.index)
  found ← or_raise (GoMap.lookup key x.idempotency) not_found
  if ltb found.expires_at now
      then raise not_found
      else or_raise (GoMap.lookup found.query_id x.queries) not_found
