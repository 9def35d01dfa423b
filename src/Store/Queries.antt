-- ===== src/Store/Queries.antt =====
-- The life of a query in the store: `CreateQuery`, `GetQuery`, `UpdateQueryStatus`,
-- and the queue positions. `now` is the clock's reading in milliseconds.
use talkintent.Common.{
  ℕ, ◌+◌, String, Bool, true, false, ◌&&◌, not, none, some, List, [], ◌∷◌, str_eq, ltb, ◌==◌,
  if◌then◌else◌,
}
use talkintent.Common.Int.{pos, is_positive}
use talkintent.Common.Effect.{ok, pure, gets, or_raise, ◌>>=◌, ◌>>◌}
use talkintent.Common.GoMap
use talkintent.Common.GoMap.{GoMap}
use talkintent.Store.Records.{
  QueryDetail, no_usage, status_queued, status_completed, status_expired, is_waiting, is_terminal,
  omit_empty,
}
use talkintent.Store.State.{Index}
use talkintent.Store.Event.{
  QueryUpdate, query_created, query_updated, or_keep, or_keep_list, push_audit, Event,
}
use talkintent.Store.Journal.{Action, not_found, append_event, set_index}

-- `q.TTLExpiresAt > 0 && now > q.TTLExpiresAt`
abbrev pub is_stale : ℕ → QueryDetail → Bool
is_stale now q = ltb 0 q.ttl_expires_at && ltb q.ttl_expires_at now

-- The test for a query that counts in the queue: it waits, and its time is not over.
abbrev pub is_in_line : ℕ → QueryDetail → Bool
is_in_line now q = is_waiting q.status && not (is_stale now q)

abbrev pub audit_of : String → GoMap (List String) → List String
audit_of id audit = elim (GoMap.lookup id audit) [ none ↦ [] | some l ↦ l ]

-- The loop of `calculateQueuePositionLocked` over the ids that are left; `at` is `pos`.
unfoldable pub position_from : ℕ → GoMap QueryDetail → String → ℕ → List String → ℕ
position_from now queries id at [] = 0
position_from now queries id at (i ∷ rest) = elim (GoMap.lookup i queries) [
  | none ↦ position_from now queries id at rest
  | some q ↦ elim (is_in_line now q) [
    | false ↦ position_from now queries id at rest
    | true ↦ elim (str_eq i id) [
      | true ↦ at + 1
      | false ↦ position_from now queries id (at + 1) rest
    ]
  ]
]

unfoldable pub queue_position : ℕ → Index → String → String → ℕ
unfolding position_from
queue_position now x id target = position_from now x.queries id 0 (audit_of target x.inbound)

-- The three defaults that `CreateQuery` fills in.
unfoldable pub with_defaults : ℕ → Index → QueryDetail → QueryDetail
unfolding queue_position
with_defaults now x q = if str_eq u.status status_queued then placed else u
  where
    t : QueryDetail
    t = record q { created_at = if q.created_at == 0 then now else q.created_at }

    u : QueryDetail
    u = record t { status = if str_eq t.status "" then status_queued else t.status }

    placed : QueryDetail
    placed = record u { queue_position = queue_position now x u.query_id u.target_member_id + 1 }

abbrev pub index_query : QueryDetail → Index → Index
index_query q x = record x {
  queries = GoMap.insert q.query_id q x.queries;
  inbound = push_audit q.target_member_id q.query_id x.inbound;
  outbound = push_audit q.asker_id q.query_id x.outbound;
}

-- The line that is logged leaves an empty list of tools out.
unfoldable pub create_query : ℕ → QueryDetail → Action (Unit {0})
unfolding with_defaults
create_query now given = do
  x ← gets (λ s. s.index)
  let q = with_defaults now x given
  append_event (query_created (record q { tools_used = omit_empty q.tools_used }))
  set_index (index_query q)

abbrev pub expiry_message : String
expiry_message = "query expired in offline queue"

-- A payload with the id and the status alone: every other field reads back as its zero value.
abbrev pub bare_update : String → String → QueryUpdate
bare_update id status = record {
  id = id;
  status = status;
  answer = "";
  tools_used = none;
  duration_ms = pos 0;
  token_usage = no_usage;
  completed_at = 0;
  error_msg = "";
}

abbrev pub expiry_update : ℕ → String → QueryUpdate
expiry_update now id = record (bare_update id status_expired) {
  completed_at = now;
  error_msg = expiry_message;
}

abbrev pub set_expired : ℕ → QueryDetail → QueryDetail
set_expired now q = record q {
  status = status_expired;
  error_message = expiry_message;
  completed_at = now;
  queue_position = 0;
}

abbrev pub change_query : String → (QueryDetail → QueryDetail) → Action (Unit {0})
change_query id f = set_index (λ x. record x { queries = GoMap.modify id f x.queries })

-- `_ = s.appendEventLocked(...)`: an error is dropped.
unfoldable pub log_only : Event → Action (Unit {0})
log_only e s = (ok tt, (append_event e s).1)

-- The block, written four times in the source, that expires the query `q` under the key `id`.
unfoldable pub expire_query : ℕ → String → QueryDetail → Action (Unit {0})
expire_query now id q = do
  change_query id (set_expired now)
  log_only (query_updated (expiry_update now q.query_id))

abbrev pub set_position : ℕ → QueryDetail → QueryDetail
set_position n q = record q { queue_position = n }

-- The second half of `GetQuery`: the position is computed and kept.
unfoldable pub refresh_position : ℕ → String → Action QueryDetail
unfolding queue_position
refresh_position now id = do
  x ← gets (λ s. s.index)
  q ← or_raise (GoMap.lookup id x.queries) not_found
  let n = if is_waiting q.status then queue_position now x q.query_id q.target_member_id else 0
  change_query id (set_position n)
  pure (set_position n q)

unfoldable pub get_query : ℕ → String → Action QueryDetail
get_query now id = do
  queries ← gets (λ s. s.index.queries)
  q ← or_raise (GoMap.lookup id queries) not_found
  if is_waiting q.status && is_stale now q
      then (do expire_query now id q; refresh_position now id)
      else refresh_position now id

unfoldable pub get_queue_position : ℕ → String → Action ℕ
unfolding queue_position
get_queue_position now id = do
  x ← gets (λ s. s.index)
  q ← or_raise (GoMap.lookup id x.queries) not_found
  pure (if is_waiting q.status then queue_position now x id q.target_member_id else 0)

-- The update that a caller asks for; `success` is an old name of `completed`.
abbrev pub normalize_status : String → String
normalize_status status = if str_eq status "success" then status_completed else status

-- The writes of `UpdateQueryStatus`. Only a final status sets the time of completion.
abbrev pub live_update : QueryUpdate → QueryDetail → QueryDetail
live_update u q = record q {
  status = u.status;
  answer = or_keep u.answer q.answer;
  tools_used = or_keep_list u.tools_used q.tools_used;
  duration_ms = if is_positive u.duration_ms then u.duration_ms else q.duration_ms;
  token_usage = u.token_usage;
  completed_at = if is_terminal u.status then u.completed_at else q.completed_at;
  queue_position = if is_terminal u.status then 0 else q.queue_position;
  error_message = or_keep u.error_msg q.error_message;
}

-- The caller's values stand in the update; its time of completion is the clock's.
unfoldable pub update_query_status : ℕ → QueryUpdate → Action (Unit {0})
update_query_status now given = do
  queries ← gets (λ s. s.index.queries)
  q ← or_raise (GoMap.lookup given.id queries) not_found
  let u : QueryUpdate = record given { status = normalize_status given.status; completed_at = now }
  append_event (query_updated u)
  change_query u.id (live_update u)
