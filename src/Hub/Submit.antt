-- ===== src/Hub/Submit.antt =====
-- `handleQuerySubmit` (internal/hub/hub.go) up to the wait for an answer, and what ends the wait.
-- The drawn id and the channel are arguments.
pub mod Expiry
pub mod Guard
pub mod Keys
use talkintent.Common.{
  ℕ, ◌+◌, ◌-◌, ◌*◌, ◌/◌, ◌%◌, ◌^◌, String, Bool, true, false, Option, none, some, List, [], ◌∷◌,
  str_eq, ltb, if◌then◌else◌,
}
use talkintent.Common.Int.{ℤ, pos}
use talkintent.Common.Effect.{Result, ok, err}
use talkintent.Common.GoMap
use talkintent.Store.Records.{MemberInfo, QueryDetail, no_usage, status_queued, status_dispatched}
use talkintent.Store.Journal.{Error}
use talkintent.Store.Resolve.{
  Resolved, found, ambiguous, not_found, nil_member, resolve_target_member,
}
use talkintent.Store.Queries.{with_defaults, create_query, get_query, get_queue_position}
use talkintent.Store.Queue.{save_idempotency_key, get_query_by_idempotency_key}
use talkintent.Hub.Records.{HubConfig, QueryRequest, or_default, cap_at}
use talkintent.Hub.State.{Hub, call, call_only}
use talkintent.Hub.Limiter.{RateLimiter, allow}
use talkintent.Hub.Sessions.{select_session}
use talkintent.Hub.Waiters.{effective_timeout, set_query_timeout, add_waiter, remove_waiter}
use talkintent.Hub.Dispatch.{hand_over, cancel_dispatched_query}
use talkintent.Hub.Access.{
  Web, Refusal, unauthorized, rate_limited, invalid_argument, internal_error, Reply, refused,
  ambiguous_target, detail, accepted, panicked, silent, to_option, authenticate_member,
}

pub record QuerySubmitRequest : Type 0 where
  pub target : String
  pub query : String
  pub target_workspace : String
  pub timeout_seconds : ℤ
  pub ttl_seconds : ℤ
  pub idempotency_key : String
  -- the field, or `wait` in the URL
  pub wait : Bool

-- What the handler comes to: an answer, or the wait on a channel with the query so far.
pub data Submitted : Type 0 where
  replied : Reply → Submitted
  waiting : ℕ → QueryDetail → Submitted

abbrev pub day_sec : ℕ
day_sec = 86400

abbrev pub ttl_of : HubConfig → ℤ → ℕ
ttl_of cfg given =
    cap_at cfg.max_query_ttl_sec (or_default (or_default day_sec cfg.default_query_ttl_sec) given)

-- `time.Now().Add(time.Duration(ttl) * time.Second).UnixMilli()`; the product is an int64 of
-- nanoseconds, and a time before 1970 counts as 0.
abbrev pub expires_at : ℕ → ℕ → ℕ
expires_at now ttl =
    let d = ttl * 1000000000 % 2 ^ 64 in
    if ltb d (2 ^ 63) then now + d / 1000000 else (now * 1000000 - (2 ^ 64 - d)) / 1000000

abbrev pub new_query : ℕ → String → MemberInfo → MemberInfo → QuerySubmitRequest → Hub → QueryDetail
new_query now id asker target r h = record {
  query_id = id;
  status = status_queued;
  asker_id = asker.id;
  asker_name = asker.name;
  target_member_id = target.id;
  target_member_name = target.name;
  target_workspace = r.target_workspace;
  query = r.query;
  answer = "";
  tools_used = none;
  duration_ms = pos 0;
  token_usage = no_usage;
  queue_position = 0;
  ttl_expires_at = expires_at now (ttl_of h.cfg r.ttl_seconds);
  created_at = now;
  completed_at = 0;
  error_message = "";
  feishu_context = none;
  origin = "cli";
}

-- The key is remembered in memory for an hour, and in the store for the query's time.
abbrev pub remember : ℕ → String → QueryDetail → Hub → Hub
remember now key q h =
    if str_eq key ""
    then h
    else call_only (save_idempotency_key now key q.query_id (pos q.ttl_expires_at)) (record h {
      idempotency =
          GoMap.insert key (record { query_id = q.query_id; expires_at = now + 3600000 })
            h.idempotency;
    })

abbrev pub position_found : QueryDetail → Result Error ℕ × Hub → QueryDetail × Hub
position_found q (ok n, h) = (record q { queue_position = n }, h)
position_found q (err e, h) = (record q { queue_position = 0 }, h)

abbrev pub submitted_request : ℕ → QueryDetail → QueryRequest
submitted_request timeout q = record {
  query_id = q.query_id;
  asker_id = q.asker_id;
  asker_name = q.asker_name;
  asker_type = "member";
  query = q.query;
  target_workspace = q.target_workspace;
  timeout_seconds = timeout;
  created_at = q.created_at;
}

-- With a session the query is handed over; without one its place in the queue is told.
abbrev pub route : ℕ → ℕ → QueryDetail → Option String → Hub → QueryDetail × Hub
route now timeout q none h = position_found q (call (get_queue_position now q.query_id) h)
route now timeout q (some session) h =
    (record q { status = status_dispatched }, hand_over now session (submitted_request timeout q) h)

abbrev pub finish : Bool → ℕ → QueryDetail × Hub → Submitted × Hub
finish wait channel (q, h) = (if wait then waiting channel q else replied (accepted q), h)

-- From the timeout of the created query on.
abbrev pub dispatch_new : ℕ → ℕ → QuerySubmitRequest → QueryDetail → Hub → Submitted × Hub
dispatch_new now channel r q h =
    let timed = set_query_timeout q.query_id r.timeout_seconds h in
    let kept = remember now r.idempotency_key q timed in
    let session = select_session q.target_member_id r.target_workspace kept in
    let heard = if r.wait then add_waiter q.query_id channel kept else kept in
    finish r.wait channel (route now (effective_timeout r.timeout_seconds h) q session heard)

-- `CreateQuery` fills in the defaults of the query that it is given.
abbrev pub after_create :
    ℕ → ℕ → QuerySubmitRequest → QueryDetail → Result Error (Unit {0}) × Hub → Submitted × Hub
after_create now channel r q (err e, h) = (replied (refused internal_error), h)
after_create now channel r q (ok u, h) = dispatch_new now channel r q h

unfoldable pub submit_to :
    ℕ → String → ℕ → MemberInfo → QuerySubmitRequest → Resolved → Hub → Submitted × Hub
submit_to now id channel asker r (ambiguous cs) h = (replied (ambiguous_target cs), h)
submit_to now id channel asker r not_found h = (replied (refused Refusal.not_found), h)
submit_to now id channel asker r nil_member h = (replied panicked, h)
submit_to now id channel asker r (found target) h =
    let q = new_query now id asker target r h in
    after_create now channel r (with_defaults now h.store.index q) (call (create_query now q) h)

-- The query of a key that is in the cache and in time, and else the one of the store.
abbrev pub first_found : Result Error QueryDetail × Hub → Option QueryDetail × Hub
first_found (result, h) = (to_option result, h)

abbrev pub recall_cached : ℕ → String → Hub → Option QueryDetail × Hub
recall_cached now key h = elim (GoMap.lookup key h.idempotency) [
  | none ↦ (none, h)
  | some kept ↦
      if ltb now kept.expires_at
      then first_found (call (get_query now kept.query_id) h)
      else (none, h)
]

abbrev pub recall_stored : ℕ → String → Option QueryDetail × Hub → Option QueryDetail × Hub
recall_stored now key (some q, h) = (some q, h)
recall_stored now key (none, h) = first_found (call (get_query_by_idempotency_key now key) h)

unfoldable pub recall : ℕ → String → Hub → Option QueryDetail × Hub
recall now key h =
    if str_eq key "" then (none, h) else recall_stored now key (recall_cached now key h)

abbrev pub submit_recalled :
    Web
    → ℕ
    → String
    → ℕ
    → MemberInfo
    → QuerySubmitRequest
    → Option QueryDetail × Hub
    → Submitted × Hub
submit_recalled web now id channel asker r (some q, h) = (replied (detail q), h)
submit_recalled web now id channel asker r (none, h) =
    submit_to now id channel asker r
      (resolve_target_member web.library h.store.index.members r.target) h

abbrev pub submit_body :
    Web → ℕ → String → ℕ → MemberInfo → Option QuerySubmitRequest → Hub → Submitted × Hub
submit_body web now id channel asker none h = (replied (refused invalid_argument), h)
submit_body web now id channel asker (some r) h =
    submit_recalled web now id channel asker r (recall now r.idempotency_key h)

abbrev pub submit_allowed :
    Web
    → ℕ
    → String
    → ℕ
    → MemberInfo
    → Option QuerySubmitRequest
    → Hub
    → Bool × RateLimiter
    → Submitted × Hub
submit_allowed web now id channel asker body h (allowed, limiter) =
    let g = record h { limiter = limiter } in
    if allowed
    then submit_body web now id channel asker body g
    else (replied (refused rate_limited), g)

abbrev pub submit_as :
    Web → ℕ → String → ℕ → Option MemberInfo → Option QuerySubmitRequest → Hub → Submitted × Hub
submit_as web now id channel none body h = (replied (refused unauthorized), h)
submit_as web now id channel (some asker) body h =
    submit_allowed web now id channel asker body h (allow asker.id (now * 1000000) h.limiter)

-- The limiter's clock counts nanoseconds. A body that does not decode is `none`.
unfoldable pub handle_query_submit :
    Web → ℕ → String → ℕ → String → Option QuerySubmitRequest → Hub → Submitted × Hub
handle_query_submit web now id channel header body h =
    submit_as web now id channel (authenticate_member web header h) body h

-- The wait is over by its time or by the server's stop.
abbrev pub wait_over : String → ℕ → QueryDetail → Hub → Reply × Hub
wait_over id channel q h = (accepted q, (remove_waiter id channel h).1)

abbrev pub left_alone : ℕ → String → String → String → List ℕ × Hub → Hub
left_alone now id member workspace ([], h) =
    cancel_dispatched_query now id member workspace "asker_cancelled" h
left_alone now id member workspace (c ∷ cs, h) = h

-- The asker has hung up: the last one to go cancels the query.
unfoldable pub asker_gone : ℕ → String → ℕ → String → String → Hub → Reply × Hub
asker_gone now id channel member workspace h =
    (silent, left_alone now id member workspace (remove_waiter id channel h))
