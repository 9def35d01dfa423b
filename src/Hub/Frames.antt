-- ===== src/Hub/Frames.antt =====
-- `handleDaemonEnvelope` (internal/hub/hub.go): what the hub does with a frame of a session. The
-- frame is decoded; one whose payload does not decode is `unknown_type`.
pub mod Response
pub mod Drain
pub mod Race
use talkintent.Common.{
  ℕ, String, Bool, true, false, ◌||◌, ◌&&◌, not, Option, none, some, List, [], ◌∷◌, ◌++◌, map,
  str_eq, length, if◌then◌else◌,
}
use talkintent.Common.Effect.{Result, ok, err}
use talkintent.Common.GoMap
use talkintent.Store.Records.{QueryDetail, FeishuContext, status_completed}
use talkintent.Store.Event.{QueryUpdate}
use talkintent.Store.Journal.{Error}
use talkintent.Store.Members.{set_member_online}
use talkintent.Store.Queries.{get_query, update_query_status}
use talkintent.Store.Queue.{get_queued_queries_for_member}
use talkintent.Hub.Records.{
  WorkspaceInfo, DaemonHello, QueryResponse, Message, hub_ack, heartbeat_pong, Envelope,
  daemon_hello, heartbeat_ping, query_response, unknown_type, or_default,
}
use talkintent.Hub.State.{Session, Hub, call, call_only, send_envelope}
use talkintent.Hub.Sessions.{disconnect}
use talkintent.Hub.Waiters.{notify_waiters}
use talkintent.Hub.Dispatch.{or_text, drain_offline_queue}

abbrev pub default_heartbeat_interval : ℕ
default_heartbeat_interval = 20

abbrev pub greet : DaemonHello → Session → Session
greet hello s = record s {
  max_concurrency = or_default s.max_concurrency hello.max_concurrency;
  machine_name = or_text s.machine_name hello.machine_name;
  workspaces = hello.workspaces;
}

-- A slice that nothing was appended to is nil.
abbrev pub nil_if_empty : List String → Option (List String)
nil_if_empty [] = none
nil_if_empty (n ∷ ns) = some (n ∷ ns)

abbrev pub count_found : Result Error (List QueryDetail) → ℕ
count_found (err e) = 0
count_found (ok qs) = length qs

abbrev pub acknowledge : Session → Result Error (List QueryDetail) × Hub → Hub
acknowledge s (found, h) =
    send_envelope s.session_id
      (hub_ack (record {
        authenticated = true;
        session_id = s.session_id;
        heartbeat_interval_sec = or_default default_heartbeat_interval h.cfg.heartbeat_interval_sec;
        pending_queries_count = count_found found;
      }))
      h

unfoldable pub handle_hello : ℕ → Session → DaemonHello → Hub → Hub
handle_hello now old hello h =
    let s = greet hello old in
    let g = record h { heap = GoMap.modify s.session_id (greet hello) h.heap } in
    let names = nil_if_empty (map (λ w. w.name) hello.workspaces) in
    let online = call_only (set_member_online s.member_id true s.machine_name names now) g in
    drain_offline_queue now s
      (acknowledge s (call (get_queued_queries_for_member now s.member_id) online))

-- Status taxonomy: `success` and no status are `completed`.
abbrev pub response_status : String → String
response_status status =
    if str_eq status "success" || str_eq status "" then status_completed else status

abbrev pub update_of : QueryResponse → QueryUpdate
update_of r = record {
  id = r.query_id;
  status = response_status r.status;
  answer = r.answer;
  tools_used = r.tools_used;
  duration_ms = r.duration_ms;
  token_usage = r.token_usage;
  completed_at = 0;
  error_msg = r.error_message;
}

abbrev pub has_message : Option FeishuContext → Bool
has_message none = false
has_message (some c) = not (str_eq c.message_id "")

abbrev pub reply_found : Result Error QueryDetail × Hub → Hub
reply_found (err e, h) = h
reply_found (ok q, h) = record h { replies = h.replies ++ q ∷ [] }

-- The reply to Feishu, for a query that came from there.
abbrev pub reply_feishu : ℕ → String → QueryDetail → Hub → Hub
reply_feishu now id q h =
    if has_message q.feishu_context && h.feishu_handler
    then reply_found (call (get_query now id) h)
    else h

unfoldable pub complete : ℕ → QueryResponse → Hub → Hub
complete now r h =
    notify_waiters now r.query_id (call_only (update_query_status now (update_of r)) h)

-- Only a session of the query's target may answer it.
abbrev pub accept_found : ℕ → String → QueryResponse → Result Error QueryDetail × Hub → Hub
accept_found now member r (err e, h) = h
accept_found now member r (ok q, h) =
    if str_eq q.target_member_id member then reply_feishu now r.query_id q (complete now r h) else h

unfoldable pub handle_response : ℕ → String → QueryResponse → Hub → Hub
handle_response now member r h = accept_found now member r (call (get_query now r.query_id) h)

abbrev pub handle_frame : ℕ → Session → Envelope → Hub → Hub
handle_frame now s (daemon_hello hello) h = handle_hello now s hello h
handle_frame now s heartbeat_ping h = send_envelope s.session_id (heartbeat_pong now) h
handle_frame now s (query_response r) h = handle_response now s.member_id r h
handle_frame now s unknown_type h = h

abbrev pub handle_at : ℕ → Option Session → Envelope → Hub → Hub
handle_at now none env h = h
handle_at now (some s) env h = handle_frame now s env h

unfoldable pub handle_daemon_envelope : ℕ → String → Envelope → Hub → Hub
handle_daemon_envelope now id env h = handle_at now (GoMap.lookup id h.heap) env h

-- What `conn.Read` brings: a message that is no JSON envelope, or one with its version.
pub data WireMessage : Type 0 where
  undecoded : WireMessage
  versioned : String → Envelope → WireMessage

-- A round of the read loop of `handleWebSocket`. A wrong version closes the connection, so that
-- the deferred clean-up runs.
unfoldable pub read_round : ℕ → String → String → WireMessage → Hub → Hub
read_round now id member frame h =
    let seen = record h { heap = GoMap.modify id (λ s. record s { last_seen = now }) h.heap } in
    round frame seen
  where
    round : WireMessage → Hub → Hub
    round undecoded g = g
    round (versioned version env) g =
        if str_eq version "v1"
        then handle_daemon_envelope now id env g
        else disconnect id member now g
