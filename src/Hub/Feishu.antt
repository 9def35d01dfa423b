-- ===== src/Hub/Feishu.antt =====
-- `dispatchFeishuQuery` (internal/hub/hub.go): a question that came through a member's bot.
use talkintent.Common.{ℕ, String, Option, none, some, str_eq, if◌then◌else◌}
use talkintent.Common.Int.{pos}
use talkintent.Common.Effect.{Result, ok, err}
use talkintent.Store.Records.{
  MemberInfo, QueryDetail, FeishuContext, no_usage, status_queued, status_dispatched,
}
use talkintent.Store.Journal.{Error}
use talkintent.Store.Library.{Library}
use talkintent.Store.Pairing.{get_member}
use talkintent.Store.Queries.{with_defaults, create_query, get_queue_position}
use talkintent.Hub.Records.{QueryRequest, or_default}
use talkintent.Hub.State.{Hub, call}
use talkintent.Hub.Sessions.{select_session}
use talkintent.Hub.Waiters.{default_query_timeout, set_query_timeout}
use talkintent.Hub.Dispatch.{hand_over}
use talkintent.Hub.Submit.{day_sec, expires_at}

pub record AskerInfo : Type 0 where
  pub open_id : String
  pub user_id : String

abbrev pub named_user : Library → String → String
named_user lib id = lib.join "Feishu user (" (lib.join id ")")

abbrev pub display_name : Library → AskerInfo → String
display_name lib a =
    if str_eq a.open_id ""
    then (if str_eq a.user_id "" then "Feishu user" else named_user lib a.user_id)
    else named_user lib a.open_id

pub record DispatchResult : Type 0 where
  pub query_id : String
  pub status : String
  pub target_member_name : String
  pub queue_position : ℕ

-- The longest time of a query is not applied here.
abbrev pub feishu_query :
    Library → ℕ → String → MemberInfo → AskerInfo → String → FeishuContext → Hub → QueryDetail
feishu_query lib now id target asker text context h = record {
  query_id = id;
  status = status_queued;
  asker_id = asker.open_id;
  asker_name = display_name lib asker;
  target_member_id = target.id;
  target_member_name = target.name;
  target_workspace = "";
  query = text;
  answer = "";
  tools_used = none;
  duration_ms = pos 0;
  token_usage = no_usage;
  queue_position = 0;
  ttl_expires_at = expires_at now (or_default day_sec h.cfg.default_query_ttl_sec);
  created_at = now;
  completed_at = 0;
  error_message = "";
  feishu_context = some context;
  origin = "feishu";
}

abbrev pub feishu_request : QueryDetail → QueryRequest
feishu_request q = record {
  query_id = q.query_id;
  asker_id = q.asker_id;
  asker_name = q.asker_name;
  asker_type = "feishu";
  query = q.query;
  target_workspace = "";
  timeout_seconds = default_query_timeout;
  created_at = q.created_at;
}

abbrev pub positioned : QueryDetail → Result Error ℕ × Hub → Option DispatchResult × Hub
positioned q (r, h) = (
  some (record {
    query_id = q.query_id;
    status = q.status;
    target_member_name = q.target_member_name;
    queue_position = elim r [ ok n ↦ n | err e ↦ 0 ];
  }),
  h,
)

abbrev pub feishu_route : ℕ → QueryDetail → Option String → Hub → QueryDetail × Hub
feishu_route now q none h = (q, h)
feishu_route now q (some session) h =
    (record q { status = status_dispatched }, hand_over now session (feishu_request q) h)

abbrev pub report : ℕ → QueryDetail × Hub → Option DispatchResult × Hub
report now (q, h) = positioned q (call (get_queue_position now q.query_id) h)

abbrev pub feishu_created :
    ℕ → QueryDetail → Result Error (Unit {0}) × Hub → Option DispatchResult × Hub
feishu_created now q (err e, h) = (none, h)
feishu_created now q (ok u, h) =
    let timed = set_query_timeout q.query_id (pos default_query_timeout) h in
    report now (feishu_route now q (select_session q.target_member_id "" timed) timed)

abbrev pub feishu_target :
    Library
    → ℕ
    → String
    → AskerInfo
    → String
    → FeishuContext
    → Result Error MemberInfo × Hub
    → Option DispatchResult × Hub
feishu_target lib now id asker text context (err e, h) = (none, h)
feishu_target lib now id asker text context (ok target, h) =
    let q = feishu_query lib now id target asker text context h in
    feishu_created now (with_defaults now h.store.index q) (call (create_query now q) h)

-- `id` is the drawn query id. `none` is an error.
unfoldable pub dispatch_feishu_query :
    Library
    → ℕ
    → String
    → String
    → AskerInfo
    → String
    → FeishuContext
    → Hub
    → Option DispatchResult × Hub
dispatch_feishu_query lib now id member asker text context h =
    feishu_target lib now id asker text context (call (get_member member) h)
