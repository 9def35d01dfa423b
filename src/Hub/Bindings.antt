-- ===== src/Hub/Bindings.antt =====
-- internal/hub/hub.go: the handlers of a member's bot binding, `validateFeishuBaseURL`, and the
-- clients of the long connections. A client's own state is not modelled.
pub mod Overlap
use talkintent.Common.{
  ℕ, ◌+◌, String, Bool, true, false, ◌&&◌, ◌||◌, not, Option, none, some, List, [], ◌∷◌, ◌++◌, ◌==◌,
  str_eq, if◌then◌else◌,
}
use talkintent.Common.GoMap
use talkintent.Common.Effect.{Result, ok, err}
use talkintent.Store.Records.{MemberInfo, FeishuBinding}
use talkintent.Store.Journal.{Error}
use talkintent.Store.Members.{save_feishu_binding, get_feishu_binding, delete_feishu_binding}
use talkintent.Hub.State.{Clients, Hub, call}
use talkintent.Hub.Access.{
  Web, Refusal, unauthorized, invalid_argument, not_found, internal_error, to_option,
  authenticate_member,
}

-- net/url and net: a URI's scheme and host, and what an address is.
pub record Url : Type 0 where
  pub scheme : String
  pub hostname : String

pub record Ip : Type 0 where
  pub is_link_local_unicast : Bool
  pub is_link_local_multicast : Bool
  pub is_loopback : Bool

pub record UrlLibrary : Type 0 where
  pub parse_request_uri : String → Option Url
  pub parse_ip : String → Option Ip
  pub has_prefix : String → String → Bool
  pub equal_fold : String → String → Bool

abbrev pub is_local_link : UrlLibrary → String → Option Ip → Bool
is_local_link lib host none = false
is_local_link lib host (some ip) =
    ip.is_link_local_unicast || (ip.is_link_local_multicast || lib.has_prefix host "169.254.")

abbrev pub is_loopback_host : String → Option Ip → Bool
is_loopback_host host none = str_eq host "localhost"
is_loopback_host host (some ip) = str_eq host "localhost" || ip.is_loopback

-- Whether a URL passes the checks.
abbrev pub passes : UrlLibrary → Option Url → Bool
passes lib none = false
passes lib (some u) =
    let ip = lib.parse_ip u.hostname in
    (str_eq u.scheme "https" || str_eq u.scheme "http")
    && (not (str_eq u.hostname "")
        && (not (is_local_link lib u.hostname ip)
            && (not (
                  lib.equal_fold u.hostname "metadata.google.internal"
                  || lib.equal_fold u.hostname "instance-data")
                && (not (str_eq u.scheme "http") || is_loopback_host u.hostname ip))))

unfoldable pub validate_feishu_base_url : UrlLibrary → String → Bool
validate_feishu_base_url lib raw = passes lib (lib.parse_request_uri raw)

pub data BindingReply : Type 0 where
  binding_refused : Refusal → BindingReply
  -- whether there is an app, and its id
  binding_shown : Bool → String → BindingReply
  no_content : BindingReply

abbrev pub shown_binding : Result Error FeishuBinding × Hub → BindingReply × Hub
shown_binding (ok b, h) = (binding_shown (not (str_eq b.app_id "")) b.app_id, h)
shown_binding (err e, h) = (binding_refused not_found, h)

abbrev pub get_binding_of : Option MemberInfo → Hub → BindingReply × Hub
get_binding_of none h = (binding_refused unauthorized, h)
get_binding_of (some m) h = shown_binding (call (get_feishu_binding m.id) h)

unfoldable pub handle_feishu_binding_get : Web → String → Hub → BindingReply × Hub
handle_feishu_binding_get web header h = get_binding_of (authenticate_member web header h) h

-- `Stop`
abbrev pub stop_client : ℕ → List (ℕ × FeishuBinding) → List (ℕ × FeishuBinding)
stop_client n [] = []
stop_client n ((i, b) ∷ rest) =
    let kept = stop_client n rest in if i == n then kept else (i, b) ∷ kept

abbrev pub stop_found : Option ℕ → Clients → Clients
stop_found none c = c
stop_found (some n) c = record c { running = stop_client n c.running }

-- The client of the member leaves the map and is stopped.
unfoldable pub drop_client : String → Clients → Clients
drop_client member c =
    stop_found (GoMap.lookup member c.registered)
      (record c { registered = GoMap.erase member c.registered })

-- A new client is started and registered; one that was registered meanwhile is overwritten.
unfoldable pub start_client : String → FeishuBinding → Clients → Clients
start_client member b c = record c {
  registered = GoMap.insert member c.next c.registered;
  running = (c.next, b) ∷ c.running;
  next = c.next + 1;
}

abbrev pub evict : String → Bool → Clients → Clients
evict app handler c = if handler then record c { evicted = app ∷ c.evicted } else c

abbrev pub saved : String → FeishuBinding → Result Error (Unit {0}) × Hub → BindingReply × Hub
saved member b (err e, h) = (binding_refused internal_error, h)
saved member b (ok u, h) = (
  binding_shown true b.app_id,
  record h {
    clients =
        start_client member b (drop_client member (evict b.app_id h.feishu_handler h.clients));
  },
)

abbrev pub is_refused_binding : UrlLibrary → FeishuBinding → Bool
is_refused_binding urls b =
    (str_eq b.app_id "" || str_eq b.app_secret "")
    || (not (str_eq b.base_url "") && not (validate_feishu_base_url urls b.base_url))

abbrev pub save_binding_of :
    Web → UrlLibrary → String → Option FeishuBinding → Option MemberInfo → Hub → BindingReply × Hub
save_binding_of web urls nonce body none h = (binding_refused unauthorized, h)
save_binding_of web urls nonce none (some m) h = (binding_refused invalid_argument, h)
save_binding_of web urls nonce (some b) (some m) h =
    if is_refused_binding urls b
    then (binding_refused invalid_argument, h)
    else saved m.id b (call (save_feishu_binding web.library nonce m.id b) h)

unfoldable pub handle_feishu_binding_save :
    Web → UrlLibrary → String → String → Option FeishuBinding → Hub → BindingReply × Hub
handle_feishu_binding_save web urls nonce header body h =
    save_binding_of web urls nonce body (authenticate_member web header h) h

abbrev pub evict_old : Option FeishuBinding → Bool → Clients → Clients
evict_old none handler c = c
evict_old (some b) handler c = evict b.app_id handler c

abbrev pub deleted :
    String → Option FeishuBinding → Result Error (Unit {0}) × Hub → BindingReply × Hub
deleted member old (err e, h) = (binding_refused internal_error, h)
deleted member old (ok u, h) = (
  no_content,
  record h { clients = drop_client member (evict_old old h.feishu_handler h.clients) },
)

abbrev pub delete_binding_with : String → Result Error FeishuBinding × Hub → BindingReply × Hub
delete_binding_with member (old, h) =
    deleted member (to_option old) (call (delete_feishu_binding member) h)

abbrev pub delete_binding_of : Option MemberInfo → Hub → BindingReply × Hub
delete_binding_of none h = (binding_refused unauthorized, h)
delete_binding_of (some m) h = delete_binding_with m.id (call (get_feishu_binding m.id) h)

unfoldable pub handle_feishu_binding_delete : Web → String → Hub → BindingReply × Hub
handle_feishu_binding_delete web header h = delete_binding_of (authenticate_member web header h) h
