-- ===== src/Hub/State.antt =====
-- `HubServer` and `daemonSession`. The maps of the server hold pointers to the sessions; here they
-- hold the sessions' ids, and `heap` has the session of each id. A frame that was written to
-- a session's connection stands in `sent`, and what a waiter's channel was given in `delivered`.
use talkintent.Common.{ℕ, String, Bool, false, none, some, List, [], ◌∷◌, ◌++◌, if◌then◌else◌}
use talkintent.Common.GoMap
use talkintent.Common.GoMap.{GoMap}
use talkintent.Common.Effect.{Result}
use talkintent.Store.Records.{QueryDetail, IdempotencyRecord, FeishuBinding}
use talkintent.Store.Journal.{Store, Action, Error}
use talkintent.Hub.Limiter.{RateLimiter}
use talkintent.Hub.Records.{WorkspaceInfo, Message, HubConfig}

pub record Session : Type 0 where
  pub session_id : String
  pub member_id : String
  pub machine_name : String
  pub workspaces : List WorkspaceInfo
  pub max_concurrency : ℕ
  pub closed : Bool
  pub last_seen : ℕ

-- The long connections to Feishu: feishuClients, by the clients' numbers, the clients that run with
-- their bindings, the number of the next one, and the apps whose client the handler has evicted.
pub record Clients : Type 0 where
  pub registered : GoMap ℕ
  pub running : List (ℕ × FeishuBinding)
  pub next : ℕ
  pub evicted : List String

pub record Hub : Type 0 where
  pub cfg : HubConfig
  pub store : Store
  pub heap : GoMap Session
  -- memberID to the ids of the sessions, the keys of sessionsByID, and daemonConns
  pub member_sessions : GoMap (List String)
  pub sessions_by_id : List String
  pub daemon_conns : GoMap String
  -- queryID to its channels, a number for each
  pub waiters : GoMap (List ℕ)
  pub timeouts : GoMap ℕ
  pub idempotency : GoMap IdempotencyRecord
  pub limiter : RateLimiter
  pub sent : List (String × Message)
  pub delivered : List (ℕ × QueryDetail)
  -- whether there is a feishuHandler, and the queries of the replies that were started on it
  pub feishu_handler : Bool
  pub replies : List QueryDetail
  pub clients : Clients

-- A call of a method of the store: its result, and the hub with the store that it leaves.
abbrev pub call : {A : Type 0} → Action A → Hub → Result Error A × Hub
call m h = ((m h.store).0, record h { store = (m h.store).1 })

-- A call whose result is dropped.
abbrev pub call_only : {A : Type 0} → Action A → Hub → Hub
call_only m h = (call m h).1

abbrev pub ids_of : String → GoMap (List String) → List String
ids_of k m = elim (GoMap.lookup k m) [ none ↦ [] | some ids ↦ ids ]

-- A test of the session under an id.
abbrev pub test_session : (Session → Bool) → GoMap Session → String → Bool
test_session test heap id = elim (GoMap.lookup id heap) [ none ↦ false | some s ↦ test s ]

-- `sendEnvelope`: a session that is closed is not written to.
unfoldable pub send_envelope : String → Message → Hub → Hub
send_envelope id message h =
    if test_session (λ s. s.closed) h.heap id
    then h
    else record h { sent = h.sent ++ (id, message) ∷ [] }
