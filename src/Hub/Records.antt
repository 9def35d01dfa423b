-- ===== src/Hub/Records.antt =====
-- The records of internal/protocol (ws.go, rest.go) that the hub and the daemons exchange, and the
-- part of `config.HubConfig` that the hub's methods read. An `int` that is only tested for being
-- positive and used when it is stays a `ℤ`.
use talkintent.Common.{ℕ, String, Bool, Option, List, min, if◌then◌else◌}
use talkintent.Common.Int.{ℤ, is_positive, clamp_zero}
use talkintent.Store.Records.{TokenUsage}

pub record WorkspaceInfo : Type 0 where
  pub id : String
  pub name : String
  pub root_path : String
  pub has_privacy_prompt : Bool

pub record DaemonHello : Type 0 where
  pub machine_name : String
  pub max_concurrency : ℤ
  pub workspaces : List WorkspaceInfo

pub record HubAck : Type 0 where
  pub authenticated : Bool
  pub session_id : String
  pub heartbeat_interval_sec : ℕ
  pub pending_queries_count : ℕ

pub record QueryRequest : Type 0 where
  pub query_id : String
  pub asker_id : String
  pub asker_name : String
  pub asker_type : String
  pub query : String
  pub target_workspace : String
  pub timeout_seconds : ℕ
  pub created_at : ℕ

pub record QueryResponse : Type 0 where
  pub query_id : String
  pub status : String
  pub answer : String
  pub tools_used : Option (List String)
  pub duration_ms : ℤ
  pub token_usage : TokenUsage
  pub error_message : String

-- The frames that the hub writes, by their type.
pub data Message : Type 0 where
  hub_ack : HubAck → Message
  heartbeat_pong : ℕ → Message
  query_request : QueryRequest → Message
  -- the query's id and the reason
  query_cancel : String → String → Message

-- The frames that a daemon writes, by their type; a frame of another type is ignored.
pub data Envelope : Type 0 where
  daemon_hello : DaemonHello → Envelope
  heartbeat_ping : Envelope
  query_response : QueryResponse → Envelope
  unknown_type : Envelope

pub record HubConfig : Type 0 where
  pub admin_token : String
  pub heartbeat_interval_sec : ℤ
  pub default_query_ttl_sec : ℤ
  pub max_query_ttl_sec : ℤ
  pub max_probe_timeout_sec : ℤ

-- `if x <= 0 { x = d }`
abbrev pub or_default : ℕ → ℤ → ℕ
or_default d x = if is_positive x then clamp_zero x else d

-- `if most > 0 && n > most { n = most }`
abbrev pub cap_at : ℤ → ℕ → ℕ
cap_at most n = if is_positive most then min n (clamp_zero most) else n
