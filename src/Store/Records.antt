-- ===== src/Store/Records.antt =====
-- The records of internal/protocol (rest.go, ws.go, envelope.go) that the store keeps, and the
-- store's own. A slice that may be nil, where the code tests for nil, is an `Option`.
-- A time in milliseconds is a natural number.
use talkintent.Common.{ℕ, String, Bool, ◌||◌, Option, none, some, List, [], ◌∷◌, str_eq}
use talkintent.Common.Int.{ℤ, pos}

pub record TokenUsage : Type 0 where
  pub prompt_tokens : ℤ
  pub completion_tokens : ℤ
  pub total_tokens : ℤ

-- `protocol.TokenUsage{}`
abbrev pub no_usage : TokenUsage
no_usage = record { prompt_tokens = pos 0; completion_tokens = pos 0; total_tokens = pos 0 }

pub record MemberInfo : Type 0 where
  pub id : String
  pub name : String
  pub aliases : List String
  pub online : Bool
  pub last_seen_at : ℕ
  pub machine_name : String
  pub workspaces : Option (List String)
  pub has_feishu_bot : Bool

pub record CandidateMember : Type 0 where
  pub id : String
  pub name : String
  pub matched_alias : String

pub record FeishuContext : Type 0 where
  pub message_id : String
  pub chat_id : String
  pub app_id : String

pub record QueryDetail : Type 0 where
  pub query_id : String
  pub status : String
  pub asker_id : String
  pub asker_name : String
  pub target_member_id : String
  pub target_member_name : String
  pub target_workspace : String
  pub query : String
  pub answer : String
  pub tools_used : Option (List String)
  pub duration_ms : ℤ
  pub token_usage : TokenUsage
  pub queue_position : ℕ
  pub ttl_expires_at : ℕ
  pub created_at : ℕ
  pub completed_at : ℕ
  pub error_message : String
  pub feishu_context : Option FeishuContext
  pub origin : String

pub record FeishuBinding : Type 0 where
  pub app_id : String
  pub app_secret : String
  pub base_url : String

-- `protocol.FeishuBindingRequest{}`
abbrev pub no_binding : FeishuBinding
no_binding = record { app_id = ""; app_secret = ""; base_url = "" }

pub record StoredInvite : Type 0 where
  pub code_hash : String
  pub target_name : String
  pub aliases : List String
  pub expires_at : ℕ
  pub consumed : Bool

pub record IdempotencyRecord : Type 0 where
  pub query_id : String
  pub expires_at : ℕ

abbrev pub status_dispatched : String
status_dispatched = "dispatched"

abbrev pub status_queued : String
status_queued = "queued"

abbrev pub status_completed : String
status_completed = "completed"

abbrev pub status_refused : String
status_refused = "refused"

abbrev pub status_error : String
status_error = "error"

abbrev pub status_timeout : String
status_timeout = "timeout"

abbrev pub status_expired : String
status_expired = "expired"

-- The test of `UpdateQueryStatus` for a status in which a query ends.
abbrev pub is_terminal : String → Bool
is_terminal status =
    str_eq status status_completed
    || str_eq status status_error
    || str_eq status status_timeout
    || str_eq status status_refused
    || str_eq status status_expired

-- The test for a query that still waits for the daemon's answer.
abbrev pub is_waiting : String → Bool
is_waiting status = str_eq status status_queued || str_eq status status_dispatched

-- What `omitempty` makes of a slice: an empty one is not written, and reads back as nil.
abbrev pub omit_empty {ℓ} : {A : Type ℓ} → Option (List A) → Option (List A)
omit_empty none = none
omit_empty (some []) = none
omit_empty (some (x ∷ xs)) = some (x ∷ xs)
