-- ===== src/Store/State.antt =====
-- The fields of `jsonlStore` that hold data: the in-memory indexes.
use talkintent.Common.{String, List, []}
use talkintent.Common.GoMap.{GoMap}
use talkintent.Store.Records.{
  MemberInfo, QueryDetail, StoredInvite, FeishuBinding, IdempotencyRecord,
}

pub record Index : Type 0 where
  -- membersByID, and membersByTokenHash to the member's id
  pub members : GoMap MemberInfo
  pub tokens : GoMap String
  -- invitesByCodeHash, queriesByID, feishuBindings
  pub invites : GoMap StoredInvite
  pub queries : GoMap QueryDetail
  pub bindings : GoMap FeishuBinding
  -- inboundAudit and outboundAudit: the ids of the queries, oldest first
  pub inbound : GoMap (List String)
  pub outbound : GoMap (List String)
  pub idempotency : GoMap IdempotencyRecord

-- The empty maps of `NewJSONLStore`.
abbrev pub empty_index : Index
empty_index = record {
  members = [];
  tokens = [];
  invites = [];
  queries = [];
  bindings = [];
  inbound = [];
  outbound = [];
  idempotency = [];
}
