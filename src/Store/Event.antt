-- ===== src/Store/Event.antt =====
-- The events of events.jsonl, with the payload that each type carries, and `applyEvent`, which
-- rebuilds the indexes from them. The timestamp of a line is written and never read; it is left
-- out. The JSON text of a line is left out too.
use talkintent.Common.{
  ℕ, String, Bool, true, ◌≡◌, Option, none, some, List, [], ◌∷◌, ◌++◌, str_eq, ltb, refl,
  if◌then◌else◌,
}
use talkintent.Common.Int.{ℤ, is_positive}
use talkintent.Common.GoMap
use talkintent.Common.GoMap.{GoMap}
use talkintent.Store.Records.{
  MemberInfo, QueryDetail, StoredInvite, FeishuBinding, TokenUsage, no_binding,
}
use talkintent.Store.Library.{Library}
use talkintent.Store.State.{Index}

pub record QueryUpdate : Type 0 where
  pub id : String
  pub status : String
  pub answer : String
  pub tools_used : Option (List String)
  pub duration_ms : ℤ
  pub token_usage : TokenUsage
  pub completed_at : ℕ
  pub error_msg : String

pub record PresenceUpdate : Type 0 where
  pub id : String
  pub online : Bool
  pub machine_name : String
  pub workspaces : Option (List String)
  pub last_seen_at : ℕ

pub data Event : Type 0 where
  invite_created : StoredInvite → Event
  -- the hash of the code
  invite_consumed : String → Event
  member_created : MemberInfo → Event
  -- the hash of the token, and the member's id
  member_token_indexed : String → String → Event
  -- the id, the name and the aliases
  member_updated : String → String → List String → Event
  member_presence : PresenceUpdate → Event
  -- the member's id, the plain binding of old logs, and the ciphertext
  feishu_binding_saved : String → FeishuBinding → String → Event
  feishu_binding_deleted : String → Event
  query_created : QueryDetail → Event
  query_updated : QueryUpdate → Event
  -- the key, the query's id and the expiry
  idempotency_indexed : String → String → ℕ → Event

-- `if name != "" { m.Name = name }` and its like
abbrev pub or_keep : String → String → String
or_keep new old = if str_eq new "" then old else new

abbrev pub or_keep_list : Option (List String) → Option (List String) → Option (List String)
or_keep_list none old = old
or_keep_list (some l) old = some l

abbrev pub rename : String → List String → MemberInfo → MemberInfo
rename name aliases m = record m { name = or_keep name m.name; aliases = aliases }

abbrev pub set_presence : PresenceUpdate → MemberInfo → MemberInfo
set_presence p m = record m {
  online = p.online;
  machine_name = or_keep p.machine_name m.machine_name;
  workspaces = or_keep_list p.workspaces m.workspaces;
  last_seen_at = p.last_seen_at;
}

abbrev pub set_bot : Bool → MemberInfo → MemberInfo
set_bot b m = record m { has_feishu_bot = b }

-- The case "query_updated" of `applyEvent`, on the query itself.
abbrev pub apply_update : QueryUpdate → QueryDetail → QueryDetail
apply_update u q = record q {
  status = u.status;
  answer = or_keep u.answer q.answer;
  tools_used = or_keep_list u.tools_used q.tools_used;
  duration_ms = if is_positive u.duration_ms then u.duration_ms else q.duration_ms;
  token_usage = u.token_usage;
  completed_at = if ltb 0 u.completed_at then u.completed_at else q.completed_at;
  error_message = or_keep u.error_msg q.error_message;
}

-- `audit[id] = append(audit[id], queryID)`
abbrev pub push_audit : String → String → GoMap (List String) → GoMap (List String)
push_audit id query_id audit = GoMap.insert id (audit_of id audit ++ query_id ∷ []) audit
  where
    audit_of : String → GoMap (List String) → List String
    audit_of k m = elim (GoMap.lookup k m) [ none ↦ [] | some l ↦ l ]

-- What a saved binding decodes to: a ciphertext that cannot be opened leaves the empty binding.
abbrev pub binding_of : Library → FeishuBinding → String → FeishuBinding
binding_of lib plain ciphertext =
    if str_eq ciphertext ""
    then plain
    else (elim (lib.unseal ciphertext) [ none ↦ no_binding | some b ↦ b ])

unfoldable pub apply_event : Library → Index → Event → Index
apply_event lib x (invite_created inv) = record x {
  invites = GoMap.insert inv.code_hash inv x.invites;
}
apply_event lib x (invite_consumed hash) = record x {
  invites = GoMap.modify hash (λ inv. record inv { consumed = true }) x.invites;
}
apply_event lib x (member_created m) = record x { members = GoMap.insert m.id m x.members }
apply_event lib x (member_token_indexed hash id) = record x {
  tokens = GoMap.insert hash id x.tokens;
}
apply_event lib x (member_updated id name aliases) = record x {
  members = GoMap.modify id (rename name aliases) x.members;
}
apply_event lib x (member_presence p) = record x {
  members = GoMap.modify p.id (set_presence p) x.members;
}
apply_event lib x (feishu_binding_saved id plain ciphertext) = record x {
  bindings = GoMap.insert id (binding_of lib plain ciphertext) x.bindings;
  members = GoMap.modify id (set_bot true) x.members;
}
apply_event lib x (feishu_binding_deleted id) = record x {
  bindings = GoMap.erase id x.bindings;
  members = GoMap.modify id (set_bot Bool.false) x.members;
}
apply_event lib x (query_created q) = elim (GoMap.lookup q.query_id x.queries) [
  | some _ ↦ record x { queries = GoMap.insert q.query_id q x.queries }
  | none ↦ record x {
    queries = GoMap.insert q.query_id q x.queries;
    inbound = push_audit q.target_member_id q.query_id x.inbound;
    outbound = push_audit q.asker_id q.query_id x.outbound;
  }
]
apply_event lib x (query_updated u) = record x {
  queries = GoMap.modify u.id (apply_update u) x.queries;
}
apply_event lib x (idempotency_indexed key id expires_at) = record x {
  idempotency = GoMap.insert key (record { query_id = id; expires_at = expires_at }) x.idempotency;
}

-- The events of a log, applied in order to empty indexes.
unfoldable pub replay_from : Library → Index → List Event → Index
replay_from lib x [] = x
replay_from lib x (e ∷ es) = replay_from lib (apply_event lib x e) es

pub replay_from-append :
    (lib : Library) (x : Index) (es fs : List Event)
    → replay_from lib x (es ++ fs) ≡ replay_from lib (replay_from lib x es) fs
unfolding replay_from
replay_from-append lib x [] fs = refl
replay_from-append lib x (e ∷ es) fs = replay_from-append lib (apply_event lib x e) es fs
