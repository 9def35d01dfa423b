-- ===== src/Hub/Handlers.antt =====
-- internal/hub/hub.go: the handlers of pairing, of the members and of the audit trails. A body that
-- does not decode is `none`; a number in the URL that does not parse is 0.
use talkintent.Common.{
  ℕ, String, Bool, true, false, ◌||◌, Option, none, some, List, str_eq, if◌then◌else◌,
}
use talkintent.Common.Int.{ℤ, pos, is_positive}
use talkintent.Common.Effect.{Result, ok, err}
use talkintent.Store.Records.{MemberInfo}
use talkintent.Store.Journal.{Error}
use talkintent.Store.Audit.{AuditEntry, get_inbound_audit, get_outbound_audit}
use talkintent.Store.Members.{list_members, update_member}
use talkintent.Store.Pairing.{InviteCreated, Paired, create_invite, consume_invite, get_member}
use talkintent.Hub.State.{Hub, call}
use talkintent.Hub.Access.{
  Web, unauthorized, invalid_argument, not_found, internal_error, Reply, refused, paired, invited,
  members, member, audit, panicked, authenticate_member, authenticate_admin,
}

pub record PairRequest : Type 0 where
  pub invite_code : String
  pub machine_name : String

pub record InviteCreateRequest : Type 0 where
  pub target_name : String
  pub aliases : List String
  pub expires_in_hours : ℤ

pub record MemberUpdateRequest : Type 0 where
  pub name : String
  pub aliases : List String

abbrev pub paired_reply : Result Error Paired × Hub → Reply × Hub
paired_reply (ok p, h) = (paired p, h)
paired_reply (err e, h) = (refused invalid_argument, h)

-- The answer's `HubURL`, which comes from the request alone, is left out.
unfoldable pub handle_auth_pair :
    Web → Option String → Option String → ℕ → ℕ → Option PairRequest → Hub → Reply × Hub
handle_auth_pair web id_raw token_raw now created_now none h = (refused invalid_argument, h)
handle_auth_pair web id_raw token_raw now created_now (some r) h = paired_reply (
    call (consume_invite web.library id_raw token_raw now created_now r.invite_code r.machine_name)
      h)

abbrev pub invited_reply : Result Error InviteCreated × Hub → Reply × Hub
invited_reply (ok i, h) = (invited i, h)
invited_reply (err e, h) = (refused internal_error, h)

abbrev pub invite_body : Web → Option String → ℕ → Option InviteCreateRequest → Hub → Reply × Hub
invite_body web raw now none h = (refused invalid_argument, h)
invite_body web raw now (some r) h =
    invited_reply
      (call (create_invite web.library raw now r.target_name r.aliases r.expires_in_hours) h)

unfoldable pub handle_admin_invites :
    Web → Option String → ℕ → String → Option InviteCreateRequest → Hub → Reply × Hub
handle_admin_invites web raw now header body h =
    if authenticate_admin web header h
    then invite_body web raw now body h
    else (refused unauthorized, h)

abbrev pub is_known : Option MemberInfo → Bool
is_known none = false
is_known (some m) = true

-- The guard of the handlers that an administrator or any member may use.
abbrev pub may_read : Web → String → Hub → Bool
may_read web header h =
    authenticate_admin web header h || is_known (authenticate_member web header h)

abbrev pub members_reply : Result Error (List MemberInfo) × Hub → Reply × Hub
members_reply (ok l, h) = (members l, h)
members_reply (err e, h) = (refused internal_error, h)

unfoldable pub handle_members_list : Web → String → Hub → Reply × Hub
handle_members_list web header h =
    if may_read web header h then members_reply (call list_members h) else (refused unauthorized, h)

abbrev pub me_reply : Option MemberInfo → Hub → Reply × Hub
me_reply none h = (refused unauthorized, h)
me_reply (some m) h = (member m, h)

unfoldable pub handle_member_me : Web → String → Hub → Reply × Hub
handle_member_me web header h = me_reply (authenticate_member web header h) h

abbrev pub updated_reply : Result Error MemberInfo × Hub → Reply × Hub
updated_reply (ok m, h) = (member m, h)
updated_reply (err e, h) = (refused internal_error, h)

abbrev pub update_me : Option MemberUpdateRequest → Option MemberInfo → Hub → Reply × Hub
update_me body none h = (refused unauthorized, h)
update_me none (some m) h = (refused invalid_argument, h)
update_me (some r) (some m) h = updated_reply (call (update_member m.id r.name r.aliases) h)

unfoldable pub handle_member_me_update :
    Web → String → Option MemberUpdateRequest → Hub → Reply × Hub
handle_member_me_update web header body h = update_me body (authenticate_member web header h) h

abbrev pub get_reply : Result Error MemberInfo × Hub → Reply × Hub
get_reply (ok m, h) = (member m, h)
get_reply (err e, h) = (refused not_found, h)

abbrev pub get_named : String → Hub → Reply × Hub
get_named id h =
    if str_eq id "" then (refused invalid_argument, h) else get_reply (call (get_member id) h)

-- `path` is what follows `/api/v1/members/`.
unfoldable pub handle_member_get : Web → String → String → Hub → Reply × Hub
handle_member_get web header path h =
    if may_read web header h
    then get_named (web.library.trim_space path) h
    else (refused unauthorized, h)

abbrev pub or_fifty : ℤ → ℤ
or_fifty limit = if is_positive limit then limit else pos 50

-- A slice out of range panics.
abbrev pub audit_reply : Option (ℕ × List AuditEntry) → Reply
audit_reply none = panicked
audit_reply (some (total, entries)) = audit total entries

abbrev pub inbound_of : Web → ℤ → ℤ → Option MemberInfo → Hub → Reply
inbound_of web limit offset none h = refused unauthorized
inbound_of web limit offset (some m) h =
    audit_reply (get_inbound_audit web.library h.store.index m.id (or_fifty limit) offset)

unfoldable pub handle_audit_inbound : Web → String → ℤ → ℤ → Hub → Reply
handle_audit_inbound web header limit offset h =
    inbound_of web limit offset (authenticate_member web header h) h

abbrev pub outbound_of : Web → ℤ → ℤ → Option MemberInfo → Hub → Reply
outbound_of web limit offset none h = refused unauthorized
outbound_of web limit offset (some m) h =
    audit_reply (get_outbound_audit web.library h.store.index m.id (or_fifty limit) offset)

unfoldable pub handle_audit_outbound : Web → String → ℤ → ℤ → Hub → Reply
handle_audit_outbound web header limit offset h =
    outbound_of web limit offset (authenticate_member web header h) h
