-- ===== src/Hub/Access.antt =====
-- internal/hub/hub.go: `authenticateMember`, `authenticateAdmin`, and the answers of the HTTP
-- handlers. A request's `Authorization` header is a text, empty where there is none.
use talkintent.Common.{ℕ, String, Bool, false, Option, none, some, List, str_eq}
use talkintent.Common.Effect.{Result, ok, err}
use talkintent.Store.Records.{MemberInfo, CandidateMember, QueryDetail}
use talkintent.Store.Library.{Library}
use talkintent.Store.Audit.{AuditEntry}
use talkintent.Store.Pairing.{InviteCreated, Paired, get_member_by_token}
use talkintent.Hub.State.{Hub}

-- What the handlers use of the standard library beside what the store does. `cut_prefix p t` is
-- `strings.TrimPrefix(t, p)` where `strings.HasPrefix(t, p)`, and `none` where it is not.
pub record Web : Type 0 where
  pub library : Library
  pub cut_prefix : String → String → Option String

-- The status and the code of an error, by what they mean.
pub data Refusal : Type 0 where
  unauthorized forbidden rate_limited invalid_argument not_found internal_error : Refusal

pub data Reply : Type 0 where
  refused : Refusal → Reply
  ambiguous_target : List CandidateMember → Reply
  -- 200 with a query, 202 with one, and the answers of the other handlers
  detail : QueryDetail → Reply
  accepted : QueryDetail → Reply
  paired : Paired → Reply
  invited : InviteCreated → Reply
  members : List MemberInfo → Reply
  member : MemberInfo → Reply
  audit : ℕ → List AuditEntry → Reply
  -- the handler panicked, or returned without a word
  panicked silent : Reply

abbrev pub to_option {ℓ κ} : {E : Type ℓ} → {A : Type κ} → Result E A → Option A
to_option (ok a) = some a
to_option (err e) = none

abbrev pub member_with : Web → Hub → Option String → Option MemberInfo
member_with web h none = none
member_with web h (some token) = to_option (get_member_by_token web.library token h.store).0

abbrev pub authenticate_member : Web → String → Hub → Option MemberInfo
authenticate_member web header h = member_with web h (web.cut_prefix "Bearer " header)

-- `ConstantTimeCompare` of two texts is 1 where they are equal.
abbrev pub is_admin_token : Hub → Option String → Bool
is_admin_token h none = false
is_admin_token h (some token) = str_eq token h.cfg.admin_token

abbrev pub authenticate_admin : Web → String → Hub → Bool
authenticate_admin web header h = is_admin_token h (web.cut_prefix "Bearer " header)
