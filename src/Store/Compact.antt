-- ===== src/Store/Compact.antt =====
-- `Compact` (internal/store/store.go): the snapshot that takes the place of the log. The library's
-- randomness for each binding is an argument, by the member's id, and so is what the file system
-- does: whether the temporary file is written, renamed, and opened again.
pub mod Sorted
pub mod Snapshot
pub mod Outcome
use Prim.Native.Nat.{Ordering}
use Prim.Native.String.{compare}
use talkintent.Common.{
  ℕ, String, Bool, true, false, ◌&&◌, not, Option, none, some, List, [], ◌∷◌, ◌++◌, map, ltb, leb,
  ◌==◌, if◌then◌else◌,
}
use talkintent.Common.GoMap
use talkintent.Common.GoMap.{GoMap}
use talkintent.Common.Effect.{Result, ok, err}
use talkintent.Store.Records.{
  MemberInfo, QueryDetail, StoredInvite, FeishuBinding, IdempotencyRecord, no_binding, omit_empty,
}
use talkintent.Store.Library.{Library}
use talkintent.Store.State.{Index}
use talkintent.Store.Event.{
  Event, member_created, member_token_indexed, invite_created, feishu_binding_saved, query_created,
  idempotency_indexed,
}
use talkintent.Store.Journal.{Store, Error, Action, closed, write_failed}

-- `a < b` on texts
abbrev pub str_less : String → String → Bool
str_less a b = elim (compare a b) [ Ordering.lt ↦ true | _ ↦ false ]

module _ {V : Type 0} where
  abbrev pub place_entry : (String × V → String × V → Bool) → String × V → GoMap V → GoMap V
  place_entry less e [] = e ∷ []
  place_entry less e (x ∷ xs) =
      let rest = place_entry less e xs in if less e x then e ∷ x ∷ xs else x ∷ rest

  -- `sort.Strings` of the keys, or `sort.Slice`
  abbrev pub sort_entries : (String × V → String × V → Bool) → GoMap V → GoMap V
  sort_entries less [] = []
  sort_entries less (e ∷ es) = place_entry less e (sort_entries less es)

  abbrev pub by_key : String × V → String × V → Bool
  by_key a b = str_less a.0 b.0

abbrev pub by_creation : String × QueryDetail → String × QueryDetail → Bool
by_creation a b =
    if a.1.created_at == b.1.created_at
    then str_less a.1.query_id b.1.query_id
    else ltb a.1.created_at b.1.created_at

-- The line leaves an empty list of workspaces out.
abbrev pub logged_member : MemberInfo → MemberInfo
logged_member m = record m { workspaces = omit_empty m.workspaces }

abbrev pub member_events : GoMap MemberInfo → List Event
member_events [] = []
member_events ((k, m) ∷ rest) = member_created (logged_member m) ∷ member_events rest

abbrev pub token_events : GoMap String → List Event
token_events [] = []
token_events ((hash, id) ∷ rest) = member_token_indexed hash id ∷ token_events rest

-- Invitations that are used up or over are left out.
abbrev pub invite_events : ℕ → GoMap StoredInvite → List Event
invite_events now [] = []
invite_events now ((k, i) ∷ rest) =
    let more = invite_events now rest in
    if not i.consumed && ltb now i.expires_at then invite_created i ∷ more else more

-- A binding that cannot be sealed is left out.
abbrev pub sealed_event : String → Option String → List Event
sealed_event id none = []
sealed_event id (some c) = feishu_binding_saved id no_binding c ∷ []

abbrev pub binding_events : Library → (String → String) → GoMap FeishuBinding → List Event
binding_events lib nonce [] = []
binding_events lib nonce ((id, b) ∷ rest) =
    sealed_event id (lib.seal (nonce id) b) ++ binding_events lib nonce rest

-- The line leaves an empty list of tools out.
abbrev pub logged_query : QueryDetail → QueryDetail
logged_query q = record q { tools_used = omit_empty q.tools_used }

abbrev pub query_events : GoMap QueryDetail → List Event
query_events [] = []
query_events ((k, q) ∷ rest) = query_created (logged_query q) ∷ query_events rest

abbrev pub key_events : ℕ → GoMap IdempotencyRecord → List Event
key_events now [] = []
key_events now ((k, r) ∷ rest) =
    let more = key_events now rest in
    if leb now r.expires_at then idempotency_indexed k r.query_id r.expires_at ∷ more else more

-- Steps 1 to 4: what stands before the queries
abbrev pub account_events : Library → (String → String) → ℕ → Index → List Event
account_events lib nonce now x =
    member_events (sort_entries by_key x.members)
    ++ token_events (sort_entries by_key x.tokens)
    ++ invite_events now (sort_entries by_key x.invites)
    ++ binding_events lib nonce (sort_entries by_key x.bindings)

unfoldable pub snapshot : Library → (String → String) → ℕ → Index → List Event
snapshot lib nonce now x =
    account_events lib nonce now x
    ++ query_events (sort_entries by_creation x.queries)
    ++ key_events now (sort_entries by_key x.idempotency)

-- What the file system does.
pub record Disk : Type 0 where
  pub writes_copy : Bool
  pub renames : Bool
  pub reopens : Bool

-- The open log is closed before the snapshot takes its place.
unfoldable pub compact : Library → (String → String) → ℕ → Disk → Action (Unit {0})
compact lib nonce now disk s =
    let events = snapshot lib nonce now s.index in
    if not s.is_open
    then (err closed, s)
    else (if not disk.writes_copy
        then (err write_failed, s)
        else (if not disk.renames
            then (err write_failed, record s { is_open = false })
            else (if disk.reopens
                then (ok tt, record s { log = events })
                else (err write_failed, record s { log = events; is_open = false }))))
