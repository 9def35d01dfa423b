-- ===== src/Store/Pairing.antt =====
-- Invitations and pairing: `HashToken`, `HashTokenWithSalt`, `CreateInvite`, `ConsumeInvite`,
-- `GetMember` and `GetMemberByToken`. A reading of the clock and a draw of `RandomHex` are
-- arguments; `none` is a draw that fails.
use talkintent.Common.{
  ℕ, ◌+◌, ◌-◌, ◌*◌, ◌/◌, ◌%◌, ◌^◌, String, Bool, true, false, ◌||◌, Option, none, some, List, ltb,
  if◌then◌else◌,
}
use talkintent.Common.Int.{ℤ, is_positive, clamp_zero}
use talkintent.Common.Effect.{pure, gets, or_raise, raise, ◌>>=◌, ◌>>◌}
use talkintent.Common.GoMap
use talkintent.Common.GoMap.{GoMap}
use talkintent.Store.Records.{MemberInfo, StoredInvite}
use talkintent.Store.Library.{Library}
use talkintent.Store.Event.{invite_created, invite_consumed, member_created, member_token_indexed}
use talkintent.Store.Journal.{
  Action, not_found, invalid_invite, no_entropy, append_event, set_index,
}

unfoldable pub hash_token : Library → String → String
hash_token lib token = lib.sha256_hex (lib.trim_space token)

unfoldable pub hash_token_with_salt : Library → String → String → String
hash_token_with_salt lib token salt = lib.hmac_sha256_hex salt (lib.trim_space token)

pub record InviteCreated : Type 0 where
  pub code : String
  pub expires_at : ℕ
  pub target_name : String

-- "INV-%s-%s" over the two halves of the random text, in capitals.
unfoldable pub invite_code : Library → String → String
invite_code lib raw = lib.join "INV-" (
    lib.join (lib.to_upper (lib.front_eight raw))
      (lib.join "-" (lib.to_upper (lib.after_eight raw))))

abbrev pub invite_hours : ℤ → ℕ
invite_hours hours = if is_positive hours then clamp_zero hours else 48

-- `time.Now().Add(time.Duration(hours) * time.Hour).UnixMilli()`; the product is an int64 of
-- nanoseconds, which wraps around, and a time before 1970 counts as 0.
abbrev pub invite_expiry : ℕ → ℕ → ℕ
invite_expiry now hours =
    let d = hours * 3600000000000 % 2 ^ 64 in
    if ltb d (2 ^ 63) then now + d / 1000000 else (now * 1000000 - (2 ^ 64 - d)) / 1000000

unfoldable pub create_invite :
    Library → Option String → ℕ → String → List String → ℤ → Action InviteCreated
unfolding hash_token_with_salt invite_code
create_invite lib raw now target_name aliases hours = do
  drawn ← or_raise raw no_entropy
  let code = invite_code lib drawn
  salt ← gets (λ s. s.salt)
  let hash = hash_token_with_salt lib code salt
  let expires_at = invite_expiry now (invite_hours hours)
  let inv : StoredInvite = record {
    code_hash = hash;
    target_name = target_name;
    aliases = aliases;
    expires_at = expires_at;
    consumed = false;
  }
  append_event (invite_created inv)
  set_index (λ x. record x { invites = GoMap.insert hash inv x.invites })
  pure (record { code = code; expires_at = expires_at; target_name = target_name })

pub record Paired : Type 0 where
  pub member_id : String
  pub member_name : String
  pub token : String

abbrev tagged : String → Option StoredInvite → Option (String × StoredInvite)
tagged hash none = none
tagged hash (some inv) = some (hash, inv)

-- The salted hash, and the plain hash of older invitations if the first is unknown.
unfoldable pub find_invite :
    Library → String → GoMap StoredInvite → String → Option (String × StoredInvite)
unfolding hash_token hash_token_with_salt
find_invite lib salt invites code =
    let hash = hash_token_with_salt lib code salt in
    let legacy = hash_token lib code in
    elim (GoMap.lookup hash invites) [
      | some inv ↦ some (hash, inv)
      | none ↦ tagged legacy (GoMap.lookup legacy invites)
    ]

abbrev pub new_member : String → StoredInvite → ℕ → String → MemberInfo
new_member id inv now machine_name = record {
  id = id;
  name = inv.target_name;
  aliases = inv.aliases;
  online = false;
  last_seen_at = now;
  machine_name = machine_name;
  workspaces = none;
  has_feishu_bot = false;
}

-- The part of `ConsumeInvite` behind the checks: three events, and after each the index that it
-- is about.
unfoldable pub pair_member :
    Library → String → StoredInvite → String → String → ℕ → String → Action Paired
pair_member lib hash inv id token created_now machine_name = do
  let token_hash = hash_token lib token
  append_event (invite_consumed hash)
  set_index
      (λ x. record x { invites = GoMap.modify hash (λ i. record i { consumed = true }) x.invites })
  let m = new_member id inv created_now machine_name
  append_event (member_created m)
  set_index (λ x. record x { members = GoMap.insert id m x.members })
  append_event (member_token_indexed token_hash id)
  set_index (λ x. record x { tokens = GoMap.insert token_hash id x.tokens })
  pure (record { member_id = id; member_name = inv.target_name; token = token })

abbrev pub is_spent : StoredInvite → ℕ → Bool
is_spent inv now = inv.consumed || ltb inv.expires_at now

unfoldable pub consume_invite :
    Library → Option String → Option String → ℕ → ℕ → String → String → Action Paired
unfolding find_invite
consume_invite lib id_raw token_raw now created_now invite_code machine_name = do
  salt ← gets (λ s. s.salt)
  invites ← gets (λ s. s.index.invites)
  (hash, inv) ← or_raise (find_invite lib salt invites (lib.trim_space invite_code)) invalid_invite
  if is_spent inv now then raise invalid_invite else do
    drawn_id ← or_raise id_raw no_entropy
    drawn_token ← or_raise token_raw no_entropy
    pair_member lib hash inv (lib.join "mem_" drawn_id) (lib.join "ti_mem_" drawn_token) created_now
        machine_name

unfoldable pub get_member : String → Action MemberInfo
get_member id = do
  members ← gets (λ s. s.index.members)
  or_raise (GoMap.lookup id members) not_found

unfoldable pub get_member_by_token : Library → String → Action MemberInfo
get_member_by_token lib token = do
  tokens ← gets (λ s. s.index.tokens)
  id ← or_raise (GoMap.lookup (hash_token lib token) tokens) not_found
  members ← gets (λ s. s.index.members)
  or_raise (GoMap.lookup id members) not_found
