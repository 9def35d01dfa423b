-- ===== src/Store/Durable/Pairing.antt =====
-- internal/store/store.go: `CreateInvite` and `ConsumeInvite` against the replay of their events.
use talkintent.Common.{ℕ, String, true, ap, Option, List}
use talkintent.Common.Int.{ℤ}
use talkintent.Common.GoMap
use talkintent.Common.Effect.{Keeps, keeps_rules}
use talkintent.Store.Records.{MemberInfo, StoredInvite}
use talkintent.Store.Library.{Library}
use talkintent.Store.State.{Index}
use talkintent.Store.Event.{
  apply_event, invite_created, invite_consumed, member_created, member_token_indexed,
}
use talkintent.Store.Pairing.{create_invite, consume_invite, pair_member}
use talkintent.Store.Durable.Commit.{IsDurable, Mirrors, Keeps-commit, Keeps-commit_then}

module _ (lib : Library) where
  invite_created-Mirrors :
      (inv : StoredInvite) (x : Index)
      → Mirrors lib
          (invite_created inv)
          (λ x. record x { invites = GoMap.insert inv.code_hash inv x.invites })
          x
  unfolding apply_event
  invite_created-Mirrors inv x = record {
    same = λ a e.
        ap (λ (v : Index). record v { invites = GoMap.insert inv.code_hash inv v.invites }) e;
    keyed = λ k. k;
  }

  invite_consumed-Mirrors :
      (hash : String) (x : Index)
      → Mirrors lib
          (invite_consumed hash)
          (λ x. record x {
            invites = GoMap.modify hash (λ i. record i { consumed = true }) x.invites;
          })
          x
  unfolding apply_event
  invite_consumed-Mirrors hash x = record {
    same = λ a e.
        ap
          (λ (v : Index). record v {
            invites = GoMap.modify hash (λ i. record i { consumed = true }) v.invites;
          })
          e;
    keyed = λ k. k;
  }

  member_created-Mirrors :
      (m : MemberInfo) (x : Index)
      → Mirrors lib (member_created m) (λ x. record x { members = GoMap.insert m.id m x.members }) x
  unfolding apply_event
  member_created-Mirrors m x = record {
    same = λ a e. ap (λ (v : Index). record v { members = GoMap.insert m.id m v.members }) e;
    keyed = λ k. k;
  }

  token_indexed-Mirrors :
      (hash id : String) (x : Index)
      → Mirrors lib
          (member_token_indexed hash id)
          (λ x. record x { tokens = GoMap.insert hash id x.tokens })
          x
  unfolding apply_event
  token_indexed-Mirrors hash id x = record {
    same = λ a e. ap (λ (v : Index). record v { tokens = GoMap.insert hash id v.tokens }) e;
    keyed = λ k. k;
  }

  ruleset pairing_rules = (
    keeps_rules, Keeps-commit, Keeps-commit_then, invite_created-Mirrors, invite_consumed-Mirrors,
    member_created-Mirrors, token_indexed-Mirrors,
  )

  pub create_invite-IsDurable :
      (raw : Option String) (now : ℕ) (name : String) (aliases : List String) (hours : ℤ)
      → Keeps (IsDurable lib) (create_invite lib raw now name aliases hours)
  unfolding create_invite
  create_invite-IsDurable raw now name aliases hours = search pairing_rules

  pair_member-IsDurable :
      (hash : String) (inv : StoredInvite) (id token : String) (now : ℕ) (machine : String)
      → Keeps (IsDurable lib) (pair_member lib hash inv id token now machine)
  unfolding pair_member
  pair_member-IsDurable hash inv id token now machine = search pairing_rules

  pub consume_invite-IsDurable :
      (id_raw token_raw : Option String) (now created_now : ℕ) (code machine : String)
      → Keeps (IsDurable lib) (consume_invite lib id_raw token_raw now created_now code machine)
  unfolding consume_invite
  consume_invite-IsDurable id_raw token_raw now created_now code machine =
      search (keeps_rules, pair_member-IsDurable) depth 9
