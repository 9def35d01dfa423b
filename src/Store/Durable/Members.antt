-- ===== src/Store/Durable/Members.antt =====
-- internal/store/store.go: the changes of members, bindings and idempotency keys keep the log and
-- the indexes in step.
use talkintent.Common.{ℕ, String, Bool, true, false, ◌≡◌, ap, Option, some, List, arith, eq_iff}
use talkintent.Common.Int.{ℤ}
use talkintent.Common.GoMap
use talkintent.Common.Effect.{Keeps, keeps_rules, Keeps-or_raise_bind}
use talkintent.Store.Records.{FeishuBinding, no_binding}
use talkintent.Store.Library.{Library, SealsBack}
use talkintent.Store.State.{Index}
use talkintent.Store.Event.{
  PresenceUpdate, apply_event, member_updated, member_presence, feishu_binding_saved,
  feishu_binding_deleted, idempotency_indexed, rename, set_presence, set_bot, binding_of,
}
use talkintent.Store.Members.{
  update_member, set_member_online, save_feishu_binding, delete_feishu_binding,
}
use talkintent.Store.Queue.{save_idempotency_key}
use talkintent.Store.Durable.Commit.{IsDurable, Mirrors, Keeps-commit, Keeps-commit_then}

module _ (lib : Library) where
  member_updated-Mirrors :
      (id name : String) (aliases : List String) (x : Index)
      → Mirrors lib
          (member_updated id name aliases)
          (λ x. record x { members = GoMap.modify id (rename name aliases) x.members })
          x
  unfolding apply_event
  member_updated-Mirrors id name aliases x = record {
    same = λ a e.
        ap (λ (v : Index). record v { members = GoMap.modify id (rename name aliases) v.members })
          e;
    keyed = λ k. k;
  }

  presence-Mirrors :
      (p : PresenceUpdate) (x : Index)
      → Mirrors lib
          (member_presence p)
          (λ x. record x { members = GoMap.modify p.id (set_presence p) x.members })
          x
  unfolding apply_event
  presence-Mirrors p x = record {
    same = λ a e.
        ap (λ (v : Index). record v { members = GoMap.modify p.id (set_presence p) v.members }) e;
    keyed = λ k. k;
  }

  binding_deleted-Mirrors :
      (id : String) (x : Index)
      → Mirrors lib
          (feishu_binding_deleted id)
          (λ x. record x {
            bindings = GoMap.erase id x.bindings;
            members = GoMap.modify id (set_bot false) x.members;
          })
          x
  unfolding apply_event
  binding_deleted-Mirrors id x = record {
    same = λ a e.
        ap
          (λ (v : Index). record v {
            bindings = GoMap.erase id v.bindings;
            members = GoMap.modify id (set_bot false) v.members;
          })
          e;
    keyed = λ k. k;
  }

  abbrev put_binding : String → FeishuBinding → Index → Index
  put_binding id b x = record x {
    bindings = GoMap.insert id b x.bindings;
    members = GoMap.modify id (set_bot true) x.members;
  }

  binding_of-seal :
      SealsBack lib
      → (nonce ciphertext : String) (b : FeishuBinding) → lib.seal nonce b ≡ some ciphertext
      → binding_of lib no_binding ciphertext ≡ b
  binding_of-seal law nonce c b e =
      ground (arith, eq_iff c "", law.unseal-seal nonce b c e, law.seal_nonempty nonce b c e)

  binding_saved-Mirrors :
      SealsBack lib
      → (nonce ciphertext id : String) (b : FeishuBinding) → lib.seal nonce b ≡ some ciphertext
      → (x : Index)
      → Mirrors lib (feishu_binding_saved id no_binding ciphertext) (put_binding id b) x
  unfolding apply_event
  binding_saved-Mirrors law nonce c id b e x = record {
    same = λ a h. rw (binding_of-seal law nonce c b e) (ap (put_binding id b) h);
    keyed = λ k. k;
  }

  idempotency-Mirrors :
      (key id : String) (at : ℕ) (x : Index)
      → Mirrors lib
          (idempotency_indexed key id at)
          (λ x. record x {
            idempotency =
                GoMap.insert key (record { query_id = id; expires_at = at }) x.idempotency;
          })
          x
  unfolding apply_event
  idempotency-Mirrors key id at x = record {
    same = λ a e.
        ap
          (λ (v : Index). record v {
            idempotency =
                GoMap.insert key (record { query_id = id; expires_at = at }) v.idempotency;
          })
          e;
    keyed = λ k. k;
  }

  ruleset member_rules = (
    keeps_rules, Keeps-commit, Keeps-commit_then, member_updated-Mirrors, presence-Mirrors,
    binding_deleted-Mirrors, idempotency-Mirrors,
  )

  pub update_member-IsDurable :
      (id name : String) (aliases : List String)
      → Keeps (IsDurable lib) (update_member id name aliases)
  unfolding update_member
  update_member-IsDurable id name aliases = search member_rules depth 8

  pub set_member_online-IsDurable :
      (id : String) (online : Bool) (machine : String) (workspaces : Option (List String)) (now : ℕ)
      → Keeps (IsDurable lib) (set_member_online id online machine workspaces now)
  unfolding set_member_online
  set_member_online-IsDurable id online machine workspaces now = search member_rules depth 8

  pub delete_feishu_binding-IsDurable :
      (id : String) → Keeps (IsDurable lib) (delete_feishu_binding id)
  unfolding delete_feishu_binding
  delete_feishu_binding-IsDurable id = search member_rules

  -- What is sealed is read back, so the law of the encryption is used here.
  pub save_feishu_binding-IsDurable :
      SealsBack lib
      → (nonce id : String) (b : FeishuBinding)
      → Keeps (IsDurable lib) (save_feishu_binding lib nonce id b)
  unfolding save_feishu_binding
  save_feishu_binding-IsDurable law nonce id b =
      Keeps-or_raise_bind _ _ _
        λ c e. Keeps-commit lib _ (put_binding id b) (binding_saved-Mirrors law nonce c id b e)

  pub save_idempotency_key-IsDurable :
      (now : ℕ) (key id : String) (at : ℤ)
      → Keeps (IsDurable lib) (save_idempotency_key now key id at)
  unfolding save_idempotency_key
  save_idempotency_key-IsDurable now key id at = search member_rules
