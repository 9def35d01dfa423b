-- ===== src/Store/Members.antt =====
-- The member directory and the bot bindings: `UpdateMember`, `SetMemberOnline`, `ListMembers`,
-- `SaveFeishuBinding`, `GetFeishuBinding`, `DeleteFeishuBinding`, `ListFeishuBindings`.
use talkintent.Common.{ℕ, String, Bool, true, false, Option, List, map}
use talkintent.Common.Effect.{pure, gets, or_raise, ◌>>=◌, ◌>>◌}
use talkintent.Common.GoMap
use talkintent.Common.GoMap.{GoMap}
use talkintent.Store.Records.{MemberInfo, FeishuBinding, no_binding}
use talkintent.Store.Library.{Library}
use talkintent.Store.Event.{
  PresenceUpdate, member_updated, member_presence, feishu_binding_saved, feishu_binding_deleted,
  rename, set_presence, set_bot,
}
use talkintent.Store.Journal.{Action, not_found, seal_failed, append_event, set_index}

unfoldable pub update_member : String → String → List String → Action MemberInfo
update_member id name aliases = do
  members ← gets (λ s. s.index.members)
  m ← or_raise (GoMap.lookup id members) not_found
  append_event (member_updated id name aliases)
  set_index (λ x. record x { members = GoMap.modify id (rename name aliases) x.members })
  pure (rename name aliases m)

unfoldable pub set_member_online :
    String → Bool → String → Option (List String) → ℕ → Action (Unit {0})
set_member_online id online machine_name workspaces now = do
  members ← gets (λ s. s.index.members)
  m ← or_raise (GoMap.lookup id members) not_found
  let p : PresenceUpdate = record {
    id = id;
    online = online;
    machine_name = machine_name;
    workspaces = workspaces;
    last_seen_at = now;
  }
  append_event (member_presence p)
  set_index (λ x. record x { members = GoMap.modify id (set_presence p) x.members })

unfoldable pub list_members : Action (List MemberInfo)
list_members = do members ← gets (λ s. s.index.members); pure (map (λ e. e.1) members)

-- The first argument behind the library is the randomness of the encryption.
unfoldable pub save_feishu_binding : Library → String → String → FeishuBinding → Action (Unit {0})
save_feishu_binding lib nonce id binding = do
  ciphertext ← or_raise (lib.seal nonce binding) seal_failed
  append_event (feishu_binding_saved id no_binding ciphertext)
  set_index (λ x. record x {
    bindings = GoMap.insert id binding x.bindings;
    members = GoMap.modify id (set_bot true) x.members;
  })

unfoldable pub get_feishu_binding : String → Action FeishuBinding
get_feishu_binding id = do
  bindings ← gets (λ s. s.index.bindings)
  or_raise (GoMap.lookup id bindings) not_found

unfoldable pub list_feishu_bindings : Action (GoMap FeishuBinding)
list_feishu_bindings = gets (λ s. s.index.bindings)

unfoldable pub delete_feishu_binding : String → Action (Unit {0})
delete_feishu_binding id = do
  append_event (feishu_binding_deleted id)
  set_index (λ x. record x {
    bindings = GoMap.erase id x.bindings;
    members = GoMap.modify id (set_bot false) x.members;
  })
