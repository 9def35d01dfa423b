-- ===== src/Store/Durable/Restart.antt =====
-- internal/store/store.go: histories of a store, from an empty data directory through any methods
-- and restarts, and what a restart gives back.
use talkintent.Common.{ℕ, ◌<◌, String, Bool, true, ◌≡◌, refl, sym, ap, Option, none, List, []}
use mathlib.Core.Path.{subst}
use talkintent.Common.Int.{ℤ}
use talkintent.Common.GoMap
use talkintent.Store.Records.{QueryDetail, FeishuBinding}
use talkintent.Store.Library.{Library, SealsBack}
use talkintent.Store.State.{Index, empty_index}
use talkintent.Store.Event.{QueryUpdate, replay_from}
use talkintent.Store.Journal.{Store, close}
use talkintent.Store.Pairing.{create_invite, consume_invite}
use talkintent.Store.Members.{
  update_member, set_member_online, save_feishu_binding, delete_feishu_binding,
}
use talkintent.Store.Queries.{create_query, update_query_status, get_query}
use talkintent.Store.Queue.{
  requeue_in_flight_queries, sweep_expired_queries, get_queued_queries_for_member,
  save_idempotency_key,
}
use talkintent.Store.Durable.View.{durable, map_values, IsKeyed, map_values-IsKeyed}
use talkintent.Store.Durable.Commit.{IsDurable, IsSound, IsHealthy}
use talkintent.Store.Durable.Pairing.{create_invite-IsDurable, consume_invite-IsDurable}
use talkintent.Store.Durable.Members.{
  update_member-IsDurable, set_member_online-IsDurable, save_feishu_binding-IsDurable,
  delete_feishu_binding-IsDurable, save_idempotency_key-IsDurable,
}
use talkintent.Store.Durable.Queries.{create_query-IsDurable, update_query_status-IsDurable}
use talkintent.Store.Durable.Queue.{
  get_query-IsSound, requeue_in_flight_queries-IsSound, sweep_expired_queries-IsSound,
  get_queued_queries_for_member-IsSound,
}

-- `NewJSONLStore` in a directory without events; the list says which writes will be refused.
unfoldable pub new_store : String → List Bool → Store
new_store salt writes = record {
  index = empty_index;
  salt = salt;
  is_open = true;
  log = [];
  writes = writes;
}

-- `NewJSONLStore` over the log that a store has left behind.
unfoldable pub restart : Library → List Bool → Store → Store
restart lib writes s = record s {
  index = replay_from lib empty_index s.log;
  is_open = true;
  writes = writes;
}

-- Which of the next writes will be refused is settled anew at any point, so that a healthy file,
-- which a method that drops the error of a write wants, says nothing of the methods behind it. The
-- clock is past zero; the id of a new query is fresh. `Compact` is not among the methods: the order
-- of the maps does not outlive it.
pub data Reach (lib : Library) : Store → Type 0 where
  created : (salt : String) (writes : List Bool) → Reach lib (new_store salt writes)
  faults : {s : Store} (writes : List Bool) → Reach lib s → Reach lib (record s { writes = writes })
  restarted : {s : Store} (writes : List Bool) → Reach lib s → Reach lib (restart lib writes s)
  closes : {s : Store} → Reach lib s → Reach lib (close s).1
  invites :
      {s : Store} (raw : Option String) (now : ℕ) (name : String) (aliases : List String)
      (hours : ℤ)
      → Reach lib s
      → Reach lib (create_invite lib raw now name aliases hours s).1
  pairs :
      {s : Store} (id_raw token_raw : Option String) (now created_now : ℕ) (code machine : String)
      → Reach lib s
      → Reach lib (consume_invite lib id_raw token_raw now created_now code machine s).1
  updates_member :
      {s : Store} (id name : String) (aliases : List String)
      → Reach lib s
      → Reach lib (update_member id name aliases s).1
  sets_online :
      {s : Store} (id : String) (online : Bool) (machine : String) (w : Option (List String))
      (now : ℕ)
      → Reach lib s
      → Reach lib (set_member_online id online machine w now s).1
  saves_binding :
      {s : Store} (nonce id : String) (b : FeishuBinding)
      → Reach lib s
      → Reach lib (save_feishu_binding lib nonce id b s).1
  deletes_binding :
      {s : Store} (id : String) → Reach lib s → Reach lib (delete_feishu_binding id s).1
  creates_query :
      {s : Store} (now : ℕ) (q : QueryDetail)
      → GoMap.lookup q.query_id s.index.queries ≡ none
      → Reach lib s
      → Reach lib (create_query now q s).1
  updates_query :
      {s : Store} (now : ℕ) (u : QueryUpdate)
      → 0 < now
      → Reach lib s
      → Reach lib (update_query_status now u s).1
  gets_query :
      {s : Store} (now : ℕ) (id : String)
      → 0 < now
      → IsHealthy s
      → Reach lib s
      → Reach lib (get_query now id s).1
  requeues :
      {s : Store} (now : ℕ) (id : String)
      → 0 < now
      → IsHealthy s
      → Reach lib s
      → Reach lib (requeue_in_flight_queries now id s).1
  sweeps :
      {s : Store} (now : ℕ)
      → 0 < now
      → IsHealthy s
      → Reach lib s
      → Reach lib (sweep_expired_queries now s).1
  lists_queue :
      {s : Store} (now : ℕ) (id : String)
      → 0 < now
      → IsHealthy s
      → Reach lib s
      → Reach lib (get_queued_queries_for_member now id s).1
  saves_key :
      {s : Store} (now : ℕ) (key id : String) (at : ℤ)
      → Reach lib s
      → Reach lib (save_idempotency_key now key id at s).1

module _ (lib : Library) where
  new_store-IsDurable : (salt : String) (writes : List Bool) → IsDurable lib (new_store salt writes)
  unfolding new_store replay_from
  new_store-IsDurable salt writes = record { same_view = refl; keyed = tt }

  restart-IsDurable :
      (writes : List Bool) (s : Store) → IsDurable lib s → IsDurable lib (restart lib writes s)
  unfolding restart
  restart-IsDurable writes s d = record {
    same_view = refl;
    keyed = (map_values-IsKeyed _).1 (
        subst (λ (v : Index). IsKeyed v.queries) (sym d.same_view)
          ((map_values-IsKeyed s.index.queries).0 d.keyed));
  }

  close-IsDurable : (s : Store) → IsDurable lib s → IsDurable lib (close s).1
  unfolding close
  close-IsDurable s d = record { same_view = d.same_view; keyed = d.keyed }

  sound : {s : Store} → IsDurable lib s → IsHealthy s → IsSound lib s
  sound d h = record { is_durable = d; healthy = h }

  module _ (law : SealsBack lib) where
    pub Reach-IsDurable : {s : Store} → Reach lib s → IsDurable lib s
    Reach-IsDurable (created salt writes) = new_store-IsDurable salt writes
    Reach-IsDurable (faults writes r) =
        let d = Reach-IsDurable r in record { same_view = d.same_view; keyed = d.keyed }
    Reach-IsDurable (restarted writes r) = restart-IsDurable writes _ (Reach-IsDurable r)
    Reach-IsDurable (closes r) = close-IsDurable _ (Reach-IsDurable r)
    Reach-IsDurable (invites raw now name aliases hours r) =
        (create_invite-IsDurable lib raw now name aliases hours).at _ (Reach-IsDurable r)
    Reach-IsDurable (pairs id_raw token_raw now created_now code machine r) =
        (consume_invite-IsDurable lib id_raw token_raw now created_now code machine).at _
          (Reach-IsDurable r)
    Reach-IsDurable (updates_member id name aliases r) =
        (update_member-IsDurable lib id name aliases).at _ (Reach-IsDurable r)
    Reach-IsDurable (sets_online id online machine w now r) =
        (set_member_online-IsDurable lib id online machine w now).at _ (Reach-IsDurable r)
    Reach-IsDurable (saves_binding nonce id b r) =
        (save_feishu_binding-IsDurable lib law nonce id b).at _ (Reach-IsDurable r)
    Reach-IsDurable (deletes_binding id r) =
        (delete_feishu_binding-IsDurable lib id).at _ (Reach-IsDurable r)
    Reach-IsDurable (creates_query now q fresh r) =
        create_query-IsDurable lib now q _ fresh (Reach-IsDurable r)
    Reach-IsDurable (updates_query now u later r) =
        (update_query_status-IsDurable lib now u later).at _ (Reach-IsDurable r)
    Reach-IsDurable (gets_query now id later h r) =
        ((get_query-IsSound lib now id later).at _ (sound (Reach-IsDurable r) h)).is_durable
    Reach-IsDurable (requeues now id later h r) =
        ((requeue_in_flight_queries-IsSound lib now later id).at _
          (sound (Reach-IsDurable r) h)).is_durable
    Reach-IsDurable (sweeps now later h r) =
        ((sweep_expired_queries-IsSound lib now later).at _
          (sound (Reach-IsDurable r) h)).is_durable
    Reach-IsDurable (lists_queue now id later h r) =
        ((get_queued_queries_for_member-IsSound lib now later id).at _
          (sound (Reach-IsDurable r) h)).is_durable
    Reach-IsDurable (saves_key now key id at r) =
        (save_idempotency_key-IsDurable lib now key id at).at _ (Reach-IsDurable r)

-- If encryption can be undone, then after any history of the methods but `Compact`, of refused
-- writes, closings and restarts, a restart rebuilds from the log the members, the tokens, the invitations, the bot
-- bindings, the two audit trails and the idempotency keys exactly, and each query up to its queue
-- position, its time of completion while it is not final, its token counts once it was requeued
-- or expired, and an empty list of tools in place of a missing one.
-- In the history the clock is past zero, the id of a new query is fresh, and while a method runs
-- that drops the error of a write, the file is open and no write is refused.
pub restart_recovers :
    (lib : Library)
    → SealsBack lib
    → (s : Store) (writes : List Bool) → Reach lib s
    → let t = restart lib writes s in
      (t.index.members ≡ s.index.members)
      × (t.index.tokens ≡ s.index.tokens)
      × (t.index.invites ≡ s.index.invites)
      × (t.index.bindings ≡ s.index.bindings)
      × (t.index.inbound ≡ s.index.inbound)
      × (t.index.outbound ≡ s.index.outbound)
      × (t.index.idempotency ≡ s.index.idempotency)
      × (map_values durable t.index.queries ≡ map_values durable s.index.queries)
unfolding restart
restart_recovers lib law s writes r =
    let d = Reach-IsDurable lib law r in
    (
      ap (λ (v : Index). v.members) d.same_view,
      ap (λ (v : Index). v.tokens) d.same_view,
      ap (λ (v : Index). v.invites) d.same_view,
      ap (λ (v : Index). v.bindings) d.same_view,
      ap (λ (v : Index). v.inbound) d.same_view,
      ap (λ (v : Index). v.outbound) d.same_view,
      ap (λ (v : Index). v.idempotency) d.same_view,
      ap (λ (v : Index). v.queries) d.same_view,
    )
