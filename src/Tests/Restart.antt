-- ===== src/Tests/Restart.antt =====
-- A history of a store and the log that it leaves.
use talkintent.Common.{◌≡◌, refl, some, [], arith}
use talkintent.Common.GoMap
use talkintent.Common.Effect.{◌>>=◌}
use talkintent.Store.Records.{status_queued, status_completed, status_dispatched}
use talkintent.Store.Journal.{Store, append_event, set_index}
use talkintent.Store.Queries.{create_query, update_query_status}
use talkintent.Store.Durable.View.{durable, map_values}
use talkintent.Store.Durable.Commit.{IsHealthy}
use talkintent.Store.Durable.Restart.{
  Reach, created, creates_query, updates_query, saves_binding, restart, restart_recovers, new_store,
  Reach-IsDurable,
}
use talkintent.Store.Durable.Completion.{update-completed_at, completed_of}
use talkintent.Store.Members.{save_feishu_binding}
use talkintent.Tests.Fixtures.{lib, lib-SealsBack, query, update, binding}

abbrev one_query : Store
one_query = (create_query 5 (query "q1" status_queued 0) (new_store "salt" [])).1

one_query-Reach : Reach lib one_query
unfolding new_store
one_query-Reach = creates_query 5 (query "q1" status_queued 0) refl (created "salt" [])

-- The query, its answer, and a bot binding.
abbrev answered : Store
answered =
    (save_feishu_binding lib "nonce" "mem_bob" binding
      (update_query_status 9 (update status_completed) one_query).1).1

answered-Reach : Reach lib answered
answered-Reach =
    saves_binding "nonce" "mem_bob" binding
      (updates_query 9 (update status_completed) (omega arith) one_query-Reach)

restart_recovers_example :
    let t = restart lib [] answered in
    (t.index.members ≡ answered.index.members)
    × (t.index.tokens ≡ answered.index.tokens)
    × (t.index.invites ≡ answered.index.invites)
    × (t.index.bindings ≡ answered.index.bindings)
    × (t.index.inbound ≡ answered.index.inbound)
    × (t.index.outbound ≡ answered.index.outbound)
    × (t.index.idempotency ≡ answered.index.idempotency)
    × (map_values durable t.index.queries ≡ map_values durable answered.index.queries)
restart_recovers_example = restart_recovers lib lib-SealsBack answered [] answered-Reach

one_query-IsHealthy : IsHealthy one_query
unfolding new_store create_query ◌>>=◌ append_event set_index
one_query-IsHealthy = record { opened = refl; no_faults = refl }

stored :
    GoMap.lookup "q1" one_query.index.queries
    ≡ some (record (query "q1" status_queued 0) { queue_position = 1 })
unfolding new_store create_query ◌>>=◌ append_event set_index
stored = refl

update-completed_at_example :
    let t = (update_query_status 7 (update status_dispatched) one_query).1 in
    (completed_of (GoMap.lookup "q1" t.index.queries) ≡ some 0)
    × (completed_of (GoMap.lookup "q1" (restart lib [] t).index.queries) ≡ some 7)
update-completed_at_example =
    update-completed_at lib 7 (update status_dispatched) one_query
      (record (query "q1" status_queued 0) { queue_position = 1 })
      (Reach-IsDurable lib lib-SealsBack one_query-Reach) one_query-IsHealthy (omega arith) stored
      refl
