-- ===== src/Tests/Queries.antt =====
-- The queue and the trails of a store with three queries.
use mathlib.Core.Option
use talkintent.Common.{◌+◌, ◌-◌, ◌^◌, ◌≡◌, refl, none, some, [], ◌∷◌, length, arith, if◌then◌else◌}
use talkintent.Common.Int.{pos}
use talkintent.Common.GoMap
use talkintent.Common.Effect.{ok}
use talkintent.Store.Records.{status_queued}
use talkintent.Store.Queries.{queue_position, audit_of}
use talkintent.Store.Queue.{
  numbered, get_queued_queries_for_member, sweep_expired_queries, requeue_in_flight_queries,
}
use talkintent.Store.Rounds.{contains}
use talkintent.Store.Rounds.Expiry.{expire_if, requeue_if, lookup-sweep, lookup-requeue}
use talkintent.Store.Positions.{line, get_queued-line, queue_position-line}
use talkintent.Store.Audit.{page_of, get_inbound_audit}
use talkintent.Store.Pages.{get_inbound-panic}
use talkintent.Tests.Fixtures.{lib, store, query}

lookup-sweep_example :
    GoMap.lookup "q2" (sweep_expired_queries 100 store).1.index.queries
    ≡ Option.map (expire_if 100) (GoMap.lookup "q2" store.index.queries)
lookup-sweep_example = lookup-sweep 100 "q2" store

lookup-requeue_example :
    GoMap.lookup "q2" (requeue_in_flight_queries 10 "mem_bob" store).1.index.queries ≡ (
      if contains "q2" (audit_of "mem_bob" store.index.inbound)
      then Option.map (requeue_if 10) (GoMap.lookup "q2" store.index.queries)
      else GoMap.lookup "q2" store.index.queries)
lookup-requeue_example = lookup-requeue 10 "q2" store "mem_bob"

get_queued-line_example :
    (get_queued_queries_for_member 100 "mem_bob" store).0
    ≡ ok (numbered 0 (line 100 store.index.queries (audit_of "mem_bob" store.index.inbound)))
get_queued-line_example = get_queued-line 100 "mem_bob" store

queue_position-line_example :
    queue_position 100 store.index "q3" "mem_bob"
    ≡ length (line 100 store.index.queries ("q1" ∷ "q2" ∷ [])) + 1
queue_position-line_example =
    queue_position-line 100 store.index "q3" "mem_bob" (query "q3" status_queued 0)
      ("q1" ∷ "q2" ∷ []) [] refl refl refl refl

first_page : page_of ("q1" ∷ "q2" ∷ "q3" ∷ []) (pos 1) (pos 0) ≡ some ("q3" ∷ [])
unfolding page_of
first_page = refl

second_page : page_of ("q1" ∷ "q2" ∷ "q3" ∷ []) (pos 2) (pos 1) ≡ some ("q2" ∷ "q1" ∷ [])
unfolding page_of
second_page = refl

get_inbound-panic_example :
    get_inbound_audit lib store.index "mem_bob" (pos (2 ^ 63 - 1)) (pos 1) ≡ none
get_inbound-panic_example =
    get_inbound-panic lib store.index "mem_bob" (2 ^ 63 - 1) 1 (omega arith) (omega arith)
      (omega arith)
