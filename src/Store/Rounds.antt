-- ===== src/Store/Rounds.antt =====
-- internal/store/store.go: the loops of `SweepExpiredQueries`, `RequeueInFlightQueries` and
-- `GetQueuedQueriesForMember`. Each comes down to one change that is made
-- to the queries that it visits, however often it visits them.
pub mod Expiry
pub mod Trail
use mathlib.Core.Option
use talkintent.Common.{
  ℕ, ◌+◌, String, Bool, true, false, ◌&&◌, ◌||◌, ◌≡◌, refl, ap, ◌∙◌, sym, Option, none, some, List,
  [], ◌∷◌, ◌++◌, map, arith, eq_iff, Option-cases, Bool-cases, inl, inr, str_eq, if◌then◌else◌,
}
use talkintent.Common.GoMap
use talkintent.Common.GoMap.{GoMap}
use talkintent.Common.Effect.{Result, ok, err, pure, bind_ok, state-bind-pure, ◌>>=◌, ◌>>◌}
use talkintent.Store.Records.{
  QueryDetail, is_waiting, status_dispatched, status_queued, status_expired,
}
use talkintent.Store.Event.{Event, query_updated}
use talkintent.Store.Journal.{Store, Action, append_event, set_index}
use talkintent.Store.Queries.{
  is_stale, set_expired, expire_query, change_query, log_only, audit_of, bare_update,
}
use talkintent.Store.Queue.{
  set_queued, found_query, with_query, each_query, requeue_one, sweep_one, queued_one,
  requeue_in_flight_queries, sweep_expired_queries, get_queued_queries_for_member,
}

abbrev pub contains : String → List String → Bool
contains k [] = false
contains k (i ∷ ids) = str_eq i k || contains k ids

-- The query under `k` after `f` was applied to the one under `id`.
abbrev pub changed_at : (QueryDetail → QueryDetail) → Bool → Option QueryDetail → Option QueryDetail
changed_at f hit o = if hit then Option.map f o else o

-- A round that returns, and changes the query under its id by `f`.
pub record Changes {A : Type 0} (f : QueryDetail → QueryDetail) (id : String) (m : Action A)
    (s : Store) : Type 0 where
  pub result : A
  pub returns : (m s).0 ≡ ok result
  pub changes :
      (k : String)
      → GoMap.lookup k (m s).1.index.queries
        ≡ changed_at f (str_eq id k) (GoMap.lookup k s.index.queries)

changed_twice :
    (f : QueryDetail → QueryDetail)
    → ((q : QueryDetail) → f (f q) ≡ f q)
    → (a b : Bool) (o : Option QueryDetail)
    → changed_at f b (changed_at f a o) ≡ changed_at f (a || b) o
changed_twice f idem true true none = refl
changed_twice f idem true true (some q) = ap some (idem q)
changed_twice f idem true false o = refl
changed_twice f idem false true o = refl
changed_twice f idem false false o = refl

module _ {A : Type 0} (f : QueryDetail → QueryDetail) (idem : (q : QueryDetail) → f (f q) ≡ f q)
    (round : String → QueryDetail → Action A)
    (round_changes : (id : String) (q : QueryDetail) (s : Store)
      → GoMap.lookup id s.index.queries ≡ some q
      → Changes f id (round id q) s) where
  found_query-Changes :
      (a : A) (id : String) (o : Option QueryDetail) (s : Store)
      → GoMap.lookup id s.index.queries ≡ o
      → Changes f id (found_query o a (round id)) s
  unfolding found_query
  found_query-Changes a id none s e = record {
    result = a;
    returns = refl;
    changes = λ k. ground (arith, eq_iff id k);
  }
  found_query-Changes a id (some q) s e =
      let c = round_changes id q s e in
      record { result = c.result; returns = c.returns; changes = c.changes }

  pub with_query-Changes :
      (a : A) (id : String) (s : Store) → Changes f id (with_query id a (round id)) s
  unfolding with_query
  with_query-Changes a id s =
      let c = found_query-Changes a id (GoMap.lookup id s.index.queries) s refl in
      record { result = c.result; returns = c.returns; changes = c.changes }

  -- The loop changes exactly the queries whose ids it is given.
  pub each_query_lem :
      (add : A → A → A) (a : A) (ids : List String) (k : String) (s : Store)
      → GoMap.lookup k (each_query add a round ids s).1.index.queries
        ≡ changed_at f (contains k ids) (GoMap.lookup k s.index.queries)
  unfolding each_query
  each_query_lem add a [] k s = unfold pure in refl
  each_query_lem add a (id ∷ rest) k s =
      let c = with_query-Changes a id s in
      ap (λ (p : Result _ A × Store). GoMap.lookup k p.1.index.queries)
        (bind_ok (with_query id a (round id)) _ s c.result c.returns)
      ∙ ap (λ (t : Store). GoMap.lookup k t.index.queries)
          (state-bind-pure (each_query add a round rest) (add c.result) _)
      ∙ each_query_lem add a rest k _
      ∙ ap (changed_at f (contains k rest)) (c.changes k)
      ∙ changed_twice f idem (str_eq id k) (contains k rest) _
