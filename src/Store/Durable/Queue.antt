-- ===== src/Store/Durable/Queue.antt =====
-- internal/store/store.go: `GetQuery`, `RequeueInFlightQueries`, `SweepExpiredQueries` and
-- `GetQueuedQueriesForMember` change queries first and drop the error of the write; with a healthy
-- file they keep the log and the indexes in step.
use talkintent.Common.{ℕ, ◌<◌, String, ◌&&◌, ◌≡◌, refl, ◌∙◌, sym, Option, none, some, List, [], ◌∷◌}
use talkintent.Common.GoMap
use talkintent.Common.Effect.{
  Keeps, keeps_rules, Keeps-pure, Keeps-bind, Ends-gets_bind, Ends-or_raise_bind, Ends, Ends-pure,
  Ends-if, Ends-bind, pure, ◌>>=◌, ◌>>◌,
}
use talkintent.Store.Records.{QueryDetail, status_queued, is_waiting}
use talkintent.Store.Library.{Library}
use talkintent.Store.State.{Index}
use talkintent.Store.Event.{query_updated}
use talkintent.Store.Journal.{Store, Action, set_index}
use talkintent.Store.Queries.{
  get_query, expire_query, refresh_position, change_query, set_expired, expiry_update, bare_update,
  set_position, log_only, is_stale,
}
use talkintent.Store.Queue.{
  set_queued, requeue_one, with_query, found_query, each_query, requeue_in_flight_queries,
  sweep_one, sweep_expired_queries, queued_one, get_queued_queries_for_member,
}
use talkintent.Store.Durable.View.{
  durable, lookup-IsKeyed, modify-map_values_same, modify-IsKeyed, durable-set_expired,
  durable-set_queued,
}
use talkintent.Store.Durable.Commit.{IsSound, Mirrors, log_only-IsSound}
use talkintent.Store.Durable.Queries.{change-Mirrors}

module _ (lib : Library) where
  expired-Mirrors :
      (now : ℕ) (id : String) (q : QueryDetail) (x : Index)
      → 0 < now
      → q.query_id ≡ id
      → Mirrors lib
          (query_updated (expiry_update now q.query_id))
          (λ x. record x { queries = GoMap.modify id (set_expired now) x.queries })
          x
  expired-Mirrors now id q x h k = rw k (
      change-Mirrors lib (expiry_update now id) (set_expired now) x (λ _. h)
        (λ p. durable-set_expired now id p h) (λ p. refl))

  queued-Mirrors :
      (id : String) (q : QueryDetail) (x : Index)
      → q.query_id ≡ id
      → Mirrors lib
          (query_updated (bare_update q.query_id status_queued))
          (λ x. record x { queries = GoMap.modify id set_queued x.queries })
          x
  queued-Mirrors id q x k = rw k (
      change-Mirrors lib (bare_update id status_queued) set_queued x (λ e. cc)
        (λ p. durable-set_queued id p) (λ p. refl))

  module _ (now : ℕ) (later : 0 < now) where
    module _ (id : String) (q : QueryDetail) (s : Store)
        (found : GoMap.lookup id s.index.queries ≡ some q) (h : IsSound lib s) where
      its_id : q.query_id ≡ id
      its_id = lookup-IsKeyed id s.index.queries q h.is_durable.keyed found

      expire_query-Ends : Ends (IsSound lib) (expire_query now id q) s
      unfolding expire_query
      expire_query-Ends = record {
        at = log_only-IsSound lib _ _ s (expired-Mirrors now id q s.index later its_id) h;
      }

      expire_then-Ends :
          {A : Type 0} (a : A) → Ends (IsSound lib) (do expire_query now id q; pure a) s
      expire_then-Ends a = Ends-bind _ _ s expire_query-Ends (λ _. Keeps-pure a)

      set_queued-Ends :
          {A : Type 0} (a : A)
          → Ends
              (IsSound lib)
              (do
                change_query id set_queued
                log_only (query_updated (bare_update q.query_id status_queued))
                pure a)
              s
      unfolding ◌>>=◌ set_index log_only
      set_queued-Ends a = record {
        at = log_only-IsSound lib _ _ s (queued-Mirrors id q s.index its_id) h;
      }

      ruleset round_rules =
          (Ends-if, Ends-pure, expire_query-Ends, expire_then-Ends, set_queued-Ends)

      requeue_one-Ends : Ends (IsSound lib) (requeue_one now id q) s
      unfolding requeue_one
      requeue_one-Ends = search round_rules

      sweep_one-Ends : Ends (IsSound lib) (sweep_one now id q) s
      unfolding sweep_one
      sweep_one-Ends = search round_rules

      queued_one-Ends : Ends (IsSound lib) (queued_one now id q) s
      unfolding queued_one
      queued_one-Ends = search round_rules

    found_query-Ends :
        {A : Type 0} (o : Option QueryDetail) (a : A) (f : QueryDetail → Action A) (s : Store)
        → IsSound lib s
        → ((q : QueryDetail) → o ≡ some q → Ends (IsSound lib) (f q) s)
        → Ends (IsSound lib) (found_query o a f) s
    unfolding found_query
    found_query-Ends none a f s h k = record { at = h }
    found_query-Ends (some q) a f s h k = record { at = (k q refl).at }

    with_query-Keeps :
        {A : Type 0} (id : String) (a : A) (f : QueryDetail → Action A)
        → ((q : QueryDetail) (s : Store)
            → GoMap.lookup id s.index.queries ≡ some q
            → IsSound lib s
            → Ends (IsSound lib) (f q) s)
        → Keeps (IsSound lib) (with_query id a f)
    unfolding with_query
    with_query-Keeps id a f k = record {
      at = λ s h. (found_query-Ends _ a f s h (λ q e. k q s e h)).at;
    }

    module _ {A : Type 0} (add : A → A → A) (a : A) (round : String → QueryDetail → Action A)
        (sound_round : (id : String) (q : QueryDetail) (s : Store)
          → GoMap.lookup id s.index.queries ≡ some q
          → IsSound lib s
          → Ends (IsSound lib) (round id q) s) where
      each_query-Keeps : (ids : List String) → Keeps (IsSound lib) (each_query add a round ids)
      unfolding each_query
      each_query-Keeps [] = search keeps_rules
      each_query-Keeps (id ∷ rest) =
          Keeps-bind _ _ (with_query-Keeps id a (round id) (sound_round id))
            (λ first. search (keeps_rules, each_query-Keeps rest))

    pub requeue_in_flight_queries-IsSound :
        (member_id : String) → Keeps (IsSound lib) (requeue_in_flight_queries now member_id)
    unfolding requeue_in_flight_queries
    requeue_in_flight_queries-IsSound member_id =
        search (keeps_rules, each_query-Keeps, requeue_one-Ends)

    pub sweep_expired_queries-IsSound : Keeps (IsSound lib) (sweep_expired_queries now)
    unfolding sweep_expired_queries
    sweep_expired_queries-IsSound = search (keeps_rules, each_query-Keeps, sweep_one-Ends)

    pub get_queued_queries_for_member-IsSound :
        (member_id : String) → Keeps (IsSound lib) (get_queued_queries_for_member now member_id)
    unfolding get_queued_queries_for_member
    get_queued_queries_for_member-IsSound member_id =
        search (keeps_rules, each_query-Keeps, queued_one-Ends)

  -- The position is written in memory only, and the view forgets it.
  set_position-IsSound :
      (id : String) (n : ℕ) → Keeps (IsSound lib) (change_query id (set_position n))
  unfolding set_index
  set_position-IsSound id n = record {
    at = λ s h. record {
      is_durable = record {
        same_view = h.is_durable.same_view ∙ (λ i. record s.index {
          queries =
              sym (modify-map_values_same durable id (set_position n) s.index.queries (λ q. refl))
                i;
        });
        keyed = modify-IsKeyed id (set_position n) s.index.queries (λ q. refl) h.is_durable.keyed;
      };
      healthy = record { opened = h.healthy.opened; no_faults = h.healthy.no_faults };
    };
  }

  refresh_position-Keeps : (now : ℕ) (id : String) → Keeps (IsSound lib) (refresh_position now id)
  unfolding refresh_position
  refresh_position-Keeps now id = search (keeps_rules, set_position-IsSound) depth 8

  pub get_query-IsSound : (now : ℕ) (id : String) → 0 < now → Keeps (IsSound lib) (get_query now id)
  unfolding get_query
  get_query-IsSound now id later = record {
    at = λ s h.
        (Ends-gets_bind _ _ s (
          Ends-or_raise_bind _ _ _ s h λ q found.
            Ends-if (is_waiting q.status && is_stale now q) _ (refresh_position now id) s
              (Ends-bind _ _ s (expire_query-Ends now later id q s found h)
                (λ _. refresh_position-Keeps now id))
              (record { at = (refresh_position-Keeps now id).at s h }))).at;
  }
