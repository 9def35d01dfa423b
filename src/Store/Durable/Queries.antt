-- ===== src/Store/Durable/Queries.antt =====
-- internal/store/store.go: `CreateQuery`, `UpdateQueryStatus` and `GetQuery` keep the log and the
-- indexes in step.
use talkintent.Common.{
  ℕ, true, sym, List, [], ◌∷◌, ◌<◌, String, ◌≡◌, refl, ap, ◌∙◌, Option, none, some, arith,
}
use talkintent.Common.GoMap
use talkintent.Common.GoMap.{GoMap}
use talkintent.Common.Effect.{Keeps, keeps_rules, ◌>>=◌}
use talkintent.Store.Records.{QueryDetail, omit_empty, is_terminal}
use talkintent.Store.Library.{Library}
use talkintent.Store.State.{Index}
use talkintent.Store.Event.{
  QueryUpdate, apply_event, query_created, query_updated, push_audit, apply_update,
}
use talkintent.Store.Journal.{Store}
use talkintent.Store.Queries.{
  create_query, update_query_status, index_query, live_update, with_defaults,
}
use talkintent.Store.Durable.View.{
  view, durable, lookup-map_values, insert-map_values, insert-IsKeyed, modify-IsKeyed, view-change,
  durable-live_update,
}
use talkintent.Store.Durable.Commit.{IsDurable, Mirrors, Keeps-commit, commit-IsDurable}

abbrev logged_query : QueryDetail → QueryDetail
logged_query q = record q { tools_used = omit_empty q.tools_used }

module _ (lib : Library) where
  -- A change of one query in memory, against its event.
  pub change-Mirrors :
      (u : QueryUpdate) (f : QueryDetail → QueryDetail) (x : Index)
      → (is_terminal u.status ≡ true → 0 < u.completed_at)
      → ((q : QueryDetail) → durable (f q) ≡ durable (apply_update u (durable q)))
      → ((q : QueryDetail) → (f q).query_id ≡ q.query_id)
      → Mirrors lib (query_updated u) (λ x. record x { queries = GoMap.modify u.id f x.queries }) x
  change-Mirrors u f x h c i = record {
    same = λ a e. view-change lib u f a x h c e;
    keyed = modify-IsKeyed u.id f x.queries i;
  }

  absent-view :
      (id : String) (a x : Index)
      → view a ≡ view x
      → GoMap.lookup id x.queries ≡ none
      → GoMap.lookup id a.queries ≡ none
  absent-view id a x e h = ground (
    arith,
    lookup-map_values durable id a.queries,
    lookup-map_values durable id x.queries,
    ap (λ (v : Index). GoMap.lookup id v.queries) e,
  )

  omit_empty-omit_empty : (l : Option (List String)) → omit_empty (omit_empty l) ≡ omit_empty l
  omit_empty-omit_empty none = refl
  omit_empty-omit_empty (some []) = refl
  omit_empty-omit_empty (some (x ∷ xs)) = refl

  -- The view of indexes to which a query is added is a function of their view.
  abbrev put_view : QueryDetail → Index → Index
  put_view q v = record v {
    queries = GoMap.insert q.query_id (durable q) v.queries;
    inbound = push_audit q.target_member_id q.query_id v.inbound;
    outbound = push_audit q.asker_id q.query_id v.outbound;
  }

  view-index_query : (q : QueryDetail) (x : Index) → view (index_query q x) ≡ put_view q (view x)
  view-index_query q x =
      λ i. record (index_query q x) { queries = insert-map_values durable q.query_id q x.queries i }

  durable-logged_query : (q : QueryDetail) → durable (logged_query q) ≡ durable q
  durable-logged_query q =
      λ i. record (durable q) { tools_used = omit_empty-omit_empty q.tools_used i }

  replayed_query :
      (q : QueryDetail) (a : Index)
      → GoMap.lookup q.query_id a.queries ≡ none
      → apply_event lib a (query_created (logged_query q)) ≡ index_query (logged_query q) a
  unfolding apply_event
  replayed_query q a h = ground arith

  created-Mirrors :
      (q : QueryDetail) (x : Index)
      → GoMap.lookup q.query_id x.queries ≡ none
      → Mirrors lib (query_created (logged_query q)) (index_query q) x
  created-Mirrors q x h = record {
    same = λ a e.
        ap view (replayed_query q a (absent-view q.query_id a x e h))
        ∙ view-index_query (logged_query q) a
        ∙ (λ i. record (put_view q (e i)) {
          queries = GoMap.insert q.query_id (durable-logged_query q i) (e i).queries;
        })
        ∙ sym (view-index_query q x);
    keyed = insert-IsKeyed q x.queries;
  }

  with_defaults-query_id :
      (now : ℕ) (x : Index) (q : QueryDetail) → (with_defaults now x q).query_id ≡ q.query_id
  unfolding with_defaults
  with_defaults-query_id now x q = ground arith

  -- The id of the new query is fresh.
  pub create_query-IsDurable :
      (now : ℕ) (q : QueryDetail) (s : Store)
      → GoMap.lookup q.query_id s.index.queries ≡ none
      → IsDurable lib s
      → IsDurable lib (create_query now q s).1
  unfolding create_query ◌>>=◌
  create_query-IsDurable now q s h d =
      commit-IsDurable lib _ _ s
        (created-Mirrors (with_defaults now s.index q) s.index
          (rw (with_defaults-query_id now s.index q) h))
        d

  update-Mirrors :
      (u : QueryUpdate) (x : Index)
      → 0 < u.completed_at
      → Mirrors lib
          (query_updated u)
          (λ x. record x { queries = GoMap.modify u.id (live_update u) x.queries })
          x
  update-Mirrors u x h =
      change-Mirrors u (live_update u) x (λ _. h) (λ q. durable-live_update u q h) (λ q. refl)

  pub update_query_status-IsDurable :
      (now : ℕ) (u : QueryUpdate) → 0 < now → Keeps (IsDurable lib) (update_query_status now u)
  unfolding update_query_status
  update_query_status-IsDurable now u h =
      search (keeps_rules, Keeps-commit, update-Mirrors, h) depth 8
