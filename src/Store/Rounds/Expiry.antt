-- ===== src/Store/Rounds/Expiry.antt =====
-- internal/store/store.go: `SweepExpiredQueries` and `RequeueInFlightQueries`, and the first loop of
-- `GetQueuedQueriesForMember`, as changes of single queries.
use mathlib.Core.Option
use talkintent.Common.{
  ℕ, ◌+◌, String, Bool, true, false, ◌&&◌, ◌≡◌, refl, ◌∙◌, none, some, [], ◌∷◌, ◌++◌, map, arith,
  eq_iff, Bool-cases, inl, inr, str_eq, if◌then◌else◌,
}
use talkintent.Common.GoMap
use talkintent.Common.GoMap.{GoMap}
use talkintent.Common.Effect.{pure, ◌>>=◌, ◌>>◌}
use talkintent.Store.Records.{QueryDetail, is_waiting, status_dispatched, status_queued}
use talkintent.Store.Event.{Event, query_updated}
use talkintent.Store.Journal.{Store, Action, append_event, set_index}
use talkintent.Store.Queries.{
  is_stale, set_expired, expire_query, change_query, log_only, audit_of, bare_update,
}
use talkintent.Store.Queue.{
  set_queued, requeue_one, sweep_one, queued_one, requeue_in_flight_queries, sweep_expired_queries,
}
use talkintent.Store.Rounds.{contains, Changes, each_query_lem}

abbrev pub expire_if : ℕ → QueryDetail → QueryDetail
expire_if now q = if is_waiting q.status && is_stale now q then set_expired now q else q

abbrev pub requeue_if : ℕ → QueryDetail → QueryDetail
requeue_if now q =
    if str_eq q.status status_dispatched
    then (if is_stale now q then set_expired now q else set_queued q)
    else q

-- An expired query does not wait, and a queued one is not dispatched.
pub expire_if_twice :
    (now : ℕ) (q : QueryDetail) → expire_if now (expire_if now q) ≡ expire_if now q
expire_if_twice now q = elim (Bool-cases (is_waiting q.status && is_stale now q)) [
  | inl e ↦ rw e
  | inr e ↦ rw (e, e)
]

requeue_if_twice :
    (now : ℕ) (q : QueryDetail) → requeue_if now (requeue_if now q) ≡ requeue_if now q
requeue_if_twice now q = elim (Bool-cases (str_eq q.status status_dispatched)) [
  | inr e ↦ rw (e, e)
  | inl e ↦ elim (Bool-cases (is_stale now q)) [ inl h ↦ rw (e, h) | inr h ↦ rw (e, h) ]
]

pub index-append_event : (e : Event) (s : Store) → (append_event e s).1.index ≡ s.index
unfolding append_event
index-append_event e s = ground arith

-- The change of one query in memory, whatever becomes of its line in the log.
module _ {A : Type 0} (f g : QueryDetail → QueryDetail) (id : String) (q : QueryDetail) (s : Store)
    (found : GoMap.lookup id s.index.queries ≡ some q) (a : A) where
  logged-Changes :
      (e : Event) → f q ≡ g q → Changes f id (do change_query id g; log_only e; pure a) s
  unfolding ◌>>=◌ set_index log_only
  logged-Changes e h = record {
    result = a;
    returns = refl;
    changes = λ k.
        rw (index-append_event e _)
          (ground (arith, GoMap.lookup-modify id k g s.index.queries, eq_iff id k));
  }

kept-Changes :
    {A : Type 0} (f : QueryDetail → QueryDetail) (id : String) (q : QueryDetail) (s : Store)
    → GoMap.lookup id s.index.queries ≡ some q
    → (a : A) → f q ≡ q
    → Changes f id (pure a) s
unfolding pure
kept-Changes f id q s found a h = record {
  result = a;
  returns = refl;
  changes = λ k. ground (arith, eq_iff id k);
}

if-Changes :
    {A : Type 0} (f : QueryDetail → QueryDetail) (id : String) (s : Store) (b : Bool)
    (m n : Action A)
    → (b ≡ true → Changes f id m s)
    → (b ≡ false → Changes f id n s)
    → Changes f id (if b then m else n) s
if-Changes f id s true m n h k = h refl
if-Changes f id s false m n h k = k refl

module _ (now : ℕ) (id : String) (q : QueryDetail) (s : Store)
    (found : GoMap.lookup id s.index.queries ≡ some q) where
  expired-Changes :
      {A : Type 0} (f : QueryDetail → QueryDetail) (a : A)
      → f q ≡ set_expired now q
      → Changes f id (do expire_query now id q; pure a) s
  unfolding expire_query ◌>>=◌ set_index
  expired-Changes f a h = logged-Changes f (set_expired now) id q s found a _ h

  sweep_one-Changes : Changes (expire_if now) id (sweep_one now id q) s
  unfolding sweep_one
  sweep_one-Changes =
      if-Changes (expire_if now) id s (is_waiting q.status && is_stale now q) _ (pure 0)
        (λ e. expired-Changes (expire_if now) 1 (rw e))
        (λ e. kept-Changes (expire_if now) id q s found 0 (rw e))

  pub queued_one-Changes : Changes (expire_if now) id (queued_one now id q) s
  unfolding queued_one
  queued_one-Changes =
      if-Changes (expire_if now) id s (is_waiting q.status) _ (pure [])
        (λ e.
          if-Changes (expire_if now) id s (is_stale now q) _ (pure (q ∷ []))
            (λ h. expired-Changes (expire_if now) [] (rw (e, h)))
            (λ h. kept-Changes (expire_if now) id q s found (q ∷ []) (rw (e, h))))
        (λ e. kept-Changes (expire_if now) id q s found [] (rw e))

  set_queued-Changes :
      requeue_if now q ≡ set_queued q
      → Changes
          (requeue_if now)
          id
          (do
            change_query id set_queued
            log_only (query_updated (bare_update q.query_id status_queued))
            pure (q.query_id ∷ []))
          s
  set_queued-Changes h = logged-Changes (requeue_if now) set_queued id q s found _ _ h

  requeue_one-Changes : Changes (requeue_if now) id (requeue_one now id q) s
  unfolding requeue_one
  requeue_one-Changes =
      if-Changes (requeue_if now) id s (str_eq q.status status_dispatched) _ (pure [])
        (λ e.
          if-Changes (requeue_if now) id s (is_stale now q) _ _
            (λ h. expired-Changes (requeue_if now) [] (rw (e, h)))
            (λ h. set_queued-Changes (rw (e, h))))
        (λ e. kept-Changes (requeue_if now) id q s found [] (rw e))

module _ (now : ℕ) (k : String) (s : Store) where
  -- Requeueing changes the queries in the member's inbound list and no others: a dispatched one
  -- is expired if its time is over, and queued again if it is not.
  pub lookup-requeue :
      (member : String)
      → GoMap.lookup k (requeue_in_flight_queries now member s).1.index.queries ≡ (
          if contains k (audit_of member s.index.inbound)
          then Option.map (requeue_if now) (GoMap.lookup k s.index.queries)
          else GoMap.lookup k s.index.queries)
  unfolding requeue_in_flight_queries ◌>>=◌
  lookup-requeue member =
      each_query_lem (requeue_if now) (requeue_if_twice now) (requeue_one now)
        (requeue_one-Changes now) ◌++◌ [] (audit_of member s.index.inbound) k s

  keys_miss :
      (m : GoMap QueryDetail) → contains k (map (λ e. e.0) m) ≡ false → GoMap.lookup k m ≡ none
  keys_miss [] h = refl
  keys_miss ((j, w) ∷ m) h = ground (arith, keys_miss m)

  -- The sweep expires every query that waits beyond its time, and changes no other.
  pub lookup-sweep :
      GoMap.lookup k (sweep_expired_queries now s).1.index.queries
      ≡ Option.map (expire_if now) (GoMap.lookup k s.index.queries)
  unfolding sweep_expired_queries ◌>>=◌
  lookup-sweep =
      each_query_lem (expire_if now) (expire_if_twice now) (sweep_one now) (sweep_one-Changes now)
        ◌+◌ 0 (map (λ e. e.0) s.index.queries) k s
      ∙ ground (arith, keys_miss s.index.queries)
