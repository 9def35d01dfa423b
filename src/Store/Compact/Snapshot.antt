-- ===== src/Store/Compact/Snapshot.antt =====
-- internal/store/store.go: what the snapshot of `Compact` replays to.
use mathlib.Core.Option
use talkintent.Common.{
  ℕ, String, Bool, false, ◌&&◌, not, ◌≡◌, refl, ap, ◌∙◌, Option, none, some, List, [], ◌∷◌, ◌++◌,
  str_eq, ltb, leb, arith, eq_iff, Bool-cases, inl, inr, if◌then◌else◌,
}
use talkintent.Common.GoMap
use talkintent.Common.GoMap.{GoMap}
use talkintent.Store.Records.{
  MemberInfo, QueryDetail, StoredInvite, FeishuBinding, IdempotencyRecord,
}
use talkintent.Store.Library.{Library}
use talkintent.Store.State.{Index, empty_index}
use talkintent.Store.Event.{
  Event, query_created, apply_event, replay_from, replay_from-append, push_audit,
}
use talkintent.Store.Durable.View.{IsKeyed}
use talkintent.Store.Compact.{
  sort_entries, place_entry, by_key, by_creation, member_events, token_events, invite_events,
  sealed_event, binding_events, logged_query, query_events, key_events, account_events, snapshot,
}
use talkintent.Store.Compact.Sorted.{has_key, IsDistinct, lookup-sort, sort-IsDistinct}

-- The replay of some events leaves the queries alone.
Quiet : Library → List Event → Type 0
Quiet lib es = (x : Index) → (replay_from lib x es).queries ≡ x.queries

module _ (lib : Library) where
  members-Quiet : (m : GoMap MemberInfo) → Quiet lib (member_events m)
  unfolding Quiet replay_from apply_event
  members-Quiet [] x = refl
  members-Quiet ((k, v) ∷ m) x = members-Quiet m _

  tokens-Quiet : (m : GoMap String) → Quiet lib (token_events m)
  unfolding Quiet replay_from apply_event
  tokens-Quiet [] x = refl
  tokens-Quiet ((k, v) ∷ m) x = tokens-Quiet m _

  invites-Quiet : (now : ℕ) (m : GoMap StoredInvite) → Quiet lib (invite_events now m)
  unfolding Quiet replay_from apply_event
  invites-Quiet now [] x = refl
  invites-Quiet now ((k, i) ∷ m) x = elim (Bool-cases (not i.consumed && ltb now i.expires_at)) [
    | inl e ↦ rw e (invites-Quiet now m _)
    | inr e ↦ rw e (invites-Quiet now m x)
  ]

  keys-Quiet : (now : ℕ) (m : GoMap IdempotencyRecord) → Quiet lib (key_events now m)
  unfolding Quiet replay_from apply_event
  keys-Quiet now [] x = refl
  keys-Quiet now ((k, r) ∷ m) x = elim (Bool-cases (leb now r.expires_at)) [
    | inl e ↦ rw e (keys-Quiet now m _)
    | inr e ↦ rw e (keys-Quiet now m x)
  ]

  sealed-Quiet : (id : String) (o : Option String) → Quiet lib (sealed_event id o)
  unfolding Quiet replay_from apply_event
  sealed-Quiet id none x = refl
  sealed-Quiet id (some c) x = refl

  append-Quiet : (es fs : List Event) → Quiet lib es → Quiet lib fs → Quiet lib (es ++ fs)
  unfolding Quiet
  append-Quiet es fs a b x =
      ap (λ (v : Index). v.queries) (replay_from-append lib x es fs)
      ∙ b (replay_from lib x es)
      ∙ a x

  bindings-Quiet :
      (nonce : String → String) (m : GoMap FeishuBinding) → Quiet lib (binding_events lib nonce m)
  unfolding Quiet replay_from
  bindings-Quiet nonce [] x = refl
  bindings-Quiet nonce ((id, b) ∷ m) x =
      append-Quiet (sealed_event id (lib.seal (nonce id) b)) (binding_events lib nonce m)
        (sealed-Quiet id (lib.seal (nonce id) b)) (bindings-Quiet nonce m) x

  account-Quiet :
      (nonce : String → String) (now : ℕ) (x : Index) → Quiet lib (account_events lib nonce now x)
  account-Quiet nonce now x =
      append-Quiet (members ++ tokens ++ invites) bindings
        (append-Quiet (members ++ tokens) invites
          (append-Quiet members tokens (members-Quiet (sort_entries by_key x.members))
            (tokens-Quiet (sort_entries by_key x.tokens)))
          (invites-Quiet now (sort_entries by_key x.invites)))
        (bindings-Quiet nonce (sort_entries by_key x.bindings))
    where
      members : List Event
      members = member_events (sort_entries by_key x.members)

      tokens : List Event
      tokens = token_events (sort_entries by_key x.tokens)

      invites : List Event
      invites = invite_events now (sort_entries by_key x.invites)

      bindings : List Event
      bindings = binding_events lib nonce (sort_entries by_key x.bindings)

  created_at :
      (x : Index) (q : QueryDetail) (k : String)
      → GoMap.lookup k (apply_event lib x (query_created q)).queries
        ≡ (if str_eq q.query_id k then some q else GoMap.lookup k x.queries)
  unfolding apply_event
  created_at x q k =
      ap (GoMap.lookup k) (stored (GoMap.lookup q.query_id x.queries))
      ∙ GoMap.lookup-insert q.query_id k q x.queries
    where
      stored :
          (o : Option QueryDetail)
          → Index.queries (elim o [
            | some _ ↦ record x { queries = GoMap.insert q.query_id q x.queries }
            | none ↦ record x {
              queries = GoMap.insert q.query_id q x.queries;
              inbound = push_audit q.target_member_id q.query_id x.inbound;
              outbound = push_audit q.asker_id q.query_id x.outbound;
            }
          ])
            ≡ GoMap.insert q.query_id q x.queries
      stored none = refl
      stored (some p) = refl

  -- Queries under their own ids, none twice, are there after their events, as they were logged.
  replay-queries :
      (k : String) (m : GoMap QueryDetail) (x : Index)
      → IsKeyed m
      → IsDistinct m
      → GoMap.lookup k (replay_from lib x (query_events m)).queries ≡ (
          if has_key k m
          then Option.map logged_query (GoMap.lookup k m)
          else GoMap.lookup k x.queries)
  unfolding replay_from
  replay-queries k [] x h d = refl
  replay-queries k ((j, q) ∷ m) x h d =
      replay-queries k m (apply_event lib x (query_created (logged_query q))) h.1 d.1
      ∙ ground (arith, h.0, d.0, eq_iff j k, eq_iff q.query_id k, created_at x (logged_query q) k)

  place-IsKeyed :
      (less : String × QueryDetail → String × QueryDetail → Bool) (e : String × QueryDetail)
      (m : GoMap QueryDetail)
      → e.0 ≡ e.1.query_id
      → IsKeyed m
      → IsKeyed (place_entry less e m)
  place-IsKeyed less e [] h a = (h, tt)
  place-IsKeyed less e (f ∷ m) h a = elim (Bool-cases (less e f)) [
    | inl y ↦ rw y (h, a)
    | inr n ↦ rw n (a.0, place-IsKeyed less e m h a.1)
  ]

  sort-IsKeyed :
      (less : String × QueryDetail → String × QueryDetail → Bool) (m : GoMap QueryDetail)
      → IsKeyed m
      → IsKeyed (sort_entries less m)
  sort-IsKeyed less [] a = tt
  sort-IsKeyed less (e ∷ m) a =
      place-IsKeyed less e (sort_entries less m) a.0 (sort-IsKeyed less m a.1)

  absent : (k : String) (m : GoMap QueryDetail) → has_key k m ≡ false → GoMap.lookup k m ≡ none
  absent k [] h = refl
  absent k ((j, q) ∷ m) h = ground (arith, h, absent k m)

  found_or_none :
      (k : String) (m : GoMap QueryDetail)
      → (if has_key k m then Option.map logged_query (GoMap.lookup k m) else none)
        ≡ Option.map logged_query (GoMap.lookup k m)
  found_or_none k m = ground (arith, absent k m)

  -- Queries under their own ids, none twice, are in the index that a snapshot replays to as they
  -- were, but for an empty list of tools.
  pub lookup-snapshot :
      (nonce : String → String) (now : ℕ) (x : Index) (k : String)
      → IsKeyed x.queries
      → IsDistinct x.queries
      → GoMap.lookup k (replay_from lib empty_index (snapshot lib nonce now x)).queries
        ≡ Option.map logged_query (GoMap.lookup k x.queries)
  unfolding snapshot replay_from Quiet
  lookup-snapshot nonce now x k keyed distinct =
      ap (λ (v : Index). GoMap.lookup k v.queries)
        (replay_from-append lib empty_index (before ++ queries) keys
          ∙ ap (λ v. replay_from lib v keys) (replay_from-append lib empty_index before queries))
      ∙ ap (GoMap.lookup k)
          (keys-Quiet now (sort_entries by_key x.idempotency) (replay_from lib start queries))
      ∙ replay-queries k sorted start (sort-IsKeyed by_creation x.queries keyed)
          (sort-IsDistinct by_creation x.queries distinct)
      ∙ ap
          (λ (m : GoMap QueryDetail).
            if has_key k sorted
            then Option.map logged_query (GoMap.lookup k sorted)
            else GoMap.lookup k m)
          (before-Quiet empty_index)
      ∙ found_or_none k sorted
      ∙ ap (Option.map logged_query) (lookup-sort by_creation k x.queries distinct)
    where
      sorted : GoMap QueryDetail
      sorted = sort_entries by_creation x.queries

      queries : List Event
      queries = query_events sorted

      keys : List Event
      keys = key_events now (sort_entries by_key x.idempotency)

      before : List Event
      before = account_events lib nonce now x

      start : Index
      start = replay_from lib empty_index before

      before-Quiet : Quiet lib before
      before-Quiet = account-Quiet nonce now x
