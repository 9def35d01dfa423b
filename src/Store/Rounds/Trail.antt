-- ===== src/Store/Rounds/Trail.antt =====
-- internal/store/store.go: the sweep leaves the audit lists alone, so it leaves every line as it is.
use mathlib.Core.Option
use talkintent.Common.{
  ℕ, ◌+◌, String, ◌≡◌, refl, Option, none, some, List, [], ◌∷◌, Bool-cases, inl, inr,
}
use talkintent.Common.GoMap
use talkintent.Common.GoMap.{GoMap}
use talkintent.Common.Effect.{Keeps, Keeps-bind, keeps_rules}
use talkintent.Store.Records.{QueryDetail, is_waiting}
use talkintent.Store.Event.{Event}
use talkintent.Store.Journal.{Store, Action, set_index}
use talkintent.Store.Queries.{is_stale, change_query, log_only, expire_query}
use talkintent.Store.Queue.{found_query, with_query, each_query, sweep_one, sweep_expired_queries}
use talkintent.Store.Rounds.Expiry.{expire_if, lookup-sweep, index-append_event}
use talkintent.Store.Positions.{place, line}

module _ (trail : GoMap (List String)) where
  HasTrail : Store → Type 0
  HasTrail s = s.index.inbound ≡ trail

  change_query-Keeps :
      (id : String) (f : QueryDetail → QueryDetail) → Keeps HasTrail (change_query id f)
  unfolding set_index HasTrail
  change_query-Keeps id f = record { at = λ s h. h }

  log_only-Keeps : (e : Event) → Keeps HasTrail (log_only e)
  unfolding log_only HasTrail
  log_only-Keeps e = record { at = λ s h. rw (index-append_event e s) h }

  expire_query-Keeps :
      (now : ℕ) (id : String) (q : QueryDetail) → Keeps HasTrail (expire_query now id q)
  unfolding expire_query
  expire_query-Keeps now id q = search (keeps_rules, change_query-Keeps, log_only-Keeps)

  found_query-Keeps :
      {A : Type 0} (o : Option QueryDetail) (a : A) (f : QueryDetail → Action A)
      → ((q : QueryDetail) → Keeps HasTrail (f q))
      → Keeps HasTrail (found_query o a f)
  unfolding found_query
  found_query-Keeps none a f k = record { at = λ s h. h }
  found_query-Keeps (some q) a f k = record { at = (k q).at }

  with_query-Keeps :
      {A : Type 0} (id : String) (a : A) (f : QueryDetail → Action A)
      → ((q : QueryDetail) → Keeps HasTrail (f q))
      → Keeps HasTrail (with_query id a f)
  unfolding with_query
  with_query-Keeps id a f k = record {
    at = λ s h. (found_query-Keeps (GoMap.lookup id s.index.queries) a f k).at s h;
  }

  sweep_one-Keeps : (now : ℕ) (id : String) (q : QueryDetail) → Keeps HasTrail (sweep_one now id q)
  unfolding sweep_one
  sweep_one-Keeps now id q = search (keeps_rules, expire_query-Keeps)

  each_query-Keeps :
      (now : ℕ) (ids : List String) → Keeps HasTrail (each_query ◌+◌ 0 (sweep_one now) ids)
  unfolding each_query
  each_query-Keeps now [] = search keeps_rules
  each_query-Keeps now (id ∷ rest) =
      Keeps-bind _ _ (with_query-Keeps id 0 (sweep_one now id) (sweep_one-Keeps now id))
        (λ first. search (keeps_rules, each_query-Keeps now rest))

  sweep-Keeps : (now : ℕ) → Keeps HasTrail (sweep_expired_queries now)
  unfolding sweep_expired_queries
  sweep-Keeps now = search (keeps_rules, each_query-Keeps)

pub inbound-sweep :
    (now : ℕ) (s : Store) → (sweep_expired_queries now s).1.index.inbound ≡ s.index.inbound
unfolding HasTrail
inbound-sweep now s = (sweep-Keeps s.index.inbound now).at s refl

place-expired :
    (now : ℕ) (o : Option QueryDetail) → place now (Option.map (expire_if now) o) ≡ place now o
place-expired now none = refl
place-expired now (some q) = elim (Bool-cases (is_waiting q.status)) [
  | inr e ↦ rw (e, e)
  | inl e ↦ elim (Bool-cases (is_stale now q)) [ inl h ↦ rw (e, h) | inr h ↦ rw (e, h, e, h) ]
]

-- The sweep leaves every line as it is.
pub line-sweep :
    (now : ℕ) (s : Store) (ids : List String)
    → line now (sweep_expired_queries now s).1.index.queries ids ≡ line now s.index.queries ids
line-sweep now s [] = refl
line-sweep now s (id ∷ ids) = rw (
  lookup-sweep now id s,
  place-expired now (GoMap.lookup id s.index.queries),
  line-sweep now s ids,
)
