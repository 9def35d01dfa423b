-- ===== src/Store/Reading.antt =====
-- internal/store/store.go: `GetQuery` as a change of the one query that it is asked for.
use mathlib.Core.Option
use talkintent.Common.{
  ℕ, String, false, ◌&&◌, ◌≡◌, refl, none, some, arith, eq_iff, str_eq, Bool-cases, inl, inr,
  if◌then◌else◌,
}
use talkintent.Common.GoMap
use talkintent.Common.Effect.{ok, err, bind_ok, ◌>>=◌}
use talkintent.Store.Records.{QueryDetail, is_waiting}
use talkintent.Store.Journal.{Store, not_found, append_event, set_index}
use talkintent.Store.Queries.{
  is_stale, set_expired, set_position, expire_query, refresh_position, get_query, queue_position,
  log_only, expiry_update,
}
use talkintent.Store.Event.{query_updated}
use talkintent.Store.Durable.Commit.{IsHealthy}
use talkintent.Store.Rounds.Expiry.{expire_if, index-append_event}

-- The query that is read, and the store after it.
pub record IsRead (now : ℕ) (id : String) (q : QueryDetail) (s : Store) : Type 0 where
  pub position : ℕ
  pub returns : (get_query now id s).0 ≡ ok (set_position position (expire_if now q))
  pub changes :
      (k : String)
      → GoMap.lookup k (get_query now id s).1.index.queries ≡ (
          if str_eq id k
          then some (set_position position (expire_if now q))
          else GoMap.lookup k s.index.queries)
  pub healthy : IsHealthy s → IsHealthy (get_query now id s).1

pub get_query_absent :
    (now : ℕ) (id : String) (s : Store)
    → GoMap.lookup id s.index.queries ≡ none
    → get_query now id s ≡ (err not_found, s)
unfolding get_query ◌>>=◌
get_query_absent now id s e = ground arith

placed : ℕ → String → Store → Store
placed n id s = record s {
  index = record s.index { queries = GoMap.modify id (set_position n) s.index.queries };
}

position_of : ℕ → QueryDetail → Store → ℕ
unfolding queue_position
position_of now q s =
    if is_waiting q.status then queue_position now s.index q.query_id q.target_member_id else 0

refresh_lem :
    (now : ℕ) (id : String) (q : QueryDetail) (s : Store)
    → GoMap.lookup id s.index.queries ≡ some q
    → refresh_position now id s
      ≡ (ok (set_position (position_of now q s) q), placed (position_of now q s) id s)
unfolding refresh_position ◌>>=◌ set_index placed position_of
refresh_lem now id q s e = rw e refl

expired_store : ℕ → String → QueryDetail → Store → Store
expired_store now id q s = (expire_query now id q s).1

expire_lem :
    (now : ℕ) (id : String) (q : QueryDetail) (s : Store) (k : String)
    → GoMap.lookup k (expired_store now id q s).index.queries ≡ (
        if str_eq id k
        then Option.map (set_expired now) (GoMap.lookup k s.index.queries)
        else GoMap.lookup k s.index.queries)
unfolding expired_store expire_query ◌>>=◌ set_index log_only
expire_lem now id q s k =
    rw (index-append_event (query_updated (expiry_update now q.query_id)) _)
      (GoMap.lookup-modify id k (set_expired now) s.index.queries)

expire-IsHealthy :
    (now : ℕ) (id : String) (q : QueryDetail) (s : Store)
    → IsHealthy s
    → IsHealthy (expired_store now id q s)
unfolding expired_store expire_query ◌>>=◌ set_index log_only append_event
expire-IsHealthy now id q s h = record { opened = ground arith; no_faults = ground arith }

expire_returns :
    (now : ℕ) (id : String) (q : QueryDetail) (s : Store) → (expire_query now id q s).0 ≡ ok tt
unfolding expire_query ◌>>=◌ set_index log_only
expire_returns now id q s = refl

-- The two ways through `GetQuery`.
get_lem :
    (now : ℕ) (id : String) (q : QueryDetail) (s : Store)
    → GoMap.lookup id s.index.queries ≡ some q
    → get_query now id s ≡ (
        if is_waiting q.status && is_stale now q
        then refresh_position now id (expired_store now id q s)
        else refresh_position now id s)
unfolding get_query ◌>>=◌ expired_store
get_lem now id q s e = elim (Bool-cases (is_waiting q.status && is_stale now q)) [
  | inl b ↦
      rw (e, b)
        (bind_ok (expire_query now id q) (λ _. refresh_position now id) s tt
          (expire_returns now id q s))
  | inr b ↦ rw (e, b) refl
]

refreshed-IsRead :
    (now : ℕ) (id : String) (q p : QueryDetail) (s t : Store)
    → get_query now id s ≡ refresh_position now id t
    → GoMap.lookup id t.index.queries ≡ some p
    → expire_if now q ≡ p
    → ((k : String)
        → str_eq id k ≡ false
        → GoMap.lookup k t.index.queries ≡ GoMap.lookup k s.index.queries)
    → (IsHealthy s → IsHealthy t)
    → IsRead now id q s
unfolding placed
refreshed-IsRead now id q p s t g e x other h = record {
  position = position_of now p t;
  returns = rw (g, refresh_lem now id p t e, x) refl;
  changes = λ k.
      rw (g, refresh_lem now id p t e, x)
        (ground (
          arith,
          other k,
          e,
          eq_iff id k,
          GoMap.lookup-modify id k (set_position (position_of now p t)) t.index.queries,
        ));
  healthy = λ k.
      rw (g, refresh_lem now id p t e)
        (record { opened = (h k).opened; no_faults = (h k).no_faults });
}

-- `GetQuery` expires the query if its time is over, renews its position and changes no other.
pub get_query-IsRead :
    (now : ℕ) (id : String) (q : QueryDetail) (s : Store)
    → GoMap.lookup id s.index.queries ≡ some q
    → IsRead now id q s
get_query-IsRead now id q s e = elim (Bool-cases (is_waiting q.status && is_stale now q)) [
  | inr b ↦
      refreshed-IsRead now id q q s s (rw (get_lem now id q s e, b) refl) e (rw b refl)
        (λ k d. refl) (λ h. h)
  | inl b ↦
      refreshed-IsRead now id q (set_expired now q) s (expired_store now id q s)
        (rw (get_lem now id q s e, b) refl)
        (ground (arith, e, expire_lem now id q s id, eq_iff id id)) (rw b refl)
        (λ k d. ground (arith, d, expire_lem now id q s k)) (expire-IsHealthy now id q s)
]
