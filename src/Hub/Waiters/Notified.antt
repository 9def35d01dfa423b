-- ===== src/Hub/Waiters/Notified.antt =====
-- internal/hub/hub.go: `notifyWaiters` for a query that is done.
use mathlib.Core.Option
use talkintent.Common.{
  ℕ, String, Bool, true, false, ◌||◌, ◌≡◌, refl, ◌∙◌, Option, none, some, List, [], ◌∷◌, ◌++◌,
  arith, eq_iff, ◌==◌, if◌then◌else◌,
}
use talkintent.Common.GoMap
use talkintent.Store.Records.{QueryDetail, is_waiting}
use talkintent.Store.Queries.{get_query, set_position}
use talkintent.Store.Reading.{get_query-IsRead, get_query_absent}
use talkintent.Store.Durable.Commit.{IsHealthy}
use talkintent.Store.Journal.{Store}
use talkintent.Store.Rounds.Expiry.{expire_if}
use talkintent.Hub.State.{Hub, call_only}
use talkintent.Hub.Waiters.{waiters_of, received, is_full, deliver, notify_each, notify_waiters}

-- The part of a query that an answer decides.
abbrev pub outcome : QueryDetail → String × String
outcome q = (q.status, q.answer)

abbrev pub outcome_in : String → Hub → Option (String × String)
outcome_in id h = Option.map outcome (GoMap.lookup id h.store.index.queries)

abbrev pub has_channel : ℕ → List ℕ → Bool
has_channel c [] = false
has_channel c (d ∷ ds) = d == c || has_channel c ds

received-append :
    (c d : ℕ) (q : QueryDetail) (given : List (ℕ × QueryDetail))
    → received c (given ++ (d, q) ∷ [])
      ≡ (if is_full c given then received c given else if d == c then some q else none)
received-append c d q [] = ground arith
received-append c d q ((i, p) ∷ given) = ground (arith, received-append c d q given)

received-deliver :
    (q : QueryDetail) (c : ℕ) (channels : List ℕ) (given : List (ℕ × QueryDetail))
    → received c (deliver q channels given) ≡ (
        if is_full c given
        then received c given
        else if has_channel c channels
        then some q
        else none)
received-deliver q c [] given = ground arith
received-deliver q c (d ∷ ds) given =
    received-deliver q c ds (if is_full d given then given else given ++ (d, q) ∷ [])
    ∙ ground (arith, received-append c d q given)

pub expire_if-done : (now : ℕ) (q : QueryDetail) → is_waiting q.status ≡ false → expire_if now q ≡ q
expire_if-done now q e = rw e refl

-- Reading a query that does not wait keeps its outcome.
read_done :
    (now : ℕ) (id : String) (q : QueryDetail) (h : Hub)
    → GoMap.lookup id h.store.index.queries ≡ some q
    → is_waiting q.status ≡ false
    → outcome_in id (call_only (get_query now id) h) ≡ some (outcome q)
read_done now id q h e d =
    let g = get_query-IsRead now id q h.store e in
    ground (arith, g.changes id, expire_if-done now q, eq_iff id id)

module _ (now : ℕ) (id : String) (q : QueryDetail) (h : Hub)
    (found : GoMap.lookup id h.store.index.queries ≡ some q)
    (done : is_waiting q.status ≡ false) where
  -- The waiters of a query that is done.
  notify_each_lem :
      (channels : List ℕ)
      → (outcome_in id (notify_each now id channels h) ≡ some (outcome q))
        × ((c : ℕ)
            → has_channel c channels ≡ true
            → is_full c h.delivered ≡ false
            → Option.map outcome (received c (notify_each now id channels h).delivered)
              ≡ some (outcome q))
        × ((notify_each now id channels h).waiters ≡ h.waiters)
        × ((notify_each now id channels h).timeouts ≡ h.timeouts)
        × (IsHealthy h.store → IsHealthy (notify_each now id channels h).store)
  notify_each_lem [] = (ground (arith, found), λ c e. ground (arith, e), refl, refl, λ k. k)
  notify_each_lem (c ∷ cs) =
      let g = get_query-IsRead now id q h.store found in
      rw (g.returns) (
        ground (arith, g.changes id, expire_if-done now q done, eq_iff id id),
        λ i e f.
            rw
              (
                received-deliver (set_position g.position (expire_if now q)) i (c ∷ cs) h.delivered,
                f,
                e,
                expire_if-done now q done,
              )
              refl,
        refl,
        refl,
        g.healthy,
      )

-- What an answer leaves: the outcome `o` in the store and in the channels, and no waiter or
-- timeout of the query.
pub record IsAnswered (id : String) (o : String × String) (h t : Hub) : Type 0 where
  pub stored : outcome_in id t ≡ some o
  pub given :
      (c : ℕ)
      → has_channel c (waiters_of id h) ≡ true
      → is_full c h.delivered ≡ false
      → Option.map outcome (received c t.delivered) ≡ some o
  pub no_waiter : GoMap.lookup id t.waiters ≡ none
  pub no_timeout : GoMap.lookup id t.timeouts ≡ none
  pub healthy : IsHealthy h.store → IsHealthy t.store

pub notify-IsAnswered :
    (now : ℕ) (id : String) (q : QueryDetail) (h : Hub)
    → GoMap.lookup id h.store.index.queries ≡ some q
    → is_waiting q.status ≡ false
    → IsAnswered id (outcome q) h (notify_waiters now id h)
unfolding notify_waiters
notify-IsAnswered now id q h e d =
    let (stored, given, same, same', well) =
      notify_each_lem now id q
        (record h { waiters = GoMap.erase id h.waiters; timeouts = GoMap.erase id h.timeouts }) e d
        (waiters_of id h) in
    record {
      stored = stored;
      given = given;
      no_waiter = rw same (ground (arith, GoMap.lookup-erase id id h.waiters, eq_iff id id));
      no_timeout = rw same' (ground (arith, GoMap.lookup-erase id id h.timeouts, eq_iff id id));
      healthy = well;
    }

read_outcome :
    (now : ℕ) (id : String) (a b : String) (h : Hub) (m : Option QueryDetail)
    → GoMap.lookup id h.store.index.queries ≡ m
    → outcome_in id h ≡ some (a, b)
    → is_waiting a ≡ false
    → outcome_in id (call_only (get_query now id) h) ≡ some (a, b)
read_outcome now id a b h none e f w = ground (arith, e, f)
read_outcome now id a b h (some q) e f w = ground (arith, e, f, w, read_done now id q h e)

read-IsHealthy :
    (now : ℕ) (id : String) (s : Store) (o : Option QueryDetail)
    → GoMap.lookup id s.index.queries ≡ o
    → IsHealthy s
    → IsHealthy (get_query now id s).1
read-IsHealthy now id s none e k =
    rw (get_query_absent now id s e) (record { opened = k.opened; no_faults = k.no_faults })
read-IsHealthy now id s (some q) e k = (get_query-IsRead now id q s e).healthy k

-- A further `GetQuery` changes nothing of it.
pub read-IsAnswered :
    (now : ℕ) (id : String) (o : String × String) (h t : Hub)
    → is_waiting o.0 ≡ false
    → IsAnswered id o h t
    → IsAnswered id o h (call_only (get_query now id) t)
read-IsAnswered now id (a, b) h t w x = record {
  stored = read_outcome now id a b t (GoMap.lookup id t.store.index.queries) refl x.stored w;
  given = x.given;
  no_waiter = x.no_waiter;
  no_timeout = x.no_timeout;
  healthy =
      λ k. read-IsHealthy now id t.store (GoMap.lookup id t.store.index.queries) refl (x.healthy k);
}
