-- ===== src/Hub/Sessions/Leaving.antt =====
-- internal/hub/hub.go: the clean-up behind a connection, and the maps of the sessions.
use mathlib.Core.Option
use talkintent.Common.{
  ℕ, String, true, false, ◌&&◌, not, ◌≡◌, refl, ap, ◌∙◌, Option, none, some, List, [], ◌∷◌, str_eq,
  arith, eq_iff, if◌then◌else◌,
}
use talkintent.Common.Names.{has, without, has-without}
use talkintent.Common.GoMap
use talkintent.Store.Members.{set_member_online}
use talkintent.Store.Queue.{requeue_in_flight_queries}
use talkintent.Hub.State.{Session, Hub, call_only, ids_of, test_session}
use talkintent.Hub.Sessions.{
  close_session, drop_session, forget_session, is_empty, unregister, disconnect,
}
use talkintent.Hub.Sessions.Registered.{IsRegistered, is_open_of, ids_of-insert, ids_of-erase}

module _ (id member : String) (h : Hub) where
  drop_lem :
      (rest : List String) (m : String)
      → ids_of m (drop_session id member rest h).member_sessions
        ≡ (if str_eq member m then rest else ids_of m h.member_sessions)
  drop_lem [] m = ids_of-erase member m h.member_sessions
  drop_lem (i ∷ rest) m = ids_of-insert member m (i ∷ rest) h.member_sessions

  drop_primary :
      (rest : List String) (m j : String)
      → GoMap.lookup m (drop_session id member rest h).daemon_conns ≡ some j
      → (if str_eq member m then has j rest else true) ≡ true
  drop_primary [] m j e = ground (arith, e, GoMap.lookup-erase member m h.daemon_conns)
  drop_primary (i ∷ rest) m j e =
      ground (arith, e, eq_iff i j, GoMap.lookup-insert member m i h.daemon_conns)

  drop_other :
      (rest : List String) (m j : String)
      → GoMap.lookup m (drop_session id member rest h).daemon_conns ≡ some j
      → str_eq member m ≡ false
      → GoMap.lookup m h.daemon_conns ≡ some j
  drop_other [] m j e f = ground (arith, e, f, GoMap.lookup-erase member m h.daemon_conns)
  drop_other (i ∷ rest) m j e f =
      ground (arith, e, f, GoMap.lookup-insert member m i h.daemon_conns)

  has-forget :
      (o : Option (List String)) (m j : String)
      → GoMap.lookup member h.member_sessions ≡ o
      → has j (ids_of m (forget_session id member o h).member_sessions) ≡ (
          if str_eq member m
          then not (str_eq id j) && has j (ids_of member h.member_sessions)
          else has j (ids_of m h.member_sessions))
  has-forget none m j e = ground (arith, e, eq_iff member m)
  has-forget (some ids) m j e =
      ap (has j) (drop_lem (without id ids) m) ∙ ground (arith, e, has-without id j ids)

  primary-forget :
      (o : Option (List String)) (m j : String)
      → GoMap.lookup member h.member_sessions ≡ o
      → IsRegistered h
      → GoMap.lookup m (forget_session id member o h).daemon_conns ≡ some j
      → has j (ids_of m (forget_session id member o h).member_sessions) ≡ true
  primary-forget none m j l r e = r.primary m j e
  primary-forget (some ids) m j l r e = ground (
    arith,
    e,
    l,
    drop_lem (without id ids) m,
    drop_primary (without id ids) m j e,
    drop_other (without id ids) m j e,
    r.primary m j,
  )

  module _ (r : IsRegistered h)
      (owner : test_session (λ s. str_eq s.member_id member) h.heap id ≡ true) where
    g : Hub
    g = unregister id member h

    has-g :
        (m j : String)
        → has j (ids_of m g.member_sessions) ≡ (
            if str_eq member m
            then not (str_eq id j) && has j (ids_of member h.member_sessions)
            else has j (ids_of m h.member_sessions))
    unfolding g
    has-g m j = has-forget (GoMap.lookup member h.member_sessions) m j refl

    heap-g :
        (j : String)
        → GoMap.lookup j g.heap ≡ (
            if str_eq id j
            then Option.map close_session (GoMap.lookup j h.heap)
            else GoMap.lookup j h.heap)
    unfolding g
    heap-g j = GoMap.lookup-modify id j close_session h.heap

    known-g :
        (j : String)
        → has j g.sessions_by_id ≡ (if str_eq id j then false else has j h.sessions_by_id)
    unfolding g
    known-g j = has-without id j h.sessions_by_id

    -- No other member has the session.
    not_other :
        (m : String) (o : Option Session)
        → GoMap.lookup id h.heap ≡ o
        → has id (ids_of m h.member_sessions) ≡ true
        → str_eq member m ≡ true
    not_other m none l e = ground (arith, owner, l)
    not_other m (some s) l e = ground (
      arith,
      owner,
      l,
      r.sessions m id e,
      eq_iff s.member_id m,
      eq_iff s.member_id member,
      eq_iff member m,
    )

    sessions_lem :
        (m j : String)
        → has j (ids_of m g.member_sessions) ≡ true
        → (test_session (is_open_of m) g.heap j ≡ true) × (has j g.sessions_by_id ≡ true)
    sessions_lem m j e = ground (
      arith,
      e,
      eq_iff id j,
      eq_iff member m,
      has-g m j,
      heap-g j,
      known-g j,
      r.sessions m j,
      not_other m (GoMap.lookup id h.heap) refl,
    )

    known_at :
        (j : String) (o : Option Session)
        → GoMap.lookup j h.heap ≡ o
        → has j g.sessions_by_id ≡ true
        → test_session (λ s. has j (ids_of s.member_id g.member_sessions)) g.heap j ≡ true
    known_at j none l e = ground (arith, e, l, known-g j, heap-g j, r.known j)
    known_at j (some s) l e = ground (
      arith,
      e,
      l,
      known-g j,
      heap-g j,
      r.known j,
      has-g s.member_id j,
      eq_iff member s.member_id,
    )

    primary_lem :
        (m j : String)
        → GoMap.lookup m g.daemon_conns ≡ some j
        → has j (ids_of m g.member_sessions) ≡ true
    unfolding g
    primary_lem m j e = primary-forget (GoMap.lookup member h.member_sessions) m j refl r e

    g-IsRegistered : IsRegistered g
    g-IsRegistered = record {
      sessions = sessions_lem;
      primary = primary_lem;
      known = λ j e. known_at j (GoMap.lookup j h.heap) refl e;
    }

-- What the store is told has no part in it.
pub disconnect-IsRegistered :
    (id member : String) (now : ℕ) (h : Hub)
    → IsRegistered h
    → test_session (λ s. str_eq s.member_id member) h.heap id ≡ true
    → IsRegistered (disconnect id member now h)
unfolding disconnect g
disconnect-IsRegistered id member now h r owner =
    let s = g-IsRegistered id member h r owner in
    elim (is_empty (ids_of member (unregister id member h).member_sessions))
      as (λ b. IsRegistered (
        if b
        then call_only (set_member_online member false "" none now)
            (call_only (requeue_in_flight_queries now member) (unregister id member h))
        else unregister id member h)) [
          | true ↦ record { sessions = s.sessions; primary = s.primary; known = s.known }
          | false ↦ record { sessions = s.sessions; primary = s.primary; known = s.known }
        ]
