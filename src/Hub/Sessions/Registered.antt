-- ===== src/Hub/Sessions/Registered.antt =====
-- internal/hub/hub.go: what holds between the maps of the sessions, `memberSessions`,
-- `sessionsByID` and `daemonConns`, and the sessions themselves.
use mathlib.Core.Option
use talkintent.Common.{
  ℕ, String, Bool, true, false, ◌&&◌, ◌||◌, not, ◌≡◌, refl, ap, ◌∙◌, Option, none, some, List, [],
  ◌∷◌, ◌++◌, str_eq, arith, eq_iff, if◌then◌else◌,
}
use talkintent.Common.Names.{has, filter, has-filter, has-append}
use talkintent.Common.GoMap
use talkintent.Common.GoMap.{GoMap}
use talkintent.Hub.State.{Session, Hub, ids_of, test_session}
use talkintent.Hub.Sessions.{
  close_session, runs_on, close_on, supersede, add_session, new_session, connect,
}

abbrev pub is_open_of : String → Session → Bool
is_open_of member s = str_eq s.member_id member && not s.closed

-- A session in a member's map is an open one of that member, under its own id; the primary
-- session is one of them; and `sessionsByID` has the same sessions.
pub record IsRegistered (h : Hub) : Type 0 where
  pub sessions :
      (member id : String)
      → has id (ids_of member h.member_sessions) ≡ true
      → (test_session (is_open_of member) h.heap id ≡ true) × (has id h.sessions_by_id ≡ true)
  pub primary :
      (member id : String)
      → GoMap.lookup member h.daemon_conns ≡ some id
      → has id (ids_of member h.member_sessions) ≡ true
  pub known :
      (id : String)
      → has id h.sessions_by_id ≡ true
      → test_session (λ s. has id (ids_of s.member_id h.member_sessions)) h.heap id ≡ true

pub ids_of-insert :
    (k j : String) (v : List String) (m : GoMap (List String))
    → ids_of j (GoMap.insert k v m) ≡ (if str_eq k j then v else ids_of j m)
ids_of-insert k j v m = ground (arith, GoMap.lookup-insert k j v m)

pub ids_of-erase :
    (k j : String) (m : GoMap (List String))
    → ids_of j (GoMap.erase k m) ≡ (if str_eq k j then [] else ids_of j m)
ids_of-erase k j m = ground (arith, GoMap.lookup-erase k j m)

twice :
    (o : Option Session)
    → Option.map close_session (Option.map close_session o) ≡ Option.map close_session o
twice none = refl
twice (some s) = refl

pub lookup-close_on :
    (machine : String) (heap : GoMap Session) (ids : List String) (j : String)
    → GoMap.lookup j (close_on machine heap ids) ≡ (
        if has j ids && test_session (runs_on machine) heap j
        then Option.map close_session (GoMap.lookup j heap)
        else GoMap.lookup j heap)
lookup-close_on machine heap [] j = refl
lookup-close_on machine heap (i ∷ ids) j = ground (
  arith,
  eq_iff i j,
  twice (GoMap.lookup j heap),
  lookup-close_on machine heap ids j,
  GoMap.lookup-modify i j close_session (close_on machine heap ids),
)

owner_of :
    (m n : String) (o : Option Session)
    → (elim o [ none ↦ false | some s ↦ is_open_of m s ]) ≡ true
    → (elim o [ none ↦ false | some s ↦ is_open_of n s ]) ≡ true
    → str_eq m n ≡ true
owner_of m n none e f = cc (e)
owner_of m n (some s) e f = ground (arith, eq_iff s.member_id m, eq_iff s.member_id n, eq_iff m n)

-- A session is in the map of one member only.
one_owner :
    (h : Hub)
    → IsRegistered h
    → (m n id : String) → has id (ids_of m h.member_sessions) ≡ true
    → has id (ids_of n h.member_sessions) ≡ true
    → str_eq m n ≡ true
one_owner h r m n id e f =
    owner_of m n (GoMap.lookup id h.heap) (r.sessions m id e).0 (r.sessions n id f).0

module _ (id member machine : String) (now : ℕ) (h : Hub) (r : IsRegistered h)
    (fresh : GoMap.lookup id h.heap ≡ none) where
  unfoldable pub ids : List String
  ids = ids_of member h.member_sessions

  unfoldable pub after : Hub
  after = add_session (new_session id member machine now) (supersede member machine ids h)

  unfoldable pub test : String → Bool
  test j = test_session (runs_on machine) h.heap j

  pub has-after :
      (m j : String)
      → has j (ids_of m after.member_sessions) ≡ (
          if str_eq member m
          then (has j ids && not (test j)) || str_eq id j
          else has j (ids_of m h.member_sessions))
  unfolding after ids test
  has-after m j =
      ap (has j) (
        ids_of-insert member m
          (ids_of member (GoMap.insert member (filter (λ i. not (test i)) ids) h.member_sessions)
            ++ id ∷ [])
          (GoMap.insert member (filter (λ i. not (test i)) ids) h.member_sessions))
      ∙ ground (
        arith,
        eq_iff member m,
        eq_iff member member,
        ids_of-insert member member (filter (λ i. not (test i)) ids) h.member_sessions,
        ids_of-insert member m (filter (λ i. not (test i)) ids) h.member_sessions,
        has-append j (filter (λ i. not (test i)) ids) (id ∷ []),
        has-filter (λ i. not (test i)) j ids,
      )

  pub lookup-after :
      (j : String)
      → GoMap.lookup j after.heap ≡ (
          if str_eq id j
          then some (new_session id member machine now)
          else (if has j ids && test j
              then Option.map close_session (GoMap.lookup j h.heap)
              else GoMap.lookup j h.heap))
  unfolding after ids test
  lookup-after j =
      GoMap.lookup-insert id j (new_session id member machine now) (close_on machine h.heap ids)
      ∙ ap (λ o. if str_eq id j then some (new_session id member machine now) else o)
          (lookup-close_on machine h.heap ids j)

  known-after :
      (j : String)
      → has j after.sessions_by_id
        ≡ (has j h.sessions_by_id && (not (has j ids) || not (test j))) || str_eq id j
  unfolding after ids test
  known-after j = ground (
    arith,
    has-append j (filter (λ i. not (has i ids) || not (test i)) h.sessions_by_id) (id ∷ []),
    has-filter (λ i. not (has i ids) || not (test i)) j h.sessions_by_id,
  )

  sessions_lem :
      (m j : String)
      → has j (ids_of m after.member_sessions) ≡ true
      → (test_session (is_open_of m) after.heap j ≡ true) × (has j after.sessions_by_id ≡ true)
  unfolding ids test
  sessions_lem m j e = ground (
    arith,
    eq_iff member m,
    eq_iff id j,
    r.sessions m j,
    r.sessions member j,
    r.sessions m id,
    fresh,
    has-after m j,
    lookup-after j,
    known-after j,
    e,
    one_owner h r member m j,
  )

  conns :
      (m : String)
      → GoMap.lookup m after.daemon_conns
        ≡ (if str_eq member m then some id else GoMap.lookup m h.daemon_conns)
  unfolding after
  conns m = GoMap.lookup-insert member m id h.daemon_conns

  primary_lem :
      (m j : String)
      → GoMap.lookup m after.daemon_conns ≡ some j
      → has j (ids_of m after.member_sessions) ≡ true
  unfolding ids
  primary_lem m j e =
      ground (arith, eq_iff member m, eq_iff id j, r.primary m j, has-after m j, e, conns m)

  known_at :
      (j : String) (o : Option Session)
      → GoMap.lookup j h.heap ≡ o
      → has j after.sessions_by_id ≡ true
      → test_session (λ s. has j (ids_of s.member_id after.member_sessions)) after.heap j ≡ true
  unfolding ids test
  known_at j none l e = ground (
    arith,
    eq_iff id j,
    r.known j,
    known-after j,
    lookup-after j,
    has-after member j,
    eq_iff member member,
    l,
    e,
  )
  known_at j (some s) l e = ground (
    arith,
    eq_iff id j,
    r.known j,
    known-after j,
    lookup-after j,
    has-after member j,
    has-after s.member_id j,
    eq_iff member s.member_id,
    eq_iff member member,
    l,
    e,
  )

  known_lem :
      (j : String)
      → has j after.sessions_by_id ≡ true
      → test_session (λ s. has j (ids_of s.member_id after.member_sessions)) after.heap j ≡ true
  unfolding ids
  known_lem j e = known_at j (GoMap.lookup j h.heap) refl e

  after-IsRegistered : IsRegistered after
  after-IsRegistered = record { sessions = sessions_lem; primary = primary_lem; known = known_lem }

-- The store has no part in it.
pub connect-IsRegistered :
    (id member machine : String) (now : ℕ) (h : Hub)
    → IsRegistered h
    → GoMap.lookup id h.heap ≡ none
    → IsRegistered (connect id member machine now h)
unfolding connect after ids
connect-IsRegistered id member machine now h r fresh =
    let s = after-IsRegistered id member machine now h r fresh in
    record { sessions = s.sessions; primary = s.primary; known = s.known }
