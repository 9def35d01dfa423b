-- ===== src/Hub/Sessions/Choice.antt =====
-- internal/hub/hub.go: the takeover of a machine's session, and `selectSessionForQuery`.
use mathlib.Core.Path.{subst}
use talkintent.Common.{
  ltb→lt, ℕ, String, Bool, true, false, not, ◌&&◌, ◌||◌, ◌≡◌, ◌≤◌, Option, Option-cases, Bool-cases,
  inl, inr, ltb, refl, sym, none, some, List, [], ◌∷◌, str_eq, arith, eq_iff,
}
use talkintent.Common.Names.{has}
use talkintent.Common.GoMap
use talkintent.Common.GoMap.{GoMap}
use talkintent.Hub.State.{Session, Hub, ids_of, test_session}
use talkintent.Hub.Sessions.{
  runs_on, connect, first_with, any_workspace, last_seen_of, latest_from, latest, select_session,
}
use talkintent.Hub.Sessions.Registered.{
  IsRegistered, is_open_of, after, test, ids, has-after, lookup-after,
}

-- After a machine connected, a session of the member's map that runs on it is the new one.
pub one_session_per_machine :
    (id member machine : String) (now : ℕ) (h : Hub)
    → IsRegistered h
    → GoMap.lookup id h.heap ≡ none
    → (j : String) → has j (ids_of member (connect id member machine now h).member_sessions) ≡ true
    → test_session (runs_on machine) (connect id member machine now h).heap j ≡ true
    → str_eq id j ≡ true
unfolding connect after ids test
one_session_per_machine id member machine now h r fresh j e t = ground (
  arith,
  e,
  t,
  has-after id member machine now h r fresh member j,
  lookup-after id member machine now h r fresh j,
  eq_iff id j,
  eq_iff member member,
)

-- A session of the member on the machine is closed by the takeover.
pub superseded_closed :
    (id member machine : String) (now : ℕ) (h : Hub)
    → IsRegistered h
    → GoMap.lookup id h.heap ≡ none
    → (j : String) → has j (ids_of member h.member_sessions) ≡ true
    → test_session (runs_on machine) h.heap j ≡ true
    → test_session (λ s. s.closed) (connect id member machine now h).heap j ≡ true
unfolding connect after ids test
superseded_closed id member machine now h r fresh j e t =
    ground (arith, e, t, fresh, lookup-after id member machine now h r fresh j, eq_iff id j)

-- The choice of a session, the workspace given or not.
has-first_with :
    (wanted : Session → Bool) (heap : GoMap Session) (names : List String) (j : String)
    → first_with wanted heap names ≡ some j
    → has j names ≡ true
has-first_with wanted heap [] j e = ground (arith, e)
has-first_with wanted heap (i ∷ rest) j e =
    ground (arith, e, eq_iff i j, has-first_with wanted heap rest j)

has-latest_from :
    (heap : GoMap Session) (best : String) (names : List String)
    → str_eq best (latest_from heap best names) || has (latest_from heap best names) names ≡ true
has-latest_from heap best [] = ground (arith, eq_iff best best)
has-latest_from heap best (i ∷ rest) =
    ground (arith, has-latest_from heap best rest, has-latest_from heap i rest)

has-latest :
    (heap : GoMap Session) (names : List String) (j : String)
    → latest heap names ≡ some j
    → has j names ≡ true
has-latest heap [] j e = ground (arith, e)
has-latest heap (i ∷ rest) j e = ground (arith, e, has-latest_from heap i rest)

has-select :
    (member workspace : String) (h : Hub) (j : String)
    → select_session member workspace h ≡ some j
    → has j (ids_of member h.member_sessions) ≡ true
unfolding select_session
has-select member workspace h j e = ground (
  arith,
  e,
  has-latest h.heap (ids_of member h.member_sessions) j,
  has-first_with (λ s. any_workspace workspace s.workspaces) h.heap
      (ids_of member h.member_sessions) j,
)

-- A session that is chosen for a member is an open one of that member.
pub selected_open :
    (member workspace : String) (h : Hub) (j : String)
    → IsRegistered h
    → select_session member workspace h ≡ some j
    → test_session (is_open_of member) h.heap j ≡ true
selected_open member workspace h j r e = (r.sessions member j (has-select member workspace h j e)).0

-- The session has the workspace that is asked for.
abbrev pub is_wanted : String → Hub → String → Bool
is_wanted workspace h j =
    not (str_eq workspace "") && test_session (λ s. any_workspace workspace s.workspaces) h.heap j

-- What a choice for a member is: nothing where the member has no session; otherwise an open session of
-- the member, which has the workspace if one of the member's has it, and is the one seen last
-- if it has not.
pub data IsChoice (member workspace : String) (h : Hub) : Option String → Type 0 where
  nobody :
      ((i : String) → has i (ids_of member h.member_sessions) ≡ false)
      → IsChoice member workspace h none
  chosen :
      (j : String)
      → has j (ids_of member h.member_sessions) ≡ true
      → test_session (is_open_of member) h.heap j ≡ true
      → ((i : String)
          → has i (ids_of member h.member_sessions) ≡ true
          → is_wanted workspace h i ≡ true
          → is_wanted workspace h j ≡ true)
      → ((i : String)
          → has i (ids_of member h.member_sessions) ≡ true
          → is_wanted workspace h j ≡ false
          → last_seen_of h.heap i ≤ last_seen_of h.heap j)
      → IsChoice member workspace h (some j)

first_with-passes :
    (wanted : Session → Bool) (heap : GoMap Session) (names : List String) (j : String)
    → first_with wanted heap names ≡ some j
    → test_session wanted heap j ≡ true
first_with-passes wanted heap [] j e = ground (arith, e)
first_with-passes wanted heap (i ∷ rest) j e =
    ground (arith, e, first_with-passes wanted heap rest j)

first_with-none :
    (wanted : Session → Bool) (heap : GoMap Session) (names : List String) (j : String)
    → first_with wanted heap names ≡ none
    → has j names ≡ true
    → test_session wanted heap j ≡ false
first_with-none wanted heap [] j e m = ground (arith, m)
first_with-none wanted heap (i ∷ rest) j e m =
    ground (arith, e, m, eq_iff i j, first_with-none wanted heap rest j)

either_le :
    (heap : GoMap Session) (k i : String) (rest : List String) (most : ℕ)
    → last_seen_of heap k ≤ most
    → (has i rest ≡ true → last_seen_of heap i ≤ most)
    → has i (k ∷ rest) ≡ true
    → last_seen_of heap i ≤ most
either_le heap k i rest most p q m = elim (Bool-cases (str_eq k i)) [
  | inl e ↦ subst (λ j. last_seen_of heap j ≤ most) ((eq_iff k i).0 e) p
  | inr e ↦ q (ground (arith, e, m))
]

latest_from-le :
    (heap : GoMap Session) (best : String) (names : List String)
    → (last_seen_of heap best ≤ last_seen_of heap (latest_from heap best names))
      × ((i : String)
          → has i names ≡ true
          → last_seen_of heap i ≤ last_seen_of heap (latest_from heap best names))
latest_from-le heap best [] = (omega arith, λ i m. ground (arith, m))
latest_from-le heap best (k ∷ rest) =
    let a = latest_from-le heap best rest in
    let b = latest_from-le heap k rest in
    elim (Bool-cases (ltb (last_seen_of heap best) (last_seen_of heap k))) [
      | inl e ↦
          rw e (omega (arith, ltb→lt _ _ e, b.0), λ i m. either_le heap k i rest _ b.0 (b.1 i) m)
      | inr e ↦ rw e (a.0, λ i m. either_le heap k i rest _ (ground (arith, e, a.0)) (a.1 i) m)
    ]

latest-IsChoice :
    (member workspace : String) (h : Hub) (ids : List String)
    → ids ≡ ids_of member h.member_sessions
    → IsRegistered h
    → ((i : String) → has i ids ≡ true → is_wanted workspace h i ≡ false)
    → IsChoice member workspace h (latest h.heap ids)
latest-IsChoice member workspace h [] e r none_wanted = nobody (λ i. rw (sym e) refl)
latest-IsChoice member workspace h (k ∷ rest) e r none_wanted =
    let l = latest_from-le h.heap k rest in
    let j = latest_from h.heap k rest in
    let m : has j (ids_of member h.member_sessions) ≡ true =
      subst (λ is. has j is ≡ true) e (has-latest h.heap (k ∷ rest) j refl) in
    chosen j m (r.sessions member j m).0
      (λ i n w. ground (arith, w, none_wanted i (subst (λ is. has i is ≡ true) (sym e) n)))
      (λ i n w. either_le h.heap k i rest _ l.0 (l.1 i) (subst (λ is. has i is ≡ true) (sym e) n))

-- The choice of `selectSessionForQuery`.
pub select-IsChoice :
    (member workspace : String) (h : Hub)
    → IsRegistered h
    → IsChoice member workspace h (select_session member workspace h)
unfolding select_session
select-IsChoice member workspace h r = elim (Bool-cases (str_eq workspace "")) [
  | inl e ↦ rw e (latest-IsChoice member workspace h _ refl r (λ i m. rw e refl))
  | inr e ↦ rw e (elim (Option-cases (first_with test h.heap (ids_of member h.member_sessions))) [
    | inl n ↦ rw n (
        latest-IsChoice member workspace h _ refl r
          (λ i m. rw e (first_with-none test h.heap (ids_of member h.member_sessions) i n m)))
    | inr (j, f) ↦
        let passes = first_with-passes test h.heap (ids_of member h.member_sessions) j f in
        let m = has-first_with test h.heap (ids_of member h.member_sessions) j f in
        let w : is_wanted workspace h j ≡ true = rw e passes in
        rw f (chosen j m (r.sessions member j m).0 (λ i n x. w) (λ i n x. ground (arith, w, x)))
  ])
]
  where
    test : Session → Bool
    test = λ s. any_workspace workspace s.workspaces
