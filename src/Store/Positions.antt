-- ===== src/Store/Positions.antt =====
-- internal/store/store.go: the offline queue as a member's daemon sees it. `line` is an independent
-- description of it: the queries in the member's inbound list, oldest first, that wait and whose
-- time is not over.
use mathlib.Core.Option
use talkintent.Common.{
  ℕ, ◌+◌, String, Bool, true, false, ◌≡◌, refl, ap, ◌∙◌, Option, none, some, List, [], ◌∷◌, ◌++◌,
  arith, eq_iff, Option-cases, Bool-cases, inl, inr, length, str_eq, if◌then◌else◌,
}
use talkintent.Common.GoMap
use talkintent.Common.GoMap.{GoMap}
use talkintent.Common.Effect.{Result, ok, pure, bind_ok, ◌>>=◌}
use talkintent.Store.Records.{QueryDetail, is_waiting, status_queued}
use talkintent.Store.State.{Index}
use talkintent.Store.Journal.{Store, Error, append_event, set_index}
use talkintent.Store.Queries.{
  is_stale, is_in_line, audit_of, position_from, queue_position, with_defaults, create_query,
  expire_query, log_only,
}
use talkintent.Store.Queue.{
  with_query, found_query, each_query, queued_one, numbered, get_queued_queries_for_member,
}
use talkintent.Store.Rounds.{contains, changed_at, with_query-Changes}
use talkintent.Store.Rounds.Expiry.{expire_if, expire_if_twice, queued_one-Changes}

abbrev pub place : ℕ → Option QueryDetail → List QueryDetail
place now none = []
place now (some q) = if is_in_line now q then q ∷ [] else []

abbrev pub line : ℕ → GoMap QueryDetail → List String → List QueryDetail
line now queries [] = []
line now queries (id ∷ ids) = place now (GoMap.lookup id queries) ++ line now queries ids

-- The loop counts the places before the query that it looks for.
position_from_lem :
    (now : ℕ) (queries : GoMap QueryDetail) (id : String) (q : QueryDetail) (at : ℕ)
    (front back : List String)
    → GoMap.lookup id queries ≡ some q
    → is_in_line now q ≡ true
    → contains id front ≡ false
    → position_from now queries id at (front ++ id ∷ back)
      ≡ at + length (line now queries front) + 1
unfolding position_from
position_from_lem now queries id q at [] back e w h = ground (arith, eq_iff id id)
position_from_lem now queries id q at (i ∷ front) back e w h = ground (
  arith,
  Option-cases (GoMap.lookup i queries),
  position_from_lem now queries id q at front back,
  position_from_lem now queries id q (at + 1) front back,
)

-- A query that is not in the list has no position.
position_from_absent :
    (now : ℕ) (queries : GoMap QueryDetail) (id : String) (at : ℕ) (ids : List String)
    → contains id ids ≡ false
    → position_from now queries id at ids ≡ 0
unfolding position_from
position_from_absent now queries id at [] h = refl
position_from_absent now queries id at (i ∷ ids) h = ground (
  arith,
  position_from_absent now queries id at ids,
  position_from_absent now queries id (at + 1) ids,
)

-- The position of a query that is in line is one more than the number of queries in line before
-- the first place where the inbound list of its target names it.
pub queue_position-line :
    (now : ℕ) (x : Index) (id target : String) (q : QueryDetail) (front back : List String)
    → audit_of target x.inbound ≡ front ++ id ∷ back
    → contains id front ≡ false
    → GoMap.lookup id x.queries ≡ some q
    → is_in_line now q ≡ true
    → queue_position now x id target ≡ length (line now x.queries front) + 1
unfolding queue_position
queue_position-line now x id target q front back a h e w =
    ap (position_from now x.queries id 0) a
    ∙ position_from_lem now x.queries id q 0 front back e w h
    ∙ ground arith

place-changed :
    (now : ℕ) (b : Bool) (o : Option QueryDetail)
    → place now (changed_at (expire_if now) b o) ≡ place now o
place-changed now b none = ground arith
place-changed now false (some q) = refl
place-changed now true (some q) = elim (Bool-cases (is_waiting q.status)) [
  | inr e ↦ rw (e, e)
  | inl e ↦ elim (Bool-cases (is_stale now q)) [ inl h ↦ rw (e, h) | inr h ↦ rw (e, h, e, h) ]
]

line-changed :
    (now : ℕ) (a b : GoMap QueryDetail) (id : String) (ids : List String)
    → ((k : String)
        → GoMap.lookup k b ≡ changed_at (expire_if now) (str_eq id k) (GoMap.lookup k a))
    → line now b ids ≡ line now a ids
line-changed now a b id [] h = refl
line-changed now a b id (i ∷ ids) h =
    rw (h i, place-changed now (str_eq id i) (GoMap.lookup i a), line-changed now a b id ids h)

queued_one-place :
    (now : ℕ) (id : String) (q : QueryDetail) (s : Store)
    → (queued_one now id q s).0 ≡ ok (place now (some q))
unfolding queued_one expire_query ◌>>=◌ set_index log_only pure
queued_one-place now id q s = ground arith

found_query-place :
    (now : ℕ) (id : String) (o : Option QueryDetail) (s : Store)
    → (found_query o [] (queued_one now id) s).0 ≡ ok (place now o)
unfolding found_query
found_query-place now id none s = refl
found_query-place now id (some q) s = queued_one-place now id q s

each_query-line :
    (now : ℕ) (ids : List String) (s : Store)
    → (each_query ◌++◌ [] (queued_one now) ids s).0 ≡ ok (line now s.index.queries ids)
unfolding each_query with_query
each_query-line now [] s = unfold pure in refl
each_query-line now (id ∷ rest) s =
    let first = place now (GoMap.lookup id s.index.queries) in
    let t : Store = (with_query id [] (queued_one now id) s).1 in
    ap (λ (p : Result Error (List QueryDetail) × Store). p.0)
      (bind_ok (with_query id [] (queued_one now id)) _ s first
          (found_query-place now id (GoMap.lookup id s.index.queries) s)
        ∙ bind_ok (each_query ◌++◌ [] (queued_one now) rest) _ t _ (each_query-line now rest t))
    ∙ unfold pure in
      ap (λ (l : List QueryDetail). let r : Result Error (List QueryDetail) = ok (first ++ l) in r)
        (line-changed now s.index.queries t.index.queries id rest
          (with_query-Changes (expire_if now) (expire_if_twice now) (queued_one now)
            (queued_one-Changes now) [] id s).changes)

-- The daemon is given the line of its member, numbered from 1; every query of the member that
-- waits beyond its time is left out.
pub get_queued-line :
    (now : ℕ) (member : String) (s : Store)
    → (get_queued_queries_for_member now member s).0
      ≡ ok (numbered 0 (line now s.index.queries (audit_of member s.index.inbound)))
unfolding get_queued_queries_for_member ◌>>=◌
get_queued-line now member s =
    ap (λ (p : Result Error (List QueryDetail) × Store). p.0)
      (bind_ok (each_query ◌++◌ [] (queued_one now) ids) (λ found. pure (numbered 0 found)) s _
        (each_query-line now ids s))
  where
    ids : List String
    ids = audit_of member s.index.inbound

created_position :
    (now : ℕ) (given : QueryDetail) (x : Index)
    → given.status ≡ status_queued
    → contains given.query_id (audit_of given.target_member_id x.inbound) ≡ false
    → ((with_defaults now x given).queue_position ≡ 1)
      × ((with_defaults now x given).query_id ≡ given.query_id)
unfolding with_defaults queue_position
created_position now given x h n = (rw (h, position_from_absent _ _ _ 0 _ n), rw h)

-- `CreateQuery` asks for the position of a query that the list does not name yet. So whatever the
-- queue holds, a new queued query is stored with position 1, if no write fails.
pub create_query-position :
    (now : ℕ) (given : QueryDetail) (s : Store)
    → s.is_open ≡ true
    → s.writes ≡ []
    → given.status ≡ status_queued
    → contains given.query_id (audit_of given.target_member_id s.index.inbound) ≡ false
    → Option.map
        (λ (q : QueryDetail). q.queue_position)
        (GoMap.lookup given.query_id (create_query now given s).1.index.queries)
      ≡ some 1
unfolding create_query ◌>>=◌ append_event set_index
create_query-position now given s o w h n =
    let p = created_position now given s.index h n in
    let q = with_defaults now s.index given in
    ground (
      arith,
      p.0,
      p.1,
      GoMap.lookup-insert q.query_id given.query_id q s.index.queries,
      eq_iff q.query_id given.query_id,
    )
