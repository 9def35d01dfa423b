-- ===== src/Hub/Sessions.antt =====
-- The sessions of a member's daemons: the registration of `handleWebSocket` with its takeover, the
-- clean-up that it defers, and `selectSessionForQuery`.
pub mod Registered
pub mod Leaving
pub mod Histories
pub mod Choice
use talkintent.Common.{
  ℕ, String, Bool, true, false, ◌||◌, not, Option, none, some, List, [], ◌∷◌, ◌++◌, str_eq, ltb,
  if◌then◌else◌,
}
use talkintent.Common.Names.{has, without, filter}
use talkintent.Common.GoMap
use talkintent.Common.GoMap.{GoMap}
use talkintent.Store.Members.{set_member_online}
use talkintent.Store.Queue.{requeue_in_flight_queries}
use talkintent.Hub.Records.{WorkspaceInfo}
use talkintent.Hub.State.{Session, Hub, call_only, ids_of, test_session}

abbrev pub default_max_concurrency : ℕ
default_max_concurrency = 2

abbrev pub new_session : String → String → String → ℕ → Session
new_session id member machine now = record {
  session_id = id;
  member_id = member;
  machine_name = machine;
  workspaces = [];
  max_concurrency = default_max_concurrency;
  closed = false;
  last_seen = now;
}

abbrev pub close_session : Session → Session
close_session s = record s { closed = true }

abbrev pub runs_on : String → Session → Bool
runs_on machine s = str_eq s.machine_name machine

-- The sessions of the machine among `ids` are closed.
abbrev pub close_on : String → GoMap Session → List String → GoMap Session
close_on machine heap [] = heap
close_on machine heap (id ∷ ids) =
    let rest = close_on machine heap ids in
    if test_session (runs_on machine) heap id then GoMap.modify id close_session rest else rest

-- The takeover: the sessions of `ids` on the machine are closed and leave the maps.
abbrev pub supersede : String → String → List String → Hub → Hub
supersede member machine ids h = record h {
  heap = close_on machine h.heap ids;
  member_sessions =
      GoMap.insert member (filter (λ id. not (test_session (runs_on machine) h.heap id)) ids)
        h.member_sessions;
  sessions_by_id =
      filter (λ id. not (has id ids) || not (test_session (runs_on machine) h.heap id))
        h.sessions_by_id;
}

abbrev pub add_session : Session → Hub → Hub
add_session s h = record h {
  heap = GoMap.insert s.session_id s h.heap;
  member_sessions =
      GoMap.insert s.member_id (ids_of s.member_id h.member_sessions ++ s.session_id ∷ [])
        h.member_sessions;
  sessions_by_id = h.sessions_by_id ++ s.session_id ∷ [];
  daemon_conns = GoMap.insert s.member_id s.session_id h.daemon_conns;
}

-- A new connection of a member's machine, up to the read loop. `id` is the drawn session id.
unfoldable pub connect : String → String → String → ℕ → Hub → Hub
connect id member machine now h = call_only (set_member_online member true machine none now) (
    add_session (new_session id member machine now)
      (supersede member machine (ids_of member h.member_sessions) h))

-- The maps after the session left them. With other sessions left, one of them is the primary.
abbrev pub drop_session : String → String → List String → Hub → Hub
drop_session id member [] h = record h {
  member_sessions = GoMap.erase member h.member_sessions;
  daemon_conns = GoMap.erase member h.daemon_conns;
}
drop_session id member (other ∷ rest) h = record h {
  member_sessions = GoMap.insert member (other ∷ rest) h.member_sessions;
  daemon_conns = GoMap.insert member other h.daemon_conns;
}

abbrev pub forget_session : String → String → Option (List String) → Hub → Hub
forget_session id member none h = h
forget_session id member (some ids) h = drop_session id member (without id ids) h

abbrev pub is_empty {ℓ} : {A : Type ℓ} → List A → Bool
is_empty [] = true
is_empty (x ∷ xs) = false

abbrev pub unregister : String → String → Hub → Hub
unregister id member h =
    let g = forget_session id member (GoMap.lookup member h.member_sessions) h in
    record g {
      heap = GoMap.modify id close_session h.heap;
      sessions_by_id = without id h.sessions_by_id;
    }

-- The function that `handleWebSocket` defers. The last session takes the member offline.
unfoldable pub disconnect : String → String → ℕ → Hub → Hub
disconnect id member now h =
    let g = unregister id member h in
    if is_empty (ids_of member g.member_sessions)
    then call_only (set_member_online member false "" none now)
        (call_only (requeue_in_flight_queries now member) g)
    else g

abbrev pub is_workspace : String → WorkspaceInfo → Bool
is_workspace target w = str_eq w.name target || str_eq w.id target || str_eq w.root_path target

abbrev pub any_workspace : String → List WorkspaceInfo → Bool
any_workspace target [] = false
any_workspace target (w ∷ ws) = is_workspace target w || any_workspace target ws

abbrev pub first_with : (Session → Bool) → GoMap Session → List String → Option String
first_with test heap [] = none
first_with test heap (id ∷ ids) =
    if test_session test heap id then some id else first_with test heap ids

abbrev pub last_seen_of : GoMap Session → String → ℕ
last_seen_of heap id = elim (GoMap.lookup id heap) [ none ↦ 0 | some s ↦ s.last_seen ]

-- The loop for the session seen last; `best` is the choice so far.
abbrev pub latest_from : GoMap Session → String → List String → String
latest_from heap best [] = best
latest_from heap best (id ∷ ids) =
    latest_from heap (if ltb (last_seen_of heap best) (last_seen_of heap id) then id else best) ids

abbrev pub latest : GoMap Session → List String → Option String
latest heap [] = none
latest heap (id ∷ ids) = some (latest_from heap id ids)

abbrev pub or_latest : GoMap Session → List String → Option String → Option String
or_latest heap ids none = latest heap ids
or_latest heap ids (some id) = some id

unfoldable pub select_session : String → String → Hub → Option String
select_session member workspace h =
    let ids = ids_of member h.member_sessions in
    if str_eq workspace ""
    then latest h.heap ids
    else or_latest h.heap ids (first_with (λ s. any_workspace workspace s.workspaces) h.heap ids)
