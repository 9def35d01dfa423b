-- ===== src/Hub/Submit/Guard.antt =====
-- internal/hub/hub.go: where a submitted query goes.
use mathlib.Core.List.{append-nil}
use talkintent.Common.{
  ℕ, String, Bool, true, false, ◌≡◌, refl, sym, Option, none, some, List, [], ◌∷◌, ◌++◌, str_eq,
  arith, eq_iff, if◌then◌else◌,
}
use talkintent.Common.Effect.{Result, ok, err, ◌>>=◌}
use talkintent.Common.GoMap
use talkintent.Store.Records.{MemberInfo, QueryDetail, status_queued, status_dispatched, omit_empty}
use talkintent.Store.Event.{query_created}
use talkintent.Store.Journal.{Store, Error, append_event, set_index}
use talkintent.Store.Resolve.{found}
use talkintent.Store.Queries.{with_defaults, index_query, create_query, get_queue_position}
use talkintent.Store.Durable.Commit.{IsHealthy}
use talkintent.Hub.Records.{QueryRequest, Message, query_request}
use talkintent.Hub.State.{Hub, test_session}
use talkintent.Hub.Sessions.{select_session}
use talkintent.Hub.Sessions.Registered.{IsRegistered}
use talkintent.Hub.Sessions.Choice.{IsChoice, selected_open, select-IsChoice}
use talkintent.Hub.Waiters.{effective_timeout, set_query_timeout, add_waiter}
use talkintent.Hub.Waiters.Notified.{outcome_in}
use talkintent.Hub.Frames.Race.{update_outcome}
use talkintent.Hub.Frames.Drain.{is_closed, handed, hand_over_lem}
use talkintent.Hub.Submit.{
  QuerySubmitRequest, new_query, submitted_request, position_found, route, dispatch_new, submit_to,
}

abbrev pub routed_status : Option String → String
routed_status none = status_queued
routed_status (some session) = status_dispatched

abbrev pub routed_frames : Option String → QueryRequest → List (String × Message)
routed_frames none request = []
routed_frames (some session) request = (session, query_request request) ∷ []

created_store : ℕ → QueryDetail → Store → Store
created_store now q s = record s {
  index = index_query q s.index;
  log = s.log ++ query_created (record q { tools_used = omit_empty q.tools_used }) ∷ [];
}

create_lem :
    (now : ℕ) (given : QueryDetail) (s : Store)
    → IsHealthy s
    → create_query now given s ≡ (ok tt, created_store now (with_defaults now s.index given) s)
unfolding create_query ◌>>=◌ append_event set_index created_store
create_lem now given s k = rw (k.opened, k.no_faults) refl

-- The place in the queue is only read.
get_queue_position_store :
    (now : ℕ) (id : String) (s : Store) (o : Option QueryDetail)
    → GoMap.lookup id s.index.queries ≡ o
    → (get_queue_position now id s).1 ≡ s
unfolding get_queue_position ◌>>=◌
get_queue_position_store now id s none e = rw e refl
get_queue_position_store now id s (some q) e = rw e refl

-- What the routing of a stored query leaves.
record IsRouted (id answer : String) (o : Option String) (request : QueryRequest) (h t : Hub)
    : Type 0 where
  stored : outcome_in id t ≡ some (routed_status o, answer)
  frames : t.sent ≡ h.sent ++ routed_frames o request

position-IsRouted :
    (now timeout : ℕ) (q : QueryDetail) (h : Hub) (r : Result Error ℕ) (s : Store)
    → s ≡ h.store
    → GoMap.lookup q.query_id h.store.index.queries ≡ some q
    → q.status ≡ status_queued
    → IsRouted q.query_id q.answer none
        (submitted_request timeout q)
        h
        (position_found q (r, record h { store = s })).1
position-IsRouted now timeout q h (ok n) s x e w = record {
  stored = rw (x, e, w) refl;
  frames = sym (append-nil h.sent);
}
position-IsRouted now timeout q h (err n) s x e w = record {
  stored = rw (x, e, w) refl;
  frames = sym (append-nil h.sent);
}

route-IsRouted :
    (now timeout : ℕ) (q : QueryDetail) (o : Option String) (h : Hub)
    → IsHealthy h.store
    → GoMap.lookup q.query_id h.store.index.queries ≡ some q
    → q.status ≡ status_queued
    → ((session : String) → o ≡ some session → test_session is_closed h.heap session ≡ false)
    → IsRouted q.query_id q.answer o (submitted_request timeout q) h (route now timeout q o h).1
unfolding handed
route-IsRouted now timeout q none h k e w c =
    position-IsRouted now timeout q h _ _
      (get_queue_position_store now q.query_id h.store (some q) e) e w
route-IsRouted now timeout q (some session) h k e w c =
    rw (hand_over_lem now session (submitted_request timeout q) h (c session refl)) (record {
      stored = update_outcome now q.query_id q.status q.answer h (some q) e k (rw e refl);
      frames = refl;
    })

module _ (now channel : ℕ) (r : QuerySubmitRequest) (q : QueryDetail) (h : Hub)
    (keyless : str_eq r.idempotency_key "" ≡ true) (k : IsHealthy h.store)
    (stored : GoMap.lookup q.query_id h.store.index.queries ≡ some q)
    (queued : q.status ≡ status_queued) (registered : IsRegistered h) where
  selected : Option String
  selected = select_session q.target_member_id r.target_workspace h

  request : QueryRequest
  request = submitted_request (effective_timeout r.timeout_seconds h) q

  open_session :
      (session : String) → selected ≡ some session → test_session is_closed h.heap session ≡ false
  unfolding selected
  open_session session e =
      ground (arith, selected_open q.target_member_id r.target_workspace h session registered e)

  heard-IsRouted :
      (b : Bool)
      → let timed = set_query_timeout q.query_id r.timeout_seconds h in
        let heard = if b then add_waiter q.query_id channel timed else timed in
        IsRouted q.query_id q.answer selected request h
          (route now (effective_timeout r.timeout_seconds h) q selected heard).1
  unfolding set_query_timeout add_waiter request
  heard-IsRouted true =
      let a =
        route-IsRouted now (effective_timeout r.timeout_seconds h) q selected _
          (record { opened = k.opened; no_faults = k.no_faults }) stored queued open_session in
      record { stored = a.stored; frames = a.frames }
  heard-IsRouted false =
      let a =
        route-IsRouted now (effective_timeout r.timeout_seconds h) q selected _
          (record { opened = k.opened; no_faults = k.no_faults }) stored queued open_session in
      record { stored = a.stored; frames = a.frames }

  dispatch_new-IsRouted :
      IsRouted q.query_id q.answer selected request h (dispatch_new now channel r q h).1
  unfolding set_query_timeout select_session selected
  dispatch_new-IsRouted = rw (keyless) (heard-IsRouted r.wait)

-- Where the query goes: to a session, or nowhere.
pub record IsSubmitted (id : String) (target : MemberInfo) (r : QuerySubmitRequest)
    (request : QueryRequest) (h t : Hub) : Type 0 where
  session : Option String
  choice : IsChoice target.id r.target_workspace h session
  outcome : outcome_in id t ≡ some (routed_status session, "")
  frames : t.sent ≡ h.sent ++ routed_frames session request

-- A query without an idempotency key, while no write fails and the maps of the sessions agree.
-- Where the target has no session it is queued and nothing is written. Where it has one, the query is
-- dispatched and its request is the one frame that is written, to an open session of the target:
-- one with the workspace that is asked for if there is one, and otherwise the one seen last.
pub submit_to-route :
    (now : ℕ) (id : String) (channel : ℕ) (asker target : MemberInfo) (r : QuerySubmitRequest)
    (h : Hub)
    → IsHealthy h.store
    → IsRegistered h
    → str_eq r.idempotency_key "" ≡ true
    → let q = with_defaults now h.store.index (new_query now id asker target r h) in
      IsSubmitted id target r
        (submitted_request (effective_timeout r.timeout_seconds h) q)
        h
        (submit_to now id channel asker r (found target) h).1
unfolding submit_to with_defaults selected request created_store select_session
submit_to-route now id channel asker target r h k g e =
    let q = with_defaults now h.store.index (new_query now id asker target r h) in
    let a =
      dispatch_new-IsRouted now channel r q (record h { store = created_store now q h.store }) e
        (record { opened = k.opened; no_faults = k.no_faults })
        (ground (arith, GoMap.lookup-insert id id q h.store.index.queries, eq_iff id id)) refl
        (record { sessions = g.sessions; primary = g.primary; known = g.known }) in
    rw (create_lem now (new_query now id asker target r h) h.store k) (record {
      session = select_session target.id r.target_workspace h;
      choice = select-IsChoice target.id r.target_workspace h g;
      outcome = a.stored;
      frames = a.frames;
    })
