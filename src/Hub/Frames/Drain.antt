-- ===== src/Hub/Frames/Drain.antt =====
-- internal/hub/hub.go: what a daemon is sent of its queue.
use mathlib.Core.List.{append-nil, append_assoc}
use talkintent.Common.{
  ℕ, zero, suc, ◌+◌, String, Bool, true, false, ◌≡◌, refl, ap, ◌∙◌, sym, Option, none, some, List,
  [], ◌∷◌, ◌++◌, arith, take, leb, All, Bool-cases, inl, inr,
}
use talkintent.Common.GoMap
use talkintent.Common.GoMap.{GoMap}
use talkintent.Store.Records.{QueryDetail, status_dispatched}
use talkintent.Store.Queries.{is_stale, is_in_line, bare_update, update_query_status, audit_of}
use talkintent.Store.Queue.{numbered, sweep_expired_queries}
use talkintent.Store.Positions.{place, line, get_queued-line}
use talkintent.Store.Rounds.Trail.{inbound-sweep, line-sweep}
use talkintent.Hub.Records.{Message, query_request, QueryRequest}
use talkintent.Hub.State.{Session, Hub, test_session, send_envelope}
use talkintent.Hub.Waiters.{get_query_timeout}
use talkintent.Hub.Dispatch.{request_of, hand_over, drain_loop, limit_of, drain_offline_queue}

-- The frames of the queries, for the session.
abbrev pub frames : String → (String → ℕ) → List QueryDetail → List (String × Message)
frames id timeout [] = []
frames id timeout (q ∷ qs) =
    (id, query_request (request_of (timeout q.query_id) q)) ∷ frames id timeout qs

abbrev pub timeouts_of : Hub → String → ℕ
timeouts_of h id = get_query_timeout id h

abbrev AllFresh : ℕ → List QueryDetail → Type 0
AllFresh now = All (λ q. is_stale now q ≡ false)

abbrev pub is_closed : Session → Bool
is_closed s = s.closed

unfoldable pub handed : ℕ → String → QueryRequest → Hub → Hub
handed now id request h = record h {
  store = (update_query_status now (bare_update request.query_id status_dispatched) h.store).1;
  sent = h.sent ++ (id, query_request request) ∷ [];
}

pub hand_over_lem :
    (now : ℕ) (id : String) (request : QueryRequest) (h : Hub)
    → test_session is_closed h.heap id ≡ false
    → hand_over now id request h ≡ handed now id request h
unfolding hand_over send_envelope handed
hand_over_lem now id request h o = rw o refl

-- With room for `room` more, the loop sends so many of the queries.
drain_loop_lem :
    (now : ℕ) (id : String) (limit count room : ℕ) (qs : List QueryDetail) (h : Hub)
    → limit ≡ count + room
    → test_session is_closed h.heap id ≡ false
    → AllFresh now qs
    → (drain_loop now id limit count qs h).sent ≡ h.sent ++ frames id (timeouts_of h) (take room qs)
unfolding drain_loop handed get_query_timeout
drain_loop_lem now id limit count zero [] h e o f = sym (append-nil h.sent)
drain_loop_lem now id limit count (suc room) [] h e o f = sym (append-nil h.sent)
drain_loop_lem now id limit count zero (q ∷ qs) h e o f =
    rw (drain_loop, full) (sym (append-nil h.sent))
  where
    full : leb limit count ≡ true
    full = ground (arith, e)
drain_loop_lem now id limit count (suc room) (q ∷ qs) h e o f =
    let r = request_of (get_query_timeout q.query_id h) q in
    rw (drain_loop, open_, f.0, hand_over_lem now id r h o)
      (drain_loop_lem now id limit (count + 1) room qs (handed now id r h) (ground (arith, e)) o f.1
        ∙ append_assoc h.sent _ _)
  where
    open_ : leb limit count ≡ false
    open_ = ground (arith, e)

append-AllFresh :
    (now : ℕ) (ps qs : List QueryDetail)
    → AllFresh now ps
    → AllFresh now qs
    → AllFresh now (ps ++ qs)
append-AllFresh now [] qs f g = g
append-AllFresh now (p ∷ ps) qs f g = (f.0, append-AllFresh now ps qs f.1 g)

place-AllFresh : (now : ℕ) (o : Option QueryDetail) → AllFresh now (place now o)
place-AllFresh now none = tt
place-AllFresh now (some q) = elim (Bool-cases (is_in_line now q)) [
  | inr e ↦ rw e tt
  | inl e ↦ rw e (ground (arith, e), tt)
]

line-AllFresh :
    (now : ℕ) (queries : GoMap QueryDetail) (ids : List String)
    → AllFresh now (line now queries ids)
line-AllFresh now queries [] = tt
line-AllFresh now queries (id ∷ ids) =
    append-AllFresh now _ _ (place-AllFresh now (GoMap.lookup id queries))
      (line-AllFresh now queries ids)

numbered-AllFresh :
    (now i : ℕ) (qs : List QueryDetail) → AllFresh now qs → AllFresh now (numbered i qs)
unfolding numbered
numbered-AllFresh now i [] f = tt
numbered-AllFresh now i (q ∷ qs) f = (f.0, numbered-AllFresh now (i + 1) qs f.1)

-- A request does not carry the query's place in the line.
frames-numbered :
    (id : String) (timeout : String → ℕ) (n i : ℕ) (qs : List QueryDetail)
    → frames id timeout (take n (numbered i qs)) ≡ frames id timeout (take n qs)
unfolding numbered
frames-numbered id timeout zero i qs = refl
frames-numbered id timeout (suc n) i [] = refl
frames-numbered id timeout (suc n) i (q ∷ qs) =
    ap (λ l. (id, query_request (request_of (timeout q.query_id) q)) ∷ l)
      (frames-numbered id timeout n (i + 1) qs)

-- A session that is open is sent the first queries of its member's line, in order and as many as
-- its concurrency allows, and nothing else.
pub drain-line :
    (now : ℕ) (s : Session) (h : Hub)
    → test_session is_closed h.heap s.session_id ≡ false
    → (drain_offline_queue now s h).sent
      ≡ h.sent
        ++ frames s.session_id (timeouts_of h) (
            take
              (limit_of s)
              (line now h.store.index.queries (audit_of s.member_id h.store.index.inbound)))
unfolding drain_offline_queue get_query_timeout
drain-line now s h o =
    let t = (sweep_expired_queries now h.store).1 in
    let ids = audit_of s.member_id t.index.inbound in
    let l = line now t.index.queries ids in
    rw (get_queued-line now s.member_id t) (
      drain_loop_lem now s.session_id (limit_of s) 0 (limit_of s) (numbered 0 l) _ (ground arith) o
        (numbered-AllFresh now 0 l (line-AllFresh now t.index.queries ids)))
    ∙ ap (λ l. h.sent ++ l) (frames-numbered s.session_id (timeouts_of h) (limit_of s) 0 l)
    ∙ rw
        (
          inbound-sweep now h.store,
          line-sweep now h.store (audit_of s.member_id h.store.index.inbound),
        )
        refl
