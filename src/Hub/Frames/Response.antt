-- ===== src/Hub/Frames/Response.antt =====
-- internal/hub/hub.go: a daemon's answer, the check against a foreign session and what the waiters
-- are given.
use mathlib.Core.Option
use talkintent.Common.{
  ℕ, String, Bool, true, false, ◌&&◌, ◌≡◌, refl, ap, ◌∙◌, Option, none, some, arith, eq_iff, str_eq,
  Bool-cases, inl, inr, if◌then◌else◌,
}
use talkintent.Common.GoMap
use talkintent.Common.Effect.{Result, ok, err}
use talkintent.Store.Records.{
  QueryDetail, is_waiting, is_terminal, status_queued, status_dispatched,
}
use talkintent.Store.Event.{or_keep}
use talkintent.Store.Journal.{Error}
use talkintent.Store.Queries.{is_stale, get_query, set_position, live_update, normalize_status}
use talkintent.Store.Reading.{get_query-IsRead, get_query_absent}
use talkintent.Store.Rounds.Expiry.{expire_if}
use talkintent.Store.Durable.Commit.{IsHealthy}
use talkintent.Store.Durable.Completion.{sent, updated, update_healthy}
use talkintent.Hub.Records.{QueryResponse}
use talkintent.Hub.State.{Hub, call, call_only}
use talkintent.Hub.Waiters.{waiters_of, received, is_full}
use talkintent.Hub.Waiters.Notified.{
  outcome, outcome_in, has_channel, IsAnswered, notify-IsAnswered, read-IsAnswered,
}
use talkintent.Hub.Frames.{
  response_status, update_of, reply_feishu, reply_found, has_message, complete, handle_response,
}

-- Whether the stored query under an id is for the member.
abbrev pub is_for : String → String → Hub → Bool
is_for member id h = elim (GoMap.lookup id h.store.index.queries) [
  | none ↦ false
  | some q ↦ str_eq q.target_member_id member
]

pub expire_if-target :
    (now : ℕ) (q : QueryDetail) → (expire_if now q).target_member_id ≡ q.target_member_id
expire_if-target now q = elim (Bool-cases (is_waiting q.status && is_stale now q)) [
  | inl e ↦ rw e refl
  | inr e ↦ rw e refl
]

guard_at :
    (now : ℕ) (member : String) (r : QueryResponse) (h : Hub) (o : Option QueryDetail)
    → GoMap.lookup r.query_id h.store.index.queries ≡ o
    → is_for member r.query_id h ≡ false
    → handle_response now member r h ≡ call_only (get_query now r.query_id) h
unfolding handle_response
guard_at now member r h none e f = rw (get_query_absent now r.query_id h.store e) refl
guard_at now member r h (some q) e f =
    let g = get_query-IsRead now r.query_id q h.store e in
    rw (g.returns, expire_if-target now q, foreign) refl
  where
    foreign : str_eq q.target_member_id member ≡ false
    foreign = ground (arith, e, f)

-- An answer to a query that is not for the session's member, or that the store does not have, does
-- what reading the query does and no more.
pub response_guard :
    (now : ℕ) (member : String) (r : QueryResponse) (h : Hub)
    → is_for member r.query_id h ≡ false
    → handle_response now member r h ≡ call_only (get_query now r.query_id) h
response_guard now member r h =
    guard_at now member r h (GoMap.lookup r.query_id h.store.index.queries) refl

response_status_lem :
    (status : String) → normalize_status (response_status status) ≡ response_status status
response_status_lem status = ground (arith, eq_iff status "success")

expire_if-answer : (now : ℕ) (q : QueryDetail) → (expire_if now q).answer ≡ q.answer
expire_if-answer now q = elim (Bool-cases (is_waiting q.status && is_stale now q)) [
  | inl e ↦ rw e refl
  | inr e ↦ rw e refl
]

waiting_runs : (status : String) → is_waiting status ≡ true → is_terminal status ≡ false
waiting_runs status w = elim (Bool-cases (str_eq status status_queued)) [
  | inl e ↦ rw ((eq_iff status status_queued).0 e) refl
  | inr e ↦ rw ((eq_iff status status_dispatched).0 (ground (arith, e, w))) refl
]

terminal_done : (status : String) → is_terminal status ≡ true → is_waiting status ≡ false
terminal_done status e = elim (Bool-cases (is_waiting status)) [
  | inr w ↦ w
  | inl w ↦ ground (arith, e, waiting_runs status w)
]

not_waiting :
    (status : String)
    → is_terminal (response_status status) ≡ true
    → is_waiting (normalize_status (response_status status)) ≡ false
not_waiting status t = rw (response_status_lem status) (terminal_done (response_status status) t)

abbrev pub answer_of : QueryResponse → QueryDetail → String × String
answer_of r q = (normalize_status (response_status r.status), or_keep r.answer q.answer)

complete-IsAnswered :
    (now : ℕ) (r : QueryResponse) (q : QueryDetail) (h : Hub)
    → IsHealthy h.store
    → GoMap.lookup r.query_id h.store.index.queries ≡ some q
    → is_terminal (response_status r.status) ≡ true
    → IsAnswered r.query_id (answer_of r q) h (complete now r h)
unfolding complete
complete-IsAnswered now r q h k e t =
    let u = sent now (update_of r) in
    let w = updated now (update_of r) h.store in
    let a =
      notify-IsAnswered now r.query_id (live_update u q) (record h { store = w })
        (ground (
          arith,
          e,
          GoMap.lookup-modify r.query_id r.query_id (live_update u) h.store.index.queries,
          eq_iff r.query_id r.query_id,
        ))
        done in
    rw (update_healthy now (update_of r) h.store q k e) (record {
      stored = a.stored;
      given = a.given;
      no_waiter = a.no_waiter;
      no_timeout = a.no_timeout;
      healthy = λ x. a.healthy (record { opened = x.opened; no_faults = x.no_faults });
    })
  where
    done : is_waiting (normalize_status (response_status r.status)) ≡ false
    done = not_waiting r.status t

reply_found-IsAnswered :
    (id : String) (o : String × String) (h : Hub) (found : Result Error QueryDetail) (t : Hub)
    → IsAnswered id o h t
    → IsAnswered id o h (reply_found (found, t))
reply_found-IsAnswered id o h (err e) t a = a
reply_found-IsAnswered id o h (ok q) t a = record {
  stored = a.stored;
  given = a.given;
  no_waiter = a.no_waiter;
  no_timeout = a.no_timeout;
  healthy = a.healthy;
}

reply-IsAnswered :
    (now : ℕ) (id : String) (p : QueryDetail) (o : String × String) (h t : Hub)
    → is_waiting o.0 ≡ false
    → IsAnswered id o h t
    → IsAnswered id o h (reply_feishu now id p t)
reply-IsAnswered now id p o h t w a =
    elim (has_message p.feishu_context && t.feishu_handler)
      as (λ b. IsAnswered id o h (if b then reply_found (call (get_query now id) t) else t)) [
        | false ↦ a
        | true ↦ reply_found-IsAnswered id o h _ _ (read-IsAnswered now id o h t w a)
      ]

pub answer_of-expire_if :
    (now : ℕ) (r : QueryResponse) (q : QueryDetail)
    → answer_of r (expire_if now q) ≡ (response_status r.status, or_keep r.answer q.answer)
answer_of-expire_if now r q = rw (response_status_lem r.status, expire_if-answer now q) refl

module _ (now : ℕ) (member : String) (r : QueryResponse) (h : Hub) (q : QueryDetail)
    (k : IsHealthy h.store) (found : GoMap.lookup r.query_id h.store.index.queries ≡ some q)
    (target : str_eq q.target_member_id member ≡ true)
    (done : is_terminal (response_status r.status) ≡ true) where
  pub answered :
      IsAnswered r.query_id (answer_of r (expire_if now q)) h (handle_response now member r h)
  unfolding handle_response
  answered =
      let g = get_query-IsRead now r.query_id q h.store found in
      let p = set_position g.position (expire_if now q) in
      let a = reply-IsAnswered now r.query_id p _ _ _ (not_waiting r.status done) (
        complete-IsAnswered now r p (call_only (get_query now r.query_id) h) (g.healthy k)
          (ground (arith, g.changes r.query_id, eq_iff r.query_id r.query_id)) done) in
      rw (g.returns, expire_if-target now q, target)
        (record {
          stored = a.stored;
          given = a.given;
          no_waiter = a.no_waiter;
          no_timeout = a.no_timeout;
          healthy = λ x. a.healthy (g.healthy x);
        })

-- An answer of the target's session that ends its query, while no write fails: the query has the
-- status and the answer of it, and its waiters and its timeout are gone.
pub response_completes :
    (now : ℕ) (member : String) (r : QueryResponse) (h : Hub) (q : QueryDetail)
    → IsHealthy h.store
    → GoMap.lookup r.query_id h.store.index.queries ≡ some q
    → str_eq q.target_member_id member ≡ true
    → is_terminal (response_status r.status) ≡ true
    → let g = handle_response now member r h in
      (outcome_in r.query_id g ≡ some (response_status r.status, or_keep r.answer q.answer))
      × (GoMap.lookup r.query_id g.waiters ≡ none)
      × (GoMap.lookup r.query_id g.timeouts ≡ none)
response_completes now member r h q k e t d =
    let a = answered now member r h q k e t d in
    (a.stored ∙ ap some (answer_of-expire_if now r q), a.no_waiter, a.no_timeout)

-- A channel that waits for the query and is empty is given the query with that outcome.
response_notifies :
    (now : ℕ) (member : String) (r : QueryResponse) (h : Hub) (q : QueryDetail) (channel : ℕ)
    → IsHealthy h.store
    → GoMap.lookup r.query_id h.store.index.queries ≡ some q
    → str_eq q.target_member_id member ≡ true
    → is_terminal (response_status r.status) ≡ true
    → has_channel channel (waiters_of r.query_id h) ≡ true
    → is_full channel h.delivered ≡ false
    → Option.map outcome (received channel (handle_response now member r h).delivered)
      ≡ some (response_status r.status, or_keep r.answer q.answer)
response_notifies now member r h q c k e t d w f =
    let a = answered now member r h q k e t d in
    a.given c w f ∙ ap some (answer_of-expire_if now r q)
