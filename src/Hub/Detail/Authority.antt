-- ===== src/Hub/Detail/Authority.antt =====
-- internal/hub/hub.go: who is shown a query.
use mathlib.Core.Path.{subst}
use talkintent.Common.GoMap
use talkintent.Store.Reading.{get_query-IsRead, get_query_absent}
use talkintent.Store.Rounds.Expiry.{expire_if}
use talkintent.Common.{
  ◌&&◌, Option-cases, ℕ, String, Bool, true, false, ◌||◌, ◌≡◌, refl, ap, ◌∙◌, sym, Option, none,
  some, str_eq, arith, Bool-cases, inl, inr, if◌then◌else◌,
}
use talkintent.Common.Effect.{Result, ok, err}
use talkintent.Store.Records.{MemberInfo, QueryDetail, is_waiting}
use talkintent.Store.Journal.{Error}
use talkintent.Store.Queries.{get_query, is_stale, set_position}
use talkintent.Hub.State.{Hub, call}
use talkintent.Hub.Waiters.{add_waiter, remove_waiter}
use talkintent.Hub.Access.{
  Web, Reply, refused, invalid_argument, detail, authenticate_member, authenticate_admin,
}
use talkintent.Hub.Submit.{Submitted, replied, waiting}
use talkintent.Hub.Detail.{
  may_change, show, show_to, detail_found, handle_query_detail, latest_found, detail_wait_over,
}

-- The query that an answer shows, or will show when the wait is over.
abbrev pub shown : Submitted → Option QueryDetail
shown (replied (detail q)) = some q
shown (replied _) = none
shown (waiting c q) = some q

abbrev pub is_party : Option MemberInfo → QueryDetail → Bool
is_party none q = false
is_party (some m) q = str_eq m.id q.asker_id || str_eq m.id q.target_member_id

abbrev pub may_see : Web → String → QueryDetail → Hub → Bool
may_see web header q h =
    authenticate_admin web header h || is_party (authenticate_member web header h) q

show_lem :
    (id : String) (wait : Bool) (channel : ℕ) (p : QueryDetail) (h : Hub)
    → shown (show id wait channel p h).0 ≡ some p
show_lem id true channel p h = ground arith
show_lem id false channel p h = refl

may_see-show :
    (web : Web) (header : String) (q : QueryDetail) (id : String) (wait : Bool) (channel : ℕ)
    (p : QueryDetail) (h : Hub)
    → may_see web header q (show id wait channel p h).1 ≡ may_see web header q h
unfolding add_waiter
may_see-show web header q id false channel p h = refl
may_see-show web header q id true channel p h = elim (Bool-cases (may_change p.status)) [
  | inl e ↦ rw e refl
  | inr e ↦ rw e refl
]

module _ (web : Web) (header id : String) (wait : Bool) (channel : ℕ) (q : QueryDetail) where
  show-seen :
      (p : QueryDetail) (h : Hub)
      → may_see web header p h ≡ true
      → shown (show id wait channel p h).0 ≡ some q
      → may_see web header q (show id wait channel p h).1 ≡ true
  show-seen p h m e =
      may_see-show web header q id wait channel p h
      ∙ subst (λ (v : QueryDetail). may_see web header v h ≡ true) same m
    where
      some_same : some p ≡ some q
      some_same = sym (show_lem id wait channel p h) ∙ e

      same : p ≡ q
      same = cc (some_same)

  gate-seen :
      (p : QueryDetail) (h : Hub) (b : Bool) (other : Submitted × Hub)
      → (b ≡ true → may_see web header p h ≡ true)
      → (shown other.0 ≡ some q → may_see web header q other.1 ≡ true)
      → let t = if b then show id wait channel p h else other in
        shown t.0 ≡ some q → may_see web header q t.1 ≡ true
  gate-seen p h true other k l e = show-seen p h (k refl) e
  gate-seen p h false other k l e = l e

  show_to-seen :
      (p : QueryDetail) (h : Hub) (o : Option MemberInfo)
      → authenticate_member web header h ≡ o
      → shown (show_to id wait channel p o h).0 ≡ some q
      → may_see web header q (show_to id wait channel p o h).1 ≡ true
  show_to-seen p h none a e = ground (arith, e)
  show_to-seen p h (some m) a e =
      gate-seen p h (str_eq m.id p.asker_id || str_eq m.id p.target_member_id) _
        (λ k. rw a (ground (arith, k))) (λ k. ground (arith, k)) e

  detail_found-seen :
      (r : Result Error QueryDetail) (h : Hub)
      → shown (detail_found web header id wait channel (r, h)).0 ≡ some q
      → may_see web header q (detail_found web header id wait channel (r, h)).1 ≡ true
  detail_found-seen (err x) h e = ground (arith, e)
  detail_found-seen (ok p) h e =
      gate-seen p h (authenticate_admin web header h) _ (λ k. ground (arith, k))
        (λ k. show_to-seen p h (authenticate_member web header h) refl k) e

named-seen :
    (web : Web) (header : String) (q : QueryDetail) (b : Bool) (refusal : Reply) (h : Hub)
    (other : Submitted × Hub)
    → shown (replied refusal) ≡ none
    → (shown other.0 ≡ some q → may_see web header q other.1 ≡ true)
    → shown (if b then (replied refusal, h) else other).0 ≡ some q
    → may_see web header q (if b then (replied refusal, h) else other).1 ≡ true
named-seen web header q true refusal h other n k e = ground (arith, n, e)
named-seen web header q false refusal h other n k e = k e

shown_now :
    (web : Web) (now : ℕ) (header path : String) (wait : Bool) (channel : ℕ) (h : Hub)
    (q : QueryDetail)
    → shown (handle_query_detail web now header path wait channel h).0 ≡ some q
    → may_see web header q (handle_query_detail web now header path wait channel h).1 ≡ true
unfolding handle_query_detail
shown_now web now header path wait channel h q e =
    let id = web.library.trim_space path in
    named-seen web header q (str_eq id "") (refused invalid_argument) h _ refl
      (detail_found-seen web header id wait channel q (call (get_query now id) h).0
        (call (get_query now id) h).1)
      e

-- What the hub has under the id then has the asker and the target of the query.
abbrev pub KeepsParties : String → QueryDetail → Hub → Type 0
KeepsParties id q h =
    (p : QueryDetail)
    → GoMap.lookup id h.store.index.queries ≡ some p
    → (p.asker_id ≡ q.asker_id) × (p.target_member_id ≡ q.target_member_id)

-- A query that is sent to a caller who might see it in the hub `h`.
pub record IsSent (web : Web) (header : String) (h : Hub) (r : Reply) : Type 0 where
  query : QueryDetail
  sent : r ≡ detail query
  seen : may_see web header query h ≡ true

same_parties :
    (web : Web) (header : String) (p q : QueryDetail) (h : Hub)
    → p.asker_id ≡ q.asker_id
    → p.target_member_id ≡ q.target_member_id
    → may_see web header p h ≡ may_see web header q h
same_parties web header p q h a b =
    ap (λ c. authenticate_admin web header h || c) (same_party (authenticate_member web header h))
  where
    same_party : (o : Option MemberInfo) → is_party o p ≡ is_party o q
    same_party none = refl
    same_party (some m) = rw (a, b) refl

expire_if-parties :
    (now : ℕ) (q : QueryDetail)
    → ((expire_if now q).asker_id ≡ q.asker_id)
      × ((expire_if now q).target_member_id ≡ q.target_member_id)
expire_if-parties now q = elim (Bool-cases (is_waiting q.status && is_stale now q)) [
  | inl e ↦ rw e (refl, refl)
  | inr e ↦ rw e (refl, refl)
]

remove_waiter_store :
    (id : String) (channel : ℕ) (h : Hub) → (remove_waiter id channel h).1.store ≡ h.store
unfolding remove_waiter
remove_waiter_store id channel h = ground arith

found-IsSent :
    (web : Web) (header id : String) (q : QueryDetail) (h g : Hub) (later : ℕ)
    → may_see web header q h ≡ true
    → KeepsParties id q g
    → IsSent web header h (latest_found q (call (get_query later id) g)).0
found-IsSent web header id q h g later m keeps =
    elim (Option-cases (GoMap.lookup id g.store.index.queries)) [
      | inl e ↦
          rw (get_query_absent later id g.store e) (record { query = q; sent = refl; seen = m })
      | inr (p, e) ↦
          let r = get_query-IsRead later id p g.store e in
          let (a, b) = expire_if-parties later p in
          let (c, d) = keeps p e in
          rw r.returns (record {
            query = set_position r.position (expire_if later p);
            sent = refl;
            seen = same_parties web header _ q h (a ∙ c) (b ∙ d) ∙ m;
          })
    ]

-- A query that is shown, or that a wait begins for, is shown to an administrator, to its asker or to
-- its target. What is sent when the wait is over, by its time or by the stop of the server, is a
-- query that the caller might see when the wait began, if what the hub then has under the id has the
-- asker and the target of the query.
pub detail-may_see :
    (web : Web) (now : ℕ) (header path : String) (wait : Bool) (channel : ℕ) (h : Hub)
    (q : QueryDetail) (later : ℕ) (g : Hub)
    → shown (handle_query_detail web now header path wait channel h).0 ≡ some q
    → KeepsParties (web.library.trim_space path) q g
    → let t = (handle_query_detail web now header path wait channel h).1 in
      let id = web.library.trim_space path in
      (may_see web header q t ≡ true)
      × IsSent web header t (detail_wait_over later id channel q g).0
unfolding detail_wait_over
detail-may_see web now header path wait channel h q later g e keeps =
    let id = web.library.trim_space path in
    let m = shown_now web now header path wait channel h q e in
    (
      m,
      found-IsSent web header id q _ (remove_waiter id channel g).1 later m (
          subst (λ s. KeepsParties id q (record g { store = s }))
            (sym (remove_waiter_store id channel g)) keeps),
    )
