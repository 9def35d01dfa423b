-- ===== src/Hub/Submit/Keys.antt =====
-- internal/hub/hub.go: the idempotency key of a submitted query.
use mathlib.Core.Option
use talkintent.Common.{
  ℕ, ◌*◌, String, true, false, ◌&&◌, ◌≡◌, refl, ap, some, str_eq, ltb, Bool-cases, inl, inr,
}
use talkintent.Common.GoMap
use talkintent.Store.Records.{MemberInfo, QueryDetail, IdempotencyRecord, is_waiting}
use talkintent.Store.Queries.{is_stale}
use talkintent.Store.Reading.{get_query-IsRead}
use talkintent.Store.Rounds.Expiry.{expire_if}
use talkintent.Hub.State.{Hub}
use talkintent.Hub.Limiter.{allow}
use talkintent.Hub.Access.{Web, authenticate_member}
use talkintent.Hub.Submit.{QuerySubmitRequest, recall, recall_cached, handle_query_submit}
use talkintent.Hub.Detail.Authority.{shown}

-- Whose query it is, and what it was answered.
abbrev pub disclosed : QueryDetail → String × String × String × String
disclosed q = (q.query_id, q.asker_id, q.query, q.answer)

disclosed-expire_if : (now : ℕ) (q : QueryDetail) → disclosed (expire_if now q) ≡ disclosed q
disclosed-expire_if now q = elim (Bool-cases (is_waiting q.status && is_stale now q)) [
  | inl e ↦ rw e refl
  | inr e ↦ rw e refl
]

-- A request with a key that was used within the hour is answered with the query of that key, its
-- question and its answer, whoever asked it: any member that the limiter lets through is shown it.
pub key_discloses :
    (web : Web) (now : ℕ) (id : String) (channel : ℕ) (header : String) (r : QuerySubmitRequest)
    (h : Hub) (asker : MemberInfo) (kept : IdempotencyRecord) (q : QueryDetail)
    → authenticate_member web header h ≡ some asker
    → (allow asker.id (now * 1000000) h.limiter).0 ≡ true
    → str_eq r.idempotency_key "" ≡ false
    → GoMap.lookup r.idempotency_key h.idempotency ≡ some kept
    → ltb now kept.expires_at ≡ true
    → GoMap.lookup kept.query_id h.store.index.queries ≡ some q
    → Option.map disclosed (shown (handle_query_submit web now id channel header (some r) h).0)
      ≡ some (disclosed q)
unfolding handle_query_submit recall
key_discloses web now id channel header r h asker kept q a l k c t s =
    let g = get_query-IsRead now kept.query_id q h.store s in
    rw (a, l, k, recall_cached, c, t, g.returns) (ap some (disclosed-expire_if now q))
