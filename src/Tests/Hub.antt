-- ===== src/Tests/Hub.antt =====
-- A hub with one session, and what its handlers do.
use mathlib.Core.Option
use mathlib.Core.Path.{subst}
use talkintent.Common.{
  ℕ, ◌/◌, ◌^◌, arith, ◌+◌, ◌-◌, ◌*◌, ◌<◌, ◌≤◌, ◌≡◌, refl, true, false, none, some, [], ◌∷◌, ◌++◌,
  take,
}
use talkintent.Common.GoMap
use talkintent.Store.Event.{or_keep}
use talkintent.Common.Int.{pos}
use talkintent.Common.Effect.{◌>>=◌}
use talkintent.Store.Records.{QueryDetail}
use talkintent.Store.Journal.{set_index}
use talkintent.Store.Pairing.{get_member_by_token, hash_token}
use talkintent.Store.Queries.{
  refresh_position, queue_position, position_from, get_query, update_query_status, bare_update,
  audit_of, with_defaults,
}
use talkintent.Store.Records.{status_dispatched}
use talkintent.Store.Resolve.{found}
use talkintent.Store.Positions.{line}
use talkintent.Hub.State.{call_only}
use talkintent.Hub.Limiter.{RateLimiter, allow, one_token, new_rate_limiter}
use talkintent.Hub.Limiter.Rate.{IsClose, gain, admitted, admitted_rate}
use talkintent.Hub.Sessions.{connect}
use talkintent.Hub.Sessions.Registered.{IsRegistered}
use talkintent.Hub.Sessions.Histories.{begins, connects, Reach-IsRegistered}
use talkintent.Hub.State.{Hub}
use talkintent.Hub.Waiters.Notified.{outcome_in}
use talkintent.Hub.Dispatch.{limit_of, drain_offline_queue}
use talkintent.Hub.Frames.{response_status, handle_response}
use talkintent.Hub.Frames.Response.{response_guard, response_completes}
use talkintent.Hub.Frames.Race.{answer_overtaken}
use talkintent.Hub.Frames.Drain.{frames, timeouts_of, drain-line}
use talkintent.Hub.Access.{authenticate_member}
use talkintent.Hub.Submit.{new_query, handle_query_submit, submit_to, submitted_request}
use talkintent.Hub.Waiters.{effective_timeout}
use talkintent.Hub.Submit.Expiry.{new_query-expiry}
use talkintent.Hub.Submit.Guard.{IsSubmitted, submit_to-route}
use talkintent.Hub.Submit.Keys.{disclosed, key_discloses}
use talkintent.Hub.Detail.{handle_query_detail, detail_wait_over}
use talkintent.Hub.Detail.Authority.{KeepsParties, IsSent, shown, may_see, detail-may_see}
use talkintent.Tests.Fixtures.{query}
use talkintent.Tests.HubFixtures.{
  floats, web, person, session, hub, hub-IsHealthy, hub-IsRegistered, response, question,
}

abbrev idle : Hub
idle = record hub { heap = []; member_sessions = []; sessions_by_id = []; daemon_conns = [] }

second_fresh : GoMap.lookup "s3" (connect "s2" "mem_bob" "pc" 9 idle).heap ≡ none
unfolding connect
second_fresh = refl

-- A second connection from the same machine takes the place of the first.
Reach-IsRegistered_example :
    IsRegistered (connect "s3" "mem_bob" "pc" 12 (connect "s2" "mem_bob" "pc" 9 idle))
Reach-IsRegistered_example = Reach-IsRegistered (
    connects "s3" "mem_bob" "pc" 12 second_fresh
      (connects "s2" "mem_bob" "pc" 9 refl (begins refl refl refl)))

response_guard_example : handle_response 9 "mem_eve" response hub ≡ call_only (get_query 9 "q1") hub
response_guard_example = response_guard 9 "mem_eve" response hub refl

response_completes_example :
    let g = handle_response 9 "mem_bob" response hub in
    (outcome_in "q1" g ≡ some (response_status "success", or_keep "in Parser.go" ""))
    × (GoMap.lookup "q1" g.waiters ≡ none)
    × (GoMap.lookup "q1" g.timeouts ≡ none)
response_completes_example =
    response_completes 9 "mem_bob" response hub (query "q1" "queued" 500) hub-IsHealthy refl refl
      refl

answer_overtaken_example :
    let g =
      call_only
        (update_query_status 9 (bare_update "q1" status_dispatched))
        (handle_response 9 "mem_bob" response hub) in
    (outcome_in "q1" g ≡ some (status_dispatched, or_keep "in Parser.go" ""))
    × (GoMap.lookup "q1" g.waiters ≡ none)
answer_overtaken_example =
    answer_overtaken 9 "mem_bob" response hub (query "q1" "queued" 500) hub-IsHealthy refl refl refl

drain-line_example :
    (drain_offline_queue 9 session hub).sent
    ≡ []
      ++ frames "s1" (timeouts_of hub) (
          take
            (limit_of session)
            (line 9 hub.store.index.queries (audit_of "mem_bob" hub.store.index.inbound)))
drain-line_example = drain-line 9 session hub refl

new_query-expiry_example :
    let q = new_query 9 "q9" (person "mem_ann" "Ann") (person "mem_bob" "Bob") (question "") hub in
    (9 < q.ttl_expires_at) × (q.ttl_expires_at ≤ 9 + 604800 * 1000)
new_query-expiry_example =
    new_query-expiry 9 "q9" (person "mem_ann" "Ann") (person "mem_bob" "Bob") (question "") hub
      604799 refl (omega arith)

submit_to-route_example :
    let ann = person "mem_ann" "Ann" in
    let bob = person "mem_bob" "Bob" in
    let q = with_defaults 9 hub.store.index (new_query 9 "q9" ann bob (question "") hub) in
    IsSubmitted "q9" bob
      (question "")
      (submitted_request (effective_timeout (question "").timeout_seconds hub) q)
      hub
      (submit_to 9 "q9" 8 ann (question "") (found bob) hub).1
submit_to-route_example =
    submit_to-route 9 "q9" 8 (person "mem_ann" "Ann") (person "mem_bob" "Bob") (question "") hub
      hub-IsHealthy hub-IsRegistered refl

ann_known : authenticate_member web "Bearer ann" hub ≡ some (person "mem_ann" "Ann")
unfolding get_member_by_token hash_token ◌>>=◌
ann_known = refl

ann_allowed : (allow "mem_ann" (9 * 1000000) hub.limiter).0 ≡ true
unfolding allow
ann_allowed = refl

key_discloses_example :
    Option.map disclosed
      (shown (handle_query_submit web 9 "q9" 8 "Bearer ann" (some (question "key")) hub).0)
    ≡ some (disclosed (query "q1" "queued" 500))
key_discloses_example =
    key_discloses web 9 "q9" 8 "Bearer ann" (question "key") hub (person "mem_ann" "Ann")
      (record { query_id = "q1"; expires_at = 1000 }) (query "q1" "queued" 500) ann_known
      ann_allowed refl refl refl refl

abbrev shown_query : QueryDetail
shown_query = record (query "q1" "queued" 500) { queue_position = 1 }

ann_shown : shown (handle_query_detail web 9 "Bearer ann" "q1" false 8 hub).0 ≡ some shown_query
unfolding handle_query_detail get_query refresh_position get_member_by_token hash_token ◌>>=◌
    set_index queue_position position_from
ann_shown = refl

q1_keeps : KeepsParties "q1" shown_query hub
q1_keeps p e =
    let same : query "q1" "queued" 500 ≡ p = cc e in
    subst
      (λ r.
        (r.asker_id ≡ shown_query.asker_id) × (r.target_member_id ≡ shown_query.target_member_id))
      same (refl, refl)

detail-may_see_example :
    let t = (handle_query_detail web 9 "Bearer ann" "q1" false 8 hub).1 in
    (may_see web "Bearer ann" shown_query t ≡ true)
    × IsSent web "Bearer ann" t (detail_wait_over 20 "q1" 8 shown_query hub).0
detail-may_see_example =
    detail-may_see web 9 "Bearer ann" "q1" false 8 hub shown_query 20 hub ann_shown q1_keeps

abbrev limiter : RateLimiter
limiter = new_rate_limiter floats (pos 60) (pos 1)

floats-IsClose : IsClose floats
floats-IsClose = record { positive = omega arith; near = λ t e q. rounded (t + e * q * 2) }
  where
    rounded : (x : ℕ) → (x + x / 1125899906842624) * 1125899906842624 ≤ x * 1125899906842625
    rounded x = omega arith

admitted_rate_example :
    admitted "mem_ann" (5 ∷ 5 ∷ 70000000000 ∷ []) limiter * one_token limiter * 2 ^ 50
    ≤ (1 * one_token limiter + gain limiter (70000000000 - 5)) * 2 ^ 50
      + 2 * (1 * one_token limiter)
admitted_rate_example =
    admitted_rate "mem_ann" 5 (5 ∷ 70000000000 ∷ []) limiter floats-IsClose (omega arith)
      (omega arith, (omega arith, tt))
