-- ===== src/Hub/Detail.antt =====
-- `handleQueryDetail` (internal/hub/hub.go) up to the wait for an answer. The id is the rest of the
-- URL's path, and `wait` tells whether there is a `wait` in the URL.
pub mod Authority
use talkintent.Common.{
  ℕ, String, Bool, true, false, ◌||◌, Option, none, some, str_eq, if◌then◌else◌,
}
use talkintent.Common.Effect.{Result, ok, err}
use talkintent.Store.Records.{MemberInfo, QueryDetail, is_waiting}
use talkintent.Store.Journal.{Error}
use talkintent.Store.Queries.{get_query}
use talkintent.Hub.State.{Hub, call}
use talkintent.Hub.Waiters.{add_waiter, remove_waiter}
use talkintent.Hub.Access.{
  Web, unauthorized, forbidden, invalid_argument, not_found, Reply, refused, detail,
  authenticate_member, authenticate_admin,
}
use talkintent.Hub.Submit.{Submitted, replied, waiting}

-- A query in one of these states may still be answered.
abbrev pub may_change : String → Bool
may_change status = is_waiting status || str_eq status "pending"

abbrev pub show : String → Bool → ℕ → QueryDetail → Hub → Submitted × Hub
show id wait channel q h =
    if wait
    then (if may_change q.status
        then (waiting channel q, add_waiter id channel h)
        else (replied (detail q), h))
    else (replied (detail q), h)

abbrev pub show_to : String → Bool → ℕ → QueryDetail → Option MemberInfo → Hub → Submitted × Hub
show_to id wait channel q none h = (replied (refused unauthorized), h)
show_to id wait channel q (some caller) h =
    if str_eq caller.id q.asker_id || str_eq caller.id q.target_member_id
    then show id wait channel q h
    else (replied (refused forbidden), h)

abbrev pub detail_found :
    Web → String → String → Bool → ℕ → Result Error QueryDetail × Hub → Submitted × Hub
detail_found web header id wait channel (err e, h) = (replied (refused not_found), h)
detail_found web header id wait channel (ok q, h) =
    if authenticate_admin web header h
    then show id wait channel q h
    else show_to id wait channel q (authenticate_member web header h) h

unfoldable pub handle_query_detail : Web → ℕ → String → String → Bool → ℕ → Hub → Submitted × Hub
handle_query_detail web now header path wait channel h =
    let id = web.library.trim_space path in
    if str_eq id ""
    then (replied (refused invalid_argument), h)
    else detail_found web header id wait channel (call (get_query now id) h)

-- The wait is over by its time or by the server's stop: the query is read again.
abbrev pub latest_found : QueryDetail → Result Error QueryDetail × Hub → Reply × Hub
latest_found q (ok latest, h) = (detail latest, h)
latest_found q (err e, h) = (detail q, h)

unfoldable pub detail_wait_over : ℕ → String → ℕ → QueryDetail → Hub → Reply × Hub
detail_wait_over now id channel q h =
    latest_found q (call (get_query now id) (remove_waiter id channel h).1)
