-- ===== src/Hub/Waiters.antt =====
-- internal/hub/hub.go: the waiters and the timeouts of the queries, `removeWaiter`,
-- `getQueryTimeout`, `setQueryTimeout` and `notifyWaiters`. A waiter's channel has room for one
-- value; a channel is the number it was drawn with.
pub mod Notified
use talkintent.Common.{
  ℕ, String, Bool, true, false, ◌||◌, Option, none, some, List, [], ◌∷◌, ◌++◌, ◌==◌, if◌then◌else◌,
}
use talkintent.Common.Int.{ℤ}
use talkintent.Common.GoMap
use talkintent.Common.GoMap.{GoMap}
use talkintent.Common.Effect.{Result, ok, err}
use talkintent.Store.Records.{QueryDetail}
use talkintent.Store.Journal.{Error}
use talkintent.Store.Queries.{get_query}
use talkintent.Hub.Records.{or_default, cap_at}
use talkintent.Hub.State.{Hub, call}

abbrev pub default_query_timeout : ℕ
default_query_timeout = 60

abbrev pub positive_or : ℕ → Option ℕ → ℕ
positive_or d none = d
positive_or d (some n) = if n == 0 then d else n

unfoldable pub get_query_timeout : String → Hub → ℕ
get_query_timeout id h =
    cap_at h.cfg.max_probe_timeout_sec
      (positive_or default_query_timeout (GoMap.lookup id h.timeouts))

-- What a request's timeout counts as.
abbrev pub effective_timeout : ℤ → Hub → ℕ
effective_timeout given h =
    cap_at h.cfg.max_probe_timeout_sec (or_default default_query_timeout given)

unfoldable pub set_query_timeout : String → ℤ → Hub → Hub
set_query_timeout id given h = record h {
  timeouts = GoMap.insert id (effective_timeout given h) h.timeouts;
}

abbrev pub waiters_of : String → Hub → List ℕ
waiters_of id h = elim (GoMap.lookup id h.waiters) [ none ↦ [] | some l ↦ l ]

unfoldable pub add_waiter : String → ℕ → Hub → Hub
add_waiter id channel h = record h {
  waiters = GoMap.insert id (waiters_of id h ++ channel ∷ []) h.waiters;
}

abbrev pub without_channel : ℕ → List ℕ → List ℕ
without_channel channel [] = []
without_channel channel (c ∷ cs) =
    let rest = without_channel channel cs in if c == channel then rest else c ∷ rest

abbrev pub keep_waiters : String → List ℕ → Hub → Hub
keep_waiters id [] h = record h { waiters = GoMap.erase id h.waiters }
keep_waiters id (c ∷ cs) h = record h { waiters = GoMap.insert id (c ∷ cs) h.waiters }

-- The waiters that remain are the method's result, by their number.
unfoldable pub remove_waiter : String → ℕ → Hub → List ℕ × Hub
remove_waiter id channel h =
    let remaining = without_channel channel (waiters_of id h) in
    (remaining, keep_waiters id remaining h)

-- What stands in a channel.
abbrev pub received : ℕ → List (ℕ × QueryDetail) → Option QueryDetail
received channel [] = none
received channel ((c, q) ∷ rest) = if c == channel then some q else received channel rest

abbrev pub is_full : ℕ → List (ℕ × QueryDetail) → Bool
is_full channel given = elim (received channel given) [ none ↦ false | some q ↦ true ]

-- `select { case ch <- q: default: }` for each channel.
abbrev pub deliver : QueryDetail → List ℕ → List (ℕ × QueryDetail) → List (ℕ × QueryDetail)
deliver q [] given = given
deliver q (c ∷ cs) given = deliver q cs (if is_full c given then given else given ++ (c, q) ∷ [])

abbrev pub deliver_found : List ℕ → Result Error QueryDetail × Hub → Hub
deliver_found channels (err e, h) = h
deliver_found channels (ok q, h) = record h { delivered = deliver q channels h.delivered }

abbrev pub notify_each : ℕ → String → List ℕ → Hub → Hub
notify_each now id [] h = h
notify_each now id (c ∷ cs) h = deliver_found (c ∷ cs) (call (get_query now id) h)

unfoldable pub notify_waiters : ℕ → String → Hub → Hub
notify_waiters now id h =
    notify_each now id (waiters_of id h)
      (record h { waiters = GoMap.erase id h.waiters; timeouts = GoMap.erase id h.timeouts })
