-- ===== src/Hub/Sessions/Histories.antt =====
-- internal/hub/hub.go: the maps of the sessions over the life of a hub.
use talkintent.Common.{ℕ, String, true, ◌≡◌, none, [], str_eq}
use talkintent.Common.GoMap
use talkintent.Hub.State.{Hub, test_session}
use talkintent.Hub.Sessions.{connect, disconnect}
use talkintent.Hub.Sessions.Registered.{IsRegistered, connect-IsRegistered}
use talkintent.Hub.Sessions.Leaving.{disconnect-IsRegistered}

-- A hub that began without sessions: connections under fresh ids, the clean-up behind sessions, and
-- steps that leave the sessions and their maps alone.
pub data Reach : Hub → Type 0 where
  begins :
      {h : Hub} → h.member_sessions ≡ [] → h.sessions_by_id ≡ [] → h.daemon_conns ≡ [] → Reach h
  connects :
      {h : Hub} (id member machine : String) (now : ℕ)
      → GoMap.lookup id h.heap ≡ none
      → Reach h
      → Reach (connect id member machine now h)
  disconnects :
      {h : Hub} (id member : String) (now : ℕ)
      → test_session (λ s. str_eq s.member_id member) h.heap id ≡ true
      → Reach h
      → Reach (disconnect id member now h)
  works :
      {h g : Hub}
      → g.heap ≡ h.heap
      → g.member_sessions ≡ h.member_sessions
      → g.sessions_by_id ≡ h.sessions_by_id
      → g.daemon_conns ≡ h.daemon_conns
      → Reach h
      → Reach g

-- At any time, the sessions that the maps of the hub name are the open ones of their members, and
-- each map agrees with the others.
pub Reach-IsRegistered : {h : Hub} → Reach h → IsRegistered h
Reach-IsRegistered (begins a b c) = record {
  sessions = rw a (λ m i e. cc);
  primary = rw c (λ m i e. cc);
  known = rw b (λ i e. cc);
}
Reach-IsRegistered (connects id member machine now fresh r) =
    connect-IsRegistered id member machine now _ (Reach-IsRegistered r) fresh
Reach-IsRegistered (disconnects id member now owner r) =
    disconnect-IsRegistered id member now _ (Reach-IsRegistered r) owner
Reach-IsRegistered (works a b c d r) =
    let k = Reach-IsRegistered r in
    record {
      sessions = rw (a, b, c) k.sessions;
      primary = rw (b, d) k.primary;
      known = rw (a, b, c) k.known;
    }
