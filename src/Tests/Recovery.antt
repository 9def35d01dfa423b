-- ===== src/Tests/Recovery.antt =====
-- Logs whose end is torn: every event is the byte 1 here, and a line of two bytes at most is read.
use talkintent.Common.{◌≡◌, refl, ◌∷◌, [], some, leb, length, if◌then◌else◌}
use talkintent.Store.State.{empty_index}
use talkintent.Store.Event.{Event, member_token_indexed, replay_from, apply_event}
use talkintent.Store.Recovery.{Bytes, Content, unreadable, entry, newline, replay_and_open_file}
use talkintent.Store.Recovery.Torn.{working, recover-torn, recover-glued}
use talkintent.Tests.Fixtures.{lib}

abbrev token : Event
token = member_token_indexed "hash" "mem_bob"

abbrev encode : Event → Bytes
encode e = 1 ∷ []

abbrev parse : Bytes → Content
parse l = if leb (length l) 2 then entry (some token) else unreadable

recover-torn_example :
    replay_and_open_file lib parse working empty_index (1 ∷ newline ∷ 1 ∷ 1 ∷ 1 ∷ [])
    ≡ some (replay_from lib empty_index (token ∷ []), 1 ∷ newline ∷ [])
recover-torn_example =
    recover-torn lib encode parse empty_index (token ∷ []) 1 (1 ∷ 1 ∷ []) (refl, refl, tt) refl refl

recover-glued_example :
    (replay_and_open_file lib parse working empty_index (1 ∷ newline ∷ 1 ∷ [])
      ≡ some
          (apply_event lib (replay_from lib empty_index (token ∷ [])) token, 1 ∷ newline ∷ 1 ∷ []))
    × (replay_and_open_file lib parse working empty_index (1 ∷ newline ∷ 1 ∷ 1 ∷ newline ∷ [])
        ≡ some (replay_from lib empty_index (token ∷ []), 1 ∷ newline ∷ []))
recover-glued_example =
    recover-glued lib encode parse empty_index (token ∷ []) token token 1 [] (refl, refl, tt) refl
      refl refl refl refl
