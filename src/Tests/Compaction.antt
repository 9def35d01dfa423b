-- ===== src/Tests/Compaction.antt =====
-- A log that is compacted.
use talkintent.Common.{true, refl}
use talkintent.Store.Compact.Outcome.{Outcome, compact-Outcome}
use talkintent.Store.Compact.{compact}
use talkintent.Tests.Fixtures.{lib, store}

compact-Outcome_example : Outcome lib "q1" store (
    compact lib
      (λ _. "nonce")
      9
      (record { writes_copy = true; renames = true; reopens = true })
      store)
compact-Outcome_example =
    compact-Outcome lib (λ _. "nonce") 9
      (record { writes_copy = true; renames = true; reopens = true }) store "q1"
      (refl, (refl, (refl, tt))) (refl, (refl, (refl, tt)))
