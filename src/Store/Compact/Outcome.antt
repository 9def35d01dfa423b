-- ===== src/Store/Compact/Outcome.antt =====
-- internal/store/store.go: the log that `Compact` leaves, whatever the file system does.
use mathlib.Core.Option
use talkintent.Common.{ℕ, String, true, false, ◌≡◌, List, ◌⊎◌, arith}
use talkintent.Common.GoMap
use talkintent.Store.Library.{Library}
use talkintent.Store.State.{Index, empty_index}
use talkintent.Store.Event.{Event, replay_from}
use talkintent.Store.Journal.{Store, Error}
use talkintent.Common.Effect.{Result, ok, err}
use talkintent.Store.Durable.View.{IsKeyed}
use talkintent.Store.Compact.{Disk, compact, logged_query}
use talkintent.Store.Compact.Sorted.{IsDistinct}
use talkintent.Store.Compact.Snapshot.{lookup-snapshot}

-- The log holds the query that the index has under the id.
pub Holds : Library → String → Index → List Event → Type 0
Holds lib k x log =
    GoMap.lookup k (replay_from lib empty_index log).queries
    ≡ Option.map logged_query (GoMap.lookup k x.queries)

-- What may come of a compaction
pub Outcome : Library → String → Store → Result Error (Unit {0}) × Store → Type 0
Outcome lib k s (ok _, t) = (t.index ≡ s.index) × (t.is_open ≡ true) × Holds lib k s.index t.log
Outcome lib k s (err _, t) =
    (t.index ≡ s.index)
    × (t.is_open ≡ false ⊎ t.log ≡ s.log)
    × (t.log ≡ s.log ⊎ Holds lib k s.index t.log)

-- Where the queries of the index stand under their own ids and none twice: when `Compact` succeeds,
-- the index is as before, the store is open, and its log replays to the query the index has under
-- each id, with an empty list of tools as none. When it fails, the index is as before; the log is the
-- one before, or the store is closed and the log replays to those queries.
pub compact-Outcome :
    (lib : Library) (nonce : String → String) (now : ℕ) (disk : Disk) (s : Store) (k : String)
    → IsKeyed s.index.queries
    → IsDistinct s.index.queries
    → Outcome lib k s (compact lib nonce now disk s)
unfolding Outcome Holds compact
compact-Outcome lib nonce now disk s k keyed distinct =
    ground (arith, lookup-snapshot lib nonce now s.index k keyed distinct)
