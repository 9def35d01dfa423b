-- ===== src/Store/Journal.antt =====
-- `jsonlStore` itself: the indexes, the salt and the event file. The file is the list of the
-- events written to it, whether it is open, and what the next writes will do: the operating
-- system may refuse any of them. `appendEventLocked` and `Close`.
use talkintent.Common.{String, Bool, true, false, List, [], ◌∷◌, ◌++◌, if◌then◌else◌}
use talkintent.Common.Effect.{Exec, Result, ok, err}
use talkintent.Store.State.{Index}
use talkintent.Store.Event.{Event}

pub data Error : Type 0 where
  not_found ambiguous_match invalid_invite : Error
  -- "store is closed", a write that the system refuses, and what the library refuses
  closed write_failed no_entropy seal_failed : Error

pub record Store : Type 0 where
  pub index : Index
  pub salt : String
  -- eventsFile is not nil
  pub is_open : Bool
  pub log : List Event
  -- what the next writes do; past the end they succeed
  pub writes : List Bool

abbrev pub Action : Type 0 → Type 0
Action A = Exec Error Store A

abbrev pub written : Event → Store → Store
written e s = record s { log = s.log ++ e ∷ [] }

abbrev pub write : Event → List Bool → Store → Result Error (Unit {0}) × Store
write e [] s = (ok tt, written e s)
write e (true ∷ ws) s = (ok tt, record s { log = s.log ++ e ∷ []; writes = ws })
write e (false ∷ ws) s = (err write_failed, record s { writes = ws })

-- A refused write leaves no trace in the file here; what it may leave behind, a part of a line, is
-- the concern of `replayAndOpenFile` (Store.Recovery).
unfoldable pub append_event : Event → Action (Unit {0})
append_event e s = if s.is_open then write e s.writes s else (err closed, s)

-- The write of an index in memory.
unfoldable pub set_index : (Index → Index) → Action (Unit {0})
set_index f s = (ok tt, record s { index = f s.index })

-- The call of `Close`: the file is closed once.
unfoldable pub close : Action (Unit {0})
close s = (ok tt, record s { is_open = false })
