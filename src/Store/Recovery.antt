-- ===== src/Store/Recovery.antt =====
-- `replayAndOpenFile` (internal/store/store.go): the log is read line by line, and what stands after
-- the last line that can be read is cut off. The file is its bytes; what strings.TrimSpace and
-- json.Unmarshal make of a line is an argument, as is what the file system does.
pub mod Lines
pub mod Again
pub mod Torn
use talkintent.Common.{
  ℕ, ◌+◌, Bool, true, false, ◌||◌, ◌&&◌, not, Option, none, some, List, [], ◌∷◌, ltb, ◌==◌, length,
  take, if◌then◌else◌,
}
use talkintent.Store.Library.{Library}
use talkintent.Store.State.{Index}
use talkintent.Store.Event.{Event, apply_event}

abbrev pub Bytes : Type 0
Bytes = List ℕ

-- A line is blank, or no JSON, or an event; `none` is an event that `applyEvent` passes over, of
-- another type or with other data.
pub data Content : Type 0 where
  blank unreadable : Content
  entry : Option Event → Content

abbrev pub newline : ℕ
newline = 10

abbrev pub prepend : ℕ → List Bytes → List Bytes
prepend b [] = (b ∷ []) ∷ []
prepend b (l ∷ ls) = (b ∷ l) ∷ ls

-- `reader.ReadBytes('\n')` until the end of the file: a line holds its newline, which the last one
-- may lack.
abbrev pub read_lines : Bytes → List Bytes
read_lines [] = []
read_lines (b ∷ bs) =
    let rest = read_lines bs in if b == newline then (b ∷ []) ∷ rest else prepend b rest

pub record Scan : Type 0 where
  pub index : Index
  pub current_offset : ℕ
  pub last_valid_offset : ℕ
  pub had_corrupted_trailing : Bool

abbrev pub scan_start : Index → Scan
scan_start x = record {
  index = x;
  current_offset = 0;
  last_valid_offset = 0;
  had_corrupted_trailing = false;
}

abbrev pub apply_entry : Library → Option Event → Index → Index
apply_entry lib none x = x
apply_entry lib (some e) x = apply_event lib x e

abbrev pub scan_content : Library → ℕ → Content → Scan → Scan
scan_content lib n blank s = record s {
  current_offset = s.current_offset + n;
  last_valid_offset =
      if s.had_corrupted_trailing then s.last_valid_offset else s.current_offset + n;
}
scan_content lib n unreadable s = record s {
  current_offset = s.current_offset + n;
  had_corrupted_trailing = true;
}
scan_content lib n (entry e) s = record {
  index = apply_entry lib e s.index;
  current_offset = s.current_offset + n;
  last_valid_offset = s.current_offset + n;
  had_corrupted_trailing = false;
}

unfoldable pub scan : Library → (Bytes → Content) → Scan → List Bytes → Scan
scan lib parse s [] = s
scan lib parse s (l ∷ ls) = scan lib parse (scan_content lib (length l) (parse l) s) ls

pub record Disk : Type 0 where
  pub opens : Bool
  pub reads : Bool
  pub truncates : Bool
  pub seeks : Bool

abbrev pub is_torn : Scan → Bool
is_torn s = s.had_corrupted_trailing || ltb s.last_valid_offset s.current_offset

abbrev pub cut : Bytes → Scan → Bytes
cut file s = if is_torn s then take s.last_valid_offset file else file

abbrev pub finish_open : Disk → Bytes → Scan → Option (Index × Bytes)
finish_open disk file s =
    if not disk.opens || not disk.reads
    then none
    else (if is_torn s && not disk.truncates
        then none
        else (if disk.seeks then some (s.index, cut file s) else none))

-- The index and the file, where the next write stands at its end; `none` is an error.
unfoldable pub replay_and_open_file :
    Library → (Bytes → Content) → Disk → Index → Bytes → Option (Index × Bytes)
replay_and_open_file lib parse disk x file =
    finish_open disk file (scan lib parse (scan_start x) (read_lines file))
