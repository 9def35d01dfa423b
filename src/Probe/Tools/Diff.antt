-- ===== src/Probe/Tools/Diff.antt =====
-- internal/probe/tools/builtin.go: the filter of a diff. The diff is cut into chunks, each from a
-- line that names its file, and the lines of a chunk that names a file of the deny list are left
-- out.
pub mod Sections
use talkintent.Common.{
  ℕ, String, Bool, true, false, not, ◌&&◌, ◌||◌, Option, none, some, List, [], ◌∷◌, ◌++◌, str_eq,
  ltb, ◌==◌, if◌then◌else◌,
}
use talkintent.Probe.Sandbox.{is_file_denylisted}
use talkintent.Probe.Tools.{ToolLibrary}
use talkintent.Probe.Tools.Sensitive.{is_empty, check_diff_line_sensitive}

pub record Chunk : Type 0 where
  pub first_line : String
  pub other_lines : List String
  pub is_sensitive : Bool

unfoldable pub is_chunk_start : ToolLibrary → String → Bool
is_chunk_start lib line =
    lib.paths.has_prefix line "diff --git "
    || (lib.paths.has_prefix line "diff --cc "
        || (lib.paths.has_prefix line "diff --combined " || lib.paths.has_prefix line "Submodule "))

-- The chunks before the last one, and the last one, which `current` points to.
pub record Chunks : Type 0 where
  pub earlier : List Chunk
  pub current : Option Chunk

abbrev pub opened : ToolLibrary → String → Chunk
opened lib line = record {
  first_line = line;
  other_lines = [];
  is_sensitive = check_diff_line_sensitive lib line;
}

abbrev pub grown : ToolLibrary → String → Chunk → Chunk
grown lib line c = record {
  first_line = c.first_line;
  other_lines = c.other_lines ++ line ∷ [];
  is_sensitive = c.is_sensitive || check_diff_line_sensitive lib line;
}

abbrev pub all_chunks : List Chunk → Option Chunk → List Chunk
all_chunks cs none = cs
all_chunks cs (some c) = cs ++ c ∷ []

abbrev pub extended : ToolLibrary → String → List Chunk → Option Chunk → Chunks
extended lib line cs none = record { earlier = cs; current = some (opened lib line) }
extended lib line cs (some c) = record { earlier = cs; current = some (grown lib line c) }

abbrev pub read_diff_line : ToolLibrary → Chunks → String → Chunks
read_diff_line lib st line =
    if is_chunk_start lib line
    then record { earlier = all_chunks st.earlier st.current; current = some (opened lib line) }
    else extended lib line st.earlier st.current

abbrev pub read_diff_lines : ToolLibrary → List String → Chunks → Chunks
read_diff_lines lib [] st = st
read_diff_lines lib (line ∷ lines) st = read_diff_lines lib lines (read_diff_line lib st line)

abbrev pub redaction_mark : String
redaction_mark = "[diff contents redacted: sensitive file in privacy denylist]"

abbrev pub shown_lines : Chunk → List String
shown_lines c = c.first_line ∷ (if c.is_sensitive then redaction_mark ∷ [] else c.other_lines)

abbrev pub result_of : List Chunk → List String
result_of [] = []
result_of (c ∷ cs) = shown_lines c ++ result_of cs

unfoldable pub filter_lines : ToolLibrary → List String → List String
filter_lines lib lines =
    let st = read_diff_lines lib lines (record { earlier = []; current = none }) in
    result_of (all_chunks st.earlier st.current)

unfoldable pub filter_diff_output : ToolLibrary → String → String
filter_diff_output lib diff =
    let lines = lib.split diff "\n" in
    if is_empty lines then diff else lib.join_with (filter_lines lib lines) "\n"
