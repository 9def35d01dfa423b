-- ===== src/Probe/Tools/Directory.antt =====
-- internal/probe/tools/builtin.go: list_dir. strings.Repeat panics where the count is negative.
use talkintent.Common.{
  ℕ, zero, suc, ◌-◌, String, Bool, List, [], ◌∷◌, ◌++◌, str_eq, ltb, if◌then◌else◌,
}
use talkintent.Common.Int.{pos}
use talkintent.Common.Effect.{Result, ok, err}
use talkintent.Probe.Text.{truncate_output, max_tool_output_bytes}
use talkintent.Probe.Sandbox.{validate_sandbox_path}
use talkintent.Probe.Tools.{Arguments, ToolError, failure, get_string_arg, get_int_arg}
use talkintent.Probe.Tools.Git.{when_granted, limited}
use talkintent.Probe.Tools.Walk.{FileInfo, Step, go_on, skip_all, walk, is_hidden, pass_over}
use talkintent.Probe.Tools.Search.{Files}
use talkintent.Probe.Tools.Reading.{Stat}

pub record DirectoryLibrary : Type 0 where
  pub files : Files
  pub stat : String → Result String Stat
  -- strings.Count of the separator
  pub separators : String → ℕ
  -- [FILE] %s (%d bytes) for the base of a path, the heading, and an entry behind its indent
  pub file_report : String → ℕ → String
  pub heading : String → String
  pub entry_line : ℕ → Bool → FileInfo → String
  pub concat_lines : String → List String → String

-- The lines that were written, or the panic.
pub data Written : Type 0 where
  lines : List String → Written
  panicked : Written

-- What list_dir comes to.
pub data Listed : Type 0 where
  listed : Result ToolError String → Listed
  list_panicked : Listed

module _ (lib : DirectoryLibrary) (root target : String) (max_depth : ℕ) where
  -- The indent is for one level less than the depth.
  abbrev write_entry : Bool → FileInfo → List String → ℕ → Written × Step
  write_entry is_dir info ls zero = (panicked, skip_all)
  write_entry is_dir info ls (suc d) = (lines (ls ++ lib.entry_line d is_dir info ∷ []), go_on)

  -- A depth of 0 stands for a negative one too, which goes the same way.
  abbrev depth_of : String → ℕ
  depth_of path = lib.separators path - lib.separators (lib.files.tools.paths.clean target)

  unfoldable pub visit_entry : Bool → String → FileInfo → Written → Written × Step
  visit_entry is_dir path info panicked = (panicked, skip_all)
  visit_entry is_dir path info (lines ls) =
      if lib.files.is_over path
      then (lines ls, go_on)
      else (if str_eq path target
          then (lines ls, go_on)
          else (if ltb max_depth (depth_of path)
              then (lines ls, pass_over is_dir)
              else (if is_hidden lib.files.tools.paths root path
                  then (lines ls, pass_over is_dir)
                  else write_entry is_dir info ls (depth_of path))))

abbrev text_of : DirectoryLibrary → String → Written → Listed
text_of lib path panicked = list_panicked
text_of lib path (lines ls) = listed (
    ok (
      truncate_output lib.files.tools.text (lib.concat_lines (lib.heading path) ls)
        max_tool_output_bytes))

abbrev list_target : DirectoryLibrary → String → String → ℕ → String → Result String Stat → Listed
list_target lib root path max_depth target (err e) =
    listed (err (failure (lib.files.tools.text.join "path stat failed: " e)))
list_target lib root path max_depth target (ok fi) =
    if fi.is_dir
    then text_of lib path
        (walk (visit_entry lib root target max_depth) (lib.files.tree target) (lines [])).0
    else listed (ok (lib.file_report target fi.size))

-- The run on the path that the check let through.
abbrev list_checked : DirectoryLibrary → String → String → ℕ → Result ToolError String → Listed
list_checked lib root path max_depth (err e) = listed (err e)
list_checked lib root path max_depth (ok target) =
    list_target lib root path max_depth target (lib.stat target)

unfoldable pub list_dir : DirectoryLibrary → ℕ → String → Arguments → Listed
list_dir lib fuel root args =
    let tools = lib.files.tools in
    let path = get_string_arg tools args "path" "." in
    list_checked lib root path (limited 1 3 (get_int_arg tools args "max_depth" (pos 1)))
      (when_granted (validate_sandbox_path tools.paths fuel root path) (λ target. ok target))
