-- ===== src/Probe/Tools/Search.antt =====
-- internal/probe/tools/builtin.go: grep_search. A walk over the files below a path, and a loop over
-- the lines of each.
pub mod Matches
use talkintent.Common.{
  ℕ, suc, ◌+◌, String, Bool, true, false, not, ◌&&◌, ◌||◌, Option, none, some, List, [], ◌∷◌, ◌++◌,
  str_eq, ltb, leb, if◌then◌else◌,
}
use talkintent.Common.Int.{ℤ, pos}
use talkintent.Common.Effect.{Result, ok, err}
use talkintent.Probe.Text.{truncate_output, max_tool_output_bytes}
use talkintent.Probe.Sandbox.{validate_sandbox_path}
use talkintent.Probe.Tools.{ToolLibrary, Arguments, ToolError, failure, get_string_arg, get_int_arg}
use talkintent.Probe.Tools.Git.{when_granted, limited}
use talkintent.Probe.Tools.Walk.{
  FileInfo, Node, Step, go_on, skip_dir, skip_all, walk, rel_or_empty, is_hidden, pass_over,
}

-- What a file that was opened gives: whether there is a zero among its first 512 bytes, and the
-- lines that the scanner reads.
pub record FileContent : Type 0 where
  pub has_zero : Bool
  pub lines : List String

pub record Files : Type 0 where
  pub tools : ToolLibrary
  -- the files from a path on, as filepath.Walk meets them
  pub tree : String → Node
  -- whether the visit of a path fails, or finds the context over
  pub is_over : String → Bool
  -- os.Open, which follows links
  pub open_file : String → Option FileContent
  -- regexp.Compile, none for an error
  pub compile : String → Option (String → Bool)
  -- %s:%d: %s
  pub format_match : String → ℕ → String → String
  -- No matches found for %q in %s
  pub format_none : String → String → String

pub record Found : Type 0 where
  pub matches : List String
  pub match_count : ℕ

abbrev pub nothing_found : Found
nothing_found = record { matches = []; match_count = 0 }

abbrev matcher : Files → String → Option (String → Bool) → String → Bool
matcher lib pattern (some re) line = re line
matcher lib pattern none line = lib.tools.paths.contains line pattern

abbrev pub add_match : Files → String → ℕ → String → Found → Found
add_match lib rel n line st = record {
  matches =
      st.matches
      ++ lib.format_match (lib.tools.paths.to_slash rel) n (lib.tools.text.trim_space line) ∷ [];
  match_count = st.match_count + 1;
}

abbrev pub is_skipped_name : String → Bool
is_skipped_name name = str_eq name ".git" || (str_eq name "node_modules" || str_eq name "vendor")

module _ (lib : Files) (root : String) (matched : String → Bool) (max_matches : ℕ) where
  -- The lines from number `n` on.
  unfoldable pub scan_lines : String → ℕ → List String → Found → Found
  scan_lines rel n [] st = st
  scan_lines rel n (line ∷ lines) st =
      let next = if matched line then add_match lib rel n line st else st in
      let rest = scan_lines rel (n + 1) lines next in
      if matched line && leb max_matches next.match_count then next else rest

  abbrev pub read_content : String → Option FileContent → Found → Found
  read_content rel none st = st
  read_content rel (some c) st = if c.has_zero then st else scan_lines rel 1 c.lines st

  unfoldable pub visit : Bool → String → FileInfo → Found → Found × Step
  visit is_dir path info st =
      let rel = rel_or_empty (lib.tools.paths.rel root path) in
      if lib.is_over path
      then (st, go_on)
      else (if leb max_matches st.match_count
          then (st, skip_all)
          else (if is_hidden lib.tools.paths root path
              then (st, pass_over is_dir)
              else (if is_dir
                  then (st, (if is_skipped_name info.name then skip_dir else go_on))
                  else (if ltb 2097152 info.size
                      then (st, go_on)
                      else (read_content rel (lib.open_file path) st, go_on)))))

abbrev pub max_matches_of : ToolLibrary → Arguments → ℕ
max_matches_of lib args = limited 50 200 (get_int_arg lib args "max_matches" (pos 50))

unfoldable pub find_matches : Files → String → String → String → ℕ → Found
find_matches lib root pattern target max_matches =
    (walk (visit lib root (matcher lib pattern (lib.compile pattern)) max_matches) (lib.tree target)
      nothing_found).0

abbrev shown_matches : Files → String → String → List String → String
shown_matches lib pattern path [] = lib.format_none pattern path
shown_matches lib pattern path (m ∷ ms) =
    truncate_output lib.tools.text (lib.tools.join_with (m ∷ ms) "\n") max_tool_output_bytes

unfoldable pub grep_search : Files → ℕ → String → Arguments → Result ToolError String
grep_search lib fuel root args =
    let pattern = get_string_arg lib.tools args "pattern" "" in
    let path = get_string_arg lib.tools args "path" "." in
    if str_eq pattern ""
    then err (failure "grep_search requires non-empty pattern parameter")
    else when_granted (validate_sandbox_path lib.tools.paths fuel root path) (λ target. ok (
        shown_matches lib pattern path
          (find_matches lib root pattern target (max_matches_of lib.tools args)).matches))
