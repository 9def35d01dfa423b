-- ===== src/Probe/Tools/Git.antt =====
-- internal/probe/tools/builtin.go: the tools that run git. `fuel` is what the check
-- of a path is given.
use talkintent.Common.{ℕ, zero, suc, ltb, String, false, List, [], ◌∷◌, ◌++◌, str_eq, if◌then◌else◌}
use talkintent.Common.Int.{ℤ, pos, negsuc}
use talkintent.Common.Effect.{Result, ok, err}
use talkintent.Probe.Text.{truncate_output, max_tool_output_bytes}
use talkintent.Probe.Sandbox.{
  Access, granted, invalid_root, sandbox_violation, denylisted_file, stuck, validate_sandbox_path,
}
use talkintent.Probe.Tools.{
  ToolLibrary, GitOutput, Arguments, ToolError, no_access, failure, get_string_arg, get_bool_arg,
  get_int_arg,
}
use talkintent.Probe.Tools.Diff.{filter_diff_output}

-- What follows a check of a path: its error, or the run with the path that it gave.
abbrev pub when_granted {ℓ} :
    {A : Type ℓ} → Access → (String → Result ToolError A) → Result ToolError A
when_granted (granted p) k = k p
when_granted invalid_root k = err (no_access invalid_root)
when_granted sandbox_violation k = err (no_access sandbox_violation)
when_granted denylisted_file k = err (no_access denylisted_file)
when_granted stuck k = err (no_access stuck)

-- The number that is asked for, or the usual one where it is not positive, and no more than the
-- most.
abbrev pub limited : ℕ → ℕ → ℤ → ℕ
limited usual most (negsuc n) = usual
limited usual most (pos zero) = usual
limited usual most (pos (suc n)) = if ltb most (suc n) then most else suc n

module _ (lib : ToolLibrary) (fuel : ℕ) where
  abbrev run_git_command : String → String → List String → GitOutput
  run_git_command dir root args =
      lib.run_git dir (lib.paths.dir (lib.paths.clean root)) ("-c" ∷ "core.pager=cat" ∷ args)

  -- What is shown of an output: the message of an error, that for no output, or the output.
  abbrev report_output : GitOutput → (String → String) → String → (String → String) → String
  report_output o on_error on_empty shown =
      let out = lib.text.trim_space o.stdout in
      if o.failed
      then on_error (lib.text.trim_space o.stderr)
      else (if str_eq out ""
          then on_empty
          else truncate_output lib.text (shown out) max_tool_output_bytes)

  abbrev wrapped : String → String → String
  wrapped before s = lib.text.join before (lib.text.join s ")")

  abbrev status_in : String → String → Result ToolError String
  status_in root dir = ok (
      report_output (run_git_command dir root ("status" ∷ "--short" ∷ "--branch" ∷ []))
        (wrapped "(not a git repository or git error: ") "(clean working tree, nothing to commit)"
        (λ out. out))

  unfoldable pub git_status : String → Arguments → Result ToolError String
  git_status root args =
      let path = get_string_arg lib args "path" "" in
      if str_eq path ""
      then status_in root root
      else when_granted (validate_sandbox_path lib.paths fuel root path) (status_in root)

  -- The command with the path behind it, if one is given and allowed.
  abbrev with_path :
      String → Arguments → List String → (List String → String) → Result ToolError String
  with_path root args command shown =
      let path = get_string_arg lib args "path" "" in
      if str_eq path ""
      then ok (shown command)
      else when_granted (validate_sandbox_path lib.paths fuel root path)
          (λ checked. ok (shown (command ++ "--" ∷ lib.paths.to_slash path ∷ [])))

  abbrev show_diff : String → List String → String
  show_diff root command =
      report_output (run_git_command root root command) (wrapped "(git diff error: ")
        "(no changes in diff)" (filter_diff_output lib)

  unfoldable pub git_diff : String → Arguments → Result ToolError String
  git_diff root args =
      let command =
        "diff" ∷ (if get_bool_arg lib args "cached" false then "--cached" ∷ [] else []) in
      let commit = get_string_arg lib args "commit" "" in
      if str_eq commit ""
      then with_path root args command (show_diff root)
      else (if lib.match_string "^[a-zA-Z0-9_\\-\\.\\^~]+$" commit
          then with_path root args (command ++ commit ∷ []) (show_diff root)
          else err (failure "invalid commit ref format"))

  abbrev show_log : String → List String → String
  show_log root command =
      report_output (run_git_command root root command)
        (wrapped "(git log error or not a git repository: ") "(no commit history)" (λ out. out)

  unfoldable pub git_log : String → Arguments → Result ToolError String
  git_log root args =
      let count = limited 10 50 (get_int_arg lib args "max_count" (pos 10)) in
      with_path root args
        ("log"
          ∷ lib.text.join "-n" (lib.decimal (pos count))
          ∷ "--pretty=format:%h - %an (%cr): %s"
          ∷ [])
        (show_log root)
