-- ===== src/Probe/Tools/Reading.antt =====
-- internal/probe/tools/builtin.go: read_file.
use talkintent.Common.{ℕ, zero, suc, String, Bool, true, str_eq, ltb, if◌then◌else◌}
use talkintent.Common.Int.{ℤ, pos, negsuc, ◌+ℤ◌}
use talkintent.Common.Effect.{Result, ok, err}
use talkintent.Probe.Text.{output_mark}
use talkintent.Probe.Sandbox.{validate_sandbox_path}
use talkintent.Probe.Tools.{ToolLibrary, Arguments, ToolError, failure, get_string_arg, get_int_arg}
use talkintent.Probe.Tools.Git.{when_granted, limited}

-- What os.Stat says of a file.
pub record Stat : Type 0 where
  pub is_dir : Bool
  pub size : ℕ

-- What was read: the number of bytes, and the text.
pub record Reading : Type 0 where
  pub count : ℕ
  pub content : String

pub record FileSystem : Type 0 where
  pub tools : ToolLibrary
  pub stat : String → Result String Stat
  -- os.Open
  pub open_file : String → Result String (Unit {0})
  -- Seek from the start, and io.ReadFull of so many bytes from there on, the end of the file being
  -- no error
  pub seek : String → ℕ → Result String (Unit {0})
  pub read_full : String → ℕ → ℕ → Result String Reading

abbrev pub max_file_read_bytes : ℕ
max_file_read_bytes = 65536

-- `a > b`
abbrev is_larger : ℕ → ℤ → Bool
is_larger a (pos b) = ltb b a
is_larger a (negsuc b) = true

abbrev or_fail {ℓ} :
    {A B : Type ℓ}
    → (String → String)
    → Result String A
    → (A → Result ToolError B)
    → Result ToolError B
or_fail message (ok a) k = k a
or_fail message (err e) k = err (failure (message e))

module _ (lib : FileSystem) where
  -- `before %q: %w`, and `before: %w`
  abbrev naming : String → String → String → String
  naming before path e =
      let text = lib.tools.text in
      text.join before (text.join (text.quoted path) (text.join ": " e))

  abbrev telling : String → String → String
  telling before e = lib.tools.text.join before e

  -- The offset is moved to only where it is positive.
  abbrev seek_to : String → ℤ → Result String (Unit {0})
  seek_to path (negsuc n) = ok tt
  seek_to path (pos zero) = ok tt
  seek_to path (pos (suc n)) = lib.seek path (suc n)

  abbrev start_of : ℤ → ℕ
  start_of (negsuc n) = 0
  start_of (pos n) = n

  abbrev marked : Stat → ℤ → Reading → String
  marked fi offset r =
      if is_larger fi.size (offset +ℤ pos r.count)
      then lib.tools.text.join r.content output_mark
      else r.content

  unfoldable pub read_open : String → Stat → ℤ → ℕ → Result ToolError String
  read_open canonical fi offset limit =
      or_fail (telling "seek failed: ") (seek_to canonical offset) (λ done.
        or_fail (telling "read failed: ") (lib.read_full canonical (start_of offset) limit)
          (λ r. ok (marked fi offset r)))

  abbrev read_canonical : String → ℤ → ℕ → String → Result ToolError String
  read_canonical path offset limit canonical =
      or_fail (naming "failed to open file " path) (lib.stat canonical) (λ fi.
        if fi.is_dir
        then err (
            failure (
              lib.tools.text.join (lib.tools.text.quoted path)
                " is a directory, use list_dir instead"))
        else or_fail (naming "failed to read file " path) (lib.open_file canonical)
            (λ opened. read_open canonical fi offset limit))

unfoldable pub read_file : FileSystem → ℕ → String → Arguments → Result ToolError String
read_file lib fuel root args =
    let path = get_string_arg lib.tools args "path" "" in
    let limit = get_int_arg lib.tools args "limit" (pos max_file_read_bytes) in
    if str_eq path ""
    then err (failure "read_file requires non-empty path parameter")
    else when_granted (validate_sandbox_path lib.tools.paths fuel root path) (
        read_canonical lib path (get_int_arg lib.tools args "offset" (pos 0))
          (limited max_file_read_bytes max_file_read_bytes limit))
