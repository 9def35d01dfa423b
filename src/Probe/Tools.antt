-- ===== src/Probe/Tools.antt =====
-- internal/probe/tools/builtin.go: the arguments of a tool. What the tools use of Go's standard
-- library and of the system is the record `ToolLibrary`.
pub mod Sensitive
pub mod Diff
pub mod Git
pub mod Walk
pub mod Search
pub mod Listing
pub mod Reading
pub mod Directory
use talkintent.Common.{ℕ, String, Bool, ◌||◌, Option, none, some, List, str_eq}
use talkintent.Common.Int.{ℤ}
use talkintent.Probe.Text.{TextLibrary}
use talkintent.Probe.Sandbox.{Paths, Access}

-- What `git` wrote, and whether it failed.
pub record GitOutput : Type 0 where
  pub stdout : String
  pub stderr : String
  pub failed : Bool

pub record ToolLibrary : Type 0 where
  pub paths : Paths
  pub text : TextLibrary
  -- strings.IndexAny, with none for -1, Fields, Trim, Split and Join with a separator, EqualFold
  pub index_any : String → String → Option ℕ
  pub fields : String → List String
  pub trim : String → String → String
  pub split : String → String → List String
  pub join_with : List String → String → String
  pub equal_fold : String → String → Bool
  -- strconv.Unquote and Atoi, none for an error, and %d
  pub unquote : String → Option String
  pub atoi : String → Option ℤ
  pub decimal : ℤ → String
  -- the bytes of a string, and the string of bytes
  pub bytes : String → List ℕ
  pub of_bytes : List ℕ → String
  -- (*Regexp).MatchString, the pattern first
  pub match_string : String → String → Bool
  -- the run of `git` in a directory, with the ceiling and the arguments
  pub run_git : String → String → List String → GitOutput

-- A value of the arguments: a number is what its conversion to `int` gives.
pub data Argument : Type 0 where
  text : String → Argument
  flag : Bool → Argument
  number : ℤ → Argument
  other : Argument

-- The arguments of a call; a nil map has no key.
abbrev pub Arguments : Type 0
Arguments = String → Option Argument

-- An error of a tool: the path was refused, or a text.
pub data ToolError : Type 0 where
  no_access : Access → ToolError
  failure : String → ToolError

abbrev pub string_value : ToolLibrary → String → Option Argument → String
string_value lib def (some (text s)) = lib.text.trim_space s
string_value lib def (some (flag b)) = def
string_value lib def (some (number n)) = def
string_value lib def (some other) = def
string_value lib def none = def

abbrev pub get_string_arg : ToolLibrary → Arguments → String → String → String
get_string_arg lib args key def = string_value lib def (args key)

abbrev pub bool_value : ToolLibrary → Bool → Option Argument → Bool
bool_value lib def (some (text s)) = lib.equal_fold s "true" || str_eq s "1"
bool_value lib def (some (flag b)) = b
bool_value lib def (some (number n)) = def
bool_value lib def (some other) = def
bool_value lib def none = def

abbrev pub get_bool_arg : ToolLibrary → Arguments → String → Bool → Bool
get_bool_arg lib args key def = bool_value lib def (args key)

abbrev pub parsed_or : ℤ → Option ℤ → ℤ
parsed_or def none = def
parsed_or def (some n) = n

abbrev pub int_value : ToolLibrary → ℤ → Option Argument → ℤ
int_value lib def (some (text s)) = parsed_or def (lib.atoi (lib.text.trim_space s))
int_value lib def (some (flag b)) = def
int_value lib def (some (number n)) = n
int_value lib def (some other) = def
int_value lib def none = def

abbrev pub get_int_arg : ToolLibrary → Arguments → String → ℤ → ℤ
get_int_arg lib args key def = int_value lib def (args key)
