-- ===== src/Probe/Sandbox.antt =====
-- internal/probe/tools/tool.go: the paths that a tool may open. The file system and the functions on
-- paths are the record `Paths`.
pub mod Escape
pub mod Climbing
use talkintent.Common.{
  ℕ, zero, suc, String, Bool, true, false, ◌&&◌, ◌||◌, Option, none, some, List, [], ◌∷◌, str_eq,
  not, if◌then◌else◌,
}

pub record Paths : Type 0 where
  -- path/filepath: Clean, Dir, Base, Join, ToSlash, VolumeName, IsAbs, Abs, Rel and Match
  pub clean : String → String
  pub dir : String → String
  pub base : String → String
  pub join : String → String → String
  pub to_slash : String → String
  pub volume_name : String → String
  pub is_abs : String → Bool
  pub abs : String → Option String
  pub rel : String → String → Option String
  pub matches : String → String → Bool
  -- whether os.Lstat succeeds, and filepath.EvalSymlinks
  pub is_there : String → Bool
  pub eval_symlinks : String → Option String
  -- string(filepath.Separator)
  pub separator : String
  -- package strings, the text first: ToLower, ToUpper, HasPrefix, HasSuffix, Contains, TrimPrefix,
  -- TrimSuffix; `+`, and what follows the bytes of a prefix
  pub to_lower : String → String
  pub to_upper : String → String
  pub has_prefix : String → String → Bool
  pub has_suffix : String → String → Bool
  pub contains : String → String → Bool
  pub trim_prefix : String → String → String
  pub trim_suffix : String → String → String
  pub append : String → String → String
  pub after : String → String → String

pub data Access : Type 0 where
  granted : String → Access
  invalid_root sandbox_violation denylisted_file : Access
  -- the fuel was not enough
  stuck : Access

abbrev pub hard_denylist_globs : List String
hard_denylist_globs =
    "*.pem" ∷ "*.key" ∷ "*.crt" ∷ "*.pfx" ∷ "*.p12" ∷ "id_rsa*" ∷ "id_ed25519*" ∷ "*.pub" ∷ ".env"
    ∷ ".env.*" ∷ "*secret*" ∷ "*credential*" ∷ "*token*" ∷ "*password*" ∷ ".git/config"
    ∷ "*aws/credentials*" ∷ "*aws/config*" ∷ "*.ssh/*" ∷ "*.gnupg/*" ∷ "*gcloud/*" ∷ []

-- In the directory, at the front or inside.
abbrev pub in_directory : Paths → String → String → Bool
in_directory lib clean d = lib.contains clean (lib.append "/" d) || lib.has_prefix clean d

abbrev pub in_any : Paths → String → List String → Bool
in_any lib clean [] = false
in_any lib clean (d ∷ ds) = in_directory lib clean d || in_any lib clean ds

abbrev pub restricted_directories : List String
restricted_directories = ".git/" ∷ ".ssh/" ∷ ".aws/" ∷ ".gnupg/" ∷ ".config/gcloud/" ∷ []

abbrev pub is_restricted : Paths → String → Bool
is_restricted lib clean =
    (str_eq clean ".git/config" || lib.has_suffix clean "/.git/config")
    || (in_any lib clean restricted_directories
        || lib.contains clean "aws/credentials"
        || lib.contains clean "aws/config")

abbrev pub contains_any : Paths → String → List String → Bool
contains_any lib p [] = false
contains_any lib p (word ∷ words) = lib.contains p word || contains_any lib p words

abbrev pub sensitive_words : List String
sensitive_words =
    "secret" ∷ "credential" ∷ "token" ∷ "password" ∷ ".env" ∷ "aws" ∷ "ssh" ∷ "gnupg" ∷ "gcloud"
    ∷ []

abbrev pub hits : Paths → String → String → String → Bool
hits lib clean base p =
    (lib.matches p base || lib.matches p clean)
    || (lib.contains clean (lib.trim_prefix (lib.trim_suffix p "*") "*")
        && contains_any lib p sensitive_words)

abbrev pub hits_any : Paths → String → String → List String → Bool
hits_any lib clean base [] = false
hits_any lib clean base (pattern ∷ rest) =
    hits lib clean base (lib.to_lower pattern) || hits_any lib clean base rest

unfoldable pub is_file_denylisted : Paths → String → Bool
is_file_denylisted lib path =
    let clean = lib.to_lower (lib.to_slash (lib.clean path)) in
    let base = lib.to_lower (lib.base clean) in
    is_restricted lib clean || hits_any lib clean base hard_denylist_globs

unfoldable pub normalize_volume : Paths → String → String
normalize_volume lib path =
    let p = lib.trim_prefix path "\\\\?\\" in
    let vol = lib.volume_name p in
    if str_eq vol "" then p else lib.append (lib.to_upper vol) (lib.after vol p)

abbrev pub is_top : Paths → String → Bool
is_top lib clean =
    str_eq (lib.dir clean) clean
    || (str_eq (lib.dir clean) "." || str_eq (lib.dir clean) lib.separator)

-- The parent is resolved; where that fails the path stays as it is.
abbrev pub below : Paths → String → Option (Option String) → Option (Option String)
below lib clean none = none
below lib clean (some none) = some (some clean)
below lib clean (some (some d)) = some (some (lib.join d (lib.base clean)))

-- On fuel, a step for each parent; `none` is a lack of it, and `some none` an error.
unfoldable pub resolve_physical_path : Paths → ℕ → String → Option (Option String)
resolve_physical_path lib zero target = none
resolve_physical_path lib (suc n) target =
    let clean = lib.clean target in
    let parent = resolve_physical_path lib n (lib.dir clean) in
    if lib.is_there clean
    then some (lib.eval_symlinks clean)
    else (if is_top lib clean then some (some clean) else below lib clean parent)

abbrev pub or_given : String → Option String → String
or_given given none = given
or_given given (some p) = p

abbrev pub check_rel : Paths → String → String → Option String → Access
check_rel lib clean_target target none = sandbox_violation
check_rel lib clean_target target (some rel) =
    if lib.has_prefix rel ".." || str_eq rel ".."
    then sandbox_violation
    else (if is_file_denylisted lib clean_target
          || (is_file_denylisted lib target || is_file_denylisted lib rel)
        then denylisted_file
        else granted target)

abbrev pub check_target : Paths → String → String → Option (Option String) → Access
check_target lib root clean_target none = stuck
check_target lib root clean_target (some resolved) =
    let target = normalize_volume lib (or_given clean_target resolved) in
    if str_eq (lib.volume_name root) (lib.volume_name target)
    then check_rel lib clean_target target (lib.rel root target)
    else sandbox_violation

abbrev pub check_in : Paths → ℕ → String → Option String → Access
check_in lib fuel path none = invalid_root
check_in lib fuel path (some abs_root) =
    let root = normalize_volume lib (or_given abs_root (lib.eval_symlinks abs_root)) in
    let target = lib.clean (if lib.is_abs path then path else lib.join abs_root path) in
    check_target lib root target (resolve_physical_path lib fuel target)

unfoldable pub validate_sandbox_path : Paths → ℕ → String → String → Access
validate_sandbox_path lib fuel workspace_root path =
    check_in lib fuel path (lib.abs (lib.clean workspace_root))
