-- ===== src/Probe/Tools/Sensitive.antt =====
-- internal/probe/tools/builtin.go: the lines of a diff that name a file of the deny list.
use talkintent.Common.{
  ℕ, String, Bool, true, false, not, ◌&&◌, ◌||◌, Option, none, some, List, [], ◌∷◌, ◌++◌, str_eq,
  ltb, ◌==◌, if◌then◌else◌,
}
use talkintent.Probe.Sandbox.{is_file_denylisted}
use talkintent.Probe.Tools.{ToolLibrary}

abbrev is_no_file : String → Bool
is_no_file raw = str_eq raw "" || str_eq raw "/dev/null"

-- The text as it is where it is not in the form of a Go string.
abbrev unquoted_or_trimmed : ToolLibrary → String → Option String → String
unquoted_or_trimmed lib raw (some t) = t
unquoted_or_trimmed lib raw none = lib.trim raw "\""

abbrev without_quotes : ToolLibrary → String → String
without_quotes lib raw =
    if lib.paths.has_prefix raw "\""
      && (lib.paths.has_suffix raw "\"" && ltb 1 (lib.text.byte_length raw))
    then unquoted_or_trimmed lib raw (lib.unquote raw)
    else raw

-- The first of the prefixes that the path has is taken off.
abbrev strip_first : ToolLibrary → List String → String → String
strip_first lib [] raw = raw
strip_first lib (p ∷ ps) raw =
    if lib.paths.has_prefix raw p then lib.paths.trim_prefix raw p else strip_first lib ps raw

abbrev git_prefixes : List String
git_prefixes = "a/" ∷ "b/" ∷ "i/" ∷ "w/" ∷ "c/" ∷ []

unfoldable pub clean_git_diff_path : ToolLibrary → String → String
clean_git_diff_path lib given =
    let raw = lib.text.trim_space given in
    if is_no_file raw
    then ""
    else lib.paths.to_slash
        (lib.paths.clean (strip_first lib git_prefixes (without_quotes lib raw)))

unfoldable pub is_diff_path_sensitive : ToolLibrary → String → Bool
is_diff_path_sensitive lib given =
    let raw = lib.text.trim_space given in
    let cleaned = clean_git_diff_path lib raw in
    not (is_no_file raw)
    && (is_file_denylisted lib.paths raw
        || (not (str_eq cleaned "") && is_file_denylisted lib.paths cleaned))

-- The loop over the bytes; `escaped` says that the byte before was a backslash between quotes, so
-- that this one is taken as it is. A backslash that ends the line is taken too.
record TokenReader : Type 0 where
  tokens : List String
  in_quotes : Bool
  cur : List ℕ
  escaped : Bool

abbrev pub is_empty {ℓ} : {A : Type ℓ} → List A → Bool
is_empty [] = true
is_empty (x ∷ xs) = false

abbrev end_token : ToolLibrary → TokenReader → TokenReader
end_token lib r =
    if is_empty r.cur
    then r
    else record r { tokens = r.tokens ++ lib.of_bytes r.cur ∷ []; cur = [] }

abbrev read_byte : ToolLibrary → TokenReader → ℕ → TokenReader
read_byte lib r ch =
    if r.escaped
    then record r { cur = r.cur ++ ch ∷ []; escaped = false }
    else (if (ch == 92) && r.in_quotes
        then record r { cur = r.cur ++ ch ∷ []; escaped = true }
        else (if ch == 34
            then record r { cur = r.cur ++ ch ∷ []; in_quotes = not r.in_quotes }
            else (if ((ch == 32) || (ch == 9)) && not r.in_quotes
                then end_token lib r
                else record r { cur = r.cur ++ ch ∷ [] })))

abbrev tokenize_bytes : ToolLibrary → List ℕ → TokenReader → TokenReader
tokenize_bytes lib [] r = r
tokenize_bytes lib (ch ∷ s) r = tokenize_bytes lib s (read_byte lib r ch)

unfoldable pub tokenize_git_line : ToolLibrary → String → List String
tokenize_git_line lib s =
    (end_token lib (
      tokenize_bytes lib (lib.bytes (lib.text.trim_space s))
        (record { tokens = []; in_quotes = false; cur = []; escaped = false }))).tokens

-- The first two tokens, or the one there is.
abbrev first_two : List String → List String
first_two [] = []
first_two (t ∷ []) = t ∷ []
first_two (t ∷ u ∷ ts) = t ∷ u ∷ []

unfoldable pub extract_diff_git_paths : ToolLibrary → String → List String
extract_diff_git_paths lib line =
    first_two (tokenize_git_line lib (lib.paths.trim_prefix line "diff --git "))

abbrev any_sensitive : ToolLibrary → List String → Bool
any_sensitive lib [] = false
any_sensitive lib (p ∷ ps) = is_diff_path_sensitive lib p || any_sensitive lib ps

abbrev first_sensitive : ToolLibrary → List String → Bool
first_sensitive lib [] = false
first_sensitive lib (f ∷ fs) = is_diff_path_sensitive lib f

abbrev up_to : ToolLibrary → String → Option ℕ → String
up_to lib p none = p
up_to lib p (some idx) = lib.text.first_bytes idx p

-- The two names of `X and Y`.
abbrev either_sensitive : ToolLibrary → List String → Bool
either_sensitive lib (a ∷ b ∷ c ∷ ts) =
    str_eq b "and" && (is_diff_path_sensitive lib a || is_diff_path_sensitive lib c)
either_sensitive lib (a ∷ b ∷ []) = false
either_sensitive lib (a ∷ []) = false
either_sensitive lib [] = false

-- The lines that name one file behind a word, tried in order; `otherwise` is what no such line is.
abbrev named_behind : ToolLibrary → String → List String → Bool → Bool
named_behind lib line [] otherwise = otherwise
named_behind lib line (w ∷ ws) otherwise =
    if lib.paths.has_prefix line w
    then is_diff_path_sensitive lib (lib.paths.trim_prefix line w)
    else named_behind lib line ws otherwise

-- The same, up to a tab or a carriage return.
abbrev named_before_tab : ToolLibrary → String → List String → Bool → Bool
named_before_tab lib line [] otherwise = otherwise
named_before_tab lib line (w ∷ ws) otherwise =
    let p = lib.paths.trim_prefix line w in
    if lib.paths.has_prefix line w
    then is_diff_path_sensitive lib (up_to lib p (lib.index_any p "\t\r"))
    else named_before_tab lib line ws otherwise

abbrev binary_sensitive : ToolLibrary → String → Bool
binary_sensitive lib line =
    lib.paths.has_prefix line "Binary files "
    && (lib.paths.has_suffix line " differ"
        && either_sensitive lib (
            tokenize_git_line lib
              (lib.paths.trim_suffix (lib.paths.trim_prefix line "Binary files ") " differ")))

abbrev submodule_or : ToolLibrary → String → Bool → Bool
submodule_or lib line otherwise =
    if lib.paths.has_prefix line "Submodule "
    then first_sensitive lib (lib.fields (lib.paths.trim_prefix line "Submodule "))
    else otherwise

unfoldable pub check_diff_line_sensitive : ToolLibrary → String → Bool
check_diff_line_sensitive lib line =
    let trimmed = lib.text.trim_space line in
    if str_eq trimmed ""
    then false
    else (if lib.paths.has_prefix trimmed "diff --git "
        then any_sensitive lib (extract_diff_git_paths lib trimmed)
        else named_behind lib trimmed ("diff --cc " ∷ "diff --combined " ∷ []) (
            submodule_or lib trimmed (
              named_behind lib trimmed
                ("rename from " ∷ "rename to " ∷ "copy from " ∷ "copy to " ∷ [])
                (named_before_tab lib trimmed ("--- " ∷ "+++ " ∷ [])
                  (binary_sensitive lib trimmed)))))
