-- ===== src/Probe/Tools/Listing.antt =====
-- internal/probe/tools/builtin.go: recent_files and find_api_specs, which list the files that a
-- walk reaches.
pub mod Reached
use mathlib.Core.List.{append_assoc, append-nil}
use talkintent.Common.{
  map, not, ℕ, zero, suc, String, Bool, true, false, ◌&&◌, ◌||◌, ◌≡◌, refl, sym, ap, ◌∙◌, inl, inr,
  Option, none, some, List, [], ◌∷◌, ◌++◌, str_eq, ltb, take, length, Bool-cases, if◌then◌else◌,
}
use talkintent.Common.Int.{pos}
use talkintent.Common.Effect.{Result, ok}
use talkintent.Probe.Sandbox.{Paths, validate_sandbox_path}
use talkintent.Probe.Tools.{ToolLibrary, Arguments, ToolError, get_string_arg, get_int_arg}
use talkintent.Probe.Tools.Git.{when_granted, limited}
use talkintent.Probe.Tools.Walk.{
  FileInfo, Node, file, dir, Nodes, no_entries, entry, Step, go_on, skip_dir, walk, walk_entries,
  is_hidden, pass_over, rel_or_empty,
}
use talkintent.Probe.Tools.Search.{Files, is_skipped_name}

-- A file: its path from the root on, and what os.Lstat says of it.
pub record Item : Type 0 where
  pub rel_path : String
  pub info : FileInfo

-- What the tools use beside the files: sort.Slice with its test, and the texts of a list.
pub record ListingLibrary : Type 0 where
  pub files : Files
  pub sort_slice : (Item → Item → Bool) → List Item → List Item
  pub recent_line : Item → String
  pub spec_line : Item → String → String
  pub concat_lines : String → List String → String
  pub found_line : ℕ → List String → String

module _ (lib : Files) (root : String) where
  abbrev pub shown_path : String → String
  shown_path path = lib.tools.paths.to_slash (rel_or_empty (lib.tools.paths.rel root path))

  -- The visit of both tools, with what they keep of a file.
  unfoldable pub visit_file :
      (String → FileInfo → List Item) → Bool → String → FileInfo → List Item → List Item × Step
  visit_file kept is_dir path info items =
      if lib.is_over path
      then (items, go_on)
      else (if is_hidden lib.tools.paths root path
          then (items, pass_over is_dir)
          else (if is_dir
              then (items, (if is_skipped_name info.name then skip_dir else go_on))
              else (items ++ kept (shown_path path) info, go_on)))

abbrev pub one : String → FileInfo → List Item
one path info = record { rel_path = path; info = info } ∷ []

abbrev has_any_suffix : Paths → String → List String → Bool
has_any_suffix lib name [] = false
has_any_suffix lib name (s ∷ ss) = lib.has_suffix name s || has_any_suffix lib name ss

abbrev json_or_yaml : List String
json_or_yaml = ".json" ∷ ".yaml" ∷ ".yml" ∷ []

-- The kind of a specification, none where the file is not one.
unfoldable pub spec_type : Paths → String → Option String
spec_type lib given =
    let name = lib.to_lower given in
    if lib.has_suffix name ".proto"
    then some "Protobuf / gRPC"
    else (if lib.contains name "openapi" && has_any_suffix lib name json_or_yaml
        then some "OpenAPI"
        else (if lib.contains name "swagger" && has_any_suffix lib name json_or_yaml
            then some "Swagger"
            else (if has_any_suffix lib name (".graphql" ∷ ".gql" ∷ [])
                then some "GraphQL"
                else (if str_eq name "api.yaml" || (str_eq name "api.yml" || str_eq name "api.json")
                    then some "API Spec"
                    else none))))

abbrev if_spec : Item → Option String → List Item
if_spec item none = []
if_spec item (some kind) = item ∷ []

abbrev pub specs : Paths → String → FileInfo → List Item
specs lib path info = if_spec (record { rel_path = path; info = info }) (spec_type lib info.name)

abbrev spec_lines : ListingLibrary → List Item → List String
spec_lines lib [] = []
spec_lines lib (i ∷ is) = elim (spec_type lib.files.tools.paths i.info.name) [
  | none ↦ spec_lines lib is
  | some kind ↦ lib.spec_line i kind ∷ spec_lines lib is
]

-- a.ModTime.After(b.ModTime)
abbrev pub is_later : Item → Item → Bool
is_later a b = ltb b.info.mod_time a.info.mod_time

unfoldable pub recent_items : ListingLibrary → String → String → ℕ → List Item
recent_items lib root target limit =
    take limit
      (lib.sort_slice is_later (walk (visit_file lib.files root one) (lib.files.tree target) []).0)

abbrev shown_items : ListingLibrary → List Item → String
shown_items lib [] = "(no files found)"
shown_items lib (i ∷ is) =
    lib.concat_lines "Recently modified files:\n" (map lib.recent_line (i ∷ is))

unfoldable pub recent_files : ListingLibrary → ℕ → String → Arguments → Result ToolError String
recent_files lib fuel root args =
    let tools = lib.files.tools in
    let limit = limited 15 50 (get_int_arg tools args "limit" (pos 15)) in
    when_granted
      (validate_sandbox_path tools.paths fuel root (get_string_arg tools args "path" "."))
      (λ target. ok (shown_items lib (recent_items lib root target limit)))

unfoldable pub spec_items : ListingLibrary → String → String → List Item
spec_items lib root target =
    (walk (visit_file lib.files root (specs lib.files.tools.paths)) (lib.files.tree target) []).0

abbrev shown_specs : ListingLibrary → List String → String
shown_specs lib [] =
    "No API specification files (OpenAPI, Swagger, Protobuf, GraphQL) found in workspace."
shown_specs lib (l ∷ ls) = lib.found_line (length (l ∷ ls)) (l ∷ ls)

unfoldable pub find_api_specs : ListingLibrary → ℕ → String → Arguments → Result ToolError String
find_api_specs lib fuel root args =
    let tools = lib.files.tools in
    when_granted
      (validate_sandbox_path tools.paths fuel root (get_string_arg tools args "path" "."))
      (λ target. ok (shown_specs lib (spec_lines lib (spec_items lib root target))))
