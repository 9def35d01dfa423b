-- ===== src/Config/Workspaces.antt =====
-- internal/config/workspace.go: the workspaces of a client's configuration.
pub mod Listing
use talkintent.Common.{
  ℕ, String, Bool, true, false, ◌||◌, Option, none, some, List, [], ◌∷◌, str_eq, if◌then◌else◌,
}

pub record WorkspaceConfig : Type 0 where
  pub id : String
  pub name : String
  pub root_path : String
  pub privacy_prompt_path : String

-- `NormalizeWorkspacePath`, which asks the file system, filepath.Base, filepath.Clean,
-- strings.ToLower and strings.TrimSpace.
pub record PathLibrary : Type 0 where
  pub normalize_workspace_path : String → Option String
  pub base : String → String
  pub clean : String → String
  pub to_lower : String → String
  pub trim_space : String → String

abbrev pub or_default_text : String → String → String
or_default_text d t = if str_eq t "" then d else t

abbrev pub filled : PathLibrary → String → WorkspaceConfig → WorkspaceConfig
filled lib norm ws =
    let name = or_default_text (lib.base norm) ws.name in
    record ws { id = or_default_text (lib.to_lower name) ws.id; name = name; root_path = norm }

abbrev pub is_same : PathLibrary → WorkspaceConfig → WorkspaceConfig → Bool
is_same lib ws existing =
    str_eq existing.id ws.id || str_eq (lib.clean existing.root_path) ws.root_path

-- The first entry that is the same workspace is replaced; without one the workspace comes last.
abbrev pub put_workspace :
    PathLibrary → WorkspaceConfig → List WorkspaceConfig → List WorkspaceConfig
put_workspace lib ws [] = ws ∷ []
put_workspace lib ws (e ∷ es) =
    let rest = put_workspace lib ws es in if is_same lib ws e then ws ∷ es else e ∷ rest

abbrev pub add_normalized :
    PathLibrary
    → WorkspaceConfig
    → List WorkspaceConfig
    → Option String
    → Option (List WorkspaceConfig)
add_normalized lib ws l none = none
add_normalized lib ws l (some norm) = some (put_workspace lib (filled lib norm ws) l)

-- `none` is an error, which leaves the list as it is.
unfoldable pub add_workspace :
    PathLibrary → WorkspaceConfig → List WorkspaceConfig → Option (List WorkspaceConfig)
add_workspace lib ws l = add_normalized lib ws l (lib.normalize_workspace_path ws.root_path)

abbrev pub is_target : PathLibrary → String → WorkspaceConfig → Bool
is_target lib target ws =
    str_eq ws.id target
    || (str_eq ws.name target
        || str_eq (lib.clean ws.root_path) (lib.clean (lib.trim_space target)))

abbrev pub remaining : PathLibrary → String → List WorkspaceConfig → List WorkspaceConfig
remaining lib target [] = []
remaining lib target (w ∷ ws) =
    let rest = remaining lib target ws in if is_target lib target w then rest else w ∷ rest

abbrev pub any_target : PathLibrary → String → List WorkspaceConfig → Bool
any_target lib target [] = false
any_target lib target (w ∷ ws) = is_target lib target w || any_target lib target ws

unfoldable pub remove_workspace :
    PathLibrary → String → List WorkspaceConfig → Bool × List WorkspaceConfig
remove_workspace lib target l =
    let removed = any_target lib target l in
    (removed, if removed then remaining lib target l else l)

unfoldable pub find_workspace : PathLibrary → String → List WorkspaceConfig → Option WorkspaceConfig
find_workspace lib target [] = none
find_workspace lib target (w ∷ ws) =
    if is_target lib target w then some w else find_workspace lib target ws
