-- ===== src/Config/Workspaces/Listing.antt =====
-- internal/config/workspace.go: what adding and removing a workspace promise.
use mathlib.Core.Path.{subst}
use talkintent.Common.{
  ℕ, ◌+◌, ◌≤◌, String, Bool, true, false, ◌≡◌, refl, Option, none, some, List, [], ◌∷◌, str_eq,
  arith, eq_iff, Bool-cases, inl, inr, if◌then◌else◌,
}
use talkintent.Config.Workspaces.{
  WorkspaceConfig, PathLibrary, filled, put_workspace, add_workspace, remaining, any_target,
  remove_workspace, find_workspace,
}

find-remaining :
    (lib : PathLibrary) (target : String) (l : List WorkspaceConfig)
    → find_workspace lib target (remaining lib target l) ≡ none
unfolding find_workspace
find-remaining lib target [] = refl
find-remaining lib target (w ∷ ws) = ground (arith, find-remaining lib target ws)

find-absent :
    (lib : PathLibrary) (target : String) (l : List WorkspaceConfig)
    → any_target lib target l ≡ false
    → find_workspace lib target l ≡ none
unfolding find_workspace
find-absent lib target [] e = refl
find-absent lib target (w ∷ ws) e = ground (arith, e, find-absent lib target ws)

told :
    (lib : PathLibrary) (target : String) (l : List WorkspaceConfig)
    → any_target lib target l ≡ elim (find_workspace lib target l) [ none ↦ false | some w ↦ true ]
unfolding find_workspace
told lib target [] = refl
told lib target (w ∷ ws) = ground (arith, told lib target ws)

-- After a removal nothing is found under the target, and the removal tells whether something was.
pub find-remove_workspace :
    (lib : PathLibrary) (target : String) (l : List WorkspaceConfig)
    → (find_workspace lib target (remove_workspace lib target l).1 ≡ none)
      × ((remove_workspace lib target l).0
          ≡ elim (find_workspace lib target l) [ none ↦ false | some w ↦ true ])
unfolding remove_workspace
find-remove_workspace lib target l = (
  elim (Bool-cases (any_target lib target l)) [
    | inl e ↦ rw e (find-remaining lib target l)
    | inr e ↦ rw e (find-absent lib target l e)
  ],
  told lib target l,
)

abbrev pub is_found : Option WorkspaceConfig → Bool
is_found none = false
is_found (some w) = true

-- The number of workspaces with a root.
abbrev pub count_root : PathLibrary → String → List WorkspaceConfig → ℕ
count_root lib norm [] = 0
count_root lib norm (w ∷ ws) =
    (if str_eq (lib.clean w.root_path) norm then 1 else 0) + count_root lib norm ws

any-put :
    (lib : PathLibrary) (ws : WorkspaceConfig) (l : List WorkspaceConfig)
    → any_target lib ws.id (put_workspace lib ws l) ≡ true
any-put lib ws [] = ground (arith, eq_iff ws.id ws.id)
any-put lib ws (e ∷ es) = ground (arith, eq_iff ws.id ws.id, any-put lib ws es)

-- A workspace that was added is found under its id.
pub find-add_workspace :
    (lib : PathLibrary) (ws : WorkspaceConfig) (norm : String) (l m : List WorkspaceConfig)
    → lib.normalize_workspace_path ws.root_path ≡ some norm
    → add_workspace lib ws l ≡ some m
    → is_found (find_workspace lib (filled lib norm ws).id m) ≡ true
unfolding add_workspace
find-add_workspace lib ws norm l m n e =
    let same : put_workspace lib (filled lib norm ws) l ≡ m = ground (arith, n, e) in
    let any = any-put lib (filled lib norm ws) l in
    let t = told lib (filled lib norm ws).id m in
    ground (
      arith,
      subst (λ (k : List WorkspaceConfig). any_target lib (filled lib norm ws).id k ≡ true) same
          any,
      t,
    )

-- A workspace whose id is that of one entry and whose root is that of a later one replaces the
-- first alone: two entries have the root then.
pub add_duplicates :
    (lib : PathLibrary) (ws a b : WorkspaceConfig) (norm : String) (rest m : List WorkspaceConfig)
    → lib.normalize_workspace_path ws.root_path ≡ some norm
    → str_eq a.id (filled lib norm ws).id ≡ true
    → str_eq (lib.clean b.root_path) norm ≡ true
    → str_eq (lib.clean norm) norm ≡ true
    → add_workspace lib ws (a ∷ b ∷ rest) ≡ some m
    → 2 ≤ count_root lib norm m
unfolding add_workspace
add_duplicates lib ws a b norm rest m n i r c e =
    let t = filled lib norm ws in
    let same : t ∷ b ∷ rest ≡ m = ground (arith, n, i, e) in
    subst (λ (k : List WorkspaceConfig). 2 ≤ count_root lib norm k) same (ground (arith, r, c))
