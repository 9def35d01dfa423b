-- ===== src/Probe/Tools/Walk.antt =====
-- internal/probe/tools/builtin.go: filepath.Walk over a tree of files, as the tools use it. A link
-- stands in the tree as a file, as os.Lstat has it.
use talkintent.Common.{ℕ, String, Bool, true, false, ◌||◌, Option, none, some, if◌then◌else◌}
use talkintent.Probe.Sandbox.{Paths, is_file_denylisted}

pub record FileInfo : Type 0 where
  pub name : String
  pub size : ℕ
  pub mod_time : ℕ

-- The entries of a directory in the order of their names; none where it cannot be read.
mutual
  pub data Node : Type 0 where
    file : String → FileInfo → Node
    dir : String → FileInfo → Nodes → Node

  pub data Nodes : Type 0 where
    no_entries : Nodes
    entry : Node → Nodes → Nodes

-- What a visit returns: nil, SkipDir or SkipAll.
pub data Step : Type 0 where
  go_on skip_dir skip_all : Step

abbrev pub Visit {ℓ} : Type ℓ → Type ℓ
Visit S = Bool → String → FileInfo → S → S × Step

abbrev proceed {ℓ} : {S : Type ℓ} → Step → S → (S → S × Step) → S × Step
proceed go_on s k = k s
proceed skip_dir s k = (s, skip_dir)
proceed skip_all s k = (s, skip_all)

-- SkipDir ends in the directory that it skips.
abbrev in_parent : Step → Step
in_parent go_on = go_on
in_parent skip_dir = go_on
in_parent skip_all = skip_all

abbrev leave {ℓ} : {S : Type ℓ} → S × Step → S × Step
leave r = (r.0, in_parent r.1)

module _ {ℓ} {S : Type ℓ} (visit : Visit S) where
  unfoldable mutual
    pub walk : Node → S → S × Step
    walk (file path info) s = visit false path info s
    walk (dir path info es) s =
        let r = visit true path info s in leave (proceed r.1 r.0 (λ t. walk_entries es t))

    pub walk_entries : Nodes → S → S × Step
    walk_entries no_entries s = (s, go_on)
    walk_entries (entry n es) s = let r = walk n s in proceed r.1 r.0 (λ t. walk_entries es t)

  -- What every visit keeps, the walk keeps.
  module _ (P : S → Type ℓ)
      (kept : (d : Bool) (path : String) (info : FileInfo) (s : S)
        → P s
        → P (visit d path info s).0) where
    proceed-keeps :
        (step : Step) (s : S) (k : S → S × Step)
        → P s
        → ((t : S) → P t → P (k t).0)
        → P (proceed step s k).0
    proceed-keeps go_on s k p q = q s p
    proceed-keeps skip_dir s k p q = p
    proceed-keeps skip_all s k p q = p

    mutual
      unfolding walk walk_entries

      pub walk-keeps : (n : Node) (s : S) → P s → P (walk n s).0
      walk-keeps (file path info) s p = kept false path info s p
      walk-keeps (dir path info es) s p =
          proceed-keeps (visit true path info s).1 (visit true path info s).0
            (λ t. walk_entries es t) (kept true path info s p) (λ t q. walk_entries-keeps es t q)

      walk_entries-keeps : (es : Nodes) (s : S) → P s → P (walk_entries es s).0
      walk_entries-keeps no_entries s p = p
      walk_entries-keeps (entry n es) s p =
          proceed-keeps (walk n s).1 (walk n s).0 (λ t. walk_entries es t) (walk-keeps n s p)
            (λ t q. walk_entries-keeps es t q)

abbrev pub rel_or_empty : Option String → String
rel_or_empty none = ""
rel_or_empty (some p) = p

-- The path and the path relative to the root, as the tools test them.
unfoldable pub is_hidden : Paths → String → String → Bool
is_hidden lib root path =
    is_file_denylisted lib (rel_or_empty (lib.rel root path)) || is_file_denylisted lib path

abbrev pub pass_over : Bool → Step
pass_over is_dir = if is_dir then skip_dir else go_on
