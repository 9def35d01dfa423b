-- ===== src/Probe/Sandbox/Escape.antt =====
-- internal/probe/tools/tool.go: what a path that is let through stands for.
use talkintent.Common.{String, true, false, ◌≡◌, Option, none, some, str_eq, if◌then◌else◌}
use talkintent.Probe.Sandbox.{Paths, is_file_denylisted, normalize_volume, or_given, is_top}

-- What a path comes to when its links are resolved, none where that fails: what is there is
-- resolved as a whole; what is not there stands below its parent, resolved, or as it is at the top
-- and where the parent cannot be resolved.
pub data Resolves (lib : Paths) : String → Option String → Type 0 where
  there :
      (p : String)
      → lib.is_there (lib.clean p) ≡ true
      → Resolves lib p (lib.eval_symlinks (lib.clean p))
  at_top :
      (p : String)
      → lib.is_there (lib.clean p) ≡ false
      → is_top lib (lib.clean p) ≡ true
      → Resolves lib p (some (lib.clean p))
  under :
      (p d : String)
      → lib.is_there (lib.clean p) ≡ false
      → is_top lib (lib.clean p) ≡ false
      → Resolves lib (lib.dir (lib.clean p)) (some d)
      → Resolves lib p (some (lib.join d (lib.base (lib.clean p))))
  kept :
      (p : String)
      → lib.is_there (lib.clean p) ≡ false
      → is_top lib (lib.clean p) ≡ false
      → Resolves lib (lib.dir (lib.clean p)) none
      → Resolves lib p (some (lib.clean p))

-- The root with its links resolved, and the path that is asked for, from the root on.
abbrev pub canonical_root : Paths → String → String
canonical_root lib abs_root = normalize_volume lib (or_given abs_root (lib.eval_symlinks abs_root))

abbrev pub asked : Paths → String → String → String
asked lib abs_root path = lib.clean (if lib.is_abs path then path else lib.join abs_root path)

-- The path stands for what it comes to with its links resolved, or for itself where that fails. This
-- is on the volume of the root and does not lead out of it, and neither is on a deny list, nor is
-- what leads to it from the root.
pub record Stands (lib : Paths) (root path u : String) : Type 0 where
  abs_root : String
  made : lib.abs (lib.clean root) ≡ some abs_root
  resolution : Option String
  resolves : Resolves lib (asked lib abs_root path) resolution
  target : u ≡ normalize_volume lib (or_given (asked lib abs_root path) resolution)
  same_volume : str_eq (lib.volume_name (canonical_root lib abs_root)) (lib.volume_name u) ≡ true
  rel : String
  leads : lib.rel (canonical_root lib abs_root) u ≡ some rel
  inside : lib.has_prefix rel ".." ≡ false
  asked_free : is_file_denylisted lib (asked lib abs_root path) ≡ false
  target_free : is_file_denylisted lib u ≡ false
  rel_free : is_file_denylisted lib rel ≡ false

module _ (lib : Paths) where
  -- What the last check asks.
  record IsFree (c t u : String) (o : Option String) : Type 0 where
    same : t ≡ u
    rel : String
    leads : o ≡ some rel
    inside : lib.has_prefix rel ".." ≡ false
    asked_free : is_file_denylisted lib c ≡ false
    target_free : is_file_denylisted lib t ≡ false
    rel_free : is_file_denylisted lib rel ≡ false
