-- ===== src/Probe/Sandbox/Climbing.antt =====
-- internal/probe/tools/tool.go: `resolvePhysicalPath` ends.
use talkintent.Common.{
  ℕ, zero, suc, ◌<◌, String, Bool, true, false, ◌≡◌, refl, Option, none, some, str_eq, arith,
  if◌then◌else◌,
}
use talkintent.Probe.Sandbox.{Paths, is_top, below, resolve_physical_path}

-- `filepath.Dir` of a cleaned path is the path itself or has a smaller depth.
pub record Climbs (lib : Paths) : Type 0 where
  pub depth : String → ℕ
  pub up :
      (p : String)
      → str_eq (lib.dir (lib.clean p)) (lib.clean p) ≡ false
      → depth (lib.dir (lib.clean p)) < depth p

abbrev pub is_done : Option (Option String) → Bool
is_done none = false
is_done (some r) = true

below-done :
    (lib : Paths) (c : String) (o : Option (Option String))
    → is_done o ≡ true
    → is_done (below lib c o) ≡ true
below-done lib c none e = e
below-done lib c (some none) e = refl
below-done lib c (some (some d)) e = refl

if-done :
    (b : Bool) (x y : Option (Option String))
    → (b ≡ true → is_done x ≡ true)
    → (b ≡ false → is_done y ≡ true)
    → is_done (if b then x else y) ≡ true
if-done true x y k l = k refl
if-done false x y k l = l refl

-- A step for each level of depth, and one more, is enough.
pub resolve_ends :
    (lib : Paths) (k : Climbs lib) (n : ℕ) (target : String)
    → k.depth target < n
    → is_done (resolve_physical_path lib n target) ≡ true
unfolding resolve_physical_path
resolve_ends lib k zero target h = ground (arith, h)
resolve_ends lib k (suc n) target h =
    let c = lib.clean target in
    if-done (lib.is_there c) _ _ (λ e. refl)
      (λ e.
        if-done (is_top lib c) (some (some c)) _ (λ f. refl)
          (λ f. below-done lib c (resolve_physical_path lib n (lib.dir c)) (
            resolve_ends lib k n (lib.dir c) (ground (arith, h, k.up target (ground (arith, f)))))))
