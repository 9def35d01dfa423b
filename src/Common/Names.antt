-- ===== src/Common/Names.antt =====
-- Lists of names: the test for a name, the list without it, and the part that passes a test.
use Prim.Native.String.{String}
use mathlib.Core.Path.{◌≡◌, refl}
use mathlib.Core.Bool.{Bool, false, ◌&&◌, ◌||◌}
use mathlib.Core.List.{List, [], ◌∷◌, ◌++◌}
use native.Mathlib.Omega.{arith}
use text.Mathlib.TextEquality.{eq_iff}
use talkintent.Common.Tests.{str_eq, if◌then◌else◌}

abbrev pub has : String → List String → Bool
has k [] = false
has k (i ∷ ids) = str_eq i k || has k ids

abbrev pub without : String → List String → List String
without k [] = []
without k (i ∷ ids) = let rest = without k ids in if str_eq i k then rest else i ∷ rest

abbrev pub filter {ℓ} : {A : Type ℓ} → (A → Bool) → List A → List A
filter test [] = []
filter test (x ∷ xs) = let rest = filter test xs in if test x then x ∷ rest else rest

pub has-without :
    (k j : String) (ids : List String)
    → has j (without k ids) ≡ (if str_eq k j then false else has j ids)
has-without k j [] = ground arith
has-without k j (i ∷ ids) = ground (arith, eq_iff k j, eq_iff i k, eq_iff i j, has-without k j ids)

pub has-filter :
    (test : String → Bool) (j : String) (ids : List String)
    → has j (filter test ids) ≡ has j ids && test j
has-filter test j [] = refl
has-filter test j (i ∷ ids) = ground (arith, eq_iff i j, has-filter test j ids)

pub has-append : (k : String) (xs ys : List String) → has k (xs ++ ys) ≡ has k xs || has k ys
has-append k [] ys = refl
has-append k (i ∷ xs) ys = ground (arith, has-append k xs ys)
