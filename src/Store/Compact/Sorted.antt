-- ===== src/Store/Compact/Sorted.antt =====
-- internal/store/store.go: the sorted entries of a map are the map.
use talkintent.Common.{
  String, Bool, true, false, ◌||◌, ◌≡◌, refl, ap, ◌∙◌, some, [], ◌∷◌, str_eq, arith, eq_iff,
  if◌then◌else◌,
}
use talkintent.Common.GoMap
use talkintent.Common.GoMap.{GoMap}
use talkintent.Store.Compact.{place_entry, sort_entries}

module _ {V : Type 0} where
  abbrev pub has_key : String → GoMap V → Bool
  has_key k [] = false
  has_key k ((j, v) ∷ m) = str_eq j k || has_key k m

  -- No key stands twice.
  abbrev pub IsDistinct : GoMap V → Type 0
  IsDistinct [] = Unit
  IsDistinct ((k, v) ∷ m) = (has_key k m ≡ false) × IsDistinct m

  module _ (less : String × V → String × V → Bool) where
    has_key-place :
        (k j : String) (v : V) (m : GoMap V)
        → has_key k (place_entry less (j, v) m) ≡ str_eq j k || has_key k m
    has_key-place k j v [] = refl
    has_key-place k j v ((i, w) ∷ m) = ground (arith, has_key-place k j v m)

    lookup-place :
        (k j : String) (v : V) (m : GoMap V)
        → has_key j m ≡ false
        → GoMap.lookup k (place_entry less (j, v) m)
          ≡ (if str_eq j k then some v else GoMap.lookup k m)
    lookup-place k j v [] h = refl
    lookup-place k j v ((i, w) ∷ m) h =
        ground (arith, h, eq_iff i k, eq_iff j k, eq_iff i j, lookup-place k j v m)

    pub has_key-sort : (k : String) (m : GoMap V) → has_key k (sort_entries less m) ≡ has_key k m
    has_key-sort k [] = refl
    has_key-sort k ((j, v) ∷ m) =
        has_key-place k j v (sort_entries less m) ∙ ap (λ b. str_eq j k || b) (has_key-sort k m)

    pub lookup-sort :
        (k : String) (m : GoMap V)
        → IsDistinct m
        → GoMap.lookup k (sort_entries less m) ≡ GoMap.lookup k m
    lookup-sort k [] d = refl
    lookup-sort k ((j, v) ∷ m) d =
        lookup-place k j v (sort_entries less m) (has_key-sort j m ∙ d.0)
        ∙ ap (λ o. if str_eq j k then some v else o) (lookup-sort k m d.1)

    if-IsDistinct :
        (b : Bool) (m n : GoMap V) → IsDistinct m → IsDistinct n → IsDistinct (if b then m else n)
    if-IsDistinct true m n d e = d
    if-IsDistinct false m n d e = e

    place-IsDistinct :
        (j : String) (v : V) (m : GoMap V)
        → has_key j m ≡ false
        → IsDistinct m
        → IsDistinct (place_entry less (j, v) m)
    place-IsDistinct j v [] h d = (refl, tt)
    place-IsDistinct j v ((i, w) ∷ m) h d =
        if-IsDistinct (less (j, v) (i, w)) ((j, v) ∷ (i, w) ∷ m)
          ((i, w) ∷ place_entry less (j, v) m) (h, d)
          (
            ground (arith, h, d.0, eq_iff i j, eq_iff j i, has_key-place i j v m),
            place-IsDistinct j v m (ground (arith, h)) d.1,
          )

    pub sort-IsDistinct : (m : GoMap V) → IsDistinct m → IsDistinct (sort_entries less m)
    sort-IsDistinct [] d = tt
    sort-IsDistinct ((j, v) ∷ m) d =
        place-IsDistinct j v (sort_entries less m) (has_key-sort j m ∙ d.0) (sort-IsDistinct m d.1)
