-- ===== src/Probe/Tools/Listing/Reached.antt =====
-- internal/probe/tools/builtin.go: what recent_files and find_api_specs list, by the directories that
-- they go into.
use mathlib.Core.List.{append_assoc, append-nil}
use mathlib.Core.List.{Perm}
use talkintent.Common.{
  ltb, All, arith, ◌≤◌, Bool, false, ◌∷◌, not, ℕ, String, ◌&&◌, ◌||◌, ◌≡◌, sym, ap, ◌∙◌, inl, inr,
  List, [], ◌++◌, take, Bool-cases, if◌then◌else◌,
}
use talkintent.Probe.Tools.Walk.{
  FileInfo, Node, file, dir, Nodes, no_entries, entry, go_on, walk, walk_entries, is_hidden,
}
use talkintent.Probe.Tools.Search.{Files, is_skipped_name}
use talkintent.Probe.Tools.Listing.{
  Item, ListingLibrary, shown_path, visit_file, one, specs, is_later, recent_items, spec_items,
}

module _ (lib : Files) (root : String) where
  -- What a walk reaches, directory by directory.
  module _ (kept : String → FileInfo → List Item) where
    unfoldable mutual
      pub reached : Node → List Item
      reached (file path info) =
          if lib.is_over path || is_hidden lib.tools.paths root path
          then []
          else kept (shown_path lib root path) info
      reached (dir path info es) =
          let below = reached_in es in
          if not (lib.is_over path)
            && (is_hidden lib.tools.paths root path || is_skipped_name info.name)
          then []
          else below

      pub reached_in : Nodes → List Item
      reached_in no_entries = []
      reached_in (entry n es) = reached n ++ reached_in es

    mutual
      unfolding walk walk_entries visit_file reached reached_in

      -- A walk adds what it reaches, and ends by itself.
      pub walk-reached :
          (n : Node) (items : List Item)
          → walk (visit_file lib root kept) n items ≡ (items ++ reached n, go_on)
      walk-reached (file path info) items = elim (Bool-cases (lib.is_over path)) [
        | inl h ↦ rw (h, append-nil items)
        | inr h ↦ elim (Bool-cases (is_hidden lib.tools.paths root path)) [
          | inl k ↦ rw (h, k, append-nil items)
          | inr k ↦ rw (h, k)
        ]
      ]
      walk-reached (dir path info es) items = elim (Bool-cases (lib.is_over path)) [
        | inl h ↦ rw (h, walk_entries-reached es items)
        | inr h ↦ elim (Bool-cases (is_hidden lib.tools.paths root path)) [
          | inl k ↦ rw (h, k, append-nil items)
          | inr k ↦ elim (Bool-cases (is_skipped_name info.name)) [
            | inl q ↦ rw (h, k, q, append-nil items)
            | inr q ↦ rw (h, k, q, walk_entries-reached es items)
          ]
        ]
      ]

      walk_entries-reached :
          (es : Nodes) (items : List Item)
          → walk_entries (visit_file lib root kept) es items ≡ (items ++ reached_in es, go_on)
      walk_entries-reached no_entries items = ap (λ z. (z, go_on)) (sym (append-nil items))
      walk_entries-reached (entry n es) items = rw (walk-reached n items) (
          walk_entries-reached es (items ++ reached n)
          ∙ ap (λ z. (z, go_on)) (append_assoc items (reached n) (reached_in es)))

-- No item stands behind one that it is less than.
abbrev pub InOrder : (Item → Item → Bool) → List Item → Type 0
InOrder less [] = Unit
InOrder less (i ∷ is) = All (λ j. less j i ≡ false) is × InOrder less is

-- sort.Slice reorders the items, and where the test compares numbers of them, the result is in
-- order.
pub record Sorts (lib : ListingLibrary) : Type 0 where
  pub permutes :
      (less : Item → Item → Bool) (items : List Item) → Perm items (lib.sort_slice less items)
  pub ordered :
      (key : Item → ℕ) (items : List Item)
      → InOrder (λ i j. ltb (key j) (key i)) (lib.sort_slice (λ i j. ltb (key j) (key i)) items)

-- No item is younger than one before it.
abbrev pub Descends : List Item → Type 0
Descends [] = Unit
Descends (i ∷ is) = All (λ j. j.info.mod_time ≤ i.info.mod_time) is × Descends is

All-le :
    (i : Item) (is : List Item)
    → All (λ j. is_later j i ≡ false) is
    → All (λ j. j.info.mod_time ≤ i.info.mod_time) is
All-le i [] a = tt
All-le i (j ∷ is) (h, a) = (ground (arith, h), All-le i is a)

InOrder-Descends : (is : List Item) → InOrder is_later is → Descends is
InOrder-Descends [] o = tt
InOrder-Descends (i ∷ is) (a, o) = (All-le i is a, InOrder-Descends is o)

-- The first of the items that the walk reaches, from the youngest on.
pub record IsRecent (lib : ListingLibrary) (root target : String) (limit : ℕ) : Type 0 where
  all : List Item
  same : Perm (reached lib.files root one (lib.files.tree target)) all
  falling : Descends all
  first : recent_items lib root target limit ≡ take limit all

-- Where sort.Slice sorts: find_api_specs lists the specifications that a walk reaches, and
-- recent_files the first of all the files that it reaches, from the youngest on. What lies in a
-- hidden directory, or one that is passed over by its name, is not reached, nor is a file that is
-- hidden itself.
pub listed-reached :
    (lib : ListingLibrary) (root target : String) (limit : ℕ)
    → Sorts lib
    → (spec_items lib root target
        ≡ reached lib.files root (specs lib.files.tools.paths) (lib.files.tree target))
      × IsRecent lib root target limit
unfolding spec_items recent_items
listed-reached lib root target limit law =
    let items = reached lib.files root one (lib.files.tree target) in
    (
      ap (λ r. r.0)
          (walk-reached lib.files root (specs lib.files.tools.paths) (lib.files.tree target) []),
      record {
        all = lib.sort_slice is_later items;
        same = law.permutes is_later items;
        falling =
            InOrder-Descends (lib.sort_slice is_later items)
              (law.ordered (λ i. i.info.mod_time) items);
        first =
            ap (λ r. take limit (lib.sort_slice is_later r.0))
              (walk-reached lib.files root one (lib.files.tree target) []);
      },
    )
