-- ===== src/Tests/Tools.antt =====
-- The tools of the probe on a diff of three lines and a directory with two files and a link.
use mathlib.Core.List.{Perm}
use mathlib.Core.List.Perm
use talkintent.Common.{
  Bool, List, ltb, Bool-cases, inl, inr, arith, ℕ, ◌≤◌, ◌==◌, String, true, false, ◌≡◌, refl, ◌||◌,
  ◌&&◌, none, some, [], ◌∷◌, All, length, str_eq, if◌then◌else◌,
}
use talkintent.Common.Int.{pos, negsuc}
use talkintent.Probe.Sandbox.{Paths, is_file_denylisted}
use talkintent.Probe.Tools.{ToolLibrary, number}
use talkintent.Probe.Tools.Sensitive.{
  check_diff_line_sensitive, is_diff_path_sensitive, clean_git_diff_path, extract_diff_git_paths,
  tokenize_git_line,
}
use talkintent.Probe.Tools.Diff.{filter_lines, filter_diff_output, is_chunk_start, redaction_mark}
use talkintent.Probe.Tools.Diff.Sections.{sections, shield_all, filter_diff-sections}
use talkintent.Probe.Tools.Walk.{
  FileInfo, file, dir, entry, no_entries, walk, walk_entries, is_hidden,
}
use talkintent.Probe.Tools.Search.{Files, find_matches, max_matches_of, visit, scan_lines}
use talkintent.Probe.Tools.Search.Matches.{IsMatch, find_matches-IsMatch}
use talkintent.Probe.Tools.Listing.{Item, ListingLibrary, specs, spec_items}
use talkintent.Probe.Tools.Listing.Reached.{InOrder, Sorts, IsRecent, reached, listed-reached}
use talkintent.Common.Effect.{ok}
use talkintent.Probe.Text.{output_mark}
use talkintent.Probe.Tools.Reading.{FileSystem, read_open}
use talkintent.Probe.Tools.Directory.{DirectoryLibrary, lines, panicked, visit_entry}
use talkintent.Tests.Probe.{paths, text}

abbrev diff_paths : Paths
diff_paths = record paths {
  has_prefix = λ t p.
      (str_eq t "+++ b/.env" && str_eq p "+++ ")
      || (str_eq p "diff --git "
          && (str_eq t "diff --git a/.env b/.env" || str_eq t "diff --git a/x b/x"));
  trim_prefix = λ t p. if str_eq t "+++ b/.env" then ".env" else t;
  base = λ p. p;
  matches = λ p t. str_eq p ".env" && str_eq t ".env";
}

abbrev tools : ToolLibrary
tools = record {
  paths = diff_paths;
  text = text;
  index_any = λ s chars. none;
  fields = λ s. s ∷ [];
  trim = λ s chars. s;
  split = λ s sep.
      "diff --git a/.env b/.env" ∷ "+++ b/.env" ∷ "+KEY=1" ∷ "diff --git a/x b/x" ∷ "+y" ∷ [];
  join_with = λ ls sep. "joined";
  equal_fold = str_eq;
  unquote = λ s. none;
  atoi = λ s. none;
  decimal = λ n. "";
  bytes = λ s. [];
  of_bytes = λ b. "";
  match_string = λ p s. true;
  run_git = λ d c args. record { stdout = ""; stderr = ""; failed = false };
}

secret_redacted :
    filter_lines tools (tools.split "" "\n")
    ≡ "diff --git a/.env b/.env" ∷ redaction_mark ∷ "diff --git a/x b/x" ∷ "+y" ∷ []
unfolding filter_lines check_diff_line_sensitive is_chunk_start is_diff_path_sensitive
    clean_git_diff_path is_file_denylisted extract_diff_git_paths tokenize_git_line
secret_redacted = refl

-- `"a \" b" c`: the blank and the quote between the quotes are part of the first name.
abbrev quoted : ToolLibrary
quoted = record tools {
  bytes = λ s. 34 ∷ 97 ∷ 32 ∷ 92 ∷ 34 ∷ 32 ∷ 98 ∷ 34 ∷ 32 ∷ 99 ∷ [];
  of_bytes = λ b. if length b == 8 then "first" else (if length b == 1 then "second" else "other");
}

tokens_quoted : tokenize_git_line quoted "" ≡ "first" ∷ "second" ∷ []
unfolding tokenize_git_line
tokens_quoted = refl

filter_diff-sections_example :
    filter_diff_output tools "d"
    ≡ tools.join_with (shield_all tools (sections tools (tools.split "d" "\n"))) "\n"
filter_diff-sections_example = filter_diff-sections tools "d" _ _ refl

abbrev info : String → FileInfo
info name = record { name = name; size = 5; mod_time = 1 }

-- `notes` is a link; what it opens is where it leads.
abbrev files : Files
files = record {
  tools = tools;
  tree = λ target.
      dir target (info "src")
        (entry (file ".env" (info ".env")) (entry (file "notes" (info "notes")) no_entries));
  is_over = λ path. false;
  open_file = λ path. some (record { has_zero = false; lines = "KEY=1" ∷ path ∷ [] });
  compile = λ p. some (str_eq p);
  format_match = λ rel n line. line;
  format_none = λ p path. "";
}

followed : (find_matches files "src" "KEY=1" "src" 50).matches ≡ "KEY=1" ∷ []
unfolding find_matches walk walk_entries visit scan_lines is_hidden is_file_denylisted
followed = refl

find_matches-IsMatch_example :
    (length
        (find_matches files "src" "KEY=1" "src"
          (max_matches_of tools (λ key. some (number (pos 9))))).matches
      ≤ 200)
    × All
        (IsMatch files "src" "KEY=1")
        (find_matches files "src" "KEY=1" "src"
          (max_matches_of tools (λ key. some (number (pos 9))))).matches
find_matches-IsMatch_example =
    find_matches-IsMatch files "src" "KEY=1" "src" (λ key. some (number (pos 9)))

-- Sorting by insertion.
abbrev place : (Item → Item → Bool) → Item → List Item → List Item
place less i [] = i ∷ []
place less i (j ∷ js) = if less j i then j ∷ place less i js else i ∷ j ∷ js

abbrev insertion_sort : (Item → Item → Bool) → List Item → List Item
insertion_sort less [] = []
insertion_sort less (i ∷ is) = place less i (insertion_sort less is)

place-Perm :
    (less : Item → Item → Bool) (i : Item) (js : List Item) → Perm (i ∷ js) (place less i js)
place-Perm less i [] = Perm.refl (i ∷ [])
place-Perm less i (j ∷ js) = elim (Bool-cases (less j i)) [
  | inl h ↦ rw h (Perm.trans (Perm.swap j i js) (Perm.cons j (place-Perm less i js)))
  | inr h ↦ rw h (Perm.refl (i ∷ j ∷ js))
]

insertion_sort-Perm :
    (less : Item → Item → Bool) (is : List Item) → Perm is (insertion_sort less is)
insertion_sort-Perm less [] = Perm.refl []
insertion_sort-Perm less (i ∷ is) =
    Perm.trans (Perm.cons i (insertion_sort-Perm less is))
      (place-Perm less i (insertion_sort less is))

module _ (key : Item → ℕ) where
  abbrev by_key : Item → Item → Bool
  by_key i j = ltb (key j) (key i)

  All-place :
      (k i : Item) (js : List Item)
      → by_key i k ≡ false
      → All (λ j. by_key j k ≡ false) js
      → All (λ j. by_key j k ≡ false) (place by_key i js)
  All-place k i [] h a = (h, tt)
  All-place k i (j ∷ js) h (b, a) = elim (Bool-cases (by_key j i)) [
    | inl e ↦ rw e (b, All-place k i js h a)
    | inr e ↦ rw e (h, (b, a))
  ]

  All-below :
      (i j : Item) (js : List Item)
      → by_key j i ≡ false
      → All (λ k. by_key k j ≡ false) js
      → All (λ k. by_key k i ≡ false) js
  All-below i j [] h a = tt
  All-below i j (k ∷ js) h (b, a) = (ground (arith, h, b), All-below i j js h a)

  place-InOrder :
      (i : Item) (js : List Item) → InOrder by_key js → InOrder by_key (place by_key i js)
  place-InOrder i [] o = (tt, tt)
  place-InOrder i (j ∷ js) (a, o) = elim (Bool-cases (by_key j i)) [
    | inl e ↦ rw e (All-place j i js (ground (arith, e)) a, place-InOrder i js o)
    | inr e ↦ rw e ((e, All-below i j js e a), (a, o))
  ]

  insertion_sort-InOrder : (is : List Item) → InOrder by_key (insertion_sort by_key is)
  insertion_sort-InOrder [] = tt
  insertion_sort-InOrder (i ∷ is) =
      place-InOrder i (insertion_sort by_key is) (insertion_sort-InOrder is)

abbrev listing : ListingLibrary
listing = record {
  files = files;
  sort_slice = insertion_sort;
  recent_line = λ i. i.rel_path;
  spec_line = λ i kind. kind;
  concat_lines = λ first lines. first;
  found_line = λ n lines. "";
}

listing-Sorts : Sorts listing
listing-Sorts = record { permutes = insertion_sort-Perm; ordered = insertion_sort-InOrder }

listed-reached_example :
    (spec_items listing "src" "src" ≡ reached files "src" (specs tools.paths) (files.tree "src"))
    × IsRecent listing "src" "src" 15
listed-reached_example = listed-reached listing "src" "src" 15 listing-Sorts

-- The whole file was read, and a negative offset marks it as cut.
abbrev system : FileSystem
system = record {
  tools = tools;
  stat = λ p. ok (record { is_dir = false; size = 5 });
  open_file = λ p. ok tt;
  seek = λ p n. ok tt;
  read_full = λ p n limit. ok (record { count = 5; content = "hello" });
}

read_whole : read_open system "a" (record { is_dir = false; size = 5 }) (pos 0) 9 ≡ ok "hello"
unfolding read_open
read_whole = refl

read_marked :
    read_open system "a" (record { is_dir = false; size = 5 }) (negsuc 0) 9
    ≡ ok (text.join "hello" output_mark)
unfolding read_open
read_marked = refl

-- Below the root of the file system the depth is 0.
abbrev directories : DirectoryLibrary
directories = record {
  files = record files { tree = λ t. dir "/" (info "/") (entry (file "/a" (info "a")) no_entries) };
  stat = λ p. ok (record { is_dir = true; size = 0 });
  separators = λ p. 1;
  file_report = λ p n. "";
  heading = λ p. p;
  entry_line = λ d is_dir i. i.name;
  concat_lines = λ first ls. first;
}

list_panics :
    (walk (visit_entry directories "/" "/" 1) (directories.files.tree "/") (lines [])).0 ≡ panicked
unfolding walk walk_entries visit_entry is_hidden is_file_denylisted
list_panics = refl
