-- ===== src/Store/Recovery/Again.antt =====
-- internal/store/store.go: what `replayAndOpenFile` keeps of a file, and reads of it again.
use mathlib.Core.List.{append-nil}
use talkintent.Common.{
  Bool-cases, ℕ, ◌+◌, true, false, ◌≡◌, refl, ap, ◌∙◌, sym, some, List, [], ◌∷◌, ◌++◌, ◌⊎◌, inl,
  inr, length, length-append, take-append, arith,
}
use talkintent.Store.Library.{Library}
use talkintent.Store.State.{Index}
use talkintent.Store.Recovery.{
  Bytes, Content, blank, unreadable, entry, read_lines, Scan, scan_start, scan_content, scan,
  is_torn, cut, finish_open, Disk, replay_and_open_file,
}
use talkintent.Store.Recovery.Lines.{concat, concat-append, concat-read_lines, read_lines-prefix}

cut-front :
    (s : Scan) (a b : Bytes)
    → s.last_valid_offset ≡ length a
    → s.current_offset ≡ length (a ++ b)
    → cut (a ++ b) s ≡ a
cut-front s a [] v c = elim (Bool-cases (is_torn s)) [
  | inl t ↦ rw (t, v) (take-append a [])
  | inr t ↦ rw t (append-nil a)
]
cut-front s a (d ∷ b) v c = elim (Bool-cases (is_torn s)) [
  | inl t ↦ rw (t, v) (take-append a (d ∷ b))
  | inr t ↦ ground (arith, t, v, c, length-append a (d ∷ b))
]

finish_open-left :
    (disk : Disk) (file left : Bytes) (y : Index) (s : Scan)
    → finish_open disk file s ≡ some (y, left)
    → left ≡ cut file s
finish_open-left disk file left y s e = ground (arith, e)

finish_open-again :
    (disk : Disk) (file left : Bytes) (y : Index) (s t : Scan)
    → finish_open disk file s ≡ some (y, left)
    → is_torn t ≡ false
    → t.index ≡ s.index
    → finish_open disk left t ≡ some (y, left)
finish_open-again disk file left y s t e q i = ground (arith, e, q, i)

module _ (lib : Library) (parse : Bytes → Content) where
  -- All that was read is kept.
  IsWhole : Scan → Type 0
  IsWhole s = (s.had_corrupted_trailing ≡ false) × (s.last_valid_offset ≡ s.current_offset)

  -- The lines that are kept, what they say, and where they end.
  record Kept (s : Scan) (ls : List Bytes) : Type 0 where
    kept : List Bytes
    rest : List Bytes
    is_front : ls ≡ kept ++ rest
    same_index : (scan lib parse s ls).index ≡ (scan lib parse s kept).index
    ends : (scan lib parse s ls).last_valid_offset ≡ s.current_offset + length (concat kept)
    is_whole : IsWhole (scan lib parse s kept)

  -- Nothing is read any more.
  IsIdle : Scan → List Bytes → Type 0
  IsIdle s ls =
      ((scan lib parse s ls).index ≡ s.index)
      × ((scan lib parse s ls).last_valid_offset ≡ s.last_valid_offset)

  abbrev more : Scan → Bytes → Scan
  more s l = scan_content lib (length l) (parse l) s

  content-offset :
      (n : ℕ) (c : Content) (s : Scan)
      → (scan_content lib n c s).current_offset ≡ s.current_offset + n
  content-offset n blank s = refl
  content-offset n unreadable s = refl
  content-offset n (entry e) s = refl

  -- A line is kept, or it makes the end of the file a torn one and says nothing.
  IsSkipped : Scan → Scan → Type 0
  IsSkipped s t =
      (t.had_corrupted_trailing ≡ true)
      × (t.index ≡ s.index)
      × (t.last_valid_offset ≡ s.last_valid_offset)

  content-cases :
      (n : ℕ) (c : Content) (s : Scan)
      → IsWhole (scan_content lib n c s) ⊎ IsSkipped s (scan_content lib n c s)
  unfolding IsWhole IsSkipped
  content-cases n blank s = elim (Bool-cases s.had_corrupted_trailing) [
    | inl y ↦ inr (y, refl, rw y refl)
    | inr n0 ↦ inl (n0, rw n0 refl)
  ]
  content-cases n unreadable s = inr (refl, refl, refl)
  content-cases n (entry e) s = inl (refl, refl)

  grow : (s : Scan) (l : Bytes) (ls : List Bytes) → Kept (more s l) ls → Kept s (l ∷ ls)
  unfolding scan
  grow s l ls k = record {
    kept = l ∷ k.kept;
    rest = k.rest;
    is_front = ap (λ z. l ∷ z) k.is_front;
    same_index = k.same_index;
    ends =
        k.ends
        ∙ omega (arith, content-offset (length l) (parse l) s, length-append l (concat k.kept));
    is_whole = k.is_whole;
  }

  stop : (s : Scan) (ls : List Bytes) → IsWhole s → IsIdle s ls → Kept s ls
  unfolding scan IsIdle IsWhole
  stop s ls w i = record {
    kept = [];
    rest = ls;
    is_front = refl;
    same_index = i.0;
    ends = omega (arith, i.1, w.1);
    is_whole = w;
  }

  pass_line :
      (s : Scan) (l : Bytes) (ls : List Bytes)
      → IsSkipped s (more s l)
      → IsIdle (more s l) ls
      → IsIdle s (l ∷ ls)
  unfolding scan IsIdle IsSkipped
  pass_line s l ls k i = (i.0 ∙ k.1, i.1 ∙ k.2)

  -- From any state on, nothing is read, or the lines up to some end are kept.
  follow_lines : (ls : List Bytes) (s : Scan) → IsIdle s ls ⊎ Kept s ls
  unfolding scan IsIdle
  follow_lines [] s = inl (refl, refl)
  follow_lines (l ∷ ls) s = elim (follow_lines ls (more s l)) [
    | inr k ↦ inr (grow s l ls k)
    | inl i ↦ (elim (content-cases (length l) (parse l) s) [
      | inl w ↦ inr (grow s l ls (stop (more s l) ls w i))
      | inr k ↦ inl (pass_line s l ls k i)
    ])
  ]

  whole-Kept : (ls : List Bytes) (s : Scan) → IsWhole s → Kept s ls
  whole-Kept ls s w = elim (follow_lines ls s) [ inl i ↦ stop s ls w i | inr k ↦ k ]

  scan-current :
      (ls : List Bytes) (s : Scan)
      → (scan lib parse s ls).current_offset ≡ s.current_offset + length (concat ls)
  unfolding scan
  scan-current [] s = omega arith
  scan-current (l ∷ ls) s = omega (
    arith,
    scan-current ls (more s l),
    content-offset (length l) (parse l) s,
    length-append l (concat ls),
  )

  start-IsWhole : (x : Index) → IsWhole (scan_start x)
  unfolding IsWhole
  start-IsWhole x = (refl, refl)

  whole-quiet : (s : Scan) → IsWhole s → is_torn s ≡ false
  unfolding IsWhole
  whole-quiet s w = ground (arith, w.0, w.1)

  cut-Kept :
      (file : Bytes) (x : Index) (k : Kept (scan_start x) (read_lines file))
      → cut file (scan lib parse (scan_start x) (read_lines file)) ≡ concat k.kept
  cut-Kept file x k =
      ap (λ f. cut f s) halves
      ∙ cut-front s (concat k.kept) (concat k.rest) (omega (arith, k.ends)) (
          omega (
            arith,
            scan-current (read_lines file) (scan_start x),
            ap length (concat-read_lines file ∙ halves),
          ))
    where
      s : Scan
      s = scan lib parse (scan_start x) (read_lines file)

      halves : file ≡ concat k.kept ++ concat k.rest
      halves = sym (concat-read_lines file) ∙ ap concat k.is_front ∙ concat-append k.kept k.rest

  -- A file that is opened without an error is cut so that it is read as before, and kept whole,
  -- when it is opened again.
  pub recover_again :
      (disk : Disk) (x y : Index) (file left : Bytes)
      → replay_and_open_file lib parse disk x file ≡ some (y, left)
      → replay_and_open_file lib parse disk x left ≡ some (y, left)
  unfolding replay_and_open_file
  recover_again disk x y file left e =
      finish_open-again disk file left y s (scan lib parse (scan_start x) (read_lines left)) e
        (ap is_torn same ∙ whole-quiet (scan lib parse (scan_start x) k.kept) k.is_whole)
        (ap (λ (t : Scan). t.index) same ∙ sym k.same_index)
    where
      s : Scan
      s = scan lib parse (scan_start x) (read_lines file)

      k : Kept (scan_start x) (read_lines file)
      k = whole-Kept (read_lines file) (scan_start x) (start-IsWhole x)

      same : scan lib parse (scan_start x) (read_lines left) ≡ scan lib parse (scan_start x) k.kept
      same =
          ap (λ f. scan lib parse (scan_start x) (read_lines f))
            (finish_open-left disk file left y s e ∙ cut-Kept file x k)
          ∙ ap (scan lib parse (scan_start x)) (read_lines-prefix file k.kept k.rest k.is_front)
