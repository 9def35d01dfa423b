-- ===== src/Probe/Tools/Search/Matches.antt =====
-- internal/probe/tools/builtin.go: the matches of grep_search, their number and where they are from.
use mathlib.Core.Path.{subst}
use mathlib.Core.List.{append_assoc}
use talkintent.Common.{
  get_elem?, sym, ℕ, zero, suc, ◌+◌, ◌≤◌, ◌<◌, String, Bool, true, false, ◌≡◌, refl, ap, ◌∙◌, inl,
  inr, Option, none, some, List, [], ◌∷◌, ◌++◌, All, length, length-append, leb, ltb, Bool-cases,
  arith,
}
use talkintent.Common.Int.{ℤ, pos, negsuc}
use talkintent.Probe.Tools.{Arguments, get_int_arg}
use talkintent.Probe.Tools.Git.{limited}
use talkintent.Probe.Tools.Walk.{FileInfo, walk-keeps, rel_or_empty, is_hidden}
use talkintent.Probe.Tools.Search.{
  Files, FileContent, Found, nothing_found, matcher, add_match, scan_lines, read_content, visit,
  max_matches_of, find_matches,
}

get_elem?-front :
    (front lines : List String) (line : String)
    → get_elem? (front ++ line ∷ lines) (length front) ≡ some line
get_elem?-front [] lines line = refl
get_elem?-front (l ∷ front) lines line = get_elem?-front front lines line

module _ (lib : Files) (root pattern : String) where
  -- A line that matches, with its number from 1 on in a file that was opened and is not binary; the
  -- path of the file is on no deny list, as it is and relative to the root.
  pub record IsMatch (t : String) : Type 0 where
    path : String
    content : FileContent
    place : ℕ
    line : String
    opened : lib.open_file path ≡ some content
    allowed : is_hidden lib.tools.paths root path ≡ false
    binary : content.has_zero ≡ false
    read : get_elem? content.lines place ≡ some line
    matching : matcher lib pattern (lib.compile pattern) line ≡ true
    shown :
        t
        ≡ lib.format_match
            (lib.tools.paths.to_slash (rel_or_empty (lib.tools.paths.rel root path)))
            (place + 1)
            (lib.tools.text.trim_space line)

  All-append : (ms ns : List String) → All IsMatch ms → All IsMatch ns → All IsMatch (ms ++ ns)
  All-append [] ns a b = b
  All-append (m ∷ ms) ns a b = (a.0, All-append ms ns a.1 b)

  module _ (most : ℕ) where
    -- What was found so far.
    record IsFound (st : Found) : Type 0 where
      counted : length st.matches ≡ st.match_count
      bounded : st.match_count ≤ most
      each : All IsMatch st.matches

    module _ (path : String) (c : FileContent) (o : lib.open_file path ≡ some c)
        (free : is_hidden lib.tools.paths root path ≡ false) (plain : c.has_zero ≡ false) where
      abbrev rel : String
      rel = rel_or_empty (lib.tools.paths.rel root path)

      abbrev re : String → Bool
      re = matcher lib pattern (lib.compile pattern)

      add-IsFound :
          (front lines : List String) (line : String) (st : Found)
          → c.lines ≡ front ++ line ∷ lines
          → re line ≡ true
          → st.match_count < most
          → IsFound st
          → IsFound (add_match lib rel (length front + 1) line st)
      add-IsFound front lines line st k m lt p = record {
        counted = length-append st.matches _ ∙ ap (λ k. k + 1) p.counted;
        bounded = omega (arith, lt);
        each = All-append st.matches _ p.each (
          record {
            path = path;
            content = c;
            place = length front;
            line = line;
            opened = o;
            allowed = free;
            binary = plain;
            read = rw k (get_elem?-front front lines line);
            matching = m;
            shown = refl;
          },
          tt,
        );
      }

      -- The lines of `front` have been read.
      scan_lines-IsFound :
          (lines front : List String) (st : Found)
          → c.lines ≡ front ++ lines
          → st.match_count < most
          → IsFound st
          → IsFound (scan_lines lib root re most rel (length front + 1) lines st)
      unfolding scan_lines
      scan_lines-IsFound [] front st k lt p = p
      scan_lines-IsFound (line ∷ lines) front st k lt p = advance st lt p (λ t l q.
          subst (λ n. IsFound (scan_lines lib root re most rel (n + 1) lines t))
            (length-append front (line ∷ []))
            (scan_lines-IsFound lines (front ++ line ∷ []) t
              (k ∙ sym (append_assoc front (line ∷ []) lines)) l q))
        where
          advance :
              (st : Found)
              → st.match_count < most
              → IsFound st
              → ((t : Found)
                  → t.match_count < most
                  → IsFound t
                  → IsFound (scan_lines lib root re most rel (length front + 1 + 1) lines t))
              → IsFound (scan_lines lib root re most rel (length front + 1) (line ∷ lines) st)
          advance st lt p next = elim (Bool-cases (re line)) [
            | inr h ↦ rw h (next st lt p)
            | inl h ↦ elim (Bool-cases (leb most (st.match_count + 1))) [
              | inl b ↦ rw (h, b) (add-IsFound front lines line st k h lt p)
              | inr b ↦
                  rw (h, b)
                    (next (add_match lib rel (length front + 1) line st) (ground (arith, b))
                      (add-IsFound front lines line st k h lt p))
            ]
          ]

    read-IsFound :
        (path : String) (o : Option FileContent) (st : Found)
        → lib.open_file path ≡ o
        → is_hidden lib.tools.paths root path ≡ false
        → st.match_count < most
        → IsFound st
        → IsFound (
            read_content lib root
              (matcher lib pattern (lib.compile pattern))
              most
              (rel_or_empty (lib.tools.paths.rel root path))
              o
              st)
    read-IsFound path none st e free lt p = p
    read-IsFound path (some c) st e free lt p = elim (Bool-cases c.has_zero) [
      | inl h ↦ rw h p
      | inr h ↦ rw h (scan_lines-IsFound path c e free h c.lines [] st refl lt p)
    ]

    visit-IsFound :
        (d : Bool) (path : String) (info : FileInfo) (st : Found)
        → IsFound st
        → IsFound (visit lib root (matcher lib pattern (lib.compile pattern)) most d path info st).0
    unfolding visit
    visit-IsFound d path info st p = elim (Bool-cases (lib.is_over path)) [
      | inl h ↦ rw h p
      | inr h ↦ elim (Bool-cases (leb most st.match_count)) [
        | inl k ↦ rw (h, k) p
        | inr k ↦ elim (Bool-cases (is_hidden lib.tools.paths root path)) [
          | inl q ↦ rw (h, k, q) p
          | inr q ↦ open_it d h k q
        ]
      ]
    ]
      where
        open_it :
            (d : Bool)
            → lib.is_over path ≡ false
            → leb most st.match_count ≡ false
            → is_hidden lib.tools.paths root path ≡ false
            → IsFound
                (visit lib root (matcher lib pattern (lib.compile pattern)) most d path info st).0
        open_it true h k q = rw (h, k, q) p
        open_it false h k q = elim (Bool-cases (ltb 2097152 info.size)) [
          | inl b ↦ rw (h, k, q, b) p
          | inr b ↦
              rw (h, k, q, b)
                (read-IsFound path (lib.open_file path) st refl q (ground (arith, k)) p)
        ]

  nothing-IsFound : (most : ℕ) → IsFound most nothing_found
  nothing-IsFound most = record { counted = refl; bounded = omega arith; each = tt }

limited-le : (usual most : ℕ) (n : ℤ) → usual ≤ most → limited usual most n ≤ most
limited-le usual most (negsuc n) h = h
limited-le usual most (pos zero) h = h
limited-le usual most (pos (suc n)) h = ground arith

-- The matches of a search number 200 at most, and each is a line that matches, shown with its
-- number from 1 on, of a file that is not binary and was opened by a path that is on no deny list,
-- as it is and relative to the root.
pub find_matches-IsMatch :
    (lib : Files) (root pattern target : String) (args : Arguments)
    → (length (find_matches lib root pattern target (max_matches_of lib.tools args)).matches ≤ 200)
      × All
          (IsMatch lib root pattern)
          (find_matches lib root pattern target (max_matches_of lib.tools args)).matches
unfolding find_matches
find_matches-IsMatch lib root pattern target args =
    (omega (arith, found.counted, found.bounded, least), found.each)
  where
    most : ℕ
    most = max_matches_of lib.tools args

    least : max_matches_of lib.tools args ≤ 200
    least = limited-le 50 200 (get_int_arg lib.tools args "max_matches" (pos 50)) (omega arith)

    found :
        IsFound lib root pattern
          (max_matches_of lib.tools args)
          (find_matches lib root pattern target (max_matches_of lib.tools args))
    found =
        walk-keeps
          (visit lib root (matcher lib pattern (lib.compile pattern))
            (max_matches_of lib.tools args))
          (IsFound lib root pattern (max_matches_of lib.tools args))
          (visit-IsFound lib root pattern (max_matches_of lib.tools args)) (lib.tree target)
          nothing_found (nothing-IsFound lib root pattern _)
