-- ===== src/Probe/Tools/Diff/Sections.antt =====
-- internal/probe/tools/builtin.go: a filtered diff, section by section. A section is a line with the
-- lines behind it up to the next one that starts a chunk.
use mathlib.Core.List.{append_assoc, append-nil}
use talkintent.Common.{
  String, Bool, true, false, ◌||◌, ◌≡◌, refl, sym, ap, ◌∙◌, Option, none, some, List, [], ◌∷◌, ◌++◌,
  inl, inr, Bool-cases, if◌then◌else◌,
}
use talkintent.Probe.Tools.{ToolLibrary}
use talkintent.Probe.Tools.Sensitive.{check_diff_line_sensitive}
use talkintent.Probe.Tools.Diff.{
  Chunk, Chunks, is_chunk_start, opened, grown, all_chunks, extended, read_diff_lines,
  redaction_mark, shown_lines, result_of, filter_lines, filter_diff_output,
}

pub record Section : Type 0 where
  pub head : String
  pub rest : List String

module _ (lib : ToolLibrary) where
  -- A line before the sections of the lines behind it: it takes the first of them in, unless that
  -- one starts a chunk.
  abbrev pub join_line : String → List Section → List Section
  join_line l [] = record { head = l; rest = [] } ∷ []
  join_line l (s ∷ ss) =
      if is_chunk_start lib s.head
      then record { head = l; rest = [] } ∷ s ∷ ss
      else record { head = l; rest = s.head ∷ s.rest } ∷ ss

  unfoldable pub sections : List String → List Section
  sections [] = []
  sections (l ∷ ls) = join_line l (sections ls)

  abbrev pub any_line : List String → Bool
  any_line [] = false
  any_line (l ∷ ls) = check_diff_line_sensitive lib l || any_line ls

  -- The lines of a section, or its first line and a mark where one of its lines is sensitive.
  abbrev pub shield : Section → List String
  shield s = s.head ∷ (if any_line (s.head ∷ s.rest) then redaction_mark ∷ [] else s.rest)

  abbrev pub shield_all : List Section → List String
  shield_all [] = []
  shield_all (s ∷ ss) = shield s ++ shield_all ss

  -- What is shown of a chunk and the sections behind it, the first of which may go on with it.
  abbrev absorb : Chunk → Section → Chunk
  absorb c s = record {
    first_line = c.first_line;
    other_lines = c.other_lines ++ s.head ∷ s.rest;
    is_sensitive = c.is_sensitive || any_line (s.head ∷ s.rest);
  }

  abbrev go_on : Chunk → List Section → List String
  go_on c [] = shown_lines c
  go_on c (s ∷ ss) =
      if is_chunk_start lib s.head
      then shown_lines c ++ shield_all (s ∷ ss)
      else shown_lines (absorb c s) ++ shield_all ss

  result-append : (cs ds : List Chunk) → result_of (cs ++ ds) ≡ result_of cs ++ result_of ds
  result-append [] ds = refl
  result-append (c ∷ cs) ds =
      ap (λ z. shown_lines c ++ z) (result-append cs ds)
      ∙ sym (append_assoc (shown_lines c) (result_of cs) (result_of ds))

  or-false : (a : Bool) → a || false ≡ a
  or-false true = refl
  or-false false = refl

  or_assoc : (a b c : Bool) → (a || b) || c ≡ a || (b || c)
  or_assoc true b c = refl
  or_assoc false b c = refl

  absorb-line : (c : Chunk) (l : String) → absorb c (record { head = l; rest = [] }) ≡ grown lib l c
  absorb-line c l =
      ap (λ b. record (grown lib l c) { is_sensitive = c.is_sensitive || b }) (or-false _)

  absorb-grown :
      (c : Chunk) (l : String) (s : Section)
      → absorb (grown lib l c) s ≡ absorb c (record { head = l; rest = s.head ∷ s.rest })
  absorb-grown c l s =
      ap (λ o. record (absorb (grown lib l c) s) { other_lines = o })
        (append_assoc c.other_lines (l ∷ []) (s.head ∷ s.rest))
      ∙ ap
          (λ b. record {
            first_line = c.first_line;
            other_lines = c.other_lines ++ l ∷ s.head ∷ s.rest;
            is_sensitive = b;
          })
          (or_assoc c.is_sensitive _ _)

  shield-opened :
      (l : String) → shown_lines (opened lib l) ≡ shield (record { head = l; rest = [] })
  shield-opened l = ap (λ b. l ∷ (if b then redaction_mark ∷ [] else [])) (sym (or-false _))

  -- A line that starts a chunk, and one that does not.
  go_on-start :
      (c : Chunk) (l : String) (ss : List Section)
      → is_chunk_start lib l ≡ true
      → shown_lines c ++ go_on (opened lib l) ss ≡ go_on c (join_line l ss)
  go_on-start c l [] h =
      rw (h, shield-opened l, append-nil (shield (record { head = l; rest = [] })))
  go_on-start c l (s ∷ ss) h = elim (Bool-cases (is_chunk_start lib s.head)) [
    | inl k ↦ rw (k, h) (ap (λ z. shown_lines c ++ (z ++ shield_all (s ∷ ss))) (shield-opened l))
    | inr k ↦ rw (k, h)
  ]

  go_on-grown :
      (c : Chunk) (l : String) (ss : List Section)
      → is_chunk_start lib l ≡ false
      → go_on (grown lib l c) ss ≡ go_on c (join_line l ss)
  go_on-grown c l [] h = rw h (
      ap shown_lines (sym (absorb-line c l))
      ∙ sym (append-nil (shown_lines (absorb c (record { head = l; rest = [] })))))
  go_on-grown c l (s ∷ ss) h = elim (Bool-cases (is_chunk_start lib s.head)) [
    | inl k ↦ rw (k, h) (ap (λ z. shown_lines z ++ shield_all (s ∷ ss)) (sym (absorb-line c l)))
    | inr k ↦ rw (k, h) (ap (λ z. shown_lines z ++ shield_all ss) (absorb-grown c l s))
  ]

  abbrev shown_from : List String → Chunks → List String
  shown_from ls st =
      let last = read_diff_lines lib ls st in result_of (all_chunks last.earlier last.current)

  from-start :
      (l : String) (ls : List String) (cs : List Chunk) (o : Option Chunk)
      → is_chunk_start lib l ≡ true
      → shown_from (l ∷ ls) (record { earlier = cs; current = o })
        ≡ shown_from ls (record { earlier = all_chunks cs o; current = some (opened lib l) })
  from-start l ls cs o h =
      ap
        (λ b. shown_from ls (
          if b
          then record { earlier = all_chunks cs o; current = some (opened lib l) }
          else extended lib l cs o))
        h

  from-other :
      (l : String) (ls : List String) (cs : List Chunk) (o : Option Chunk)
      → is_chunk_start lib l ≡ false
      → shown_from (l ∷ ls) (record { earlier = cs; current = o })
        ≡ shown_from ls (extended lib l cs o)
  from-other l ls cs o h =
      ap
        (λ b. shown_from ls (
          if b
          then record { earlier = all_chunks cs o; current = some (opened lib l) }
          else extended lib l cs o))
        h

  fold-sections :
      (ls : List String) (cs : List Chunk) (c : Chunk)
      → shown_from ls (record { earlier = cs; current = some c })
        ≡ result_of cs ++ go_on c (sections ls)
  unfolding sections
  fold-sections [] cs c = rw (result-append cs (c ∷ []), append-nil (shown_lines c))
  fold-sections (l ∷ ls) cs c = elim (Bool-cases (is_chunk_start lib l)) [
    | inl h ↦
        from-start l ls cs (some c) h
        ∙ fold-sections ls (cs ++ c ∷ []) (opened lib l)
        ∙ ap (λ z. z ++ go_on (opened lib l) (sections ls)) (result-append cs (c ∷ []))
        ∙ append_assoc (result_of cs) (shown_lines c ++ []) _
        ∙ ap (λ z. result_of cs ++ (z ++ go_on (opened lib l) (sections ls)))
            (append-nil (shown_lines c))
        ∙ ap (λ z. result_of cs ++ z) (go_on-start c l (sections ls) h)
    | inr h ↦
        from-other l ls cs (some c) h
        ∙ fold-sections ls cs (grown lib l c)
        ∙ ap (λ z. result_of cs ++ z) (go_on-grown c l (sections ls) h)
  ]

  -- The first line opens a chunk whatever it is.
  go_on-opened :
      (l : String) (ss : List Section) → go_on (opened lib l) ss ≡ shield_all (join_line l ss)
  go_on-opened l [] = shield-opened l ∙ sym (append-nil (shield (record { head = l; rest = [] })))
  go_on-opened l (s ∷ ss) = elim (Bool-cases (is_chunk_start lib s.head)) [
    | inl k ↦ rw k (ap (λ z. z ++ shield_all (s ∷ ss)) (shield-opened l))
    | inr k ↦ rw k
  ]

  filter_lines-sections : (ls : List String) → filter_lines lib ls ≡ shield_all (sections ls)
  unfolding filter_lines sections
  filter_lines-sections [] = refl
  filter_lines-sections (l ∷ ls) = elim (Bool-cases (is_chunk_start lib l)) [
    | inl h ↦
        from-start l ls [] none h
        ∙ fold-sections ls [] (opened lib l)
        ∙ go_on-opened l (sections ls)
    | inr h ↦
        from-other l ls [] none h
        ∙ fold-sections ls [] (opened lib l)
        ∙ go_on-opened l (sections ls)
  ]

  -- A diff with a line, as every split has one, is filtered section by section: a section that has
  -- a sensitive line shows its first line and a mark, any other section shows all its lines.
  pub filter_diff-sections :
      (diff l : String) (ls : List String)
      → lib.split diff "\n" ≡ l ∷ ls
      → filter_diff_output lib diff ≡ lib.join_with (shield_all (sections (l ∷ ls))) "\n"
  unfolding filter_diff_output
  filter_diff-sections diff l ls h =
      rw h (ap (λ z. lib.join_with z "\n") (filter_lines-sections (l ∷ ls)))
