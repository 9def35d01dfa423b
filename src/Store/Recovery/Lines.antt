-- ===== src/Store/Recovery/Lines.antt =====
-- internal/store/store.go: the lines of a file.
use mathlib.Core.List.{append_assoc}
use talkintent.Common.{
  ℕ, Bool, true, false, ◌||◌, ◌≡◌, refl, ap, ◌∙◌, sym, List, [], ◌∷◌, ◌++◌, ◌==◌, arith, Bool-cases,
  inl, inr,
}
use talkintent.Store.Recovery.{Bytes, newline, prepend, read_lines}

abbrev pub concat : List Bytes → Bytes
concat [] = []
concat (l ∷ ls) = l ++ concat ls

concat-prepend : (b : ℕ) (ls : List Bytes) → concat (prepend b ls) ≡ b ∷ concat ls
concat-prepend b [] = refl
concat-prepend b (l ∷ ls) = refl

pub concat-read_lines : (file : Bytes) → concat (read_lines file) ≡ file
concat-read_lines [] = refl
concat-read_lines (b ∷ bs) = elim (Bool-cases (b == newline)) [
  | inl e ↦ rw e (ap (λ z. b ∷ z) (concat-read_lines bs))
  | inr e ↦ rw e (concat-prepend b (read_lines bs) ∙ ap (λ z. b ∷ z) (concat-read_lines bs))
]

-- No line ends within the text.
abbrev pub has_newline : Bytes → Bool
has_newline [] = false
has_newline (b ∷ bs) = b == newline || has_newline bs

pub read_lines-line :
    (l rest : Bytes)
    → has_newline l ≡ false
    → read_lines (l ++ newline ∷ rest) ≡ (l ++ newline ∷ []) ∷ read_lines rest
read_lines-line [] rest h = refl
read_lines-line (b ∷ l) rest h = ground (arith, h, read_lines-line l rest)

pub read_lines-torn :
    (b : ℕ) (l : Bytes) → has_newline (b ∷ l) ≡ false → read_lines (b ∷ l) ≡ (b ∷ l) ∷ []
read_lines-torn b [] h = ground (arith, h)
read_lines-torn b (c ∷ l) h = ground (arith, h, read_lines-torn c l)

read_lines-full :
    (b : ℕ) (bs : Bytes) → b == newline ≡ true → read_lines (b ∷ bs) ≡ (b ∷ []) ∷ read_lines bs
read_lines-full b bs e = rw e refl

read_lines-open :
    (b : ℕ) (bs : Bytes) → b == newline ≡ false → read_lines (b ∷ bs) ≡ prepend b (read_lines bs)
read_lines-open b bs e = rw e refl

prefix-full :
    (b : ℕ) (p : Bytes) (ps qs rs : List Bytes)
    → b == newline ≡ true
    → (b ∷ []) ∷ rs ≡ p ∷ (ps ++ qs)
    → (rs ≡ ps ++ qs → read_lines (concat ps) ≡ ps)
    → read_lines (p ++ concat ps) ≡ p ∷ ps
prefix-full b p ps qs rs y e ih =
    rw e0 (read_lines-full b (concat ps) y ∙ ap (λ z. (b ∷ []) ∷ z) (ih e1))
  where
    e0 : p ≡ b ∷ []
    e0 = ground (arith, e)

    e1 : rs ≡ ps ++ qs
    e1 = ground (arith, e)

-- The first line grows by a byte.
prefix-open :
    (b : ℕ) (p : Bytes) (ps qs rs : List Bytes)
    → b == newline ≡ false
    → prepend b rs ≡ p ∷ (ps ++ qs)
    → ((l : Bytes) → rs ≡ l ∷ (ps ++ qs) → read_lines (l ++ concat ps) ≡ l ∷ ps)
    → read_lines (p ++ concat ps) ≡ p ∷ ps
prefix-open b p [] qs [] n e ih = rw only (read_lines-open b [] n)
  where
    only : p ≡ b ∷ []
    only = ground (arith, e)
prefix-open b p (r ∷ ps) qs [] n e ih = ground (arith, e)
prefix-open b p ps qs (l ∷ ls) n e ih =
    rw e0 (read_lines-open b (l ++ concat ps) n ∙ ap (prepend b) (ih l e1))
  where
    e0 : p ≡ b ∷ l
    e0 = ground (arith, e)

    e1 : l ∷ ls ≡ l ∷ (ps ++ qs)
    e1 = ground (arith, e)

-- The lines of some first lines are those lines.
pub read_lines-prefix :
    (file : Bytes) (ps qs : List Bytes) → read_lines file ≡ ps ++ qs → read_lines (concat ps) ≡ ps
read_lines-prefix file [] qs e = refl
read_lines-prefix [] (p ∷ ps) qs e = ground (arith, e)
read_lines-prefix (b ∷ bs) (p ∷ ps) qs e = elim (Bool-cases (b == newline)) [
  | inl y ↦
      prefix-full b p ps qs (read_lines bs) y (sym (read_lines-full b bs y) ∙ e)
        (read_lines-prefix bs ps qs)
  | inr n ↦
      prefix-open b p ps qs (read_lines bs) n (sym (read_lines-open b bs n) ∙ e)
        (λ l r. read_lines-prefix bs (l ∷ ps) qs r)
]

pub concat-append : (ps qs : List Bytes) → concat (ps ++ qs) ≡ concat ps ++ concat qs
concat-append [] qs = refl
concat-append (p ∷ ps) qs =
    ap (λ z. p ++ z) (concat-append ps qs) ∙ sym (append_assoc p (concat ps) (concat qs))
