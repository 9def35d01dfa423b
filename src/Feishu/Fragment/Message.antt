-- ===== src/Feishu/Fragment/Message.antt =====
-- internal/feishu/fragment.go: the parts of one message, in whatever order and however often they
-- come.
use talkintent.Common.{
  ℕ, zero, suc, ◌+◌, ◌≤◌, true, ◌≡◌, refl, ap, ◌∙◌, inl, inr, Option, none, some, List, [], ◌∷◌,
  ◌++◌, length, get_elem?, set, replicate, arith, Bool-cases,
}
use talkintent.Feishu.Frame.{Bytes}
use talkintent.Feishu.Fragment.{FragmentEntry, add_part, combine, is_missing}

abbrev pub concat : List Bytes → Bytes
concat [] = []
concat (p ∷ ps) = p ++ concat ps

-- The parts that have come are those of the message, in their places.
abbrev pub Agrees : List Bytes → List (Option Bytes) → Type 0
Agrees [] [] = Unit
Agrees [] (o ∷ os) = ⊥
Agrees (p ∷ ps) [] = ⊥
Agrees (p ∷ ps) (none ∷ os) = Agrees ps os
Agrees (p ∷ ps) (some q ∷ os) = (q ≡ p) × Agrees ps os

abbrev pub count : List (Option Bytes) → ℕ
count [] = 0
count (none ∷ os) = count os
count (some q ∷ os) = suc (count os)

-- An entry for the message `ps`: its parts agree, and it knows how many there are.
pub record IsPartOf (ps : List Bytes) (e : FragmentEntry) : Type 0 where
  pub agrees : Agrees ps e.parts
  pub received : e.received ≡ count e.parts
  pub sum : e.sum ≡ length ps

pub Agrees-replicate : (ps : List Bytes) → Agrees ps (replicate (length ps) none)
Agrees-replicate [] = tt
Agrees-replicate (p ∷ ps) = Agrees-replicate ps

pub count-replicate : (n : ℕ) → count (replicate n none) ≡ 0
count-replicate zero = refl
count-replicate (suc n) = count-replicate n

Agrees-set :
    (ps : List Bytes) (os : List (Option Bytes)) (i : ℕ) (p : Bytes)
    → Agrees ps os
    → get_elem? ps i ≡ some p
    → Agrees ps (set os i (some p))
Agrees-set [] [] i p h e = tt
Agrees-set [] (o ∷ os) i p h e = absurd h
Agrees-set (q ∷ ps) [] i p h e = absurd h
Agrees-set (q ∷ ps) (none ∷ os) zero p h e = (ground (arith, e), h)
Agrees-set (q ∷ ps) (some r ∷ os) zero p (k, h) e = (ground (arith, e), h)
Agrees-set (q ∷ ps) (none ∷ os) (suc i) p h e = Agrees-set ps os i p h e
Agrees-set (q ∷ ps) (some r ∷ os) (suc i) p (k, h) e = (k, Agrees-set ps os i p h e)

pub count-set :
    (os : List (Option Bytes)) (i : ℕ) (p : Bytes)
    → is_missing (get_elem? os i) ≡ true
    → count (set os i (some p)) ≡ count os + 1
count-set [] i p e = cc e
count-set (none ∷ os) zero p e = omega arith
count-set (some q ∷ os) zero p e = cc e
count-set (none ∷ os) (suc i) p e = count-set os i p e
count-set (some q ∷ os) (suc i) p e = omega (arith, count-set os i p e)

count_at_most : (ps : List Bytes) (os : List (Option Bytes)) → Agrees ps os → count os ≤ length ps
count_at_most [] [] h = omega arith
count_at_most [] (o ∷ os) h = absurd h
count_at_most (p ∷ ps) [] h = absurd h
count_at_most (p ∷ ps) (none ∷ os) h = omega (arith, count_at_most ps os h)
count_at_most (p ∷ ps) (some q ∷ os) (k, h) = omega (arith, count_at_most ps os h)

-- When all parts are there, they make the message.
pub combine_all :
    (ps : List Bytes) (os : List (Option Bytes))
    → Agrees ps os
    → count os ≡ length ps
    → combine os ≡ concat ps
combine_all [] [] h e = refl
combine_all [] (o ∷ os) h e = absurd h
combine_all (p ∷ ps) [] h e = absurd h
combine_all (p ∷ ps) (none ∷ os) h e = absurd (omega (arith, e, count_at_most ps os h))
combine_all (p ∷ ps) (some q ∷ os) (k, h) e =
    ap (λ x. x ++ combine os) k ∙ ap (λ y. p ++ y) (combine_all ps os h (omega (arith, e)))

pub add_part-IsPartOf :
    (ps : List Bytes) (i : ℕ) (p : Bytes) (e : FragmentEntry)
    → get_elem? ps i ≡ some p
    → IsPartOf ps e
    → IsPartOf ps (add_part i p e)
add_part-IsPartOf ps i p e g h = elim (Bool-cases (is_missing (get_elem? e.parts i))) [
  | inr k ↦ rw k h
  | inl k ↦ rw k (record {
    agrees = Agrees-set ps e.parts i p h.agrees g;
    received = omega (arith, h.received, count-set e.parts i p k);
    sum = h.sum;
  })
]
