-- ===== src/Store/Pages.antt =====
-- internal/store/store.go: what the pages of `GetInboundAudit` and its three siblings hold, and
-- the sum `offset + limit` that wraps. A page is specified as a stretch of the newest-first list.
use mathlib.Core.List.{reverse, reverse_aux}
use talkintent.Common.{
  ℕ, zero, suc, ◌+◌, ◌^◌, ◌<◌, ◌≤◌, min, String, ◌≡◌, ◌∙◌, sym, refl, ap, none, some, List, [], ◌∷◌,
  ◌++◌, length, take, drop, length-drop, drop_nil, arith,
}
use talkintent.Common.Int.{pos}
use talkintent.Store.State.{Index}
use talkintent.Store.Library.{Library}
use talkintent.Store.Queries.{audit_of}
use talkintent.Store.Audit.{page_of, page_end, slice, get_inbound_audit}

module _ {ℓ} {A : Type ℓ} where
  length-reverse_aux : (xs ys : List A) → length (reverse_aux xs ys) ≡ length xs + length ys
  length-reverse_aux [] ys = omega arith
  length-reverse_aux (x ∷ xs) ys = omega (arith, length-reverse_aux xs (x ∷ ys))

  take_nil : (n : ℕ) → take {A = A} n [] ≡ []
  take_nil zero = refl
  take_nil (suc n) = refl

  take_cons : (n k : ℕ) (x : A) (xs : List A) → k ≡ suc n → take k (x ∷ xs) ≡ x ∷ take n xs
  take_cons n k x xs e = ap (λ i. take i (x ∷ xs)) e

  drop_cons : (n k : ℕ) (x : A) (xs : List A) → k ≡ suc n → drop k (x ∷ xs) ≡ drop n xs
  drop_cons n k x xs e = ap (λ i. drop i (x ∷ xs)) e

  drop-take : (n m : ℕ) (xs : List A) → drop n (take (n + m) xs) ≡ take m (drop n xs)
  drop-take zero m xs = ground arith
  drop-take n m [] = ground (arith, take_nil (n + m), drop_nil {A = A} n, take_nil m)
  drop-take (suc n) m (x ∷ xs) =
      ap (drop (suc n)) (take_cons (n + m) (suc n + m) x xs (omega arith)) ∙ drop-take n m xs

  take_all : (n : ℕ) (xs : List A) → length xs ≤ n → take n xs ≡ xs
  take_all zero [] h = refl
  take_all zero (x ∷ xs) h = absurd (omega arith)
  take_all (suc n) [] h = refl
  take_all (suc n) (x ∷ xs) h = ap (◌∷◌ x) (take_all n xs (omega arith))

  drop_all : (n : ℕ) (xs : List A) → length xs ≤ n → drop n xs ≡ []
  drop_all zero [] h = refl
  drop_all zero (x ∷ xs) h = absurd (omega arith)
  drop_all (suc n) [] h = refl
  drop_all (suc n) (x ∷ xs) h = drop_all n xs (omega arith)

  take-drop_add :
      (a b o : ℕ) (xs : List A)
      → take (a + b) (drop o xs) ≡ take a (drop o xs) ++ take b (drop (o + a) xs)
  take-drop_add a b o [] = ground (
    arith,
    take_nil (a + b),
    drop_nil {A = A} o,
    take_nil a,
    drop_nil {A = A} (o + a),
    take_nil b,
  )
  take-drop_add zero b zero (x ∷ xs) = ground arith
  take-drop_add (suc a) b zero (x ∷ xs) =
      take_cons (a + b) (suc a + b) x xs (omega arith)
      ∙ ap (◌∷◌ x) (take-drop_add a b zero xs)
      ∙ ground (arith, drop_cons a (zero + suc a) x xs (omega arith))
  take-drop_add a b (suc o) (x ∷ xs) =
      take-drop_add a b o xs
      ∙ sym (
          ap (λ ys. take a (drop o xs) ++ take b ys)
            (drop_cons (o + a) (suc o + a) x xs (omega arith)))

-- The stretch of `n` ids from the `o`-th on, newest first.
abbrev stretch : List String → ℕ → ℕ → List String
stretch ids n o = take n (drop o (reverse ids))

length-reverse : (ids : List String) → length (reverse ids) ≡ length ids
length-reverse ids = omega (arith, length-reverse_aux ids [])

slice_lem :
    (o e : ℕ) (xs : List String)
    → o ≤ e
    → e ≤ length xs
    → slice xs o (pos e) ≡ some (drop o (take e xs))
unfolding slice
slice_lem o e xs h k = ground arith

end_lem :
    (total limit o : ℕ)
    → 0 < limit
    → o + limit < 2 ^ 63
    → page_end total (pos limit) o ≡ pos (min (o + limit) total)
unfolding page_end
end_lem total zero o h b = absurd (omega arith)
end_lem total (suc l) o h b = ground arith

-- Dropping and taking no further than the end.
cut_lem :
    (o l : ℕ) (xs : List String)
    → drop (min o (length xs)) (take (min (min o (length xs) + l) (length xs)) xs)
      ≡ take l (drop o xs)
cut_lem o l xs = ground (
  arith,
  drop-take o l xs,
  take_all (o + l) xs,
  take_all (length xs) xs,
  drop_all o xs,
  drop_all (length xs) xs,
  length-drop o xs,
  take_all l (drop o xs),
  drop-take (length xs) l xs,
  take_all (length xs + l) xs,
)

cut_ids :
    (ids : List String) (l o : ℕ)
    → drop (min o (length ids)) (take (min (min o (length ids) + l) (length ids)) (reverse ids))
      ≡ stretch ids l o
cut_ids ids l o = ground (arith, cut_lem o l (reverse ids), length-reverse ids)

-- While the sum of the two stays below 2^63, a page with a positive limit is the stretch of the
-- newest-first list that starts at the offset; behind the end it is empty. There is no panic.
page_of-stretch :
    (ids : List String) (limit offset : ℕ)
    → 0 < limit
    → offset + limit < 2 ^ 63
    → page_of ids (pos limit) (pos offset) ≡ some (stretch ids limit offset)
unfolding page_of
page_of-stretch ids limit offset p b =
    let total = length ids in
    let o = min offset total in
    rw (end_lem total limit o p (omega arith)) (
      slice_lem o (min (o + limit) total) (reverse ids) (omega arith)
        (omega (arith, length-reverse ids))
      ∙ ap some (cut_ids ids limit offset))

-- A page can be read in two parts: the first part followed by the page that starts at its end is
-- the page with the sum of the two limits. The same conditions.
pub page_of_add :
    (ids : List String) (first second offset : ℕ)
    → 0 < first
    → 0 < second
    → offset + first + second < 2 ^ 63
    → (xs ys : List String) → page_of ids (pos first) (pos offset) ≡ some xs
    → page_of ids (pos second) (pos (offset + first)) ≡ some ys
    → page_of ids (pos (first + second)) (pos offset) ≡ some (xs ++ ys)
page_of_add ids a b o p q h xs ys e f = ground (
  arith,
  page_of-stretch ids a o,
  page_of-stretch ids b (o + a),
  page_of-stretch ids (a + b) o,
  take-drop_add a b o (reverse ids),
)

-- An offset inside the trail and a positive limit whose sum reaches 2^63, which a query string can ask
-- for, make `end` negative: the slice expression panics, and there is no reply.
pub get_inbound-panic :
    (lib : Library) (x : Index) (member_id : String) (limit offset : ℕ)
    → offset ≤ length (audit_of member_id x.inbound)
    → 0 < limit
    → 2 ^ 63 ≤ offset + limit
    → get_inbound_audit lib x member_id (pos limit) (pos offset) ≡ none
unfolding get_inbound_audit page_of page_end slice
get_inbound-panic lib x member_id zero o h l b = absurd (omega arith)
get_inbound-panic lib x member_id (suc l) o h b c = ground arith
