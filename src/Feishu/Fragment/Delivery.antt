-- ===== src/Feishu/Fragment/Delivery.antt =====
-- internal/feishu/fragment.go: what `AddFragment` returns for a message that is cut in 2 to 1024
-- parts.
use talkintent.Common.{
  ℕ, zero, suc, ◌≤◌, ◌<◌, String, true, false, ◌≡◌, refl, ap, ◌⊎◌, Option, none, some, List, [],
  ◌∷◌, length, get_elem?, leb, ltb, arith,
}
use talkintent.Common.Int.{pos}
use talkintent.Common.GoMap
use talkintent.Feishu.Frame.{Bytes}
use talkintent.Feishu.Fragment.{
  FragmentEntry, Reassembler, add_fragment, add_part, add_in_range, sweep_entries, is_missing,
  settle, refuses,
}
use talkintent.Feishu.Fragment.Message.{concat, Agrees, IsPartOf, count, add_part-IsPartOf}
use talkintent.Feishu.Fragment.Reassembly.{IsFor, IsFor-sweep, add_to-Outcome, whole}

get_elem?-bound : (ps : List Bytes) (i : ℕ) (p : Bytes) → get_elem? ps i ≡ some p → i < length ps
get_elem?-bound [] i p e = cc e
get_elem?-bound (q ∷ ps) zero p e = omega arith
get_elem?-bound (q ∷ ps) (suc i) p e = omega (arith, get_elem?-bound ps i p e)

Agrees-length : (ps : List Bytes) (os : List (Option Bytes)) → Agrees ps os → length os ≡ length ps
Agrees-length [] [] h = refl
Agrees-length [] (o ∷ os) h = absurd h
Agrees-length (p ∷ ps) [] h = absurd h
Agrees-length (p ∷ ps) (none ∷ os) h = ap suc (Agrees-length ps os h)
Agrees-length (p ∷ ps) (some q ∷ os) (k, h) = ap suc (Agrees-length ps os h)

-- The guards let a part of such a message through.
in_range :
    (ps : List Bytes) (id : String) (seq : ℕ) (payload : Bytes) (now : ℕ) (r : Reassembler)
    → 2 ≤ length ps
    → length ps ≤ 1024
    → seq < length ps
    → add_fragment id (pos (length ps)) (pos seq) payload now r
      ≡ add_in_range id (length ps) seq payload now r
unfolding add_fragment
in_range ps id seq payload now r a b l =
    rw (at_least (length ps) 1 a, at_most (length ps) b, at_least (length ps) seq l) refl
  where
    at_least : (n k : ℕ) → k < n → leb n k ≡ false
    at_least n k h = ground arith

    at_most : (n : ℕ) → n ≤ 1024 → ltb 1024 n ≡ false
    at_most n h = ground arith

module _ (ps : List Bytes) (id : String) (seq : ℕ) (payload : Bytes) (now : ℕ)
    (r : Reassembler) where
  -- A part of the message brings nothing or the message itself, its parts joined in their order,
  -- and what is kept under its id is again for that message. So it is for any sequence of such
  -- parts, repeated ones and late ones included. The message has from 2 to 1024 parts, and
  -- what is kept under its id before, if anything, holds parts of it.
  pub add_fragment-message :
      IsFor ps id r.entries
      → 2 ≤ length ps
      → length ps ≤ 1024
      → get_elem? ps seq ≡ some payload
      → let (o, t) = add_fragment id (pos (length ps)) (pos seq) payload now r in
        ((o ≡ none) ⊎ (o ≡ some (concat ps))) × IsFor ps id t.entries
  add_fragment-message h a b g =
      rw (in_range ps id seq payload now r a b (get_elem?-bound ps seq payload g))
        (add_to-Outcome ps id seq payload now _ _ g (IsFor-sweep ps id now r.entries h) refl)

  module _ (e : FragmentEntry) (p : IsPartOf ps e) (m : is_missing (get_elem? e.parts seq) ≡ true)
      (n : suc (count e.parts) ≡ length ps) (g : get_elem? ps seq ≡ some payload) where
    accepted : refuses e (length ps) seq ≡ false
    accepted =
        ground (arith, p.sum, Agrees-length ps e.parts p.agrees, get_elem?-bound ps seq payload g)

    full : (add_part seq payload e).received ≡ (add_part seq payload e).sum
    full = rw m (omega (arith, p.received, p.sum, n))

    settles :
        (s : Reassembler) (at : ℕ)
        → (settle id seq payload s (record e { expires_at = at })).0 ≡ some (concat ps)
    settles s at =
        let q =
          whole ps id (add_part seq payload e) (add_part-IsPartOf ps seq payload e g p) full in
        ground (arith, m, full, q)

  -- The last part that was missing brings the message, if the entry has not expired. The message
  -- has from 2 to 1024 parts.
  pub add_fragment_last :
      (e : FragmentEntry)
      → GoMap.lookup id (sweep_entries now r.entries) ≡ some e
      → IsPartOf ps e
      → is_missing (get_elem? e.parts seq) ≡ true
      → suc (count e.parts) ≡ length ps
      → 2 ≤ length ps
      → length ps ≤ 1024
      → get_elem? ps seq ≡ some payload
      → (add_fragment id (pos (length ps)) (pos seq) payload now r).0 ≡ some (concat ps)
  add_fragment_last e l p m n a b g =
      rw
        (
          in_range ps id seq payload now r a b (get_elem?-bound ps seq payload g),
          l,
          accepted e p m n g,
        )
        (settles e p m n g _ _)
