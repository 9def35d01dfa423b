-- ===== src/Feishu/Fragment/Reassembly.antt =====
-- internal/feishu/fragment.go: `AddFragment` on the parts of one message.
use talkintent.Common.{
  ℕ, ◌+◌, String, ◌≡◌, refl, ap, sym, ◌⊎◌, inl, inr, Option, none, some, List, [], ◌∷◌, length,
  get_elem?, ◌==◌, ltb, arith, Bool-cases, eq_iff, str_eq,
}
use mathlib.Core.Path.{subst}
use talkintent.Common.GoMap
use talkintent.Common.GoMap.{GoMap}
use talkintent.Feishu.Frame.{Bytes}
use talkintent.Feishu.Fragment.{
  FragmentEntry, Reassembler, add_part, combine, sweep_entries, settle, fresh_entry, refuses,
  add_to,
}
use talkintent.Feishu.Fragment.Message.{
  concat, IsPartOf, add_part-IsPartOf, combine_all, Agrees-replicate, count-replicate,
}

module _ (ps : List Bytes) (id : String) where
  -- The entry under `id`, if there is one, holds parts of the message.
  abbrev pub IsFor : GoMap FragmentEntry → Type 0
  IsFor [] = Unit
  IsFor ((k, e) ∷ m) = (k ≡ id → IsPartOf ps e) × IsFor m

  pub IsFor-sweep : (now : ℕ) (m : GoMap FragmentEntry) → IsFor m → IsFor (sweep_entries now m)
  IsFor-sweep now [] h = tt
  IsFor-sweep now ((k, e) ∷ m) (p, h) = elim (Bool-cases (ltb e.expires_at now)) [
    | inl l ↦ rw l (IsFor-sweep now m h)
    | inr l ↦ rw l (p, IsFor-sweep now m h)
  ]

  IsFor-erase : (m : GoMap FragmentEntry) → IsFor m → IsFor (GoMap.erase id m)
  IsFor-erase [] h = tt
  IsFor-erase ((k, e) ∷ m) (p, h) = elim (Bool-cases (str_eq k id)) [
    | inl l ↦ rw l (IsFor-erase m h)
    | inr l ↦ rw l (p, IsFor-erase m h)
  ]

  IsFor-insert :
      (e : FragmentEntry) (m : GoMap FragmentEntry)
      → IsPartOf ps e
      → IsFor m
      → IsFor (GoMap.insert id e m)
  IsFor-insert e [] p h = (λ l. p, tt)
  IsFor-insert e ((k, f) ∷ m) p (q, h) = elim (Bool-cases (str_eq k id)) [
    | inl l ↦ rw l (λ _. p, h)
    | inr l ↦ rw l (q, IsFor-insert e m p h)
  ]

  IsFor-lookup :
      (e : FragmentEntry) (m : GoMap FragmentEntry)
      → IsFor m
      → GoMap.lookup id m ≡ some e
      → IsPartOf ps e
  IsFor-lookup e [] h g = cc g
  IsFor-lookup e ((k, f) ∷ m) (p, h) g = elim (Bool-cases (str_eq k id)) [
    | inl l ↦ subst (IsPartOf ps) (ground (arith, l, g)) (p (ground (arith, l, eq_iff k id)))
    | inr l ↦ IsFor-lookup e m h (ground (arith, l, g))
  ]

  fresh-IsPartOf : (at : ℕ) → IsPartOf ps (fresh_entry (length ps) at)
  fresh-IsPartOf at = record {
    agrees = Agrees-replicate ps;
    received = sym (count-replicate (length ps));
    sum = refl;
  }

  -- What a call may come to: nothing yet, or the message.
  abbrev pub Outcome : Option Bytes × Reassembler → Type 0
  Outcome (o, t) = ((o ≡ none) ⊎ (o ≡ some (concat ps))) × IsFor t.entries

  pub whole : (e : FragmentEntry) → IsPartOf ps e → e.received ≡ e.sum → combine e.parts ≡ concat ps
  whole e h k = combine_all ps e.parts h.agrees (omega (arith, h.received, h.sum, k))

  settle-Outcome :
      (seq : ℕ) (payload : Bytes) (r : Reassembler) (e : FragmentEntry)
      → get_elem? ps seq ≡ some payload
      → IsPartOf ps e
      → IsFor r.entries
      → Outcome (settle id seq payload r e)
  settle-Outcome seq payload r e g p h =
      let q = add_part-IsPartOf ps seq payload e g p in
      let f = add_part seq payload e in
      elim (Bool-cases (f.received == f.sum)) [
        | inl l ↦ rw l (inr (ap some (whole f q (ground (arith, l)))), IsFor-erase r.entries h)
        | inr l ↦ rw l (inl refl, IsFor-insert f r.entries q h)
      ]

  pub add_to-Outcome :
      (seq : ℕ) (payload : Bytes) (now : ℕ) (r : Reassembler) (o : Option FragmentEntry)
      → get_elem? ps seq ≡ some payload
      → IsFor r.entries
      → GoMap.lookup id r.entries ≡ o
      → Outcome (add_to id (length ps) seq payload now r o)
  add_to-Outcome seq payload now r none g h l =
      settle-Outcome seq payload r _ g (fresh-IsPartOf (now + r.ttl)) h
  add_to-Outcome seq payload now r (some e) g h l = elim (Bool-cases (refuses e (length ps) seq)) [
    | inl k ↦ rw k (inl refl, h)
    | inr k ↦ rw k (
        settle-Outcome seq payload r (record e { expires_at = now + r.ttl }) g
          (later (IsFor-lookup e r.entries h l)) h)
  ]
    where
      later :
          {e : FragmentEntry} {at : ℕ} → IsPartOf ps e → IsPartOf ps (record e { expires_at = at })
      later p = record { agrees = p.agrees; received = p.received; sum = p.sum }
