-- ===== src/Store/Resolve/Target.antt =====
-- internal/store/store.go: what `ResolveTargetMember` can answer.
use talkintent.Common.{
  String, false, ◌≡◌, refl, Option, none, some, List, [], ◌∷◌, str_eq, Bool-cases, inl, inr,
}
use talkintent.Common.GoMap
use talkintent.Common.GoMap.{GoMap}
use talkintent.Store.Records.{MemberInfo, CandidateMember}
use talkintent.Store.Library.{Library}
use talkintent.Store.Resolve.{
  Resolved, found, ambiguous, not_found, nil_member, is_seen, unique_from, deduplicate_candidates,
  candidates_of, exact, within, around, decide, member_at, direct, resolve_target_member,
}

-- A good answer: a member of the map, or two candidates at least, no two of them the same member.
abbrev pub IsDistinct : List String → List CandidateMember → Type 0
IsDistinct seen [] = Unit
IsDistinct seen (c ∷ cs) = (is_seen c.id seen ≡ false) × IsDistinct (c.id ∷ seen) cs

abbrev IsAnswer : GoMap MemberInfo → Resolved → Type 0
IsAnswer members (found m) = (k : String) × (GoMap.lookup k members ≡ some m)
IsAnswer members (ambiguous []) = ⊥
IsAnswer members (ambiguous (c ∷ [])) = ⊥
IsAnswer members (ambiguous (c ∷ d ∷ cs)) = IsDistinct [] (c ∷ d ∷ cs)
IsAnswer members not_found = Unit
IsAnswer members nil_member = Unit

unique_from-IsDistinct :
    (seen : List String) (cs : List CandidateMember) → IsDistinct seen (unique_from seen cs)
unique_from-IsDistinct seen [] = tt
unique_from-IsDistinct seen (c ∷ cs) = elim (Bool-cases (is_seen c.id seen)) [
  | inl e ↦ rw e (unique_from-IsDistinct seen cs)
  | inr e ↦ rw e (e, unique_from-IsDistinct (c.id ∷ seen) cs)
]

module _ (members : GoMap MemberInfo) where
  member_at-IsAnswer :
      (k : String) (o : Option MemberInfo)
      → GoMap.lookup k members ≡ o
      → IsAnswer members (member_at o)
  member_at-IsAnswer k none e = tt
  member_at-IsAnswer k (some m) e = (k, e)

  decide-IsAnswer :
      (cs : List CandidateMember) (next : Resolved)
      → IsDistinct [] cs
      → IsAnswer members next
      → IsAnswer members (decide members cs next)
  decide-IsAnswer [] next d h = h
  decide-IsAnswer (c ∷ []) next d h = member_at-IsAnswer c.id _ refl
  decide-IsAnswer (c ∷ e ∷ cs) next d h = d

  step-IsAnswer :
      (f : MemberInfo → List CandidateMember) (next : Resolved)
      → IsAnswer members next
      → IsAnswer members (decide members (deduplicate_candidates (candidates_of f members)) next)
  unfolding deduplicate_candidates
  step-IsAnswer f next h = decide-IsAnswer _ next (unique_from-IsDistinct [] _) h

  direct-IsAnswer :
      (k : String) (o : Option MemberInfo) (next : Resolved)
      → GoMap.lookup k members ≡ o
      → IsAnswer members next
      → IsAnswer members (direct o next)
  direct-IsAnswer k none next e h = h
  direct-IsAnswer k (some m) next e h = (k, e)

  -- A member that is resolved is one of the map, and an ambiguous answer names two members at
  -- least, each once. Nothing is said of the answer that no member is found, and of a map in which
  -- a member does not stand under its id.
  resolve-IsAnswer :
      (lib : Library) (target : String)
      → IsAnswer members (resolve_target_member lib members target)
  unfolding resolve_target_member
  resolve-IsAnswer lib target = elim (Bool-cases (str_eq (lib.trim_space target) "")) [
    | inl e ↦ rw e tt
    | inr e ↦ rw e (
        direct-IsAnswer (lib.trim_space target) _ _ refl (
          step-IsAnswer (exact lib (lib.trim_space target)) _ (
            step-IsAnswer (within lib (lib.to_lower (lib.trim_space target))) _
              (step-IsAnswer (around lib (lib.to_lower (lib.trim_space target))) not_found tt))))
  ]
