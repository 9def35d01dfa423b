-- ===== src/Store/Resolve.antt =====
-- Whom a query is for: `ResolveTargetMember` and `deduplicateCandidates`. The order of the members
-- stands for the order in which `range` visits the map.
pub mod Target
use talkintent.Common.{
  String, Bool, true, false, ◌&&◌, Option, none, some, List, [], ◌∷◌, ◌++◌, str_eq, leb,
  if◌then◌else◌,
}
use talkintent.Common.GoMap
use talkintent.Common.GoMap.{GoMap}
use talkintent.Store.Records.{MemberInfo, CandidateMember}
use talkintent.Store.Library.{Library}

-- What the call returns; `nil_member` is the panic on a candidate whose id is no key of the map.
pub data Resolved : Type 0 where
  found : MemberInfo → Resolved
  ambiguous : List CandidateMember → Resolved
  not_found nil_member : Resolved

abbrev pub is_seen : String → List String → Bool
is_seen id [] = false
is_seen id (i ∷ ids) = if str_eq i id then true else is_seen id ids

abbrev pub unique_from : List String → List CandidateMember → List CandidateMember
unique_from seen [] = []
unique_from seen (c ∷ cs) =
    let skipped = unique_from seen cs in
    let kept = c ∷ unique_from (c.id ∷ seen) cs in if is_seen c.id seen then skipped else kept

unfoldable pub deduplicate_candidates : List CandidateMember → List CandidateMember
deduplicate_candidates cs = unique_from [] cs

abbrev pub by_name : MemberInfo → CandidateMember
by_name m = record { id = m.id; name = m.name; matched_alias = "" }

abbrev pub by_alias : MemberInfo → String → CandidateMember
by_alias m alias = record { id = m.id; name = m.name; matched_alias = alias }

-- The loop over the aliases, that of the first two steps and that of the third, which breaks.
abbrev pub alias_candidates : (String → Bool) → MemberInfo → List String → List CandidateMember
alias_candidates test m [] = []
alias_candidates test m (a ∷ rest) =
    let more = alias_candidates test m rest in if test a then by_alias m a ∷ more else more

abbrev pub first_alias : (String → Bool) → MemberInfo → List String → List CandidateMember
first_alias test m [] = []
first_alias test m (a ∷ rest) = if test a then by_alias m a ∷ [] else first_alias test m rest

abbrev pub candidates_of :
    (MemberInfo → List CandidateMember) → GoMap MemberInfo → List CandidateMember
candidates_of f [] = []
candidates_of f ((k, m) ∷ rest) = f m ++ candidates_of f rest

abbrev pub exact : Library → String → MemberInfo → List CandidateMember
exact lib target m =
    if lib.equal_fold m.name target
    then by_name m ∷ []
    else alias_candidates (λ a. lib.equal_fold a target) m m.aliases

abbrev pub within : Library → String → MemberInfo → List CandidateMember
within lib lower m =
    if lib.contains (lib.to_lower m.name) lower
    then by_name m ∷ []
    else alias_candidates (λ a. leb 2 (lib.byte_length a) && lib.contains (lib.to_lower a) lower) m
        m.aliases

abbrev pub around : Library → String → MemberInfo → List CandidateMember
around lib lower m =
    if lib.contains lower (lib.to_lower m.name)
    then by_name m ∷ []
    else first_alias (λ a. leb 2 (lib.byte_length a) && lib.contains lower (lib.to_lower a)) m
        m.aliases

abbrev pub member_at : Option MemberInfo → Resolved
member_at none = nil_member
member_at (some m) = found m

-- One candidate is the answer, more are ambiguous, and without any the next step is tried.
abbrev pub decide : GoMap MemberInfo → List CandidateMember → Resolved → Resolved
decide members [] next = next
decide members (c ∷ []) next = member_at (GoMap.lookup c.id members)
decide members (c ∷ d ∷ cs) next = ambiguous (c ∷ d ∷ cs)

abbrev pub search_names : Library → GoMap MemberInfo → String → Resolved
search_names lib members trimmed =
    let lower = lib.to_lower trimmed in
    decide members (deduplicate_candidates (candidates_of (exact lib trimmed) members)) (
      decide members (deduplicate_candidates (candidates_of (within lib lower) members)) (
        decide members (deduplicate_candidates (candidates_of (around lib lower) members))
          not_found))

abbrev pub direct : Option MemberInfo → Resolved → Resolved
direct (some m) next = found m
direct none next = next

unfoldable pub resolve_target_member : Library → GoMap MemberInfo → String → Resolved
resolve_target_member lib members target =
    let trimmed = lib.trim_space target in
    if str_eq trimmed ""
    then not_found
    else direct (GoMap.lookup trimmed members) (search_names lib members trimmed)
