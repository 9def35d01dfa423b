-- ===== src/Store/Audit.antt =====
-- The audit trails: `GetInboundAudit`, `GetOutboundAudit` and their detailed forms. All four cut a
-- page out of a member's list of query ids, newest first, and look the queries up. `limit` and
-- `offset` are `int`, of 64 bits, and their sum wraps; a slice expression whose end lies before
-- its start panics.
use mathlib.Core.List.{reverse}
use talkintent.Common.{
  ℕ, ◌+◌, ◌-◌, ◌^◌, min, String, Bool, ◌&&◌, not, Option, none, some, List, [], ◌∷◌, length, take,
  drop, str_eq, ltb, leb, if◌then◌else◌,
}
use talkintent.Common.Int.{ℤ, pos, negsuc, is_positive, clamp_zero}
use talkintent.Common.GoMap
use talkintent.Common.GoMap.{GoMap}
use talkintent.Store.Records.{QueryDetail, TokenUsage}
use talkintent.Store.Library.{Library}
use talkintent.Store.State.{Index}
use talkintent.Store.Queries.{audit_of}

-- int64 addition of two numbers that are not negative
abbrev pub add_int : ℕ → ℕ → ℤ
add_int a b = if ltb (a + b) (2 ^ 63) then pos (a + b) else negsuc (2 ^ 64 - (a + b) - 1)

-- `offset` after the two tests on it
abbrev pub clamp_offset : ℕ → ℤ → ℕ
clamp_offset total offset = min (clamp_zero offset) total

abbrev exceeds : ℤ → ℕ → Bool
exceeds (pos n) total = ltb total n
exceeds (negsuc n) total = Bool.false

-- `end` after the test on it
unfoldable pub page_end : ℕ → ℤ → ℕ → ℤ
page_end total limit offset =
    if is_positive limit
    then (if exceeds (add_int offset (clamp_zero limit)) total
        then pos total
        else add_int offset (clamp_zero limit))
    else pos total

-- `ordered[offset:end]`; `none` is a panic
unfoldable pub slice {ℓ} : {A : Type ℓ} → List A → ℕ → ℤ → Option (List A)
slice xs start (negsuc n) = none
slice xs start (pos n) =
    if leb start n && leb n (length xs) then some (drop start (take n xs)) else none

-- The ids of one page, newest first.
unfoldable pub page_of : List String → ℤ → ℤ → Option (List String)
unfolding page_end slice
page_of ids limit offset =
    let total = length ids in
    let start = clamp_offset total offset in slice (reverse ids) start (page_end total limit start)

pub record AuditEntry : Type 0 where
  pub query_id : String
  pub timestamp : ℕ
  pub asker_id : String
  pub asker_name : String
  pub asker_type : String
  pub target_member_id : String
  pub target_member_name : String
  pub query : String
  pub status : String
  pub answer : String
  pub tools_used : Option (List String)
  pub duration_ms : ℤ

pub record AuditEntryDetailed : Type 0 where
  pub entry : AuditEntry
  pub error_message : String
  pub token_usage : TokenUsage

abbrev asker_type_of : QueryDetail → String
asker_type_of q = if str_eq q.origin "" then "member" else q.origin

-- `fmt.Sprintf("[%s] %s", ...)` stands for an answer that is missing.
abbrev shown_answer : Library → QueryDetail → String
shown_answer lib q =
    if str_eq q.answer "" && not (str_eq q.error_message "")
    then lib.join "[" (lib.join q.status (lib.join "] " q.error_message))
    else q.answer

abbrev entry_with : String → QueryDetail → AuditEntry
entry_with answer q = record {
  query_id = q.query_id;
  timestamp = q.created_at;
  asker_id = q.asker_id;
  asker_name = q.asker_name;
  asker_type = asker_type_of q;
  target_member_id = q.target_member_id;
  target_member_name = q.target_member_name;
  query = q.query;
  status = q.status;
  answer = answer;
  tools_used = q.tools_used;
  duration_ms = q.duration_ms;
}

unfoldable pub entry_of : Library → QueryDetail → AuditEntry
entry_of lib q = entry_with (shown_answer lib q) q

unfoldable pub entry_detailed_of : QueryDetail → AuditEntryDetailed
entry_detailed_of q = record {
  entry = entry_with q.answer q;
  error_message = q.error_message;
  token_usage = q.token_usage;
}

-- The loop over the selected ids; an id that names no query is passed over.
unfoldable pub entries_of {ℓ} :
    {A : Type ℓ} → (QueryDetail → A) → GoMap QueryDetail → List String → List A
entries_of f queries [] = []
entries_of f queries (id ∷ rest) =
    let more = entries_of f queries rest in
    elim (GoMap.lookup id queries) [ none ↦ more | some q ↦ f q ∷ more ]

-- The total and the entries of one page.
abbrev audit_page {ℓ} :
    {A : Type ℓ} → (QueryDetail → A) → Index → List String → ℤ → ℤ → Option (ℕ × List A)
audit_page f x ids limit offset = elim (page_of ids limit offset) [
  | none ↦ none
  | some page ↦ some (length ids, entries_of f x.queries page)
]

unfoldable pub get_inbound_audit : Library → Index → String → ℤ → ℤ → Option (ℕ × List AuditEntry)
unfolding page_of entries_of entry_of
get_inbound_audit lib x member_id limit offset =
    audit_page (entry_of lib) x (audit_of member_id x.inbound) limit offset

unfoldable pub get_outbound_audit : Library → Index → String → ℤ → ℤ → Option (ℕ × List AuditEntry)
unfolding page_of entries_of entry_of
get_outbound_audit lib x member_id limit offset =
    audit_page (entry_of lib) x (audit_of member_id x.outbound) limit offset

unfoldable pub get_inbound_audit_detailed :
    Index → String → ℤ → ℤ → Option (ℕ × List AuditEntryDetailed)
unfolding page_of entries_of entry_detailed_of
get_inbound_audit_detailed x member_id limit offset =
    audit_page entry_detailed_of x (audit_of member_id x.inbound) limit offset

unfoldable pub get_outbound_audit_detailed :
    Index → String → ℤ → ℤ → Option (ℕ × List AuditEntryDetailed)
unfolding page_of entries_of entry_detailed_of
get_outbound_audit_detailed x member_id limit offset =
    audit_page entry_detailed_of x (audit_of member_id x.outbound) limit offset
