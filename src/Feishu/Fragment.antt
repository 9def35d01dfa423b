-- ===== src/Feishu/Fragment.antt =====
-- internal/feishu/fragment.go: `FragmentReassembler`. A part that has not come is `none`; a copy of
-- an empty payload is not nil. `sum` is an `int`; `sum <= 1` and `sum > 1024` leave 2 to 1024.
-- The result `none` is nil, and `now` is the clock in nanoseconds.
pub mod Message
pub mod Reassembly
pub mod Delivery
use talkintent.Common.{
  ℕ, ◌+◌, ◌*◌, String, Bool, true, false, ◌||◌, not, Option, none, some, List, [], ◌∷◌, ◌++◌,
  length, get_elem?, set, replicate, ltb, leb, ◌==◌, if◌then◌else◌,
}
use talkintent.Common.Int.{ℤ, pos, negsuc, is_positive, clamp_zero}
use talkintent.Common.GoMap
use talkintent.Common.GoMap.{GoMap}
use talkintent.Feishu.Frame.{Bytes}

-- `fragmentEntry`
pub record FragmentEntry : Type 0 where
  pub parts : List (Option Bytes)
  pub received : ℕ
  pub sum : ℕ
  pub expires_at : ℕ

pub record Reassembler : Type 0 where
  pub entries : GoMap FragmentEntry
  pub ttl : ℕ

-- five seconds
abbrev pub default_ttl : ℕ
default_ttl = 5 * 1000000000

abbrev pub new_reassembler : ℤ → Reassembler
new_reassembler ttl = record {
  entries = [];
  ttl = if is_positive ttl then clamp_zero ttl else default_ttl;
}

-- `sweepLocked`: the entries whose time is over at `now` are deleted.
abbrev pub sweep_entries : ℕ → GoMap FragmentEntry → GoMap FragmentEntry
sweep_entries now [] = []
sweep_entries now ((id, e) ∷ m) =
    let rest = sweep_entries now m in if ltb e.expires_at now then rest else (id, e) ∷ rest

abbrev pub is_missing : Option (Option Bytes) → Bool
is_missing none = false
is_missing (some none) = true
is_missing (some (some p)) = false

-- A part is kept the first time it comes.
abbrev pub add_part : ℕ → Bytes → FragmentEntry → FragmentEntry
add_part seq payload e =
    if is_missing (get_elem? e.parts seq)
    then record e { parts = set e.parts seq (some payload); received = e.received + 1 }
    else e

-- The concatenation of the parts; `append` of nil adds nothing.
abbrev pub combine : List (Option Bytes) → Bytes
combine [] = []
combine (none ∷ ps) = combine ps
combine (some p ∷ ps) = p ++ combine ps

-- The call of `AddFragment` behind the choice of the entry.
abbrev pub settle : String → ℕ → Bytes → Reassembler → FragmentEntry → Option Bytes × Reassembler
settle msg_id seq payload r entry =
    let e = add_part seq payload entry in
    if e.received == e.sum
    then (some (combine e.parts), record r { entries = GoMap.erase msg_id r.entries })
    else (none, record r { entries = GoMap.insert msg_id e r.entries })

abbrev pub fresh_entry : ℕ → ℕ → FragmentEntry
fresh_entry sum expires_at = record {
  parts = replicate sum none;
  received = 0;
  sum = sum;
  expires_at = expires_at;
}

abbrev pub refuses : FragmentEntry → ℕ → ℕ → Bool
refuses e sum seq = not (e.sum == sum) || leb (length e.parts) seq

-- The choice of the entry, with the one that is there if it has not expired.
abbrev pub add_to :
    String → ℕ → ℕ → Bytes → ℕ → Reassembler → Option FragmentEntry → Option Bytes × Reassembler
add_to msg_id sum seq payload now r none =
    settle msg_id seq payload r (fresh_entry sum (now + r.ttl))
add_to msg_id sum seq payload now r (some e) =
    if refuses e sum seq
    then (none, r)
    else settle msg_id seq payload r (record e { expires_at = now + r.ttl })

abbrev pub add_in_range : String → ℕ → ℕ → Bytes → ℕ → Reassembler → Option Bytes × Reassembler
add_in_range msg_id sum seq payload now r =
    let swept = record r { entries = sweep_entries now r.entries } in
    add_to msg_id sum seq payload now swept (GoMap.lookup msg_id swept.entries)

-- The message is returned when all of its parts have come; a payload that is not cut is returned
-- as it is.
abbrev pub add_at : String → ℕ → ℤ → Bytes → ℕ → Reassembler → Option Bytes × Reassembler
add_at msg_id sum (negsuc n) payload now r = (none, r)
add_at msg_id sum (pos seq) payload now r =
    if leb sum seq then (none, r) else add_in_range msg_id sum seq payload now r

unfoldable pub add_fragment : String → ℤ → ℤ → Bytes → ℕ → Reassembler → Option Bytes × Reassembler
add_fragment msg_id (negsuc n) seq payload now r = (some payload, r)
add_fragment msg_id (pos sum) seq payload now r =
    if leb sum 1
    then (some payload, r)
    else (if ltb 1024 sum then (none, r) else add_at msg_id sum seq payload now r)
