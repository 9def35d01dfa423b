-- ===== src/Feishu/Dedupe.antt =====
-- internal/feishu/dedupe.go: `Deduplicator`, the ids of handled events with the time in
-- milliseconds until which each counts. The order of the entries of the map stands for the order
-- in which `range` visits it.
pub mod Retention
use talkintent.Common.{
  ℕ, ◌+◌, ◌*◌, ◌/◌, String, Bool, true, false, [], ◌∷◌, none, some, length, drop, max, ltb, leb,
  str_eq, if◌then◌else◌,
}
use talkintent.Common.Int.{ℤ, is_positive, clamp_zero}
use talkintent.Common.GoMap
use talkintent.Common.GoMap.{GoMap}

pub record Deduplicator : Type 0 where
  pub seen : GoMap ℕ
  -- nanoseconds
  pub ttl : ℕ
  pub max_size : ℕ

abbrev pub new_deduplicator : ℤ → ℤ → Deduplicator
new_deduplicator ttl max_size = record {
  seen = [];
  ttl = if is_positive ttl then clamp_zero ttl else 1800 * 1000000000;
  max_size = if is_positive max_size then clamp_zero max_size else 10000;
}

-- `cleanupExpiredLocked`
abbrev pub cleanup_expired : ℕ → GoMap ℕ → GoMap ℕ
cleanup_expired now [] = []
cleanup_expired now ((k, exp) ∷ m) =
    let rest = cleanup_expired now m in if leb exp now then rest else (k, exp) ∷ rest

-- The loop that drops half: it deletes before it counts, so one entry at least.
abbrev pub drop_half : ℕ → GoMap ℕ → GoMap ℕ
drop_half max_size m = drop (max 1 (max_size / 2)) m

abbrev pub make_room : ℕ → ℕ → GoMap ℕ → GoMap ℕ
make_room max_size now m =
    if leb max_size (length m)
    then (let kept = cleanup_expired now m in
        if leb max_size (length kept) then drop_half max_size kept else kept)
    else m

abbrev pub ttl_ms : Deduplicator → ℕ
ttl_ms d = max 1 (d.ttl / 1000000)

abbrev pub record_id : String → ℕ → GoMap ℕ → Deduplicator → Bool × Deduplicator
record_id id now m d =
    (false, record d { seen = GoMap.insert id (now + ttl_ms d) (make_room d.max_size now m) })

-- Whether the id is a duplicate; if not, it is one from now on.
unfoldable pub check_and_record : String → ℕ → Deduplicator → Bool × Deduplicator
check_and_record id now d = if str_eq id "" then (false, d) else (elim (GoMap.lookup id d.seen) [
  | none ↦ record_id id now d.seen d
  | some exp ↦ if ltb now exp then (true, d) else record_id id now (GoMap.erase id d.seen) d
])

abbrev pub clear : Deduplicator → Deduplicator
clear d = record d { seen = [] }

abbrev pub size : Deduplicator → ℕ
size d = length d.seen
