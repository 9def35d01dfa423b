-- ===== src/Feishu/Dedupe/Retention.antt =====
-- internal/feishu/dedupe.go: how long `CheckAndRecord` knows an id, and how many it holds.
use talkintent.Common.{
  ℕ, ◌+◌, ◌≤◌, ◌<◌, ◌/◌, max, String, true, false, ◌≡◌, ◌≢◌, [], ◌∷◌, length, length-drop, arith,
  eq_iff,
}
use talkintent.Common.GoMap
use talkintent.Common.GoMap.{GoMap}
use talkintent.Feishu.Dedupe.{
  Deduplicator, check_and_record, ttl_ms, make_room, cleanup_expired, record_id,
}

length-insert :
    {V : Type 0} (k : String) (v : V) (m : GoMap V) → length (GoMap.insert k v m) ≤ length m + 1
length-insert k v [] = omega arith
length-insert k v ((j, w) ∷ m) = ground (arith, length-insert k v m)

length-erase : {V : Type 0} (k : String) (m : GoMap V) → length (GoMap.erase k m) ≤ length m
length-erase k [] = omega arith
length-erase k ((j, w) ∷ m) = ground (arith, length-erase k m)

length-cleanup : (now : ℕ) (m : GoMap ℕ) → length (cleanup_expired now m) ≤ length m
length-cleanup now [] = omega arith
length-cleanup now ((j, w) ∷ m) = ground (arith, length-cleanup now m)

length-make_room : (n now : ℕ) (m : GoMap ℕ) → 0 < n → length m ≤ n → length (make_room n now m) < n
length-make_room n now m p h =
    ground (arith, length-cleanup now m, length-drop (max 1 (n / 2)) (cleanup_expired now m))

record_id-size :
    (id : String) (now : ℕ) (m : GoMap ℕ) (d : Deduplicator)
    → 0 < d.max_size
    → length m ≤ d.max_size
    → length (record_id id now m d).1.seen ≤ d.max_size
record_id-size id now m d p h = omega (
  arith,
  length-make_room d.max_size now m p h,
  length-insert id (now + ttl_ms d) (make_room d.max_size now m),
)

-- The memory never holds more ids than its capacity, if it did not before; the capacity that
-- `NewDeduplicator` sets is positive.
pub check_and_record-size :
    (id : String) (now : ℕ) (d : Deduplicator)
    → 0 < d.max_size
    → length d.seen ≤ d.max_size
    → length (check_and_record id now d).1.seen ≤ d.max_size
unfolding check_and_record
check_and_record-size id now d p h = ground (
  arith,
  record_id-size id now d.seen d,
  record_id-size id now (GoMap.erase id d.seen) d,
  length-erase id d.seen,
)

-- An id that is not empty and was taken as new at `now` is a duplicate in the next call, if that
-- comes before its retention is over, and the call changes nothing.
pub check_and_record_again :
    (id : String) (now later : ℕ) (d t : Deduplicator)
    → id ≢ ""
    → check_and_record id now d ≡ (false, t)
    → later < now + ttl_ms d
    → check_and_record id later t ≡ (true, t)
unfolding check_and_record
check_and_record_again id now later d t n e h = ground (
  arith,
  eq_iff id "",
  eq_iff id id,
  GoMap.lookup-insert id id (now + ttl_ms d) (make_room d.max_size now d.seen),
  GoMap.lookup-insert id id (now + ttl_ms d) (make_room d.max_size now (GoMap.erase id d.seen)),
)
