-- ===== src/Hub/Submit/Expiry.antt =====
-- internal/hub/hub.go: the time that a submitted query is given.
use talkintent.Common.{
  ℕ, zero, suc, ◌+◌, ◌*◌, ◌/◌, ◌%◌, ◌≤◌, ◌<◌, min, String, true, ◌≡◌, refl, arith, ltb,
}
use talkintent.Common.Int.{ℤ, pos, negsuc}
use talkintent.Store.Records.{MemberInfo}
use talkintent.Hub.Records.{HubConfig, or_default}
use talkintent.Hub.State.{Hub}
use talkintent.Hub.Submit.{QuerySubmitRequest, ttl_of, expires_at, new_query, day_sec}

or_default-positive : (d : ℕ) (x : ℤ) → 0 < d → 0 < or_default d x
or_default-positive d (pos zero) p = p
or_default-positive d (pos (suc n)) p = ground arith
or_default-positive d (negsuc n) p = p

bounded : (n m : ℕ) → 0 < n → (0 < min n (suc m)) × (min n (suc m) ≤ suc m)
bounded n m p = (omega arith, omega arith)

-- Under a positive limit the time lies between one second and the limit.
ttl_of-bounds :
    (cfg : HubConfig) (given : ℤ) (m : ℕ)
    → cfg.max_query_ttl_sec ≡ pos (suc m)
    → (0 < ttl_of cfg given) × (ttl_of cfg given ≤ suc m)
ttl_of-bounds cfg given m e = rw e (
    bounded _ m (
      or_default-positive (or_default day_sec cfg.default_query_ttl_sec) given
        (or_default-positive day_sec cfg.default_query_ttl_sec (omega arith))))

expires_at_lem : (now ttl : ℕ) → ttl ≤ 9223372036 → expires_at now ttl ≡ now + ttl * 1000
expires_at_lem now ttl h =
    let same : ttl * 1000000000 % 18446744073709551616 ≡ ttl * 1000000000 = omega arith in
    let thousand : ttl * 1000000000 / 1000000 ≡ ttl * 1000 = omega arith in
    let small : ltb (ttl * 1000000000) 9223372036854775808 ≡ true = ground arith in
    rw (same, small, thousand) refl

-- With a positive limit of at most 9223372036 seconds, a query expires after it was made and no
-- later than the limit says, whatever time the request asks for.
pub new_query-expiry :
    (now : ℕ) (id : String) (asker target : MemberInfo) (r : QuerySubmitRequest) (h : Hub) (m : ℕ)
    → h.cfg.max_query_ttl_sec ≡ pos (suc m)
    → suc m ≤ 9223372036
    → let q = new_query now id asker target r h in
      (now < q.ttl_expires_at) × (q.ttl_expires_at ≤ now + suc m * 1000)
new_query-expiry now id asker target r h m e l =
    let (low, high) = ttl_of-bounds h.cfg r.ttl_seconds m e in
    rw (expires_at_lem now (ttl_of h.cfg r.ttl_seconds) (ground (arith, high, l)))
      (ground (arith, low), ground (arith, high))
