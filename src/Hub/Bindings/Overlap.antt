-- ===== src/Hub/Bindings/Overlap.antt =====
-- internal/hub/hub.go: the clients behind the bindings.
use talkintent.Common.{
  ℕ, ◌+◌, ◌<◌, String, Bool, true, false, ◌||◌, ◌≡◌, ◌∙◌, some, List, [], ◌∷◌, ◌==◌, arith, eq_iff,
  if◌then◌else◌,
}
use talkintent.Common.GoMap
use talkintent.Common.GoMap.{GoMap}
use talkintent.Store.Records.{FeishuBinding}
use talkintent.Hub.State.{Clients}
use talkintent.Hub.Bindings.{stop_client, drop_client, start_client}

abbrev pub runs : ℕ → List (ℕ × FeishuBinding) → Bool
runs n [] = false
runs n ((i, b) ∷ rest) = i == n || runs n rest

runs-stop_client :
    (n m : ℕ) (l : List (ℕ × FeishuBinding))
    → runs m (stop_client n l) ≡ (if n == m then false else runs m l)
runs-stop_client n m [] = ground arith
runs-stop_client n m ((i, b) ∷ rest) = ground (arith, runs-stop_client n m rest)

-- Two saves of one member, each of which drops the member's client and then starts its own. When
-- both drop before both start, the client that was started first runs on without being registered.
pub overlapping_saves :
    (member : String) (a b : FeishuBinding) (c : Clients)
    → let dropped = drop_client member (drop_client member c) in
      let d = start_client member b (start_client member a dropped) in
      (runs dropped.next d.running ≡ true)
      × (GoMap.lookup member d.registered ≡ some (dropped.next + 1))
unfolding start_client
overlapping_saves member a b c =
    let k = drop_client member (drop_client member c) in
    (
      ground arith,
      ground (
        arith,
        eq_iff member member,
        GoMap.lookup-insert member member (k.next + 1) (GoMap.insert member k.next k.registered),
      ),
    )

neither : (x y : Bool) → x ≡ false → y ≡ false → x || y ≡ false
neither false y p q = q
neither true y p q = p

-- A save on its own replaces the client: the new one is registered and runs, the old one does not.
pub client_replaced :
    (member : String) (b : FeishuBinding) (c : Clients) (n : ℕ)
    → GoMap.lookup member c.registered ≡ some n
    → n < c.next
    → let d = start_client member b (drop_client member c) in
      (GoMap.lookup member d.registered ≡ some c.next)
      × (runs c.next d.running ≡ true)
      × (runs n d.running ≡ false)
unfolding start_client drop_client
client_replaced member b c n e l = rw e (
  ground (
    arith,
    eq_iff member member,
    GoMap.lookup-insert member member c.next (GoMap.erase member c.registered),
  ),
  ground arith,
  neither (c.next == n) (runs n (stop_client n c.running)) (ground (arith, l))
      (runs-stop_client n n c.running ∙ ground arith),
)
