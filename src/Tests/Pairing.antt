-- ===== src/Tests/Pairing.antt =====
-- Pairing on a store with one invitation.
use talkintent.Common.{◌+◌, ◌*◌, true, false, ◌≡◌, refl, some, [], ◌∷◌, arith}
use talkintent.Common.Int.{pos}
use talkintent.Common.Effect.{ok, err, ◌>>=◌}
use talkintent.Store.Journal.{Store, invalid_invite, write_failed, append_event, set_index}
use talkintent.Store.Pairing.{
  invite_expiry, Paired, InviteCreated, consume_invite, create_invite, pair_member, find_invite,
}
use talkintent.Store.Invites.{pair_once, invite-pair}
use talkintent.Store.Invites.Fault.{pair_halfway}
use talkintent.Tests.Fixtures.{lib, store, invite}

abbrev paired : Paired
paired = record { member_id = "mem_a"; member_name = "Bob"; token = "ti_mem_b" }

abbrev after_pairing : Store
after_pairing = (consume_invite lib (some "a") (some "b") 10 11 "INV-1" "laptop" store).1

pairs :
    consume_invite lib (some "a") (some "b") 10 11 "INV-1" "laptop" store
    ≡ (ok paired, after_pairing)
unfolding consume_invite pair_member ◌>>=◌ append_event set_index
pairs = refl

pair_once_example :
    consume_invite lib (some "c") (some "d") 20 21 "INV-1" "phone" after_pairing
    ≡ (err invalid_invite, after_pairing)
pair_once_example =
    pair_once lib (some "a") (some "b") 10 11 "INV-1" "laptop" store after_pairing paired (some "c")
      (some "d") 20 21 "phone" pairs

abbrev created : InviteCreated
created = record { code = "INV-x-"; expires_at = 7200005; target_name = "Cy" }

abbrev after_invite : Store
after_invite = (create_invite lib (some "x") 5 "Cy" [] (pos 2) store).1

creates : create_invite lib (some "x") 5 "Cy" [] (pos 2) store ≡ (ok created, after_invite)
unfolding create_invite ◌>>=◌ append_event set_index
creates = refl

after_invite_open : after_invite.is_open ≡ true
unfolding create_invite ◌>>=◌ append_event set_index
after_invite_open = refl

after_invite_writes : after_invite.writes ≡ []
unfolding create_invite ◌>>=◌ append_event set_index
after_invite_writes = refl

-- Hours beyond the bound wrap around: the invitation is over before it is made.
over_at_once : invite_expiry 1000 2562048 ≡ 0
over_at_once = refl

invite-pair_example :
    (created.expires_at ≡ 5 + 2 * 3600000)
    × ((consume_invite lib (some "a") (some "b") 6 7 "INV-x-" "laptop" after_invite).0
        ≡ ok (record { member_id = "mem_a"; member_name = "Cy"; token = "ti_mem_b" }))
invite-pair_example =
    invite-pair lib (some "x") 5 "Cy" [] (pos 2) store after_invite created "a" "b" 6 7 "laptop"
      creates refl after_invite_open after_invite_writes (omega arith) (omega arith)

abbrev faulty : Store
faulty = record store { writes = true ∷ false ∷ [] }

finds : find_invite lib "salt" faulty.index.invites "INV-1" ≡ some ("salt:INV-1", invite)
unfolding find_invite
finds = refl

pair_halfway_example :
    let (r, t) = consume_invite lib (some "a") (some "b") 10 11 "INV-1" "laptop" faulty in
    (r ≡ err write_failed)
    × (t.index.members ≡ faulty.index.members)
    × (t.index.tokens ≡ faulty.index.tokens)
    × (consume_invite lib (some "c") (some "d") 20 21 "INV-1" "phone" t ≡ (err invalid_invite, t))
pair_halfway_example =
    pair_halfway lib "a" "b" 10 11 "INV-1" "laptop" faulty "salt:INV-1" invite [] (some "c")
      (some "d") 20 21 "phone" finds refl refl refl
