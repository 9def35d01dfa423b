-- ===== src/Store/Invites/Fault.antt =====
-- internal/store/store.go: a write that is refused inside `ConsumeInvite`.
use talkintent.Common.{
  ℕ, String, Bool, true, false, ◌≡◌, refl, ◌∙◌, Option, some, List, [], ◌∷◌, ◌++◌, arith,
}
use talkintent.Common.GoMap
use talkintent.Common.Effect.{err, ◌>>=◌}
use talkintent.Store.Records.{StoredInvite}
use talkintent.Store.Library.{Library}
use talkintent.Store.Event.{invite_consumed}
use talkintent.Store.Journal.{Store, invalid_invite, write_failed, append_event, set_index}
use talkintent.Store.Pairing.{find_invite, pair_member, is_spent, consume_invite}
use talkintent.Store.Invites.{find_invite-modify, consume_spent, consume_found}

abbrev after_fault : String → List Bool → Store → Store
after_fault hash later s = record s {
  index = record s.index {
    invites = GoMap.modify hash (λ i. record i { consumed = true }) s.index.invites;
  };
  log = s.log ++ invite_consumed hash ∷ [];
  writes = later;
}

pair_member_fault :
    (lib : Library) (hash : String) (inv : StoredInvite) (id token : String) (now : ℕ)
    (machine : String) (s : Store) (later : List Bool)
    → s.is_open ≡ true
    → s.writes ≡ true ∷ false ∷ later
    → pair_member lib hash inv id token now machine s ≡ (err write_failed, after_fault hash later s)
unfolding pair_member ◌>>=◌ append_event set_index
pair_member_fault lib hash inv id token now machine s later o w = rw (o, w) (ground arith)

-- A fault between the first and the second event of a pairing uses the invitation up and makes no
-- member: the caller gets the error of the write, and the code is refused from then on.
pub pair_halfway :
    (lib : Library) (a b : String) (now created_now : ℕ) (code machine : String) (s : Store)
    (hash : String) (inv : StoredInvite) (later : List Bool) (a' b' : Option String)
    (now' created_now' : ℕ) (machine' : String)
    → find_invite lib s.salt s.index.invites (lib.trim_space code) ≡ some (hash, inv)
    → is_spent inv now ≡ false
    → s.is_open ≡ true
    → s.writes ≡ true ∷ false ∷ later
    → let (r, t) = consume_invite lib (some a) (some b) now created_now code machine s in
      (r ≡ err write_failed)
      × (t.index.members ≡ s.index.members)
      × (t.index.tokens ≡ s.index.tokens)
      × (consume_invite lib a' b' now' created_now' code machine' t ≡ (err invalid_invite, t))
pair_halfway lib a b now created_now code machine s hash inv later a' b' now' created_now' machine'
      f fresh o w =
    rw
      (consume_found lib a b now created_now code machine s hash inv f fresh
        ∙ pair_member_fault lib hash inv (lib.join "mem_" a) (lib.join "ti_mem_" b) created_now
            machine s later o w)
      (
        refl,
        refl,
        refl,
        consume_spent lib a' b' now' created_now' code machine' (after_fault hash later s) hash
            (record inv { consumed = true })
            (find_invite-modify lib s.salt (lib.trim_space code) hash inv
              (λ i. record i { consumed = true }) s.index.invites f)
            refl,
      )
