-- ===== src/Store/Invites.antt =====
-- internal/store/store.go: what pairing promises. `CreateInvite` and `ConsumeInvite` together, and an
-- invitation that is used up.
pub mod Token
pub mod Fault
use talkintent.Common.{
  ltb, ◌*◌, ◌+◌, ◌%◌, ◌/◌, ◌<◌, ℕ, ◌≤◌, String, Bool, true, false, ◌≡◌, refl, ap, ◌∙◌, sym, Option,
  none, some, List, [], ◌∷◌, ◌++◌, arith, eq_iff,
}
use talkintent.Common.Int.{ℤ}
use talkintent.Common.GoMap
use talkintent.Common.Effect.{ok, err, ◌>>=◌}
use talkintent.Store.Records.{MemberInfo, StoredInvite}
use talkintent.Store.Library.{Library}
use talkintent.Store.Event.{invite_consumed}
use talkintent.Store.Journal.{Store, invalid_invite, write_failed, append_event, set_index}
use talkintent.Store.Pairing.{
  invite_hours, invite_expiry, Paired, InviteCreated, hash_token_with_salt, hash_token, find_invite,
  new_member, pair_member, is_spent, consume_invite, create_invite, get_member_by_token,
}

module _ (lib : Library) (hash : String) (inv : StoredInvite) (id token : String) (now : ℕ)
    (machine : String) (s t : Store) (p : Paired) where
  -- What a pairing that succeeds has written.
  pub record Written : Type 0 where
    pub invites :
        t.index.invites ≡ GoMap.modify hash (λ i. record i { consumed = true }) s.index.invites
    pub members : t.index.members ≡ GoMap.insert id (new_member id inv now machine) s.index.members
    pub tokens : t.index.tokens ≡ GoMap.insert (hash_token lib token) id s.index.tokens
    pub salt : t.salt ≡ s.salt
    pub answer : p ≡ record { member_id = id; member_name = inv.target_name; token = token }

  pub pair_member-Written : pair_member lib hash inv id token now machine s ≡ (ok p, t) → Written
  unfolding pair_member ◌>>=◌ append_event set_index
  pair_member-Written e = ground arith

-- What a call of `ConsumeInvite` that succeeds has found on the way.
pub record Consumed (lib : Library) (now created_now : ℕ) (code machine : String) (s t : Store)
    (p : Paired) : Type 0 where
  pub hash : String
  pub inv : StoredInvite
  pub id : String
  pub token : String
  pub found : find_invite lib s.salt s.index.invites (lib.trim_space code) ≡ some (hash, inv)
  pub fresh : is_spent inv now ≡ false
  pub paired : pair_member lib hash inv id token created_now machine s ≡ (ok p, t)

module _ (lib : Library) (now created_now : ℕ) (code machine : String) (s t : Store)
    (p : Paired) where
  consume_invite_at :
      (id_raw token_raw : Option String) (o : Option (String × StoredInvite))
      → find_invite lib s.salt s.index.invites (lib.trim_space code) ≡ o
      → consume_invite lib id_raw token_raw now created_now code machine s ≡ (ok p, t)
      → Consumed lib now created_now code machine s t p
  unfolding consume_invite ◌>>=◌
  consume_invite_at (some a) (some b) (some (hash, inv)) f e = record {
    hash = hash;
    inv = inv;
    id = lib.join "mem_" a;
    token = lib.join "ti_mem_" b;
    found = f;
    fresh = ground arith;
    paired = ground arith;
  }
  consume_invite_at _ _ _ f e = ground arith

  pub consume_invite-Consumed :
      (id_raw token_raw : Option String)
      → consume_invite lib id_raw token_raw now created_now code machine s ≡ (ok p, t)
      → Consumed lib now created_now code machine s t p
  consume_invite-Consumed a b e = consume_invite_at a b _ refl e

pub find_invite-modify :
    (lib : Library) (salt code hash : String) (inv : StoredInvite) (f : StoredInvite → StoredInvite)
    (invites : GoMap.GoMap StoredInvite)
    → find_invite lib salt invites code ≡ some (hash, inv)
    → find_invite lib salt (GoMap.modify hash f invites) code ≡ some (hash, f inv)
unfolding find_invite
find_invite-modify lib salt code hash inv f invites e =
    let salted = lib.hmac_sha256_hex salt (lib.trim_space code) in
    let legacy = lib.sha256_hex (lib.trim_space code) in
    ground (
      arith,
      GoMap.lookup-modify hash salted f invites,
      GoMap.lookup-modify hash legacy f invites,
      eq_iff hash salted,
      eq_iff hash legacy,
    )

-- An invitation that is consumed or too old is refused, and nothing changes.
pub consume_spent :
    (lib : Library) (a b : Option String) (now created_now : ℕ) (code machine : String) (s : Store)
    (hash : String) (inv : StoredInvite)
    → find_invite lib s.salt s.index.invites (lib.trim_space code) ≡ some (hash, inv)
    → is_spent inv now ≡ true
    → consume_invite lib a b now created_now code machine s ≡ (err invalid_invite, s)
unfolding consume_invite ◌>>=◌
consume_spent lib a b now created_now code machine s hash inv f e = ground arith

-- An invitation pairs once: after a pairing, the same code is refused whenever, and by whatever
-- machine, it is tried on the store that the pairing left, and nothing changes.
pub pair_once :
    (lib : Library) (a b : Option String) (now created_now : ℕ) (code machine : String)
    (s t : Store) (p : Paired) (a' b' : Option String) (now' created_now' : ℕ) (machine' : String)
    → consume_invite lib a b now created_now code machine s ≡ (ok p, t)
    → consume_invite lib a' b' now' created_now' code machine' t ≡ (err invalid_invite, t)
pair_once lib a b now created_now code machine s t p a' b' now' created_now' machine' e =
    let c = consume_invite-Consumed lib now created_now code machine s t p a b e in
    let w = pair_member-Written lib c.hash c.inv c.id c.token created_now machine s t p c.paired in
    consume_spent lib a' b' now' created_now' code machine' t c.hash
      (record c.inv { consumed = true })
      (rw (w.invites, w.salt)
        (find_invite-modify lib s.salt (lib.trim_space code) c.hash c.inv
          (λ i. record i { consumed = true }) s.index.invites c.found))
      refl

-- The rules of `pair_member` where no write is refused.
pair_member_healthy :
    (lib : Library) (hash : String) (inv : StoredInvite) (id token : String) (now : ℕ)
    (machine : String) (s : Store)
    → s.is_open ≡ true
    → s.writes ≡ []
    → (pair_member lib hash inv id token now machine s).0
      ≡ ok (record { member_id = id; member_name = inv.target_name; token = token })
unfolding pair_member ◌>>=◌ append_event set_index
pair_member_healthy lib hash inv id token now machine s o w = ground arith

record Invited (lib : Library) (now : ℕ) (name : String) (aliases : List String) (hours : ℤ)
    (s t : Store) (c : InviteCreated) : Type 0 where
  inv : StoredInvite
  named : inv.target_name ≡ name
  unused : inv.consumed ≡ false
  until : inv.expires_at ≡ invite_expiry now (invite_hours hours)
  told : c.expires_at ≡ inv.expires_at
  stored :
      t.index.invites ≡ GoMap.insert (hash_token_with_salt lib c.code s.salt) inv s.index.invites
  salt : t.salt ≡ s.salt

create_invite-Invited :
    (lib : Library) (raw : Option String) (now : ℕ) (name : String) (aliases : List String)
    (hours : ℤ) (s t : Store) (c : InviteCreated)
    → create_invite lib raw now name aliases hours s ≡ (ok c, t)
    → Invited lib now name aliases hours s t c
unfolding create_invite ◌>>=◌ append_event set_index
create_invite-Invited lib none now name aliases hours s t c e = ground arith
create_invite-Invited lib (some d) now name aliases hours s t c e = record {
  inv = record {
    code_hash = hash_token_with_salt lib c.code s.salt;
    target_name = name;
    aliases = aliases;
    expires_at = invite_expiry now (invite_hours hours);
    consumed = false;
  };
  named = refl;
  unused = refl;
  until = refl;
  told = ground arith;
  stored = ground arith;
  salt = ground arith;
}

find_invite-insert :
    (lib : Library) (salt code : String) (inv : StoredInvite) (invites : GoMap.GoMap StoredInvite)
    → lib.trim_space code ≡ code
    → find_invite lib salt
        (GoMap.insert (hash_token_with_salt lib code salt) inv invites)
        (lib.trim_space code)
      ≡ some (hash_token_with_salt lib code salt, inv)
unfolding find_invite
find_invite-insert lib salt code inv invites e =
    let h = lib.hmac_sha256_hex salt (lib.trim_space code) in
    rw e (ground (arith, GoMap.lookup-insert h h inv invites, eq_iff h h))

pub consume_found :
    (lib : Library) (a b : String) (now created_now : ℕ) (code machine : String) (s : Store)
    (hash : String) (inv : StoredInvite)
    → find_invite lib s.salt s.index.invites (lib.trim_space code) ≡ some (hash, inv)
    → is_spent inv now ≡ false
    → consume_invite lib (some a) (some b) now created_now code machine s
      ≡ pair_member lib hash inv (lib.join "mem_" a) (lib.join "ti_mem_" b) created_now machine s
unfolding consume_invite ◌>>=◌
consume_found lib a b now created_now code machine s hash inv f e = ground arith

invite_expiry_lem :
    (now hours : ℕ) → hours < 2562048 → invite_expiry now hours ≡ now + hours * 3600000
invite_expiry_lem now hours h =
    let same : hours * 3600000000000 % 18446744073709551616 ≡ hours * 3600000000000 = omega arith in
    let shown : hours * 3600000000000 / 1000000 ≡ hours * 3600000 = omega arith in
    let small : ltb (hours * 3600000000000) 9223372036854775808 ≡ true = ground arith in
    rw (same, small, shown) refl

-- An invitation of less than 2562048 hours that was created, for 48 hours where none are asked for,
-- can be used for as many hours: if the code has no white space around it, the draws succeed and
-- no write fails, the code pairs a member of the invited name, with the drawn id and token. The
-- time that the answer tells is the end of those hours.
pub invite-pair :
    (lib : Library) (raw : Option String) (now : ℕ) (name : String) (aliases : List String)
    (hours : ℤ) (s t : Store) (c : InviteCreated) (a b : String) (now' created_now : ℕ)
    (machine : String)
    → create_invite lib raw now name aliases hours s ≡ (ok c, t)
    → lib.trim_space c.code ≡ c.code
    → t.is_open ≡ true
    → t.writes ≡ []
    → invite_hours hours < 2562048
    → now' ≤ now + invite_hours hours * 3600000
    → (c.expires_at ≡ now + invite_hours hours * 3600000)
      × ((consume_invite lib (some a) (some b) now' created_now c.code machine t).0
          ≡ ok (record {
            member_id = lib.join "mem_" a;
            member_name = name;
            token = lib.join "ti_mem_" b;
          }))
invite-pair lib raw now name aliases hours s t c a b now' created_now machine e trimmed o w few
      in_time =
    let i = create_invite-Invited lib raw now name aliases hours s t c e in
    let hash = hash_token_with_salt lib c.code s.salt in
    let end = i.until ∙ invite_expiry_lem now (invite_hours hours) few in
    (
      i.told ∙ end,
      rw
          (consume_found lib a b now' created_now c.code machine t hash i.inv
            (rw (i.stored, i.salt)
              (find_invite-insert lib s.salt c.code i.inv s.index.invites trimmed))
            (ground (arith, i.unused, end)))
          (rw (
            pair_member_healthy lib hash i.inv (lib.join "mem_" a) (lib.join "ti_mem_" b)
                created_now machine t o w,
            i.named,
          )),
    )
