-- ===== src/Store/Invites/Token.antt =====
-- internal/store/store.go: `ConsumeInvite` followed by `GetMemberByToken`.
use talkintent.Common.{ℕ, String, ◌≡◌, refl, ap, sym, Option, arith, eq_iff}
use talkintent.Common.GoMap
use talkintent.Common.Effect.{ok, ◌>>=◌}
use talkintent.Store.Records.{MemberInfo}
use talkintent.Store.Library.{Library}
use talkintent.Store.Journal.{Store}
use talkintent.Store.Pairing.{Paired, hash_token, new_member, consume_invite, get_member_by_token}
use talkintent.Store.Invites.{pair_member-Written, consume_invite-Consumed}

token_names :
    (lib : Library) (token id : String) (m : MemberInfo) (t : Store) (tokens : GoMap.GoMap String)
    (members : GoMap.GoMap MemberInfo)
    → t.index.tokens ≡ GoMap.insert (hash_token lib token) id tokens
    → t.index.members ≡ GoMap.insert id m members
    → get_member_by_token lib token t ≡ (ok m, t)
unfolding get_member_by_token ◌>>=◌ hash_token
token_names lib token id m t tokens members e f =
    let h = lib.sha256_hex (lib.trim_space token) in
    ground (
      arith,
      GoMap.lookup-insert h h id tokens,
      GoMap.lookup-insert id id m members,
      eq_iff h h,
      eq_iff id id,
    )

-- The token that a pairing returns is good: it names a member with the id and the name of the
-- answer and with the machine that asked.
pub pair-get_member_by_token :
    (lib : Library) (a b : Option String) (now created_now : ℕ) (code machine : String)
    (s t : Store) (p : Paired)
    → consume_invite lib a b now created_now code machine s ≡ (ok p, t)
    → (m : MemberInfo) × (get_member_by_token lib p.token t ≡ (ok m, t))
      × (m.id ≡ p.member_id)
      × (m.name ≡ p.member_name)
      × (m.machine_name ≡ machine)
pair-get_member_by_token lib a b now created_now code machine s t p e =
    let c = consume_invite-Consumed lib now created_now code machine s t p a b e in
    let w = pair_member-Written lib c.hash c.inv c.id c.token created_now machine s t p c.paired in
    (
      new_member c.id c.inv created_now machine,
      rw w.answer
          (token_names lib c.token c.id _ t s.index.tokens s.index.members w.tokens w.members),
      ap (λ (q : Paired). q.member_id) (sym w.answer),
      ap (λ (q : Paired). q.member_name) (sym w.answer),
      refl,
    )
