-- ===== src/Store/Durable/Completion.antt =====
-- internal/store/store.go: where `UpdateQueryStatus` and the replay of its event part. In memory
-- only a final status sets the time of completion; the event always carries the clock.
use mathlib.Core.Option
use talkintent.Common.{
  ℕ, ◌<◌, String, false, ◌≡◌, refl, ap, ◌∙◌, sym, Option, none, some, [], ◌∷◌, ◌++◌, arith, eq_iff,
}
use talkintent.Common.GoMap
use talkintent.Common.Effect.{◌>>=◌}
use talkintent.Store.Records.{QueryDetail, is_terminal}
use talkintent.Store.Library.{Library}
use talkintent.Store.State.{Index, empty_index}
use talkintent.Store.Event.{
  QueryUpdate, query_updated, apply_event, apply_update, replay_from, replay_from-append,
}
use talkintent.Store.Journal.{Store, append_event, set_index}
use talkintent.Store.Queries.{update_query_status, live_update, normalize_status}
use talkintent.Store.Durable.View.{view, durable, lookup-map_values}
use talkintent.Store.Durable.Commit.{IsDurable, IsHealthy}
use talkintent.Store.Durable.Restart.{restart}

abbrev pub completed_of : Option QueryDetail → Option ℕ
completed_of = Option.map (λ q. q.completed_at)

abbrev pub sent : ℕ → QueryUpdate → QueryUpdate
sent now u = record u { status = normalize_status u.status; completed_at = now }

abbrev pub updated : ℕ → QueryUpdate → Store → Store
updated now u s = record s {
  index = record s.index { queries = GoMap.modify u.id (live_update (sent now u)) s.index.queries };
  log = s.log ++ query_updated (sent now u) ∷ [];
}

pub update_healthy :
    (now : ℕ) (u : QueryUpdate) (s : Store) (q : QueryDetail)
    → IsHealthy s
    → GoMap.lookup u.id s.index.queries ≡ some q
    → (update_query_status now u s).1 ≡ updated now u s
unfolding update_query_status ◌>>=◌ append_event set_index
update_healthy now u s q h e = ground arith

-- A query that one map has is in another whose durable part is the same.
has_of :
    {A B : Type 0} (f : A → B) (o r : Option A) (a : A)
    → Option.map f o ≡ Option.map f r
    → r ≡ some a
    → (b : A) × (o ≡ some b)
has_of f none none a e h = cc
has_of f none (some b) a e h = cc
has_of f (some b) r a e h = (b, refl)

-- The replayed indexes have a query where those in memory do.
replayed_has :
    (id : String) (a x : Index) (q : QueryDetail)
    → view a ≡ view x
    → GoMap.lookup id x.queries ≡ some q
    → (p : QueryDetail) × (GoMap.lookup id a.queries ≡ some p)
replayed_has id a x q e h =
    has_of durable (GoMap.lookup id a.queries) (GoMap.lookup id x.queries) q
      (sym (lookup-map_values durable id a.queries)
        ∙ ap (λ (v : Index). GoMap.lookup id v.queries) e
        ∙ lookup-map_values durable id x.queries)
      h

-- After an update to a status that is not final, such as `dispatched`, the query in memory has the
-- time of completion that it had; after a restart it has the time of the update, as if it were
-- complete. The store is in step with its log before, no write fails, and the clock is past zero.
pub update-completed_at :
    (lib : Library) (now : ℕ) (u : QueryUpdate) (s : Store) (q : QueryDetail)
    → IsDurable lib s
    → IsHealthy s
    → 0 < now
    → GoMap.lookup u.id s.index.queries ≡ some q
    → is_terminal (normalize_status u.status) ≡ false
    → let t = (update_query_status now u s).1 in
      (completed_of (GoMap.lookup u.id t.index.queries) ≡ some q.completed_at)
      × (completed_of (GoMap.lookup u.id (restart lib [] t).index.queries) ≡ some now)
unfolding restart apply_event
update-completed_at lib now u s q d h later e f =
    let (p, g) = replayed_has u.id (replay_from lib empty_index s.log) s.index q d.same_view e in
    rw (update_healthy now u s q h e) (
      ground (
        arith,
        GoMap.lookup-modify u.id u.id (live_update (sent now u)) s.index.queries,
        eq_iff u.id u.id,
      ),
      rw (replay_from-append lib empty_index s.log (query_updated (sent now u) ∷ [])) (
          unfold replay_from in
          ground (
            arith,
            GoMap.lookup-modify u.id u.id (apply_update (sent now u))
                (replay_from lib empty_index s.log).queries,
            eq_iff u.id u.id,
          )),
    )
