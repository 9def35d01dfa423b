-- ===== src/Store/Durable/Commit.antt =====
-- internal/store/store.go: the rule for a method that logs an event and then changes the indexes.
use talkintent.Common.{Bool, true, false, if◌then◌else◌, ◌≡◌, refl, ap, ◌∙◌, List, [], ◌∷◌, ◌++◌}
use talkintent.Common.Effect.{Result, ok, err, continue, Keeps, ◌>>=◌, ◌>>◌}
use talkintent.Store.Library.{Library}
use talkintent.Store.State.{Index, empty_index}
use talkintent.Store.Event.{Event, apply_event, replay_from, replay_from-append}
use talkintent.Store.Journal.{Store, Error, Action, closed, write, written, append_event, set_index}
use talkintent.Store.Queries.{log_only}
use talkintent.Store.Durable.View.{view, IsKeyed}

-- The indexes that a restart rebuilds from the log have the view of those in memory.
pub record IsDurable (lib : Library) (s : Store) : Type 0 where
  pub same_view : view (replay_from lib empty_index s.log) ≡ view s.index
  pub keyed : IsKeyed s.index.queries

-- The file is open and no write will be refused.
pub record IsHealthy (s : Store) : Type 0 where
  pub opened : s.is_open ≡ true
  pub no_faults : s.writes ≡ []

-- What `appendEventLocked` does: the event is in the log, or nothing but the list of coming
-- writes has changed. Behind an open file without faults it is always the first.
data Appended (e : Event) (s : Store) : Result Error (Unit {0}) × Store → Type 0 where
  logged :
      (t : Store)
      → t.index ≡ s.index
      → t.log ≡ s.log ++ e ∷ []
      → (IsHealthy s → IsHealthy t)
      → Appended e s (ok tt, t)
  refused :
      (x : Error) (t : Store)
      → t.index ≡ s.index
      → t.log ≡ s.log
      → ¬ (IsHealthy s)
      → Appended e s (err x, t)

write-Appended :
    (e : Event) (s : Store) (ws : List Bool) → s.writes ≡ ws → Appended e s (write e ws s)
write-Appended e s [] h =
    logged (written e s) refl refl (λ k. record { opened = k.opened; no_faults = k.no_faults })
write-Appended e s (true ∷ ws) h = logged _ refl refl (λ k. cc (h, k.no_faults))
write-Appended e s (false ∷ ws) h = refused _ _ refl refl (λ k. cc (h, k.no_faults))

append-Appended :
    (e : Event) (s : Store) (b : Bool)
    → s.is_open ≡ b
    → Appended e s (if b then write e s.writes s else (err closed, s))
append-Appended e s true h = write-Appended e s s.writes refl
append-Appended e s false h = refused _ _ refl refl (λ k. cc (h, k.opened))

append_event-Appended : (e : Event) (s : Store) → Appended e s (append_event e s)
unfolding append_event
append_event-Appended e s = append-Appended e s s.is_open refl

module _ (lib : Library) where
  -- The event and the change in memory agree on the view, and the ids stay in their places.
  pub record Mirrors (e : Event) (f : Index → Index) (x : Index) : Type 0 where
    pub same : (a : Index) → view a ≡ view x → view (apply_event lib a e) ≡ view (f x)
    pub keyed : IsKeyed x.queries → IsKeyed (f x).queries

  logged-IsDurable :
      (e : Event) (f : Index → Index) (s t : Store)
      → Mirrors e f s.index
      → IsDurable lib s
      → t.index ≡ f s.index
      → t.log ≡ s.log ++ e ∷ []
      → IsDurable lib t
  logged-IsDurable e f s t m d i l = record {
    same_view =
        rw (i, l, replay_from-append lib empty_index s.log (e ∷ []))
          (unfold replay_from in m.same _ d.same_view);
    keyed = rw i (m.keyed d.keyed);
  }

  unlogged-IsDurable :
      (s t : Store) → IsDurable lib s → t.index ≡ s.index → t.log ≡ s.log → IsDurable lib t
  unlogged-IsDurable s t d i l = record { same_view = rw (i, l) d.same_view; keyed = rw i d.keyed }

  commit-at :
      (e : Event) (f : Index → Index) (s : Store) (p : Result Error (Unit {0}) × Store)
      → Appended e s p
      → Mirrors e f s.index
      → IsDurable lib s
      → IsDurable lib (continue p.0 (λ _. set_index f) p.1).1
  unfolding set_index
  commit-at e f s _ (logged t i l h) m d = logged-IsDurable e f s _ m d (ap f i) l
  commit-at e f s _ (refused x t i l h) m d = unlogged-IsDurable s t d i l

  -- An event is logged, and the indexes change with it. A refused write ends the method before
  -- the change.
  pub commit-IsDurable :
      (e : Event) (f : Index → Index) (s : Store)
      → Mirrors e f s.index
      → IsDurable lib s
      → IsDurable lib ((append_event e >> set_index f) s).1
  unfolding ◌>>=◌
  commit-IsDurable e f s m d = commit-at e f s _ (append_event-Appended e s) m d

  -- The same with the rest of the method behind it.
  commit-then-at :
      {A : Type 0} (e : Event) (f : Index → Index) (k : Action A) (s : Store)
      (p : Result Error (Unit {0}) × Store)
      → Appended e s p
      → Mirrors e f s.index
      → IsDurable lib s
      → Keeps (IsDurable lib) k
      → IsDurable lib (continue p.0 (λ _. set_index f >> k) p.1).1
  unfolding set_index ◌>>=◌
  commit-then-at e f k s _ (logged t i l h) m d keep =
      keep.at _ (logged-IsDurable e f s _ m d (ap f i) l)
  commit-then-at e f k s _ (refused x t i l h) m d keep = unlogged-IsDurable s t d i l

  pub Keeps-commit :
      (e : Event) (f : Index → Index)
      → ((x : Index) → Mirrors e f x)
      → Keeps (IsDurable lib) (append_event e >> set_index f)
  Keeps-commit e f m = record { at = λ s d. commit-IsDurable e f s (m s.index) d }

  pub Keeps-commit_then :
      {A : Type 0} (e : Event) (f : Index → Index) (k : Action A)
      → ((x : Index) → Mirrors e f x)
      → Keeps (IsDurable lib) k
      → Keeps (IsDurable lib) (append_event e >> (set_index f >> k))
  unfolding ◌>>=◌
  Keeps-commit_then e f k m keep = record {
    at = λ s d. commit-then-at e f k s _ (append_event-Appended e s) (m s.index) d keep;
  }

  -- The other order, with the error of the write dropped: the file must be healthy.
  pub record IsSound (s : Store) : Type 0 where
    pub is_durable : IsDurable lib s
    pub healthy : IsHealthy s

  log_only-at :
      (e : Event) (f : Index → Index) (s t : Store) (p : Result Error (Unit {0}) × Store)
      → Appended e t p
      → Mirrors e f s.index
      → IsDurable lib s
      → IsHealthy t
      → t.index ≡ f s.index
      → t.log ≡ s.log
      → IsSound p.1
  log_only-at e f s t _ (logged u i l h) m d k j n = record {
    is_durable = logged-IsDurable e f s u m d (i ∙ j) (l ∙ ap (λ es. es ++ e ∷ []) n);
    healthy = h k;
  }
  log_only-at e f s t _ (refused x u i l h) m d k j n = absurd (h k)

  pub log_only-IsSound :
      (e : Event) (f : Index → Index) (s : Store)
      → Mirrors e f s.index
      → IsSound s
      → IsSound ((set_index f >> log_only e) s).1
  unfolding ◌>>=◌ set_index log_only
  log_only-IsSound e f s m h =
      log_only-at e f s (record s { index = f s.index }) _ (append_event-Appended e _) m
        h.is_durable (record { opened = h.healthy.opened; no_faults = h.healthy.no_faults }) refl
        refl
