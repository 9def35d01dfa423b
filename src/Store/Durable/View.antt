-- ===== src/Store/Durable/View.antt =====
-- internal/store/store.go: the part of the indexes that survives a restart. `applyEvent` and the
-- methods disagree on some fields of a query, and `durable` forgets just those: the queue position
-- always, the time of completion while the query is not final, the token counts once it was queued
-- again or expired, and an empty list of tools against a missing one.
use mathlib.Core.Option
use talkintent.Common.{
  ℕ, ◌<◌, String, Bool, true, ◌||◌, ◌≡◌, ◌↔◌, refl, ap, ◌∙◌, sym, Option, none, some, List, [], ◌∷◌,
  arith, eq_iff, str_eq, ltb, if◌then◌else◌,
}
use talkintent.Common.GoMap
use talkintent.Common.GoMap.{GoMap}
use talkintent.Store.Records.{
  QueryDetail, no_usage, status_queued, status_expired, is_terminal, omit_empty,
}
use talkintent.Store.Library.{Library}
use talkintent.Store.State.{Index}
use talkintent.Store.Event.{QueryUpdate, query_updated, apply_event, apply_update, or_keep_list}
use talkintent.Store.Queries.{live_update, set_expired, expiry_update, bare_update}
use talkintent.Store.Queue.{set_queued}

abbrev pub loses_usage : String → Bool
loses_usage status = str_eq status status_queued || str_eq status status_expired

abbrev pub durable : QueryDetail → QueryDetail
durable q = record q {
  queue_position = 0;
  completed_at = if is_terminal q.status then q.completed_at else 0;
  token_usage = if loses_usage q.status then no_usage else q.token_usage;
  tools_used = omit_empty q.tools_used;
}

abbrev pub map_values {ℓ κ} : {V : Type ℓ} {W : Type κ} → (V → W) → GoMap V → GoMap W
map_values f [] = []
map_values f ((k, v) ∷ m) = (k, f v) ∷ map_values f m

abbrev pub view : Index → Index
view x = record x { queries = map_values durable x.queries }

-- Every query stands under its own id.
abbrev pub IsKeyed : GoMap QueryDetail → Type 0
IsKeyed [] = Unit
IsKeyed ((k, q) ∷ m) = (k ≡ q.query_id) × IsKeyed m

module _ {ℓ κ} {V : Type ℓ} {W : Type κ} (f : V → W) where
  pub lookup-map_values :
      (k : String) (m : GoMap V) → GoMap.lookup k (map_values f m) ≡ Option.map f (GoMap.lookup k m)
  lookup-map_values k [] = refl
  lookup-map_values k ((j, v) ∷ m) = ground (arith, lookup-map_values k m)

  pub insert-map_values :
      (k : String) (v : V) (m : GoMap V)
      → map_values f (GoMap.insert k v m) ≡ GoMap.insert k (f v) (map_values f m)
  insert-map_values k v [] = refl
  insert-map_values k v ((j, w) ∷ m) = ground (arith, insert-map_values k v m)

  pub modify-map_values :
      (k : String) (g : V → V) (h : W → W) (m : GoMap V)
      → ((v : V) → f (g v) ≡ h (f v))
      → map_values f (GoMap.modify k g m) ≡ GoMap.modify k h (map_values f m)
  modify-map_values k g h [] c = refl
  modify-map_values k g h ((j, w) ∷ m) c = ground (arith, c w, modify-map_values k g h m c)

  -- A change that `f` does not see.
  pub modify-map_values_same :
      (k : String) (g : V → V) (m : GoMap V)
      → ((v : V) → f (g v) ≡ f v)
      → map_values f (GoMap.modify k g m) ≡ map_values f m
  modify-map_values_same k g [] c = refl
  modify-map_values_same k g ((j, w) ∷ m) c = ground (arith, c w, modify-map_values_same k g m c)

pub lookup-IsKeyed :
    (k : String) (m : GoMap QueryDetail) (q : QueryDetail)
    → IsKeyed m
    → GoMap.lookup k m ≡ some q
    → q.query_id ≡ k
lookup-IsKeyed k [] q h e = cc
lookup-IsKeyed k ((j, w) ∷ m) q h e = ground (arith, eq_iff j k, lookup-IsKeyed k m q)

pub insert-IsKeyed :
    (q : QueryDetail) (m : GoMap QueryDetail) → IsKeyed m → IsKeyed (GoMap.insert q.query_id q m)
insert-IsKeyed q [] h = (refl, tt)
insert-IsKeyed q ((j, w) ∷ m) h = ground (arith, eq_iff j q.query_id, insert-IsKeyed q m)

pub modify-IsKeyed :
    (k : String) (f : QueryDetail → QueryDetail) (m : GoMap QueryDetail)
    → ((q : QueryDetail) → (f q).query_id ≡ q.query_id)
    → IsKeyed m
    → IsKeyed (GoMap.modify k f m)
modify-IsKeyed k f [] c h = tt
modify-IsKeyed k f ((j, w) ∷ m) c h = ground (arith, c w, modify-IsKeyed k f m c)

omit_empty-or_keep_list :
    (new old : Option (List String))
    → omit_empty (or_keep_list new (omit_empty old)) ≡ omit_empty (or_keep_list new old)
omit_empty-or_keep_list (some l) old = refl
omit_empty-or_keep_list none none = refl
omit_empty-or_keep_list none (some []) = refl
omit_empty-or_keep_list none (some (x ∷ xs)) = refl

-- The time of completion that replaying leaves: with a final status it is the event's.
completed_lem :
    (terminal : Bool) (at old old' : ℕ)
    → (terminal ≡ true → 0 < at)
    → (if terminal then (if ltb 0 at then at else old) else 0)
      ≡ (if terminal then (if ltb 0 at then at else old') else 0)
completed_lem terminal at old old' h = ground arith

completed_live :
    (terminal : Bool) (at old old' : ℕ)
    → 0 < at
    → (if terminal then (if terminal then at else old) else 0)
      ≡ (if terminal then (if ltb 0 at then at else old') else 0)
completed_live terminal at old old' h = ground arith

-- Whether the queries stand under their ids is a matter of the view.
pub map_values-IsKeyed : (m : GoMap QueryDetail) → IsKeyed m ↔ IsKeyed (map_values durable m)
map_values-IsKeyed [] = (λ h. tt, λ h. tt)
map_values-IsKeyed ((k, q) ∷ m) =
    (λ h. (h.0, (map_values-IsKeyed m).0 h.1), λ h. (h.0, (map_values-IsKeyed m).1 h.1))

-- Replaying an update is a function of the durable part alone.
pub durable-apply_update :
    (u : QueryUpdate) (q : QueryDetail)
    → (is_terminal u.status ≡ true → 0 < u.completed_at)
    → durable (apply_update u q) ≡ durable (apply_update u (durable q))
durable-apply_update u q h = λ i. record (durable (apply_update u q)) {
  completed_at =
      completed_lem (is_terminal u.status) u.completed_at q.completed_at (durable q).completed_at h
        i;
  tools_used = sym (omit_empty-or_keep_list u.tools_used q.tools_used) i;
}

pub durable-live_update :
    (u : QueryUpdate) (q : QueryDetail)
    → 0 < u.completed_at
    → durable (live_update u q) ≡ durable (apply_update u (durable q))
durable-live_update u q h = λ i. record (durable (apply_update u q)) {
  completed_at =
      completed_live (is_terminal u.status) u.completed_at q.completed_at (durable q).completed_at h
        i;
  tools_used = sym (omit_empty-or_keep_list u.tools_used q.tools_used) i;
}

-- The expiry and the requeueing in memory, against their events.
pub durable-set_expired :
    (now : ℕ) (id : String) (q : QueryDetail)
    → 0 < now
    → durable (set_expired now q) ≡ durable (apply_update (expiry_update now id) (durable q))
durable-set_expired now id q h = λ i. record (durable (set_expired now q)) {
  completed_at = completed_live true now q.completed_at (durable q).completed_at h i;
  tools_used = sym (omit_empty-or_keep_list none q.tools_used) i;
}

pub durable-set_queued :
    (id : String) (q : QueryDetail)
    → durable (set_queued q) ≡ durable (apply_update (bare_update id status_queued) (durable q))
durable-set_queued id q = λ i. record (durable (set_queued q)) {
  tools_used = sym (omit_empty-or_keep_list none q.tools_used) i;
}

-- Replaying an update changes the view by a function of the view.
pub view-query_updated :
    (lib : Library) (u : QueryUpdate) (x : Index)
    → (is_terminal u.status ≡ true → 0 < u.completed_at)
    → view (apply_event lib x (query_updated u)) ≡ record x {
      queries = GoMap.modify u.id (λ q. durable (apply_update u q)) (map_values durable x.queries);
    }
unfolding apply_event
view-query_updated lib u x h = λ i. record x {
  queries =
      modify-map_values durable u.id (apply_update u) (λ q. durable (apply_update u q)) x.queries
        (λ q. durable-apply_update u q h) i;
}

-- A change in memory whose durable part is that of the event keeps two views equal.
pub view-change :
    (lib : Library) (u : QueryUpdate) (f : QueryDetail → QueryDetail) (a b : Index)
    → (is_terminal u.status ≡ true → 0 < u.completed_at)
    → ((q : QueryDetail) → durable (f q) ≡ durable (apply_update u (durable q)))
    → view a ≡ view b
    → view (apply_event lib a (query_updated u))
      ≡ view (record b { queries = GoMap.modify u.id f b.queries })
view-change lib u f a b h c e =
    view-query_updated lib u a h
    ∙ ap (λ (x : Index). record x { queries = GoMap.modify u.id g x.queries }) e
    ∙ (λ i. record b { queries = sym (modify-map_values durable u.id f g b.queries c) i })
  where
    g : QueryDetail → QueryDetail
    g q = durable (apply_update u q)
