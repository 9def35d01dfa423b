-- ===== src/Daemon/Serve/Totals.antt =====
-- internal/daemon/daemon.go: sums over the goroutines of a daemon.
use talkintent.Common.{
  ℕ, ◌+◌, Bool, true, false, ◌≡◌, refl, Option, none, some, List, [], ◌∷◌, ◌++◌, ◌==◌, arith,
  Bool-cases, inl, inr,
}
use talkintent.Daemon.State.{Task, take_task, cancel_task, cancel_all}

-- A sum over the tasks.
abbrev pub total : (Task → ℕ) → List Task → ℕ
total w [] = 0
total w (t ∷ ts) = w t + total w ts

abbrev pub one_if : Bool → ℕ
one_if true = 1
one_if false = 0

module _ (w : Task → ℕ) where
  -- What is taken out and what is left add up.
  abbrev pub AddsUp : List Task → Option (Task × List Task) → Type 0
  AddsUp ts none = Unit
  AddsUp ts (some (t, rest)) = total w ts ≡ w t + total w rest

  AddsUp-later :
      (u : Task) (us : List Task) (o : Option (Task × List Task))
      → AddsUp us o
      → AddsUp (u ∷ us) (elim o [ none ↦ none | some (v, rest) ↦ some (v, u ∷ rest) ])
  AddsUp-later u us none a = tt
  AddsUp-later u us (some (v, rest)) a = omega arith

  pub AddsUp-take_task : (id : ℕ) (ts : List Task) → AddsUp ts (take_task id ts)
  AddsUp-take_task id [] = tt
  AddsUp-take_task id (u ∷ us) = elim (Bool-cases (u.id == id)) [
    | inl y ↦ rw y refl
    | inr z ↦ rw z (AddsUp-later u us (take_task id us) (AddsUp-take_task id us))
  ]

  pub total-append : (ts : List Task) (t : Task) → total w (ts ++ t ∷ []) ≡ total w ts + w t
  total-append [] t = omega arith
  total-append (u ∷ us) t = omega (arith, total-append us t)

  module _ (blind : (t : Task) (b : Bool) → w (record t { is_cancelled = b }) ≡ w t) where
    pub total-cancel_task : (id : ℕ) (ts : List Task) → total w (cancel_task id ts) ≡ total w ts
    total-cancel_task id [] = refl
    total-cancel_task id (t ∷ ts) = omega (arith, blind t _, total-cancel_task id ts)

    pub total-cancel_all : (ts : List Task) → total w (cancel_all ts) ≡ total w ts
    total-cancel_all [] = refl
    total-cancel_all (t ∷ ts) = omega (arith, blind t true, total-cancel_all ts)
