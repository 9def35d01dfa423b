-- ===== src/Daemon/Serve/Histories.antt =====
-- internal/daemon/daemon.go: what holds after any events, because every event keeps it.
use mathlib.Core.Path.{subst}
use talkintent.Common.{
  ℕ, ◌+◌, ◌≤◌, arith, Bool, true, false, ◌≡◌, refl, Option, none, some, List, [], ◌∷◌,
}
use talkintent.Daemon.Dispatch.{DaemonLibrary, Settings, Agent}
use talkintent.Daemon.State.{Daemon, Event}
use talkintent.Daemon.Serve.{step, follow, only_if}

module _ (P : Daemon → Type 0) where
  -- Of the next state, where there is one.
  abbrev pub Holds : Option Daemon → Type 0
  Holds none = Unit
  Holds (some d) = P d

  pub only_if-Holds : (b : Bool) (d : Daemon) → (b ≡ true → P d) → Holds (only_if b d)
  only_if-Holds true d h = h refl
  only_if-Holds false d h = tt

  module _ (lib : DaemonLibrary) (cfg : Settings) (agent : ℕ → Agent)
      (keep : (e : Event) (d : Daemon) → P d → Holds (step lib cfg agent e d)) where
    next-Holds :
        (es : List Event) (o : Option Daemon)
        → Holds o
        → ((d : Daemon) → P d → Holds (follow lib cfg agent es d))
        → Holds (elim o [ none ↦ none | some d' ↦ follow lib cfg agent es d' ])
    next-Holds es none h rest = tt
    next-Holds es (some d) h rest = rest d h

    all-Holds : (es : List Event) (d : Daemon) → P d → Holds (follow lib cfg agent es d)
    unfolding follow
    all-Holds [] d h = h
    all-Holds (e ∷ es) d h = next-Holds es (step lib cfg agent e d) (keep e d h) (all-Holds es)

    pub follow-keeps :
        (es : List Event) (d d' : Daemon) → P d → follow lib cfg agent es d ≡ some d' → P d'
    follow-keeps es d d' h e = subst Holds e (all-Holds es d h)

abbrev pub sum_of : (Event → ℕ) → List Event → ℕ
sum_of f [] = 0
sum_of f (e ∷ es) = f e + sum_of f es

-- What the events cost is paid by what they bring in and by the state.
module _ (P : Daemon → Type 0) (cost gain : Event → ℕ) (size : Daemon → ℕ) where
  abbrev pub Pays : ℕ → ℕ → Daemon → Daemon → Type 0
  Pays c g d d' = P d' × (c + size d' ≤ g + size d)

  module _ (lib : DaemonLibrary) (cfg : Settings) (agent : ℕ → Agent)
      (keep : (e : Event) (d : Daemon)
        → P d
        → Holds (Pays (cost e) (gain e) d) (step lib cfg agent e d)) where
    next-Pays :
        (e : Event) (es : List Event) (d : Daemon) (o : Option Daemon)
        → Holds (Pays (cost e) (gain e) d) o
        → ((d' : Daemon)
            → P d'
            → Holds (Pays (sum_of cost es) (sum_of gain es) d') (follow lib cfg agent es d'))
        → Holds
            (Pays (sum_of cost (e ∷ es)) (sum_of gain (e ∷ es)) d)
            (elim o [ none ↦ none | some d' ↦ follow lib cfg agent es d' ])
    next-Pays e es d none h rest = tt
    next-Pays e es d (some u) h rest = later (follow lib cfg agent es u) (rest u h.0)
      where
        later :
            (o : Option Daemon)
            → Holds (Pays (sum_of cost es) (sum_of gain es) u) o
            → Holds (Pays (sum_of cost (e ∷ es)) (sum_of gain (e ∷ es)) d) o
        later none k = tt
        later (some v) k = (k.0, omega (arith, h.1, k.1))

    all-Pays :
        (es : List Event) (d : Daemon)
        → P d
        → Holds (Pays (sum_of cost es) (sum_of gain es) d) (follow lib cfg agent es d)
    unfolding follow
    all-Pays [] d h = (h, omega arith)
    all-Pays (e ∷ es) d h = next-Pays e es d (step lib cfg agent e d) (keep e d h) (all-Pays es)

    pub follow-Pays :
        (es : List Event) (d d' : Daemon)
        → P d
        → follow lib cfg agent es d ≡ some d'
        → Pays (sum_of cost es) (sum_of gain es) d d'
    follow-Pays es d d' h e =
        subst (Holds (Pays (sum_of cost es) (sum_of gain es) d)) e (all-Pays es d h)
