-- ===== src/Graph/Router/Probes.antt =====
-- The probes of a target, over any calls that need the primary engine.
use josu.Common.{
  ℕ, ◌+◌, ◌≤◌, true, false, none, some, List, [], ◌∷◌, ◌≡◌, refl, arith, if◌then◌else◌, inl, inr,
  Bool-cases,
}
use josu.Graph.Router.{
  RoutingEngine, Probe, reached, reprobe_interval, reprobes, require_primary, probed, answer,
}

-- A call: its time, and what a probe would answer.
abbrev pub Call : Type 0 → Type 0
Call E = ℕ × Probe E

module _ {E : Type 0} where
  abbrev pub run : List (Call E) → RoutingEngine E → RoutingEngine E
  run [] r = r
  run ((now, probe) ∷ calls) r = run calls (require_primary now probe r).1

  -- The times at which the target is probed.
  abbrev pub probe_times : List (Call E) → RoutingEngine E → List ℕ
  probe_times [] r = []
  probe_times ((now, probe) ∷ calls) r =
      let rest = probe_times calls (require_primary now probe r).1 in
      if reprobes now r then now ∷ rest else rest

-- Each time is at least an interval after the one before it.
abbrev pub IsSpaced : ℕ → List ℕ → Type 0
IsSpaced last [] = Unit {0}
IsSpaced last (t ∷ ts) = (last + reprobe_interval ≤ t) × IsSpaced t ts

module _ {E : Type 0} where
  require_primary-idle :
      (now : ℕ) (probe : Probe E) (r : RoutingEngine E)
      → reprobes now r ≡ false
      → require_primary now probe r ≡ (answer r, r)
  unfolding require_primary
  require_primary-idle now probe r idle = rw idle refl

  require_primary-probed :
      (now : ℕ) (probe : Probe E) (r : RoutingEngine E)
      → reprobes now r ≡ true
      → require_primary now probe r ≡ (answer (probed now probe r), probed now probe r)
  unfolding require_primary
  require_primary-probed now probe r due = rw due refl

  reprobes-due :
      (now : ℕ) (r : RoutingEngine E)
      → reprobes now r ≡ true
      → r.last_reprobe_at + reprobe_interval ≤ now
  unfolding reprobes
  reprobes-due now r due = ground arith

  reprobes-found :
      (now : ℕ) (e : E) (r : RoutingEngine E) → r.primary ≡ some e → reprobes now r ≡ false
  unfolding reprobes
  reprobes-found now e r found = ground arith

  reprobes-unset :
      (now : ℕ) (r : RoutingEngine E)
      → r.primary ≡ none
      → r.has_factory ≡ true
      → r.last_reprobe_at + reprobe_interval ≤ now
      → reprobes now r ≡ true
  unfolding reprobes
  reprobes-unset now r unset factory due = ground arith

  answer-found : (e : E) (r : RoutingEngine E) → r.primary ≡ some e → answer r ≡ reached e
  answer-found e r found = ground arith

  -- Over any calls, two probes of the target are at least an interval apart, the first of them also
  -- from the last one before.
  pub probe_times-IsSpaced :
      (calls : List (Call E)) (r : RoutingEngine E)
      → IsSpaced r.last_reprobe_at (probe_times calls r)
  probe_times-IsSpaced [] r = tt
  probe_times-IsSpaced ((now, probe) ∷ calls) r = elim (Bool-cases (reprobes now r)) [
    | inl due ↦
        rw (due, require_primary-probed now probe r due)
          (reprobes-due now r due, probe_times-IsSpaced calls (probed now probe r))
    | inr idle ↦ rw (idle, require_primary-idle now probe r idle) (probe_times-IsSpaced calls r)
  ]

  kept :
      (e : E) (calls : List (Call E)) (r : RoutingEngine E)
      → r.primary ≡ some e
      → ((run calls r).primary ≡ some e) × (probe_times calls r ≡ [])
  kept e [] r found = (found, refl)
  kept e ((now, probe) ∷ calls) r found =
      let idle = reprobes-found now e r found in
      rw (run, idle, require_primary-idle now probe r idle) (kept e calls r found)

  answered :
      (now : ℕ) (probe : Probe E) (e : E) (r : RoutingEngine E)
      → r.primary ≡ some e
      → (require_primary now probe r).0 ≡ reached e
  answered now probe e r found =
      rw (require_primary-idle now probe r (reprobes-found now e r found)) (answer-found e r found)

  -- Once an interval has passed since the last probe, a call makes another: if the target answers
  -- with an engine, the call gets it, and so does every later one, and no call probes again.
  pub require_primary-recovers :
      (now : ℕ) (e : E) (r : RoutingEngine E) (calls : List (Call E)) (later : ℕ) (probe : Probe E)
      → r.primary ≡ none
      → r.has_factory ≡ true
      → r.last_reprobe_at + reprobe_interval ≤ now
      → ((require_primary now (some e, none) r).0 ≡ reached e)
        × (((require_primary later probe (run calls (require_primary now (some e, none) r).1)).0
              ≡ reached e)
            × (probe_times calls (require_primary now (some e, none) r).1 ≡ []))
  require_primary-recovers now e r calls later probe unset factory due =
      let found = probed now (some e, none) r in
      rw (require_primary-probed now (some e, none) r (reprobes-unset now r unset factory due)) (
        refl,
        (
          answered later probe e (run calls found) (kept e calls found refl).0,
          (kept e calls found refl).1,
        ),
      )
