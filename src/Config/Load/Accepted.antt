-- ===== src/Config/Load/Accepted.antt =====
-- A config that is loaded, and the objects that the daemon and a run make of its numbers.
use josu.Common.{
  Bool, Option, none, some, List, ◌++◌, map, ◌≡◌, refl, ◌⊎◌, inl, inr, Option-cases, subst,
}
use josu.Config.Toml.{Toml}
use josu.Config.Settings.{
  load_delegate_cooldown_config, section_of, load_wall_clock_timeout_seconds,
}
use josu.Config.Settings.Limits.{
  IsPositive, IsPositiveFinite, load_seconds-IsPositiveFinite,
  load_delegate_cooldown_config-IsPositive,
}
use josu.Config.Load.{
  of_graph, of_orchestrator, of_chains, of_delegate, default_config, JosuConfig, Loading, loaded,
  raised, ConfigFile, Readers, LoadWarning, load_settings, load_graph,
  default_wall_clock_timeout_seconds, load_graph_engines_config, load_orchestrator_config,
  load_orchestrator, load_chains, load_document, load_file, load_config, check_permissions,
}
use josu.Config.Chains.Load as Chains
use josu.Config.Chains.Load.{load_chains_config}
use josu.Config.Delegate.{load_delegate_config}
use josu.Delegate.Cooldown as Cooldown
use josu.Orchestrator.CircuitBreaker as CircuitBreaker

-- The numbers are within their limits.
abbrev pub IsUsable : JosuConfig → Type 0
IsUsable c =
    IsPositiveFinite c.wall_clock_timeout_seconds
    × (IsPositive c.candidate_failure_threshold × IsPositiveFinite c.candidate_cooldown_seconds)

-- A predicate on what is loaded.
abbrev pub Loads : (JosuConfig → Type 0) → Loading → Type 0
Loads P (loaded c) = P c
Loads P (raised part) = Unit {0}

Loaded-cases :
    {A : Type 0} (l : Chains.Loaded A)
    → ((e : Chains.LoadError) × (l ≡ Chains.raised e)) ⊎ ((a : A) × (l ≡ Chains.ok a))
Loaded-cases (Chains.raised e) = inl (e, refl)
Loaded-cases (Chains.ok a) = inr (a, refl)

module _ (readers : Readers) (document : Toml) where
  load_settings-IsUsable :
      (config : JosuConfig) → Loads IsUsable (load_settings readers document config)
  unfolding load_settings
  load_settings-IsUsable config =
      elim (Option-cases
        (load_wall_clock_timeout_seconds readers.too_large readers.parse_float document)) [
          | inl failed ↦ rw (Loads, failed) tt
          | inr ((timeout, told), timed) ↦
              elim (Option-cases (
                load_delegate_cooldown_config readers.too_large readers.parse_float
                  readers.parse_int document)) [
                    | inl failed ↦ rw (Loads, timed, failed) tt
                    | inr ((threshold, (cooldown, more)), read) ↦
                        rw (Loads, timed, read)
                          (
                            load_seconds-IsPositiveFinite readers.too_large readers.parse_float
                                "wall_clock_timeout_seconds" default_wall_clock_timeout_seconds
                                (1199999, refl) (section_of "orchestrator" document) timeout told
                                timed,
                            load_delegate_cooldown_config-IsPositive readers.too_large
                                readers.parse_float readers.parse_int document threshold cooldown
                                more read,
                          )
                  ]
        ]

  load_graph-IsUsable : (config : JosuConfig) → Loads IsUsable (load_graph readers document config)
  unfolding load_graph
  load_graph-IsUsable config =
      elim (Option-cases (load_graph_engines_config readers.engine readers.in_environ document)) [
        | inl failed ↦ rw (Loads, failed) tt
        | inr (read, found) ↦
            rw (Loads, found)
              (load_settings-IsUsable (record config {
                graph_engines = read.0;
                warnings = config.warnings ++ map of_graph read.1;
              }))
      ]

  load_orchestrator-IsUsable :
      (config : JosuConfig) → Loads IsUsable (load_orchestrator readers document config)
  unfolding load_orchestrator
  load_orchestrator-IsUsable config =
      elim (Option-cases (load_orchestrator_config readers.adapter document)) [
        | inl failed ↦ rw (Loads, failed) tt
        | inr (read, found) ↦
            rw (Loads, found)
              (load_graph-IsUsable (record config {
                orchestrator = read.0;
                warnings = config.warnings ++ map of_orchestrator read.1;
              }))
      ]

  load_chains-IsUsable :
      (config : JosuConfig) → Loads IsUsable (load_chains readers document config)
  unfolding load_chains
  load_chains-IsUsable config =
      elim (Loaded-cases (load_chains_config readers.chain readers.flag document)) [
        | inl (e, failed) ↦ rw (Loads, failed) tt
        | inr (read, found) ↦
            rw (Loads, found)
              (load_orchestrator-IsUsable (record config {
                chains = read.0;
                warnings = config.warnings ++ map of_chains read.1;
              }))
      ]

  load_document-IsUsable :
      (config : JosuConfig) → Loads IsUsable (load_document readers document config)
  unfolding load_document
  load_document-IsUsable config =
      elim (Option-cases (load_delegate_config readers.candidate readers.in_environ document)) [
        | inl failed ↦ rw (Loads, failed) tt
        | inr (read, found) ↦
            rw (Loads, found)
              (load_chains-IsUsable (record config {
                delegate = read.0;
                warnings = config.warnings ++ map of_delegate read.1;
              }))
      ]

module _ (readers : Readers) where
  load_file-IsUsable :
      (file : ConfigFile) (told : Option (List LoadWarning))
      → Loads IsUsable (load_file readers file told)
  unfolding load_file
  load_file-IsUsable file none = tt
  load_file-IsUsable file (some told) = elim (Option-cases file.document) [
    | inl failed ↦ rw (Loads, failed) tt
    | inr (document, read) ↦
        rw (Loads, read)
          (load_document-IsUsable readers document (record default_config { warnings = told }))
  ]

  load_config-IsUsable :
      (file : Option ConfigFile) (strict : Bool) → Loads IsUsable (load_config readers file strict)
  unfolding load_config
  load_config-IsUsable none strict = ((1199999, refl), ((2, refl), (59999, refl)))
  load_config-IsUsable (some file) strict =
      load_file-IsUsable file (check_permissions file.mode strict)

-- What both constructors make of the numbers.
abbrev pub IsAccepted : JosuConfig → Type 0
IsAccepted c =
    ((b : CircuitBreaker.CircuitBreaker) × (CircuitBreaker.make c.wall_clock_timeout_seconds
        ≡ some b))
    × ((store : Cooldown.CandidateCooldownStore) × (Cooldown.make c.candidate_failure_threshold
            c.candidate_cooldown_seconds
          ≡ some store))

accepted : (c : JosuConfig) → IsUsable c → IsAccepted c
unfolding CircuitBreaker.make Cooldown.make
accepted c ((n, timed), ((t, failures), (m, cooled))) =
    rw (timed, failures, cooled) ((_, refl), (_, refl))

-- Whatever stands in the file, strictly read or not, a config that is loaded has a timeout with which
-- the circuit breaker of a run can be made, and a threshold and a time with which the cooldown store
-- can: neither constructor raises its ValueError.
pub load_config-IsAccepted :
    (readers : Readers) (file : Option ConfigFile) (strict : Bool) (c : JosuConfig)
    → load_config readers file strict ≡ loaded c
    → IsAccepted c
load_config-IsAccepted readers file strict c h =
    accepted c (subst (Loads IsUsable) h (load_config-IsUsable readers file strict))
