-- ===== src/Proactive/Projection.antt =====
-- The projection resolves to what it was made from.
use josu.Common.{
  true, String, some, List, [], ◌∷◌, ◌≡◌, refl, sym, ◌∙◌, arith, All, All-filter_of, filter-All,
  eq_string, eq_iff, inl, inr, Option-cases, Bool-cases, ◌==◌, subst,
}
use josu.Common.Dict
use josu.Common.Dict.{lookup-insert}
use josu.Config.Delegate.{DelegateCandidate}
use josu.Config.Chains.{
  ChainsConfig, Registry, is_local, find_chain, lookup_candidates, resolve_chain,
  resolve_proactive_check_chain, proactive_check_task_type,
}
use josu.Config.Chains.Resolve.{
  resolve_proactive-eq-locals, resolve_proactive_none, resolve_proactive-local,
  resolve_chain-eq-candidates_of,
}
use josu.Proactive.{by_name, names_of, local_chains_config, project, local_only_execution_inputs}

-- A registry keeps every candidate under its own name.
abbrev pub IsKeyed : Registry → Type 0
IsKeyed registry =
    (name : String) (c : DelegateCandidate) → Dict.lookup name registry ≡ some c → c.name ≡ name

-- The registry finds each of the candidates by its name.
abbrev pub Finds : Registry → List DelegateCandidate → Type 0
Finds registry = All (λ c. Dict.lookup c.name registry ≡ some c)

pub lookup_candidates-Finds :
    (names : List String) (registry : Registry)
    → IsKeyed registry
    → Finds registry (lookup_candidates names registry)
unfolding lookup_candidates
lookup_candidates-Finds [] registry keyed = tt
lookup_candidates-Finds (name ∷ names) registry keyed =
    elim (Option-cases (Dict.lookup name registry)) [
      | inl absent ↦ rw (absent, lookup_candidates) (lookup_candidates-Finds names registry keyed)
      | inr (c, found) ↦
          rw (found, lookup_candidates)
            (
              subst (λ n. Dict.lookup n registry ≡ some c) (sym (keyed name c found)) found,
              lookup_candidates-Finds names registry keyed,
            )
    ]

-- A name on which two registries agree is one on which they agree after more entries.
by_name-agrees :
    (registry local_registry : Registry) (cs : List DelegateCandidate) (name : String)
    → Finds registry cs
    → Dict.lookup name local_registry ≡ Dict.lookup name registry
    → Dict.lookup name (by_name local_registry cs) ≡ Dict.lookup name registry
unfolding by_name
by_name-agrees registry local_registry [] name h same = same
by_name-agrees registry local_registry (c ∷ cs) name (found, h) same =
    by_name-agrees registry (Dict.insert c.name c local_registry) cs name h
      (ground (arith, lookup-insert c.name name c local_registry, eq_iff c.name name))

pub by_name-Finds :
    (registry local_registry : Registry) (cs : List DelegateCandidate)
    → Finds registry cs
    → Finds (by_name local_registry cs) cs
unfolding by_name
by_name-Finds registry local_registry [] h = tt
by_name-Finds registry local_registry (c ∷ cs) (found, h) = (
  by_name-agrees registry (Dict.insert c.name c local_registry) cs c.name h
        (ground (arith, lookup-insert c.name c.name c local_registry, eq_iff c.name c.name))
      ∙ found,
  by_name-Finds registry (Dict.insert c.name c local_registry) cs h,
)

pub lookup_candidates-names_of :
    (registry : Registry) (cs : List DelegateCandidate)
    → Finds registry cs
    → lookup_candidates (names_of cs) registry ≡ cs
unfolding lookup_candidates
lookup_candidates-names_of registry [] h = refl
lookup_candidates-names_of registry (c ∷ cs) (found, h) =
    ground (arith, lookup_candidates-names_of registry cs h)

resolve_chain-local_chains_config :
    (cs : List DelegateCandidate) (registry : Registry)
    → Finds registry cs
    → All (λ c. c.local ≡ true) cs
    → resolve_chain proactive_check_task_type (local_chains_config cs) registry ≡ cs
unfolding find_chain
resolve_chain-local_chains_config cs registry found local =
    resolve_chain-eq-candidates_of proactive_check_task_type (local_chains_config cs) registry
    ∙ ground (arith, lookup_candidates-names_of registry cs found, filter-All is_local cs local)

resolve_proactive-Finds :
    (config : ChainsConfig) (registry : Registry)
    → IsKeyed registry
    → Finds registry (resolve_proactive_check_chain config registry)
resolve_proactive-Finds config registry keyed =
    elim (Option-cases (find_chain config.chains proactive_check_task_type)) [
      | inl absent ↦ rw (resolve_proactive_none config registry absent) tt
      | inr (chain, found) ↦ rw (resolve_proactive-eq-locals config registry chain found) (
          All-filter_of (λ c. Dict.lookup c.name registry ≡ some c) is_local
            (lookup_candidates chain.candidates registry)
            (lookup_candidates-Finds chain.candidates registry keyed))
    ]

resolve_chain-project :
    (cs : List DelegateCandidate) (registry : Registry) (local_config : ChainsConfig)
    (local_registry : Registry)
    → Finds registry cs
    → All (λ c. c.local ≡ true) cs
    → project cs ≡ some (local_config, local_registry)
    → resolve_chain proactive_check_task_type local_config local_registry ≡ cs
unfolding project
resolve_chain-project [] registry local_config local_registry found local h = cc
resolve_chain-project (c ∷ cs) registry local_config local_registry found local h =
    let same : ◌≡◌ {A = ChainsConfig × Registry} (local_chains_config (c ∷ cs), by_name [] (c ∷ cs))
        (local_config, local_registry) =
      cc in
    subst (λ x. resolve_chain proactive_check_task_type x.0 x.1 ≡ c ∷ cs) same
      (resolve_chain-local_chains_config (c ∷ cs) (by_name [] (c ∷ cs))
        (by_name-Finds registry [] (c ∷ cs) found) local)

-- Where the registry keeps each candidate under its name, the general resolver, on the projected
-- configuration and registry, returns just the candidates of the proactive chain, in their order.
pub resolve_chain-local_only :
    (config local_config : ChainsConfig) (registry local_registry : Registry)
    → IsKeyed registry
    → local_only_execution_inputs config registry ≡ some (local_config, local_registry)
    → resolve_chain proactive_check_task_type local_config local_registry
      ≡ resolve_proactive_check_chain config registry
unfolding local_only_execution_inputs
resolve_chain-local_only config local_config registry local_registry keyed h =
    resolve_chain-project (resolve_proactive_check_chain config registry) registry local_config
      local_registry (resolve_proactive-Finds config registry keyed)
      (resolve_proactive-local config registry) h

-- A registry that is built from candidates by name keeps each under its name.
pub IsKeyed-by_name :
    (registry : Registry) (cs : List DelegateCandidate)
    → IsKeyed registry
    → IsKeyed (by_name registry cs)
unfolding by_name
IsKeyed-by_name registry [] keyed = keyed
IsKeyed-by_name registry (c ∷ cs) keyed =
    IsKeyed-by_name (Dict.insert c.name c registry) cs (λ name d h.
      elim (Bool-cases (c.name == name)) [
        | inl same ↦ ground (arith, lookup-insert c.name name c registry, eq_iff c.name name)
        | inr differs ↦ keyed name d (ground (arith, lookup-insert c.name name c registry))
      ])

pub IsKeyed-nil : IsKeyed []
unfolding Dict.lookup
IsKeyed-nil name c h = cc
