-- ===== src/Config/Chains/Resolve.antt =====
-- What the two resolvers return.
use josu.Common.{
  Bool, true, not, String, Option, none, some, List, [], ◌++◌, ◌≡◌, arith, filter, All, All-filter,
  if◌then◌else◌, inl, inr, Option-cases,
}
use josu.Config.Delegate.{DelegateCandidate}
use josu.Config.Chains.{
  DelegationChain, ChainsConfig, Registry, key, is_local, find_chain, lookup_candidates,
  resolve_chain, resolve_proactive_check_chain, proactive_check_task_type,
}
use josu.Config.Chains.Order.{
  default_chain_order-eq-partition, default_chain_order-local, filter-default_chain_order,
}

-- What a chain stands for: nothing if there is none or it stays hosted; only local candidates, as
-- the chain names them, without the opt-in; with it, all of them, in the chain's own order or with
-- the local ones first.
abbrev pub candidates_of : Option DelegationChain → Bool → Registry → List DelegateCandidate
candidates_of none allow_remote registry = []
candidates_of (some chain) allow_remote registry =
    let named = lookup_candidates chain.candidates registry in
    if chain.stays_hosted
    then []
    else if not allow_remote
    then filter is_local named
    else if chain.explicit_order
    then named
    else filter is_local named ++ filter key named

-- The general resolver returns the candidates that the chain of the task type stands for.
pub resolve_chain-eq-candidates_of :
    (task_type : String) (config : ChainsConfig) (registry : Registry)
    → resolve_chain task_type config registry
      ≡ candidates_of (find_chain config.chains task_type) config.allow_remote registry
unfolding resolve_chain
resolve_chain-eq-candidates_of task_type config registry =
    elim (Option-cases (find_chain config.chains task_type)) [
      | inl absent ↦ ground arith
      | inr (chain, found) ↦
          let named = lookup_candidates chain.candidates registry in
          ground (arith, default_chain_order-eq-partition named, filter-default_chain_order named)
    ]

-- The resolver of the proactive check returns the local candidates that the chain names, as it names
-- them, whatever the order and hosting flags say and whether remote candidates are allowed or not.
pub resolve_proactive-eq-locals :
    (config : ChainsConfig) (registry : Registry) (chain : DelegationChain)
    → find_chain config.chains proactive_check_task_type ≡ some chain
    → resolve_proactive_check_chain config registry
      ≡ filter is_local (lookup_candidates chain.candidates registry)
unfolding resolve_proactive_check_chain
resolve_proactive-eq-locals config registry chain found =
    let locals = filter is_local (lookup_candidates chain.candidates registry) in
    ground (
      arith,
      default_chain_order-local locals
          (All-filter is_local (lookup_candidates chain.candidates registry)),
    )

pub resolve_proactive_none :
    (config : ChainsConfig) (registry : Registry)
    → find_chain config.chains proactive_check_task_type ≡ none
    → resolve_proactive_check_chain config registry ≡ []
unfolding resolve_proactive_check_chain
resolve_proactive_none config registry absent = ground arith

pub resolve_proactive-local :
    (config : ChainsConfig) (registry : Registry)
    → All (λ c. c.local ≡ true) (resolve_proactive_check_chain config registry)
resolve_proactive-local config registry =
    elim (Option-cases (find_chain config.chains proactive_check_task_type)) [
      | inl absent ↦ rw (resolve_proactive_none config registry absent) tt
      | inr (chain, found) ↦
          rw (resolve_proactive-eq-locals config registry chain found)
            (All-filter is_local (lookup_candidates chain.candidates registry))
    ]
