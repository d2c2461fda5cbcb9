-- ===== src/Config/Chains.antt =====
-- src/josu/config/chains.py: fallback chains, and how a task type is resolved to its candidates.

pub mod Order
pub mod Resolve
pub mod Load
mod Examples
use josu.Common.{
  Bool, true, false, not, ◌&&◌, ◌||◌, String, Option, none, some, List, [], ◌∷◌, filter, contains,
  if◌then◌else◌, ◌==◌, eq_string,
}
use josu.Common.Dict
use josu.Common.Dict.{Dict}
use josu.Config.Toml.{Toml, str, array, nil, table, end, bool, get_in, iterate}
use josu.Config.Delegate.{DelegateCandidate, Validated, valid, invalid}

abbrev pub delegable_task_types : List String
delegable_task_types =
    "file_summarization" ∷ "directory_summarization" ∷ "boilerplate_scaffolding"
    ∷ "simple_search_extraction" ∷ "pattern_matched_test_generation" ∷ []

abbrev pub proactive_check_task_type : String
proactive_check_task_type = "proactive_check"

pub record DelegationChain : Type 0 where
  pub task_type : String
  pub candidates : List String
  pub explicit_order : Bool
  pub stays_hosted : Bool

pub record ChainsConfig : Type 0 where
  pub chains : List DelegationChain
  pub allow_remote : Bool

abbrev pub Registry : Type 0
Registry = Dict String DelegateCandidate

-- `sorted(candidates, key=lambda c: not c.local)`: Python's sort is stable, so the candidate that
-- comes first goes before the first one whose key is not smaller. `False < True`.
abbrev pub key : DelegateCandidate → Bool
key c = not c.local

unfoldable pub insert_sorted : DelegateCandidate → List DelegateCandidate → List DelegateCandidate
insert_sorted c [] = c ∷ []
insert_sorted c (d ∷ ds) = if not (key d) && key c then d ∷ insert_sorted c ds else c ∷ d ∷ ds

unfoldable pub default_chain_order : List DelegateCandidate → List DelegateCandidate
default_chain_order [] = []
default_chain_order (c ∷ cs) = insert_sorted c (default_chain_order cs)

-- `_find_chain`
unfoldable pub find_chain : List DelegationChain → String → Option DelegationChain
find_chain [] task_type = none
find_chain (chain ∷ chains) task_type =
    if chain.task_type == task_type then some chain else find_chain chains task_type

-- `_lookup_candidates`
unfoldable pub lookup_candidates : List String → Registry → List DelegateCandidate
lookup_candidates [] registry = []
lookup_candidates (name ∷ names) registry =
    let rest = lookup_candidates names registry in
    elim (Dict.lookup name registry) [ none ↦ rest | some c ↦ c ∷ rest ]

abbrev pub is_local : DelegateCandidate → Bool
is_local c = c.local

abbrev pub order_for : DelegationChain → List DelegateCandidate → List DelegateCandidate
order_for chain resolved = if chain.explicit_order then resolved else default_chain_order resolved

resolve_found : Option DelegationChain → Bool → Registry → List DelegateCandidate
resolve_found none allow_remote registry = []
resolve_found (some chain) allow_remote registry =
    if chain.stays_hosted
    then []
    else (let resolved = order_for chain (lookup_candidates chain.candidates registry) in
        if not allow_remote then filter is_local resolved else resolved)

unfoldable pub resolve_chain : String → ChainsConfig → Registry → List DelegateCandidate
unfolding resolve_found
resolve_chain task_type config registry =
    resolve_found (find_chain config.chains task_type) config.allow_remote registry

resolve_proactive_found : Option DelegationChain → Registry → List DelegateCandidate
resolve_proactive_found none registry = []
resolve_proactive_found (some chain) registry =
    order_for chain (filter is_local (lookup_candidates chain.candidates registry))

unfoldable pub resolve_proactive_check_chain : ChainsConfig → Registry → List DelegateCandidate
unfolding resolve_proactive_found
resolve_proactive_check_chain config registry =
    resolve_proactive_found (find_chain config.chains proactive_check_task_type) registry
