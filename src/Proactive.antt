-- ===== src/Proactive.antt =====
-- src/josu/proactive/watchers.py: the local-only projection of a configuration, the proactive check
-- over it, and the debounced watcher.
pub mod Projection
pub mod Safety
pub mod Hook
pub mod Debounce
mod Examples
use josu.Common.{
  ℕ, Bool, true, false, String, Option, none, some, List, [], ◌∷◌, map, eq_string, ◌&&◌,
  if◌then◌else◌,
}
use josu.Common.Dict
use josu.Config.Delegate.{DelegateCandidate}
use josu.Config.Chains.{
  DelegationChain, ChainsConfig, Registry, proactive_check_task_type, resolve_proactive_check_chain,
}
use josu.Delegate.LocalModel.{DelegateResult}
use josu.Delegate.Chain.{Env, Session, Outcome, served, execute_chain}

-- `{candidate.name: candidate for candidate in candidates}`, from the entries made before
unfoldable pub by_name : Registry → List DelegateCandidate → Registry
by_name registry [] = registry
by_name registry (c ∷ cs) = by_name (Dict.insert c.name c registry) cs

abbrev pub names_of : List DelegateCandidate → List String
names_of = map (λ c. c.name)

-- The single chain of the projection.
abbrev pub local_chains_config : List DelegateCandidate → ChainsConfig
local_chains_config candidates = record {
  chains =
      record {
        task_type = proactive_check_task_type;
        candidates = names_of candidates;
        explicit_order = true;
        stays_hosted = false;
      }
      ∷ [];
  allow_remote = false;
}

-- `_local_only_execution_inputs`, from the resolved candidates
unfoldable pub project : List DelegateCandidate → Option (ChainsConfig × Registry)
project [] = none
project (c ∷ cs) = some (local_chains_config (c ∷ cs), by_name [] (c ∷ cs))

unfoldable pub local_only_execution_inputs :
    ChainsConfig → Registry → Option (ChainsConfig × Registry)
local_only_execution_inputs config registry =
    project (resolve_proactive_check_chain config registry)

pub record ProactiveCheckOutcome {ℓ} (R : Type ℓ) : Type ℓ where
  pub skipped_no_local_candidate : Bool
  pub delegate_result : Option DelegateResult
  pub serious : Bool
  pub claude_code_result : Option R

-- The check ends with its outcome, or with what the chain raised.
pub data Check {ℓ} (R : Type ℓ) : Type ℓ where
  concludes : ProactiveCheckOutcome R → Check R
  raises : Outcome → Check R

abbrev pub skipped_outcome {ℓ} : {R : Type ℓ} → ProactiveCheckOutcome R
skipped_outcome = record {
  skipped_no_local_candidate = true;
  delegate_result = none;
  serious = false;
  claude_code_result = none;
}

-- The classifier, and the invoker of the hosted loop if one was given.
module _ {ℓ} {R : Type ℓ} (env : Env) (available_ram : Option ℕ)
    (severity_classifier : DelegateResult → Bool)
    (claude_code_invoker : Option (DelegateResult → R)) where
  abbrev pub escalate : Bool → DelegateResult → Option R
  escalate serious result = elim claude_code_invoker [
    | none ↦ none
    | some invoke ↦ if serious then some (invoke result) else none
  ]

  unfoldable pub conclude_check : Outcome × Session → Check R × Session
  conclude_check (served result, s) = (
    concludes (record {
      skipped_no_local_candidate = false;
      delegate_result = some result;
      serious = severity_classifier result;
      claude_code_result = escalate (severity_classifier result) result;
    }),
    s,
  )
  conclude_check (raised, s) = (raises raised, s)

  unfoldable pub run_proactive_check : ChainsConfig → Registry → Session → Check R × Session
  unfolding conclude_check
  run_proactive_check config registry s = elim (local_only_execution_inputs config registry) [
    | none ↦ (concludes skipped_outcome, s)
    | some (local_config, local_registry) ↦
        conclude_check
          (execute_chain env proactive_check_task_type available_ram local_config local_registry s)
  ]
