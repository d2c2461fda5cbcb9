-- ===== src/Proactive/Safety.antt =====
-- What a proactive check contacts, and how it can end.
use josu.Common.{
  ℕ, Bool, true, String, Option, none, some, List, [], ◌∷◌, ◌≡◌, ◌≢◌, refl, sym, ◌∙◌, arith, All,
  inl, inr, Option-cases, subst,
}
use josu.Config.Delegate.{DelegateCandidate}
use josu.Config.Chains.{
  ChainsConfig, Registry, resolve_proactive_check_chain, proactive_check_task_type,
}
use josu.Config.Chains.Resolve.{resolve_proactive-local}
use josu.Delegate.LocalModel.{DelegateResult}
use josu.Delegate.Chain.{
  Env, Session, Outcome, served, no_candidates, chain_exhausted, propagated, execute_chain,
}
use josu.Delegate.Chain.Calls.{execute_chain-calls}
use josu.Delegate.Chain.Cooling.{no_candidates_iff}
use josu.Proactive.{
  project, local_only_execution_inputs, Check, concludes, raises, skipped_outcome, conclude_check,
  run_proactive_check,
}
use josu.Proactive.Projection.{IsKeyed, resolve_chain-local_only}

module _ {ℓ} {R : Type ℓ} (env : Env) (ram : Option ℕ) (classifier : DelegateResult → Bool)
    (invoker : Option (DelegateResult → R)) where
  abbrev checks : ChainsConfig → Registry → Session → Check R × Session
  checks = run_proactive_check env ram classifier invoker

  -- What the check is, once the projection is known.
  check_some :
      (config local_config : ChainsConfig) (registry local_registry : Registry) (s : Session)
      → local_only_execution_inputs config registry ≡ some (local_config, local_registry)
      → checks config registry s
        ≡ conclude_check env ram classifier invoker
            (execute_chain env proactive_check_task_type ram local_config local_registry s)
  unfolding run_proactive_check
  check_some config local_config registry local_registry s h = ground arith

  check_none :
      (config : ChainsConfig) (registry : Registry) (s : Session)
      → local_only_execution_inputs config registry ≡ none
      → checks config registry s ≡ (concludes skipped_outcome, s)
  unfolding run_proactive_check
  check_none config registry s h = ground arith

  session-conclude_check :
      (out : Outcome × Session) → (conclude_check env ram classifier invoker out).1 ≡ out.1
  unfolding run_proactive_check
  session-conclude_check (served r, s) = refl
  session-conclude_check (no_candidates t, s) = refl
  session-conclude_check (chain_exhausted t a k e, s) = refl
  session-conclude_check (propagated e, s) = refl

  -- With a registry that keeps each candidate under its name, a property of all candidates of the
  -- proactive chain is one of all candidates that a check contacts.
  pub run_proactive_check-calls {κ} :
      (P : DelegateCandidate → Type κ) (config : ChainsConfig) (registry : Registry) (s : Session)
      → IsKeyed registry
      → All P (resolve_proactive_check_chain config registry)
      → All P s.calls
      → All P (checks config registry s).1.calls
  run_proactive_check-calls P config registry s keyed h before =
      elim (Option-cases (local_only_execution_inputs config registry)) [
        | inl skip ↦
            subst (λ out. All P out.1.calls) (sym (check_none config registry s skip)) before
        | inr ((local_config, local_registry), made) ↦
            let end =
              execute_chain env proactive_check_task_type ram local_config local_registry s in
            subst (λ out. All P out.1.calls)
              (sym (check_some config local_config registry local_registry s made))
              (subst (λ t. All P t.calls) (sym (session-conclude_check end))
                (execute_chain-calls P env proactive_check_task_type ram local_config local_registry
                  s
                  (subst (All P)
                    (sym (
                      resolve_chain-local_only config local_config registry local_registry keyed
                        made))
                    h)
                  before))
      ]

  -- With such a registry, a check contacts local candidates only, whether or not the configuration
  -- allows remote ones.
  pub run_proactive_check-local :
      (config : ChainsConfig) (registry : Registry) (s : Session)
      → IsKeyed registry
      → s.calls ≡ []
      → All (λ c. c.local ≡ true) (checks config registry s).1.calls
  run_proactive_check-local config registry s keyed quiet =
      run_proactive_check-calls (λ c. c.local ≡ true) config registry s keyed
        (resolve_proactive-local config registry) (subst (All (λ c. c.local ≡ true)) (sym quiet) tt)

  project-none : (cs : List DelegateCandidate) → cs ≡ [] → project cs ≡ none
  unfolding project
  project-none [] h = refl
  project-none (c ∷ cs) h = cc

  project-some :
      (cs : List DelegateCandidate) {made : ChainsConfig × Registry}
      → project cs ≡ some made
      → cs ≢ []
  unfolding project
  project-some [] h = λ e. cc
  project-some (c ∷ cs) h = λ e. cc

  raised_no_candidates :
      (out : Outcome × Session) (t : String)
      → (conclude_check env ram classifier invoker out).0 ≡ raises (no_candidates t)
      → out.0 ≡ no_candidates t
  unfolding conclude_check
  raised_no_candidates (served r, s) t e = cc
  raised_no_candidates (no_candidates u, s) t e = cc
  raised_no_candidates (chain_exhausted u a k x, s) t e = cc
  raised_no_candidates (propagated x, s) t e = cc

  -- A check without a local candidate is skipped: the session, with the store of cooldowns and the
  -- calls made, is not touched. With a registry that keeps each candidate under its name, no check
  -- raises a NoCandidatesError.
  pub run_proactive_check-ends :
      (config : ChainsConfig) (registry : Registry) (s : Session)
      → IsKeyed registry
      → (resolve_proactive_check_chain config registry ≡ []
          → checks config registry s ≡ (concludes skipped_outcome, s))
        × ((checks config registry s).0 ≢ raises (no_candidates proactive_check_task_type))
  unfolding local_only_execution_inputs
  run_proactive_check-ends config registry s keyed = (
    (λ e.
        check_none config registry s
          (project-none (resolve_proactive_check_chain config registry) e)),
    (λ r. elim (Option-cases (local_only_execution_inputs config registry)) [
      | inl skip ↦ cc (check_none config registry s skip)
      | inr ((local_config, local_registry), made) ↦
          let out = execute_chain env proactive_check_task_type ram local_config local_registry s in
          let empty =
            (no_candidates_iff env proactive_check_task_type ram local_config local_registry s).1 (
              raised_no_candidates out proactive_check_task_type (
                subst (λ x. x.0 ≡ raises (no_candidates proactive_check_task_type))
                  (check_some config local_config registry local_registry s made) r)) in
          project-some (resolve_proactive_check_chain config registry) made (
            sym (resolve_chain-local_only config local_config registry local_registry keyed made)
            ∙ empty)
    ]),
  )
