-- ===== src/Delegate/Chain/Account.antt =====
-- What a chain reports of its candidates.
use josu.Common.{ℕ, true, String, Option, List, [], ◌∷◌, ◌++◌, ◌≡◌, ◌≢◌, ap, arith, ◌∙◌}
use josu.Config.Delegate.{DelegateCandidate}
use josu.Config.Chains.{ChainsConfig, Registry, resolve_chain}
use josu.Delegate.Errors.{Exception, value_error, Result, ok, raise}
use josu.Delegate.Queue.{run_chain}
use josu.Delegate.LocalModel.{DelegateResult}
use josu.Delegate.Chain.{
  Env, SkipRecord, Session, advance_on, served, chain_exhausted, conclude, run_candidates,
  execute_chain,
}
use josu.Delegate.Chain.Walk.{names, skipped, ServedBy, walk, walk-ServedBy, walk-AllSkipped}

module _ (env : Env) (task_type : String) (ram : Option ℕ) where
  abbrev empty : Session → Session
  empty s = record s { attempted = []; skip_records = [] }

  run_candidates-served :
      (cs : List DelegateCandidate) (s : Session) (r : DelegateResult)
      → (run_candidates env task_type ram cs s).0 ≡ served r
      → ServedBy cs s (run_candidates env task_type ram cs s).1
  unfolding run_candidates run_chain
  run_candidates-served [] s r h = cc
  run_candidates-served (c ∷ cs) s r h =
      walk-ServedBy env task_type ram value_error (c ∷ cs) s r
        (conclude-served (walk env task_type ram value_error (c ∷ cs) s) r h)
    where
      conclude-served :
          (end : Result DelegateResult × Session) (d : DelegateResult)
          → conclude task_type end ≡ served d
          → end.0 ≡ ok d
      conclude-served (ok a, t) d e = ground arith
      conclude-served (raise x, t) d e = ground arith

  run_candidates-exhausted :
      (cs : List DelegateCandidate) (s : Session) (t : String) (attempted : List String)
      (skips : List SkipRecord) (last : Exception)
      → (run_candidates env task_type ram cs s).0 ≡ chain_exhausted t attempted skips last
      → (attempted ≡ s.attempted ++ names cs)
        × (skipped skips ≡ skipped s.skip_records ++ names cs)
        × (cs ≢ [])
        × (t ≡ task_type)
        × (advance_on last ≡ true)
  unfolding run_candidates run_chain
  run_candidates-exhausted [] s t attempted skips last h = cc
  run_candidates-exhausted (c ∷ cs) s t attempted skips last h =
      let (e, q, a, k, n) = conclude-exhausted (walk env task_type ram value_error (c ∷ cs) s) h in
      let all = walk-AllSkipped env task_type ram value_error (c ∷ cs) s last e q in
      (a ∙ all.attempted, ap skipped k ∙ all.skips, (λ eq. cc), n, q)
    where
      conclude-exhausted :
          (end : Result DelegateResult × Session)
          → conclude task_type end ≡ chain_exhausted t attempted skips last
          → (end.0 ≡ raise last)
            × (advance_on last ≡ true)
            × (attempted ≡ end.1.attempted)
            × (skips ≡ end.1.skip_records)
            × (t ≡ task_type)
      conclude-exhausted (ok a, u) e = cc
      conclude-exhausted (raise x, u) e = ground arith

  -- If a chain returns a result, the resolved candidates split at the one that served: the names
  -- attempted are those up to it, and there is one skip record for each candidate before it.
  pub execute_chain-served :
      (config : ChainsConfig) (registry : Registry) (s : Session) (r : DelegateResult)
      → (execute_chain env task_type ram config registry s).0 ≡ served r
      → ServedBy
          (resolve_chain task_type config registry)
          (empty s)
          (execute_chain env task_type ram config registry s).1
  unfolding execute_chain
  execute_chain-served config registry s r h =
      run_candidates-served (resolve_chain task_type config registry) (empty s) r h

  -- If a chain is exhausted, it resolved to some candidate, every resolved candidate was attempted
  -- in order, and each has its skip record.
  pub execute_chain-exhausted :
      (config : ChainsConfig) (registry : Registry) (s : Session) (t : String)
      (attempted : List String) (skips : List SkipRecord) (last : Exception)
      → (execute_chain env task_type ram config registry s).0
        ≡ chain_exhausted t attempted skips last
      → (attempted ≡ names (resolve_chain task_type config registry))
        × (skipped skips ≡ names (resolve_chain task_type config registry))
        × (resolve_chain task_type config registry ≢ [])
        × (t ≡ task_type)
        × (advance_on last ≡ true)
  unfolding execute_chain
  execute_chain-exhausted config registry s t attempted skips last h =
      run_candidates-exhausted (resolve_chain task_type config registry) (empty s) t attempted skips
        last h
