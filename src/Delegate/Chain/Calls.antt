-- ===== src/Delegate/Chain/Calls.antt =====
-- Which candidates a chain calls, and how many calls it makes.
use josu.Common.{
  ℕ, ◌+◌, ◌≤◌, String, Option, List, [], ◌∷◌, arith, All, All-append, map, length, length-append,
  inl, inr, Bool-cases,
}
use josu.Config.Delegate.{DelegateCandidate}
use josu.Config.Chains.{ChainsConfig, Registry, resolve_chain}
use josu.Delegate.Errors.{Exception, value_error, Result-cases}
use josu.Delegate.Queue.{try_each, run_chain}
use josu.Delegate.Queue.Laws.{Keeps, run_chain-Keeps, All-map}
use josu.Delegate.Chain.{Env, Session, advance_on, attempt, run_candidates, execute_chain}

module _ {κ} (P : DelegateCandidate → Type κ) (env : Env) (task_type : String)
    (ram : Option ℕ) where
  abbrev CallsAll : Session → Type κ
  CallsAll s = All P s.calls

  attempt-CallsAll :
      (c : DelegateCandidate) → P c → Keeps advance_on CallsAll (attempt env task_type ram c)
  unfolding attempt
  attempt-CallsAll c pc s h = ground (arith, All-append P s.calls (c ∷ []) h (pc, tt))

  run_candidates-CallsAll :
      (cs : List DelegateCandidate) (s : Session)
      → All P cs
      → CallsAll s
      → CallsAll (run_candidates env task_type ram cs s).1
  unfolding run_candidates
  run_candidates-CallsAll [] s ps h = h
  run_candidates-CallsAll (c ∷ cs) s ps h =
      run_chain-Keeps advance_on CallsAll (map (attempt env task_type ram) (c ∷ cs))
        (All-map P (Keeps advance_on CallsAll) (attempt env task_type ram) (c ∷ cs) attempt-CallsAll
          ps)
        s h

  -- A property of all resolved candidates is one of all candidates that the chain contacts.
  pub execute_chain-calls :
      (config : ChainsConfig) (registry : Registry) (s : Session)
      → All P (resolve_chain task_type config registry)
      → All P s.calls
      → All P (execute_chain env task_type ram config registry s).1.calls
  unfolding execute_chain
  execute_chain-calls config registry s ps h =
      run_candidates-CallsAll (resolve_chain task_type config registry)
        (record s { attempted = []; skip_records = [] }) ps h

module _ (env : Env) (task_type : String) (ram : Option ℕ) where
  attempt-calls_le :
      (c : DelegateCandidate) (s : Session)
      → length (attempt env task_type ram c s).1.calls ≤ length s.calls + 1
  unfolding attempt
  attempt-calls_le c s = ground (arith, length-append s.calls (c ∷ []))

  try_each-calls_le :
      (last_exc : Exception) (cs : List DelegateCandidate) (s : Session)
      → length (try_each advance_on last_exc (map (attempt env task_type ram) cs) s).1.calls
        ≤ length s.calls + length cs
  unfolding try_each
  try_each-calls_le last_exc [] s = omega arith
  try_each-calls_le last_exc (c ∷ cs) s = elim (Result-cases (attempt env task_type ram c s).0) [
    | inr (a, e) ↦ rw (e, try_each) (omega (arith, attempt-calls_le c s))
    | inl (x, e) ↦ elim (Bool-cases (advance_on x)) [
      | inl more ↦
          rw (e, more, try_each)
            (omega (
              arith,
              attempt-calls_le c s,
              try_each-calls_le x cs (attempt env task_type ram c s).1,
            ))
      | inr stop ↦ rw (e, stop, try_each) (omega (arith, attempt-calls_le c s))
    ]
  ]

  run_candidates-calls_le :
      (cs : List DelegateCandidate) (s : Session)
      → length (run_candidates env task_type ram cs s).1.calls ≤ length s.calls + length cs
  unfolding run_candidates
  run_candidates-calls_le [] s = omega arith
  run_candidates-calls_le (c ∷ cs) s = unfold run_chain in try_each-calls_le value_error (c ∷ cs) s

  -- A chain makes one delegate call at most for each resolved candidate.
  pub execute_chain-calls_le :
      (config : ChainsConfig) (registry : Registry) (s : Session)
      → length (execute_chain env task_type ram config registry s).1.calls
        ≤ length s.calls + length (resolve_chain task_type config registry)
  unfolding execute_chain
  execute_chain-calls_le config registry s =
      run_candidates-calls_le (resolve_chain task_type config registry)
        (record s { attempted = []; skip_records = [] })
