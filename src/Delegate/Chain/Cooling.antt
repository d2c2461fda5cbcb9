-- ===== src/Delegate/Chain/Cooling.antt =====
-- A chain whose candidates are all in cooldown, and one without candidates.
use josu.Common.{
  ℕ, true, String, Option, List, [], ◌∷◌, ◌≡◌, ◌≢◌, ◌↔◌, ap, sym, refl, arith, All, map, ◌∙◌, subst,
}
use josu.Config.Delegate.{DelegateCandidate}
use josu.Config.Chains.{ChainsConfig, Registry, resolve_chain}
use josu.Delegate.Errors.{
  Exception, value_error, timeout_error, delegate_error, in_cooldown, Result, ok, raise,
}
use josu.Delegate.Queue.{try_each, run_chain}
use josu.Delegate.LocalModel.{DelegateResult}
use josu.Delegate.Cooldown.{Key, CandidateCooldownStore, is_in_cooldown}
use josu.Delegate.Chain.{
  Env, Session, advance_on, attempt, no_candidates, chain_exhausted, conclude, run_candidates,
  execute_chain,
}
use josu.Delegate.Chain.Walk.{walk-advance}

-- A positive answer changes nothing.
cooling-store :
    (now : ℕ) (key : Key) (store : CandidateCooldownStore)
    → (is_in_cooldown now key store).0 ≡ true
    → (is_in_cooldown now key store).1 ≡ store
unfolding is_in_cooldown
cooling-store now key store h = ground arith

module _ (env : Env) (task_type : String) (ram : Option ℕ) where
  -- At every reading of the clock each candidate is in cooldown.
  abbrev pub AllCooling : CandidateCooldownStore → List DelegateCandidate → Type 0
  AllCooling store =
      All (λ c. (n : ℕ) → (is_in_cooldown (env.clock n) (task_type, c.name) store).0 ≡ true)

  attempt_cooling :
      (c : DelegateCandidate) (s : Session)
      → (is_in_cooldown (env.clock s.ticks) (task_type, c.name) s.store).0 ≡ true
      → ((attempt env task_type ram c s).0 ≡ raise (delegate_error (in_cooldown c.name)))
        × ((attempt env task_type ram c s).1.calls ≡ s.calls)
        × ((attempt env task_type ram c s).1.store ≡ s.store)
  unfolding attempt
  attempt_cooling c s h =
      ground (arith, cooling-store (env.clock s.ticks) (task_type, c.name) s.store h)

  walk_cooling :
      (last : Exception) (cs : List DelegateCandidate) (s : Session)
      → advance_on last ≡ true
      → AllCooling s.store cs
      → (x : Exception) × ((try_each advance_on last (map (attempt env task_type ram) cs) s).0
          ≡ raise x)
        × (advance_on x ≡ true)
        × ((try_each advance_on last (map (attempt env task_type ram) cs) s).1.calls ≡ s.calls)
        × ((try_each advance_on last (map (attempt env task_type ram) cs) s).1.store ≡ s.store)
  unfolding try_each
  walk_cooling last [] s q h = (last, refl, q, refl, refl)
  walk_cooling last (c ∷ cs) s q h =
      let (raised, calls, store) = attempt_cooling c s (h.0 s.ticks) in
      let e = delegate_error (in_cooldown c.name) in
      let s' = (attempt env task_type ram c s).1 in
      let (x, r, more, calls', store') =
        walk_cooling e cs s' refl (subst (λ t. AllCooling t cs) (sym store) h.1) in
      rw (walk-advance env task_type ram last c cs s e raised refl)
        (x, r, more, calls' ∙ calls, store' ∙ store)

  -- The exception to begin with does not matter where there is a candidate.
  walk-restart :
      (last another : Exception) (c : DelegateCandidate) (cs : List DelegateCandidate) (s : Session)
      → try_each advance_on last (map (attempt env task_type ram) (c ∷ cs)) s
        ≡ try_each advance_on another (map (attempt env task_type ram) (c ∷ cs)) s
  unfolding try_each
  walk-restart last another c cs s = refl

  conclude-exhausted :
      (end : Result DelegateResult × Session) (x : Exception)
      → end.0 ≡ raise x
      → advance_on x ≡ true
      → conclude task_type end ≡ chain_exhausted task_type end.1.attempted end.1.skip_records x
  unfolding conclude
  conclude-exhausted (r, t) x p q = ground arith

  run_candidates_cooling :
      (cs : List DelegateCandidate) (s : Session)
      → cs ≢ []
      → AllCooling s.store cs
      → (x : Exception) × ((run_candidates env task_type ram cs s).0
          ≡ chain_exhausted task_type
              (run_candidates env task_type ram cs s).1.attempted
              (run_candidates env task_type ram cs s).1.skip_records
              x)
        × ((run_candidates env task_type ram cs s).1.calls ≡ s.calls)
        × ((run_candidates env task_type ram cs s).1.store ≡ s.store)
  unfolding run_candidates run_chain
  run_candidates_cooling [] s some_candidate h = absurd (some_candidate refl)
  run_candidates_cooling (c ∷ cs) s some_candidate h =
      let (x, r, more, calls, store) = walk_cooling timeout_error (c ∷ cs) s refl h in
      let end = try_each advance_on value_error (map (attempt env task_type ram) (c ∷ cs)) s in
      let same = walk-restart value_error timeout_error c cs s in
      (
        x,
        conclude-exhausted end x (ap (λ e. e.0) same ∙ r) more,
        ap (λ e. e.1.calls) same ∙ calls,
        ap (λ e. e.1.store) same ∙ store,
      )

  -- If every resolved candidate is in cooldown, the chain is exhausted, no candidate is contacted,
  -- and the store is as it was.
  pub execute_chain-AllCooling :
      (config : ChainsConfig) (registry : Registry) (s : Session)
      → resolve_chain task_type config registry ≢ []
      → AllCooling s.store (resolve_chain task_type config registry)
      → (x : Exception) × ((execute_chain env task_type ram config registry s).0
          ≡ chain_exhausted task_type
              (execute_chain env task_type ram config registry s).1.attempted
              (execute_chain env task_type ram config registry s).1.skip_records
              x)
        × ((execute_chain env task_type ram config registry s).1.calls ≡ s.calls)
        × ((execute_chain env task_type ram config registry s).1.store ≡ s.store)
  unfolding execute_chain
  execute_chain-AllCooling config registry s =
      run_candidates_cooling (resolve_chain task_type config registry)
        (record s { attempted = []; skip_records = [] })

  conclude-ne-no_candidates :
      (end : Result DelegateResult × Session) → conclude task_type end ≢ no_candidates task_type
  unfolding conclude
  conclude-ne-no_candidates (ok r, t) e = cc
  conclude-ne-no_candidates (raise x, t) e = ground arith

  no_candidates_cases :
      (cs : List DelegateCandidate) (s : Session)
      → (cs ≡ []) ↔ ((run_candidates env task_type ram cs s).0 ≡ no_candidates task_type)
  unfolding run_candidates
  no_candidates_cases [] s = (λ e. refl, λ e. refl)
  no_candidates_cases (c ∷ cs) s = (
    λ e. cc,
    λ e. absurd (
        conclude-ne-no_candidates
          (run_chain advance_on (map (attempt env task_type ram) (c ∷ cs)) s) e),
  )

  -- The chain reports that it has no candidates exactly when the task type resolves to none.
  pub no_candidates_iff :
      (config : ChainsConfig) (registry : Registry) (s : Session)
      → (resolve_chain task_type config registry ≡ [])
        ↔ ((execute_chain env task_type ram config registry s).0 ≡ no_candidates task_type)
  unfolding execute_chain
  no_candidates_iff config registry s =
      no_candidates_cases (resolve_chain task_type config registry)
        (record s { attempted = []; skip_records = [] })
