-- ===== src/Delegate/Chain/Buckets.antt =====
-- What a chain does to the shared cooldown store.
use josu.Common.{
  ℕ, ◌+◌, String, Option, List, [], ◌∷◌, ◌≡◌, ◌≢◌, ap, sym, refl, arith, map, eq_pair,
}
use josu.Common.Dict
use josu.Config.Delegate.{DelegateCandidate}
use josu.Config.Chains.{ChainsConfig, Registry, resolve_chain}
use josu.Delegate.Queue.Laws.{Keeps, run_chain-Keeps, All-map_each}
use josu.Delegate.Cooldown.{Key, CandidateHealth, is_in_cooldown, answer, is_in_cooldown-eq-answer}
use josu.Delegate.Cooldown.Events.{failure, success, read, step}
use josu.Delegate.Cooldown.Isolation.{lookup-step}
use josu.Delegate.Chain.{Env, Session, advance_on, attempt, run_candidates, execute_chain}

module _ (env : Env) (task_type : String) (ram : Option ℕ) (key : Key)
    (bucket : Option CandidateHealth) (apart : key.0 ≢ task_type) where
  -- The bucket of another task type is as it was.
  abbrev IsUntouched : Session → Type 0
  IsUntouched s = Dict.lookup key s.store.health ≡ bucket

  key-ne : (name : String) → (let k : Key = (task_type, name) in k) ≢ key
  key-ne name e = apart (ap (λ (k : Key). k.0) (sym e))

  attempt-IsUntouched :
      (c : DelegateCandidate) → Keeps advance_on IsUntouched (attempt env task_type ram c)
  unfolding attempt step
  attempt-IsUntouched c s h =
      let k : Key = (task_type, c.name) in
      let now = env.clock s.ticks in
      let later = env.clock (s.ticks + 1) in
      let store = (is_in_cooldown now k s.store).1 in
      ground (
        arith,
        lookup-step (read now k) key s.store (key-ne c.name),
        lookup-step (success k) key store (key-ne c.name),
        lookup-step (failure later k) key store (key-ne c.name),
      )

  run_candidates-IsUntouched :
      (cs : List DelegateCandidate) (s : Session)
      → IsUntouched s
      → IsUntouched (run_candidates env task_type ram cs s).1
  unfolding run_candidates
  run_candidates-IsUntouched [] s h = h
  run_candidates-IsUntouched (c ∷ cs) s h =
      run_chain-Keeps advance_on IsUntouched (map (attempt env task_type ram) (c ∷ cs))
        (All-map_each (Keeps advance_on IsUntouched) (attempt env task_type ram) (c ∷ cs)
          attempt-IsUntouched)
        s h

-- A chain for one task type changes nothing for another: at every time, whether a candidate is in
-- cooldown for the other task type is as it was before the chain ran.
pub execute_chain-other_task_type :
    (env : Env) (task_type : String) (ram : Option ℕ) (config : ChainsConfig) (registry : Registry)
    (s : Session) (now : ℕ) (key : Key)
    → key.0 ≢ task_type
    → (is_in_cooldown now key (execute_chain env task_type ram config registry s).1.store).0
      ≡ (is_in_cooldown now key s.store).0
unfolding execute_chain
execute_chain-other_task_type env task_type ram config registry s now key apart =
    let end = (execute_chain env task_type ram config registry s).1 in
    rw (is_in_cooldown-eq-answer now key end.store, is_in_cooldown-eq-answer now key s.store)
      (ap (answer now) (
        run_candidates-IsUntouched env task_type ram key (Dict.lookup key s.store.health) apart
          (resolve_chain task_type config registry) (record s { attempted = []; skip_records = [] })
          refl))
