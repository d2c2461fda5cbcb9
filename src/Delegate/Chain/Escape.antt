-- ===== src/Delegate/Chain/Escape.antt =====
-- Exceptions that end a chain early.
use josu.Common.{ℕ, false, String, Option, List, [], ◌∷◌, ◌++◌, ◌≡◌, refl, arith, length}
use josu.Config.Delegate.{DelegateCandidate}
use josu.Config.Chains.{ChainsConfig, Registry, resolve_chain}
use josu.Delegate.Errors.{value_error, other, raise}
use josu.Delegate.Client.{failed, transport, complete, stream, Exchange}
use josu.Delegate.Queue.{run_chain}
use josu.Delegate.LocalModel.{DelegateResult, Decoders, delegate}
use josu.Delegate.LocalModel
use josu.Delegate.Cooldown.{is_in_cooldown}
use josu.Delegate.Chain.{
  Env, finishes, Session, attempt, propagated, conclude, run_candidates, execute_chain,
}
use josu.Delegate.Chain.Walk.{walk-stop}

-- A failure that the client does not know goes through `delegate`.
delegate_transport :
    (decoders : Decoders) (name model class : String) (exchanges : ℕ → Exchange)
    → exchanges 0 ≡ failed (transport class)
    → delegate decoders name model exchanges ≡ raise (other class)
unfolding delegate LocalModel.attempt complete stream
delegate_transport decoders name model class exchanges e = rw (delegate, e)

module _ (env : Env) (task_type : String) (ram : Option ℕ) where
  attempt_transport :
      (c : DelegateCandidate) (s : Session) (class : String)
      → c.local ≡ false
      → (is_in_cooldown (env.clock s.ticks) (task_type, c.name) s.store).0 ≡ false
      → env.ending (length s.calls) ≡ finishes
      → env.exchanges (length s.calls) 0 ≡ failed (transport class)
      → ((attempt env task_type ram c s).0 ≡ raise (other class))
        × ((attempt env task_type ram c s).1.calls ≡ s.calls ++ c ∷ [])
        × ((attempt env task_type ram c s).1.skip_records ≡ s.skip_records)
        × ((attempt env task_type ram c s).1.store
            ≡ (is_in_cooldown (env.clock s.ticks) (task_type, c.name) s.store).1)
  unfolding attempt
  attempt_transport c s class remote healthy done broken = ground (
    arith,
    delegate_transport env.decoders c.name c.model class (env.exchanges (length s.calls)) broken,
  )

  -- If the connection to the first candidate, a remote one that is not in cooldown, fails by a class
  -- that the client does not catch, such as a ReadError, the exception ends the whole call: no
  -- other candidate is contacted, and neither a skip record nor a failure is recorded for it.
  pub execute_chain_transport_error :
      (config : ChainsConfig) (registry : Registry) (s : Session) (c : DelegateCandidate)
      (cs : List DelegateCandidate) (class : String)
      → resolve_chain task_type config registry ≡ c ∷ cs
      → c.local ≡ false
      → (is_in_cooldown (env.clock s.ticks) (task_type, c.name) s.store).0 ≡ false
      → env.ending (length s.calls) ≡ finishes
      → env.exchanges (length s.calls) 0 ≡ failed (transport class)
      → ((execute_chain env task_type ram config registry s).0 ≡ propagated (other class))
        × ((execute_chain env task_type ram config registry s).1.calls ≡ s.calls ++ c ∷ [])
        × ((execute_chain env task_type ram config registry s).1.skip_records ≡ [])
        × ((execute_chain env task_type ram config registry s).1.store
            ≡ (is_in_cooldown (env.clock s.ticks) (task_type, c.name) s.store).1)
  unfolding execute_chain run_candidates run_chain conclude
  execute_chain_transport_error config registry s c cs class resolved remote healthy done broken =
      let t : Session = record s { attempted = []; skip_records = [] } in
      let (raised, calls, skips, store) = attempt_transport c t class remote healthy done broken in
      rw
        (
          resolved,
          execute_chain,
          walk-stop env task_type ram value_error c cs t (other class) raised refl,
        )
        (refl, calls, skips, store)
