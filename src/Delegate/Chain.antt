-- ===== src/Delegate/Chain.antt =====
-- src/josu/delegate/chain.py: `execute_chain`. The environment answers each clock reading, each
-- exchange of a delegate call, and how the two `wait_for` calls round it end.
pub mod Calls
pub mod Buckets
pub mod Walk
pub mod Account
pub mod Cooling
pub mod Escape
mod Examples
use josu.Common.{
  ℕ, suc, ◌+◌, Bool, true, false, String, Option, none, some, List, [], ◌∷◌, ◌++◌, map, length,
  if◌then◌else◌,
}
use josu.Models.{preflight_check}
use josu.Config.Delegate.{DelegateCandidate}
use josu.Config.Chains.{ChainsConfig, Registry, resolve_chain}
use josu.Delegate.Errors.{
  DelegateError, unreachable, in_cooldown, Exception, delegate_error, timeout_error,
  cancelled_error, Result, ok, raise, class_name, retry_after_of,
}
use josu.Delegate.Cooldown.{CandidateCooldownStore, record_failure, record_success, is_in_cooldown}
use josu.Delegate.Client.{Exchange}
use josu.Delegate.LocalModel.{DelegateResult, Decoders, delegate}
use josu.Delegate.Queue.{Action, run_chain}

-- `_ADVANCE_ON`
abbrev pub advance_on : Exception → Bool
advance_on (delegate_error e) = true
advance_on timeout_error = true
advance_on _ = false

pub record SkipRecord : Type 0 where
  pub candidate : String
  pub error : String
  pub retry_after : Option String

abbrev pub skip_record : DelegateCandidate → Exception → SkipRecord
skip_record c e = record {
  candidate = c.name;
  error = class_name e;
  retry_after = retry_after_of e;
}

-- How the await of a delegate call ends: the call finishes, its own `wait_for` expires, the one of
-- `run_chain` expires first, or the task that runs the chain is cancelled.
pub data Ending : Type 0 where
  finishes inner_expires outer_expires task_cancelled : Ending

pub record Env : Type 0 where
  -- the n-th reading of the clock
  pub clock : ℕ → ℕ
  -- the exchanges of the n-th delegate call
  pub exchanges : ℕ → ℕ → Exchange
  pub ending : ℕ → Ending
  pub measured_ram : ℕ
  pub decoders : Decoders

-- The shared store, the two lists of `execute_chain`, the clock readings made, and the candidates
-- for which a client was built, in order.
pub record Session : Type 0 where
  pub store : CandidateCooldownStore
  pub attempted : List String
  pub skip_records : List SkipRecord
  pub ticks : ℕ
  pub calls : List DelegateCandidate

-- What reaches the `try` block of `_attempt`.
abbrev pub await_inner : Ending → Result DelegateResult → Result DelegateResult
await_inner finishes r = r
await_inner inner_expires r = raise timeout_error
await_inner outer_expires r = raise cancelled_error
await_inner task_cancelled r = raise cancelled_error

-- The `wait_for` of `run_chain` makes a cancellation of its own a TimeoutError.
abbrev pub await_outer : Ending → Result DelegateResult → Result DelegateResult
await_outer outer_expires (raise cancelled_error) = raise timeout_error
await_outer _ r = r

-- The classes that the `except` clause of `_attempt` catches.
abbrev pub is_caught : Exception → Bool
is_caught (delegate_error e) = true
is_caught timeout_error = true
is_caught cancelled_error = true
is_caught _ = false

module _ (env : Env) (task_type : String) (available_ram : Option ℕ) where
  skip : DelegateCandidate → Exception → Action Session DelegateResult
  skip c e s = (raise e, record s { skip_records = s.skip_records ++ skip_record c e ∷ [] })

  -- The `try` statement and what follows it, from the result of the awaited call.
  settle : DelegateCandidate → Result DelegateResult → Action Session DelegateResult
  settle c (ok r) s = (ok r, record s { store = record_success (task_type, c.name) s.store })
  settle c (raise e) s = elim (is_caught e) [
    | false ↦ (raise e, s)
    | true ↦ (
      raise e,
      record s {
        store = record_failure (env.clock s.ticks) (task_type, c.name) s.store;
        ticks = s.ticks + 1;
        skip_records = s.skip_records ++ skip_record c e ∷ [];
      },
    )
  ]

  -- Building the client and awaiting the call.
  call : DelegateCandidate → Action Session DelegateResult
  unfolding settle
  call c s =
      let n = length s.calls in
      let (r, s') =
        settle c
          (await_inner (env.ending n) (delegate env.decoders c.name c.model (env.exchanges n)))
          (record s { calls = s.calls ++ c ∷ [] }) in
      (await_outer (env.ending n) r, s')

  preflight_ok : DelegateCandidate → Bool
  preflight_ok c =
      if c.local then (preflight_check env.measured_ram c.model available_ram).ok else true

  -- `_attempt`
  unfoldable pub attempt : DelegateCandidate → Action Session DelegateResult
  unfolding skip call preflight_ok
  attempt c s =
      let (cooling, store) = is_in_cooldown (env.clock s.ticks) (task_type, c.name) s.store in
      let s' : Session = record s {
        attempted = s.attempted ++ c.name ∷ [];
        ticks = s.ticks + 1;
        store = store;
      } in
      if cooling
      then skip c (delegate_error (in_cooldown c.name)) s'
      else if preflight_ok c
      then call c s'
      else skip c (delegate_error (unreachable c.name)) s'

pub data Outcome : Type 0 where
  served : DelegateResult → Outcome
  no_candidates : (task_type : String) → Outcome
  chain_exhausted :
      (task_type : String) (attempted : List String) (skip_records : List SkipRecord)
      (last_error : Exception)
      → Outcome
  propagated : Exception → Outcome

-- The `try` statement round `run_chain`.
conclude : String → Result DelegateResult × Session → Outcome
conclude task_type (ok r, s) = served r
conclude task_type (raise e, s) = elim (advance_on e) [
  | true ↦ chain_exhausted task_type s.attempted s.skip_records e
  | false ↦ propagated e
]

module _ (env : Env) (task_type : String) (available_ram : Option ℕ) where
  -- The chain over resolved candidates, from a session whose two lists are empty.
  unfoldable pub run_candidates : List DelegateCandidate → Session → Outcome × Session
  unfolding conclude
  run_candidates [] s = (no_candidates task_type, s)
  run_candidates (c ∷ cs) s =
      let end = run_chain advance_on (map (attempt env task_type available_ram) (c ∷ cs)) s in
      (conclude task_type end, end.1)

  unfoldable pub execute_chain : ChainsConfig → Registry → Session → Outcome × Session
  execute_chain config registry s =
      run_candidates (resolve_chain task_type config registry)
        (record s { attempted = []; skip_records = [] })
