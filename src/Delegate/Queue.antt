-- ===== src/Delegate/Queue.antt =====
-- src/josu/delegate/queue.py: `run_chain`, the loop that one holder of the lock goes through. An
-- attempt is an action on the state that the attempts share.
pub mod Laws
use josu.Common.{Bool, true, false, Option, none, some, List, [], ◌∷◌}
use josu.Delegate.Errors.{Exception, value_error, Result, ok, raise}

abbrev pub Action {ℓ} : Type ℓ → Type ℓ → Type ℓ
Action S A = S → Result A × S

module _ {ℓ} {S A : Type ℓ} (advance_on : Exception → Bool) where
  -- The `for` loop, from the last exception that it has gone past.
  unfoldable pub try_each : Exception → List (Action S A) → Action S A
  try_each last_exc [] s = (raise last_exc, s)
  try_each last_exc (attempt ∷ attempts) s =
      let (r, s') = attempt s in
      elim r [
        | ok a ↦ (ok a, s')
        | raise e ↦ elim (advance_on e) [ true ↦ try_each e attempts s' | false ↦ (raise e, s') ]
      ]

  -- Without attempts the call is a ValueError.
  unfoldable pub run_chain : List (Action S A) → Action S A
  unfolding try_each
  run_chain attempts = try_each value_error attempts
