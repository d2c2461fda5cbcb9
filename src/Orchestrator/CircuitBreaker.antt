-- ===== src/Orchestrator/CircuitBreaker.antt =====
-- src/josu/orchestrator/circuit_breaker.py: the stopwatch of a run, and what it bounds. A method
-- that reads the clock takes the reading, in whole ticks; the clock is `time.monotonic`, so that no
-- difference of two readings is negative.
pub mod Active
pub mod Budget
mod Examples
use josu.Common.{
  ℕ, suc, ◌+◌, ◌-◌, Bool, true, false, ◌&&◌, ◌||◌, not, Option, none, some, ltb, is_some,
  if◌then◌else◌,
}
use josu.Common.Int.{ℤ, pos, Float, finite}

pub record CircuitBreaker : Type 0 where
  pub timeout_seconds : ℕ
  pub accumulated : ℕ
  pub segment_start : Option ℕ
  pub paused : Bool

-- `__init__`, where `none` is a `ValueError`
unfoldable pub make : Float → Option CircuitBreaker
make (finite (pos (suc seconds))) = some (record {
  timeout_seconds = suc seconds;
  accumulated = 0;
  segment_start = none;
  paused = false;
})
make _ = none

unfoldable pub start : ℕ → CircuitBreaker → CircuitBreaker
start now b =
    if not (is_some b.segment_start) && not b.paused
    then record b { segment_start = some now }
    else b

unfoldable pub pause : ℕ → CircuitBreaker → CircuitBreaker
pause now b = elim b.segment_start [
  | none ↦ record b { paused = true }
  | some began ↦ if b.paused then record b { paused = true } else record b {
    accumulated = b.accumulated + (now - began);
    segment_start = none;
    paused = true;
  }
]

unfoldable pub resume : ℕ → CircuitBreaker → CircuitBreaker
resume now b = record b { paused = false; segment_start = some now }

unfoldable pub elapsed_seconds : ℕ → CircuitBreaker → ℕ
elapsed_seconds now b = elim b.segment_start [
  | none ↦ b.accumulated
  | some began ↦ if not b.paused then b.accumulated + (now - began) else b.accumulated
]

-- `max(0.0, timeout - elapsed)` is subtraction that stops at zero.
unfoldable pub remaining_seconds : ℕ → CircuitBreaker → ℕ
remaining_seconds now b = b.timeout_seconds - elapsed_seconds now b

-- `CircuitBreakerTimeoutError`
pub record Trip : Type 0 where
  pub timeout : ℕ
  pub elapsed : ℕ

-- What `check` raises, if it does.
unfoldable pub check : ℕ → CircuitBreaker → Option Trip
check now b =
    let elapsed = elapsed_seconds now b in
    if ltb b.timeout_seconds elapsed
    then some (record { timeout = b.timeout_seconds; elapsed = elapsed })
    else none

-- How the bounded call ends: with a value, with a `subprocess.TimeoutExpired`, or with another
-- exception.
pub data Call {ℓ κ} (A : Type ℓ) (E : Type κ) : Type (ℓ ⊔ κ) where
  returned : A → Call A E
  expired : Call A E
  failed : E → Call A E

pub data Bounded {ℓ κ} (A : Type ℓ) (E : Type κ) : Type (ℓ ⊔ κ) where
  returns : A → Bounded A E
  trips : Trip → Bounded A E
  raises : E → Bounded A E

-- The readings that one bounded run makes of the clock, in order.
pub record Readings : Type 0 where
  pub at_start : ℕ
  pub at_check : ℕ
  pub at_call : ℕ
  pub at_end : ℕ

-- The call may pause and resume the breaker.
module _ {ℓ κ} {A : Type ℓ} {E : Type κ} (fn : ℕ → CircuitBreaker → Call A E × CircuitBreaker) where
  unfoldable pub surface : ℕ → Call A E × CircuitBreaker → Bounded A E × CircuitBreaker
  surface now (returned a, b) = (returns a, b)
  surface now (failed e, b) = (raises e, b)
  surface now (expired, b) =
      (trips (record { timeout = b.timeout_seconds; elapsed = elapsed_seconds now b }), b)

  unfoldable pub run_under_circuit_breaker :
      Readings → CircuitBreaker → Bounded A E × CircuitBreaker
  unfolding surface
  run_under_circuit_breaker r b =
      let b' = start r.at_start b in
      elim (check r.at_check b') [
        | some trip ↦ (trips trip, b')
        | none ↦ surface r.at_end (fn (remaining_seconds r.at_call b') b')
      ]
