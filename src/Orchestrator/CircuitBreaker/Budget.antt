-- ===== src/Orchestrator/CircuitBreaker/Budget.antt =====
-- What the breaker does to the call that it bounds.
use josu.Common.{ℕ, ◌+◌, ◌-◌, ◌≤◌, ◌<◌, false, some, ◌≡◌, refl, arith}
use josu.Orchestrator.CircuitBreaker.{
  CircuitBreaker, start, resume, elapsed_seconds, remaining_seconds, check, Call, trips, Readings,
  run_under_circuit_breaker, surface,
}

-- A breaker that is running loses its open segment when it is resumed: what ran since the segment
-- began is no longer counted.
pub resume_running :
    (b : CircuitBreaker) (began t now : ℕ)
    → b.segment_start ≡ some began
    → b.paused ≡ false
    → began ≤ t
    → t ≤ now
    → elapsed_seconds now (resume t b) + (t - began) ≡ elapsed_seconds now b
unfolding elapsed_seconds resume
resume_running b began t now s p h k = ground arith

module _ {ℓ κ} {A : Type ℓ} {E : Type κ} (fn : ℕ → CircuitBreaker → Call A E × CircuitBreaker) where
  -- A bounded run starts the breaker. If its time is over when it is checked, the run trips and the
  -- call is not made. Otherwise the call is made, once, with the time that is left as its budget, which
  -- together with the time elapsed at the check stays within the timeout; its value and its exceptions go through, and an
  -- expiry becomes a trip with the breaker's own figures.
  pub run_under_circuit_breaker-branches :
      (r : Readings) (b : CircuitBreaker)
      → r.at_check ≤ r.at_call
      → let started = start r.at_start b in
        let elapsed = elapsed_seconds r.at_check started in
        (b.timeout_seconds < elapsed
          → run_under_circuit_breaker fn r b
            ≡ (trips (record { timeout = b.timeout_seconds; elapsed = elapsed }), started))
        × (elapsed ≤ b.timeout_seconds
            → (budget : ℕ) × (budget ≡ b.timeout_seconds - elapsed_seconds r.at_call started)
              × (budget + elapsed ≤ b.timeout_seconds)
              × (run_under_circuit_breaker fn r b ≡ surface fn r.at_end (fn budget started)))
  unfolding run_under_circuit_breaker check start remaining_seconds elapsed_seconds
  run_under_circuit_breaker-branches r b h =
      ((λ over. ground arith), (λ within. (_, refl, ground arith, ground arith)))
