-- ===== src/Orchestrator/CircuitBreaker/Examples.antt =====
-- The stopwatch at concrete times.
use josu.Common.{ℕ, false, none, some, List, [], ◌∷◌, ◌≡◌, refl, arith}
use josu.Common.Int.{pos, finite}
use josu.Orchestrator.CircuitBreaker.{
  CircuitBreaker, make, start, pause, resume, elapsed_seconds, Call, returned, Readings,
}
use josu.Orchestrator.CircuitBreaker.Active.{
  Event, starts, pauses, resumes, step, run, idle, active, elapsed-run,
}

abbrev new : CircuitBreaker
new = record { timeout_seconds = 30; accumulated = 0; segment_start = none; paused = false }

abbrev queued : List Event
queued = starts 10 ∷ pauses 14 ∷ pauses 15 ∷ resumes 20 ∷ []

elapsed-run_example : elapsed_seconds 25 (run queued new) ≡ active idle 0 queued 25
unfolding make
elapsed-run_example =
    elapsed-run (finite (pos 30)) new queued 0 25 refl (
      omega arith,
      tt,
      (omega arith, tt, (omega arith, tt, (omega arith, (λ e. cc e), omega arith))),
    )

-- Nine ticks of these fifteen count.
nine : elapsed_seconds 25 (run queued new) ≡ 9
unfolding elapsed_seconds run step start pause resume
nine = refl

abbrev under_way : CircuitBreaker
under_way = record {
  timeout_seconds = 30;
  accumulated = 4;
  segment_start = some 10;
  paused = false;
}

abbrev at : Readings
at = record { at_start = 12; at_check = 38; at_call = 39; at_end = 50 }

abbrev answer : ℕ → CircuitBreaker → Call ℕ ℕ × CircuitBreaker
answer budget b = (returned budget, b)
