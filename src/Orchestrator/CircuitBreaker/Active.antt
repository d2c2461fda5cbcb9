-- ===== src/Orchestrator/CircuitBreaker/Active.antt =====
-- What the stopwatch measures, described without it: the time for which a run is under way.
use josu.Common.{
  ℕ, suc, ◌+◌, ◌-◌, ◌≤◌, true, false, none, some, List, [], ◌∷◌, ◌≡◌, ◌≢◌, refl, arith, subst, zero,
}
use josu.Common.Int.{pos, negsuc, Float, finite, inf, neg_inf, nan}
use josu.Orchestrator.CircuitBreaker.{CircuitBreaker, make, start, pause, resume, elapsed_seconds}

-- A call of one method, with the reading of the clock at that moment.
pub data Event : Type 0 where
  starts pauses resumes : ℕ → Event

abbrev pub time : Event → ℕ
time (starts t) = t
time (pauses t) = t
time (resumes t) = t

unfoldable pub step : Event → CircuitBreaker → CircuitBreaker
step (starts t) = start t
step (pauses t) = pause t
step (resumes t) = resume t

unfoldable pub run : List Event → CircuitBreaker → CircuitBreaker
run [] b = b
run (e ∷ es) b = run es (step e b)

pub data Mode : Type 0 where
  idle running on_hold : Mode

abbrev pub mode_after : Event → Mode → Mode
mode_after (starts t) idle = running
mode_after (starts t) m = m
mode_after (pauses t) m = on_hold
mode_after (resumes t) m = running

-- The time from `since` to `now`, where it counts.
abbrev pub counted : Mode → (since now : ℕ) → ℕ
counted running since now = now - since
counted _ since now = 0

-- The time from `since` to `now` that passes in the running mode.
unfoldable pub active : Mode → ℕ → List Event → ℕ → ℕ
active m since [] now = counted m since now
active m since (e ∷ es) now = counted m since (time e) + active (mode_after e m) (time e) es now

-- The calls come in the order of time, and none resumes a breaker that is running.
abbrev pub IsFresh : Event → Mode → Type 0
IsFresh (resumes t) m = m ≢ running
IsFresh _ m = Unit

abbrev pub IsSchedule : Mode → ℕ → List Event → ℕ → Type 0
IsSchedule m since [] now = since ≤ now
IsSchedule m since (e ∷ es) now =
    (since ≤ time e) × IsFresh e m × IsSchedule (mode_after e m) (time e) es now

-- The mode of a breaker whose open segment began no later than `since`.
pub data HasMode (since : ℕ) : CircuitBreaker → Mode → Type 0 where
  is_idle :
      {t a : ℕ}
      → HasMode since
          (record { timeout_seconds = t; accumulated = a; segment_start = none; paused = false })
          idle
  is_running :
      {t a began : ℕ}
      → began ≤ since
      → HasMode since
          (record {
            timeout_seconds = t;
            accumulated = a;
            segment_start = some began;
            paused = false;
          })
          running
  is_on_hold :
      {t a : ℕ}
      → HasMode since
          (record { timeout_seconds = t; accumulated = a; segment_start = none; paused = true })
          on_hold

HasMode-step :
    (e : Event) {since : ℕ} {b : CircuitBreaker} {m : Mode}
    → HasMode since b m
    → since ≤ time e
    → HasMode (time e) (step e b) (mode_after e m)
unfolding step start pause resume
HasMode-step (starts t) is_idle h = is_running (omega arith)
HasMode-step (starts t) (is_running began) h = is_running (omega (arith, began, h))
HasMode-step (starts t) is_on_hold h = is_on_hold
HasMode-step (pauses t) is_idle h = is_on_hold
HasMode-step (pauses t) (is_running began) h = is_on_hold
HasMode-step (pauses t) is_on_hold h = is_on_hold
HasMode-step (resumes t) is_idle h = is_running (omega arith)
HasMode-step (resumes t) (is_running began) h = is_running (omega arith)
HasMode-step (resumes t) is_on_hold h = is_running (omega arith)

elapsed_later :
    {since now : ℕ} {b : CircuitBreaker} {m : Mode}
    → HasMode since b m
    → since ≤ now
    → elapsed_seconds now b ≡ elapsed_seconds since b + counted m since now
unfolding elapsed_seconds
elapsed_later is_idle h = omega arith
elapsed_later (is_running began) h = omega arith
elapsed_later is_on_hold h = omega arith

elapsed-step :
    (e : Event) {since : ℕ} {b : CircuitBreaker} {m : Mode}
    → HasMode since b m
    → since ≤ time e
    → IsFresh e m
    → elapsed_seconds (time e) (step e b) ≡ elapsed_seconds since b + counted m since (time e)
unfolding elapsed_seconds step start pause resume
elapsed-step (starts t) is_idle h f = omega arith
elapsed-step (starts t) (is_running began) h f = omega arith
elapsed-step (starts t) is_on_hold h f = omega arith
elapsed-step (pauses t) is_idle h f = omega arith
elapsed-step (pauses t) (is_running began) h f = omega arith
elapsed-step (pauses t) is_on_hold h f = omega arith
elapsed-step (resumes t) is_idle h f = omega arith
elapsed-step (resumes t) (is_running began) h f = absurd (f refl)
elapsed-step (resumes t) is_on_hold h f = omega arith

elapsed-run_from :
    (es : List Event) (now : ℕ) {since : ℕ} {b : CircuitBreaker} {m : Mode}
    → HasMode since b m
    → IsSchedule m since es now
    → elapsed_seconds now (run es b) ≡ elapsed_seconds since b + active m since es now
unfolding run active
elapsed-run_from [] now mode h = elapsed_later mode h
elapsed-run_from (e ∷ es) now mode (h, f, rest) =
    omega (arith, elapsed-run_from es now (HasMode-step e mode h) rest, elapsed-step e mode h f)

abbrev fresh : ℕ → CircuitBreaker
fresh t = record { timeout_seconds = t; accumulated = 0; segment_start = none; paused = false }

make-fresh :
    (limit : Float) (new : CircuitBreaker) → make limit ≡ some new → (t : ℕ) × (fresh t ≡ new)
unfolding make
make-fresh (finite (pos (suc t))) new h = (suc t, cc)
make-fresh (finite (pos zero)) new h = cc
make-fresh (finite (negsuc n)) new h = cc
make-fresh inf new h = cc
make-fresh neg_inf new h = cc
make-fresh nan new h = cc

elapsed-run-fresh :
    (t : ℕ) (es : List Event) (since now : ℕ)
    → IsSchedule idle since es now
    → elapsed_seconds now (run es (fresh t)) ≡ active idle since es now
unfolding elapsed_seconds
elapsed-run-fresh t es since now h =
    omega (arith, elapsed-run_from es now (is_idle {t = t} {a = 0}) h)

-- After any sequence of calls of a new breaker that are in the order of time, and of which none
-- resumes it while it runs, the elapsed time is the time that has passed in the running mode: what
-- passes before the start or on hold is not counted, and nothing that runs is lost.
pub elapsed-run :
    (limit : Float) (new : CircuitBreaker) (es : List Event) (since now : ℕ)
    → make limit ≡ some new
    → IsSchedule idle since es now
    → elapsed_seconds now (run es new) ≡ active idle since es now
elapsed-run limit new es since now made h =
    let (t, p) = make-fresh limit new made in
    subst (λ b. elapsed_seconds now (run es b) ≡ active idle since es now) p
      (elapsed-run-fresh t es since now h)
