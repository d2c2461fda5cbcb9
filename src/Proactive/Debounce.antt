-- ===== src/Proactive/Debounce.antt =====
-- src/josu/proactive/watchers.py: `DebouncedSaveWatcher`. The scheduler keeps the timers that wait;
-- a timer that is cancelled or has expired is gone.
pub mod Bursts
mod Examples
use josu.Common.{
  ℕ, ◌+◌, Bool, true, false, Option, none, some, List, [], ◌∷◌, filter, not, contains, ◌==◌, eq_nat,
  if◌then◌else◌,
}

pub record Watcher : Type 0 where
  -- the timer that `_cancel_pending` cancels
  pub cancel_pending : Option ℕ
  pub waiting : List ℕ
  pub next_timer : ℕ
  -- how often `on_fire` was called
  pub fired : ℕ

abbrev pub new_watcher : Watcher
new_watcher = record { cancel_pending = none; waiting = []; next_timer = 0; fired = 0 }

abbrev pub without : ℕ → List ℕ → List ℕ
without timer = filter (λ t. not (t == timer))

abbrev pub cancel : Option ℕ → List ℕ → List ℕ
cancel none waiting = waiting
cancel (some timer) waiting = without timer waiting

unfoldable pub on_save : Watcher → Watcher
on_save w = record w {
  cancel_pending = some w.next_timer;
  waiting = w.next_timer ∷ cancel w.cancel_pending w.waiting;
  next_timer = w.next_timer + 1;
}

-- A timer that waits expires: `_fire`.
unfoldable pub expire : ℕ → Watcher → Watcher
expire timer w =
    if contains w.waiting timer
    then record w { cancel_pending = none; waiting = without timer w.waiting; fired = w.fired + 1 }
    else w

pub data Event : Type 0 where
  saves : Event
  expires : ℕ → Event

unfoldable pub step : Event → Watcher → Watcher
unfolding on_save expire
step saves w = on_save w
step (expires timer) w = expire timer w

unfoldable pub run : List Event → Watcher → Watcher
run [] w = w
run (e ∷ es) w = run es (step e w)
