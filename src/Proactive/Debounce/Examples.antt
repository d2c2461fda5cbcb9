-- ===== src/Proactive/Debounce/Examples.antt =====
-- Three quick saves after a first check.
use josu.Common.{List, [], ◌∷◌, ◌≡◌, eq_nat}
use josu.Proactive.Debounce.{new_watcher, on_save, expire, Event, saves, expires, step, run}
use josu.Proactive.Debounce.Bursts.{burst, expiries, fired-burst}

abbrev morning : List Event
morning = saves ∷ expires 0 ∷ []

-- The timers 1 and 2 are cancelled; timer 3 fires.
fired-burst_example :
    (run (expiries (1 ∷ 2 ∷ 3 ∷ [])) (run (burst 3) (run morning new_watcher))).fired ≡ 2
unfolding run step on_save expire
fired-burst_example = fired-burst morning 2 (1 ∷ 2 ∷ 3 ∷ [])
