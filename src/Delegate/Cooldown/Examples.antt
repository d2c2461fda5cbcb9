-- ===== src/Delegate/Cooldown/Examples.antt =====
-- Runs of the store, and the theorems at concrete calls.
use josu.Common.{true, false, List, [], ◌∷◌, ◌++◌, ◌≡◌, ◌≢◌, refl, some, arith, ne_of_test, eq_pair}
use josu.Common.Int.{pos, finite}
use josu.Common.Dict
use josu.Delegate.Cooldown.{
  Key, CandidateCooldownStore, make, is_in_cooldown, record_failure, record_success,
}
use josu.Delegate.Cooldown.Events.{
  Event, failure, success, read, step, run, IsConsistent, run-make-IsConsistent,
}
use josu.Delegate.Cooldown.Failures.{fail_all, is_in_cooldown-fail_all, expired_read_starts_afresh}

abbrev start : CandidateCooldownStore
start = record { failure_threshold = 2; cooldown_seconds = 60; health = [] }

abbrev qwen : Key
qwen = ("file_summarization", "qwen")

abbrev other : Key
other = ("boilerplate_scaffolding", "qwen")

abbrev day : List Event
day = failure 10 qwen ∷ failure 20 qwen ∷ read 30 qwen ∷ success other ∷ []

-- The second failure trips; the cooldown is over after sixty ticks.
trips :
    ((is_in_cooldown 79 qwen (run day start)).0 ≡ true)
    × ((is_in_cooldown 80 qwen (run day start)).0 ≡ false)
unfolding run step is_in_cooldown record_failure record_success Dict.insert Dict.lookup Dict.erase
trips = (refl, refl)

run-make-IsConsistent_example : IsConsistent (run day start)
unfolding make
run-make-IsConsistent_example = run-make-IsConsistent (pos 2) (finite (pos 60)) start day refl

qwen-ne-other : qwen ≢ other
qwen-ne-other = ne_of_test qwen other refl

is_in_cooldown-fail_all_example :
    (is_in_cooldown 79 qwen (fail_all (10 ∷ 20 ∷ []) qwen start)).0 ≡ true
unfolding Dict.lookup
is_in_cooldown-fail_all_example = is_in_cooldown-fail_all (10 ∷ []) 20 79 qwen start refl

abbrev tripped : CandidateCooldownStore
tripped = record start {
  health = (qwen, record { consecutive_failures = 2; cooldown_expiry = some 80 }) ∷ [];
}

expired_read_starts_afresh_example :
    ((is_in_cooldown 80 qwen tripped).0 ≡ false)
    × ((is_in_cooldown 91 qwen (fail_all ([] ++ 90 ∷ []) qwen (is_in_cooldown 80 qwen tripped).1)).0
        ≡ false)
unfolding Dict.lookup
expired_read_starts_afresh_example =
    expired_read_starts_afresh [] 90 80 91 80 qwen
      (record { consecutive_failures = 2; cooldown_expiry = some 80 }) tripped refl refl
      (omega arith)
