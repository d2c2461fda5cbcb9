-- ===== src/Delegate/Cooldown/Events.antt =====
-- Sequences of calls of the store's methods.
use josu.Common.{ℕ, ◌≤◌, none, some, List, [], ◌∷◌, ◌≡◌, ◌≢◌, ◌↔◌, refl, arith, suc, eq_pair}
use josu.Common.Int.{ℤ, pos, Float, finite}
use josu.Common.Dict
use josu.Common.Dict.{dict_laws, lookup-insert, lookup-erase, lookup-nil}
use josu.Delegate.Cooldown.{
  CandidateHealth, Key, CandidateCooldownStore, make, record_failure, record_success,
  is_in_cooldown, healthy,
}

pub data Event : Type 0 where
  failure : ℕ → Key → Event
  success : Key → Event
  read : ℕ → Key → Event

abbrev pub key_of : Event → Key
key_of (failure now key) = key
key_of (success key) = key
key_of (read now key) = key

unfoldable pub step : Event → CandidateCooldownStore → CandidateCooldownStore
step (failure now key) store = record_failure now key store
step (success key) store = record_success key store
step (read now key) store = (is_in_cooldown now key store).1

unfoldable pub run : List Event → CandidateCooldownStore → CandidateCooldownStore
run [] store = store
run (e ∷ es) store = run es (step e store)

-- A bucket holds an expiry exactly when its count has reached the threshold.
abbrev pub IsConsistent : CandidateCooldownStore → Type 0
IsConsistent store =
    (key : Key) (h : CandidateHealth)
    → Dict.lookup key store.health ≡ some h
    → (h.cooldown_expiry ≢ none) ↔ (store.failure_threshold ≤ h.consecutive_failures)

pub threshold-step :
    (e : Event) (store : CandidateCooldownStore)
    → (step e store).failure_threshold ≡ store.failure_threshold
unfolding step record_failure record_success is_in_cooldown
threshold-step (failure now key) store = refl
threshold-step (success key) store = refl
threshold-step (read now key) store = ground arith

IsConsistent-failure :
    (now : ℕ) (key : Key) (store : CandidateCooldownStore)
    → IsConsistent store
    → IsConsistent (record_failure now key store)
unfolding record_failure
IsConsistent-failure now key store ok j h found = grind (arith, dict_laws, ok key, ok j h)

IsConsistent-success :
    (key : Key) (store : CandidateCooldownStore)
    → 1 ≤ store.failure_threshold
    → IsConsistent store
    → IsConsistent (record_success key store)
unfolding record_success
IsConsistent-success key store t ok j h found =
    ground (arith, lookup-insert key j healthy store.health, ok j h)

IsConsistent-read :
    (now : ℕ) (key : Key) (store : CandidateCooldownStore)
    → IsConsistent store
    → IsConsistent (is_in_cooldown now key store).1
unfolding is_in_cooldown
IsConsistent-read now key store ok j h found =
    ground (arith, lookup-erase key j store.health, ok j h)

IsConsistent-step :
    (e : Event) (store : CandidateCooldownStore)
    → 1 ≤ store.failure_threshold
    → IsConsistent store
    → IsConsistent (step e store)
unfolding step
IsConsistent-step (failure now key) store t ok = IsConsistent-failure now key store ok
IsConsistent-step (success key) store t ok = IsConsistent-success key store t ok
IsConsistent-step (read now key) store t ok = IsConsistent-read now key store ok

IsConsistent-run :
    (es : List Event) (store : CandidateCooldownStore)
    → 1 ≤ store.failure_threshold
    → IsConsistent store
    → IsConsistent (run es store)
unfolding run
IsConsistent-run [] store t ok = ok
IsConsistent-run (e ∷ es) store t ok =
    IsConsistent-run es (step e store) (rw threshold-step t) (IsConsistent-step e store t ok)

IsConsistent-make :
    (threshold : ℤ) (seconds : Float) (store : CandidateCooldownStore)
    → make threshold seconds ≡ some store
    → (1 ≤ store.failure_threshold) × IsConsistent store
unfolding make
IsConsistent-make (pos (suc t)) (finite (pos (suc s))) store e =
    (ground arith, λ key h found. ground (arith, lookup-nil {V = CandidateHealth} key))
IsConsistent-make t s store e = cc

-- In any store that the constructor accepts, whatever calls follow, each bucket holds a cooldown
-- expiry exactly when its failure count has reached the threshold.
pub run-make-IsConsistent :
    (threshold : ℤ) (seconds : Float) (store : CandidateCooldownStore) (es : List Event)
    → make threshold seconds ≡ some store
    → IsConsistent (run es store)
run-make-IsConsistent threshold seconds store es e =
    let (t, ok) = IsConsistent-make threshold seconds store e in IsConsistent-run es store t ok
