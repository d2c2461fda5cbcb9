-- ===== src/Delegate/Cooldown/Isolation.antt =====
-- Buckets are independent: what happens to other keys does not change the answer for a key.
use josu.Common.{ℕ, List, [], ◌∷◌, ◌≡◌, ◌≢◌, refl, arith, All, eq_pair, pair_eq_iff, ◌∙◌, ap}
use josu.Common.Dict
use josu.Common.Dict.{lookup-insert, lookup-erase}
use josu.Delegate.Cooldown.{
  Key, CandidateCooldownStore, record_failure, record_success, is_in_cooldown, healthy, bucket,
  failed, answer, is_in_cooldown-eq-answer,
}
use josu.Delegate.Cooldown.Events.{Event, failure, success, read, key_of, step, run}

pub lookup-step :
    (e : Event) (key : Key) (store : CandidateCooldownStore)
    → key_of e ≢ key
    → Dict.lookup key (step e store).health ≡ Dict.lookup key store.health
unfolding step record_failure record_success is_in_cooldown
lookup-step (failure now k) key store other =
    ground (
      arith,
      pair_eq_iff k key,
      lookup-insert k key (failed store now (bucket store k)) store.health,
    )
lookup-step (success k) key store other =
    ground (arith, pair_eq_iff k key, lookup-insert k key healthy store.health)
lookup-step (read now k) key store other =
    ground (arith, pair_eq_iff k key, lookup-erase k key store.health)

lookup-run :
    (es : List Event) (key : Key) (store : CandidateCooldownStore)
    → All (λ e. key_of e ≢ key) es
    → Dict.lookup key (run es store).health ≡ Dict.lookup key store.health
unfolding run
lookup-run [] key store other = refl
lookup-run (e ∷ es) key store other =
    lookup-run es key (step e store) other.1 ∙ lookup-step e key store other.0

-- Calls that name other pairs of task type and candidate never change whether a candidate is in
-- cooldown for a task type.
pub is_in_cooldown-run_other :
    (es : List Event) (now : ℕ) (key : Key) (store : CandidateCooldownStore)
    → All (λ e. key_of e ≢ key) es
    → (is_in_cooldown now key (run es store)).0 ≡ (is_in_cooldown now key store).0
is_in_cooldown-run_other es now key store other =
    rw (is_in_cooldown-eq-answer now key (run es store), is_in_cooldown-eq-answer now key store)
      (ap (answer now) (lookup-run es key store other))
