-- ===== src/Delegate/Cooldown/Failures.antt =====
-- When failures put a candidate in cooldown, and for how long.
use josu.Common.{
  ℕ, ◌+◌, ◌≤◌, ◌<◌, false, ◌&&◌, none, some, List, [], ◌∷◌, ◌++◌, ◌≡◌, refl, arith, ltb, leb,
  length, eq_pair, ==_refl,
}
use josu.Common.Dict
use josu.Common.Dict.{lookup-insert, lookup-erase}
use josu.Delegate.Cooldown.{
  CandidateHealth, Key, CandidateCooldownStore, record_failure, is_in_cooldown, healthy, bucket,
  failed, answer, is_in_cooldown-eq-answer,
}

-- Failures of one bucket at the given times, the first first.
pub fail_all : List ℕ → Key → CandidateCooldownStore → CandidateCooldownStore
fail_all [] key store = store
fail_all (now ∷ times) key store = fail_all times key (record_failure now key store)

-- The bucket's own history.
health_after : CandidateCooldownStore → CandidateHealth → List ℕ → CandidateHealth
health_after store h [] = h
health_after store h (now ∷ times) = health_after store (failed store now h) times

bucket-record_failure :
    (now : ℕ) (key : Key) (store : CandidateCooldownStore)
    → bucket (record_failure now key store) key ≡ failed store now (bucket store key)
unfolding record_failure
bucket-record_failure now key store =
    ground
      (arith, ==_refl key, lookup-insert key key (failed store now (bucket store key)) store.health)

settings-fail_all :
    (times : List ℕ) (key : Key) (store : CandidateCooldownStore)
    → ((fail_all times key store).failure_threshold ≡ store.failure_threshold)
      × ((fail_all times key store).cooldown_seconds ≡ store.cooldown_seconds)
unfolding fail_all record_failure
settings-fail_all [] key store = (refl, refl)
settings-fail_all (now ∷ times) key store =
    settings-fail_all times key (record_failure now key store)

count-fail_all :
    (times : List ℕ) (key : Key) (store : CandidateCooldownStore)
    → (bucket (fail_all times key store) key).consecutive_failures
      ≡ (bucket store key).consecutive_failures + length times
unfolding fail_all
count-fail_all [] key store = omega arith
count-fail_all (now ∷ times) key store = ground (
  arith,
  count-fail_all times key (record_failure now key store),
  bucket-record_failure now key store,
)

threshold-record_failure :
    (now : ℕ) (key : Key) (store : CandidateCooldownStore)
    → (record_failure now key store).failure_threshold ≡ store.failure_threshold
unfolding record_failure
threshold-record_failure now key store = refl

no_expiry-fail_all :
    (times : List ℕ) (key : Key) (store : CandidateCooldownStore)
    → (bucket store key).consecutive_failures + length times < store.failure_threshold
    → (bucket store key).cooldown_expiry ≡ none
    → (bucket (fail_all times key store) key).cooldown_expiry ≡ none
unfolding fail_all
no_expiry-fail_all [] key store few e = e
no_expiry-fail_all (now ∷ times) key store few e =
    no_expiry-fail_all times key (record_failure now key store)
      (ground (arith, bucket-record_failure now key store, threshold-record_failure now key store))
      (ground (arith, bucket-record_failure now key store))

fail_all-append :
    (times : List ℕ) (now : ℕ) (key : Key) (store : CandidateCooldownStore)
    → fail_all (times ++ now ∷ []) key store ≡ record_failure now key (fail_all times key store)
unfolding fail_all
fail_all-append [] now key store = refl
fail_all-append (t ∷ times) now key store =
    fail_all-append times now key (record_failure t key store)

answer-record_failure :
    (last now : ℕ) (key : Key) (store : CandidateCooldownStore)
    → (is_in_cooldown now key (record_failure last key store)).0
      ≡ answer now (some (failed store last (bucket store key)))
unfolding record_failure
answer-record_failure last now key store = ground (
  arith,
  is_in_cooldown-eq-answer now key (record_failure last key store),
  ==_refl key,
  lookup-insert key key (failed store last (bucket store key)) store.health,
)

-- After some failures of a bucket that was healthy, the last of them at `last`, the candidate is in
-- cooldown exactly when the failures have reached the threshold and less than the configured time
-- has passed since the last one.
pub is_in_cooldown-fail_all :
    (times : List ℕ) (last now : ℕ) (key : Key) (store : CandidateCooldownStore)
    → bucket store key ≡ healthy
    → (is_in_cooldown now key (fail_all (times ++ last ∷ []) key store)).0
      ≡ (leb store.failure_threshold (length times + 1) && ltb now (last + store.cooldown_seconds))
is_in_cooldown-fail_all times last now key store fresh = rw (fail_all-append times last key store) (
    ground (
      arith,
      answer-record_failure last now key (fail_all times key store),
      count-fail_all times key store,
      settings-fail_all times key store,
      no_expiry-fail_all times key store,
    ))

bucket-erase :
    (key : Key) (store : CandidateCooldownStore)
    → bucket (record store { health = Dict.erase key store.health }) key ≡ healthy
bucket-erase key store = ground (arith, lookup-erase key key store.health, ==_refl key)

read_expired :
    (now expiry : ℕ) (key : Key) (h : CandidateHealth) (store : CandidateCooldownStore)
    → Dict.lookup key store.health ≡ some h
    → h.cooldown_expiry ≡ some expiry
    → expiry ≤ now
    → is_in_cooldown now key store ≡ (false, record store { health = Dict.erase key store.health })
unfolding is_in_cooldown
read_expired now expiry key h store found e past = ground arith

-- When the cooldown of a candidate has run out, the read says so and starts a new count: the
-- candidate is not in cooldown again until as many failures as the threshold have been recorded.
pub expired_read_starts_afresh :
    (times : List ℕ) (last now later expiry : ℕ) (key : Key) (h : CandidateHealth)
    (store : CandidateCooldownStore)
    → Dict.lookup key store.health ≡ some h
    → h.cooldown_expiry ≡ some expiry
    → expiry ≤ now
    → ((is_in_cooldown now key store).0 ≡ false)
      × ((is_in_cooldown later key
            (fail_all (times ++ last ∷ []) key (is_in_cooldown now key store).1)).0
          ≡ (leb store.failure_threshold (length times + 1)
              && ltb later (last + store.cooldown_seconds)))
expired_read_starts_afresh times last now later expiry key h store found e past =
    let dropped : CandidateCooldownStore = record store { health = Dict.erase key store.health } in
    rw (read_expired now expiry key h store found e past)
      (refl, is_in_cooldown-fail_all times last later key dropped (bucket-erase key store))
