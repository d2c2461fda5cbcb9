-- ===== src/Delegate/Cooldown.antt =====
-- src/josu/delegate/cooldown.py: the failure memory of the delegate candidates. A method that reads
-- the clock takes the reading, in whole ticks; each reads it once at most.
pub mod Events
pub mod Isolation
pub mod Failures
mod Examples
use josu.Common.{
  ℕ, zero, suc, ◌+◌, Bool, true, false, String, Option, none, some, [], ltb, leb, get_or_else, ◌≡◌,
  arith, if◌then◌else◌, eq_pair,
}
use josu.Common.Int.{ℤ, pos, Float, finite, is_nonpositive, is_finite, float_nonpositive}
use josu.Common.Dict
use josu.Common.Dict.{Dict}

pub record CandidateHealth : Type 0 where
  pub consecutive_failures : ℕ
  pub cooldown_expiry : Option ℕ

-- `_CandidateHealth()`
abbrev pub healthy : CandidateHealth
healthy = record { consecutive_failures = 0; cooldown_expiry = none }

abbrev pub Key : Type 0
Key = String × String

pub record CandidateCooldownStore : Type 0 where
  pub failure_threshold : ℕ
  pub cooldown_seconds : ℕ
  pub health : Dict Key CandidateHealth

-- `__init__`, where `none` is a `ValueError`
unfoldable pub make : ℤ → Float → Option CandidateCooldownStore
make (pos (suc threshold)) (finite (pos (suc seconds))) =
    some (record { failure_threshold = suc threshold; cooldown_seconds = suc seconds; health = [] })
make _ _ = none

-- `self._health.setdefault(key, _CandidateHealth())`
abbrev pub bucket : CandidateCooldownStore → Key → CandidateHealth
bucket store key = get_or_else (Dict.lookup key store.health) healthy

-- One more failure; the expiry is moved whenever the count has reached the threshold.
abbrev pub failed : CandidateCooldownStore → ℕ → CandidateHealth → CandidateHealth
failed store now h = record {
  consecutive_failures = h.consecutive_failures + 1;
  cooldown_expiry =
      if leb store.failure_threshold (h.consecutive_failures + 1)
      then some (now + store.cooldown_seconds)
      else h.cooldown_expiry;
}

unfoldable pub record_failure : ℕ → Key → CandidateCooldownStore → CandidateCooldownStore
record_failure now key store = record store {
  health = Dict.insert key (failed store now (bucket store key)) store.health;
}

unfoldable pub record_success : Key → CandidateCooldownStore → CandidateCooldownStore
record_success key store = record store { health = Dict.insert key healthy store.health }

-- The read drops a bucket whose cooldown has run out.
check_expiry : ℕ → Key → CandidateCooldownStore → Option ℕ → Bool × CandidateCooldownStore
check_expiry now key store none = (false, store)
check_expiry now key store (some expiry) =
    if ltb now expiry
    then (true, store)
    else (false, record store { health = Dict.erase key store.health })

unfoldable pub is_in_cooldown : ℕ → Key → CandidateCooldownStore → Bool × CandidateCooldownStore
unfolding check_expiry
is_in_cooldown now key store = elim (Dict.lookup key store.health) [
  | none ↦ (false, store)
  | some h ↦ check_expiry now key store h.cooldown_expiry
]

-- What the read answers, by the bucket alone.
abbrev pub answer : ℕ → Option CandidateHealth → Bool
answer now none = false
answer now (some h) = elim h.cooldown_expiry [ none ↦ false | some expiry ↦ ltb now expiry ]

pub is_in_cooldown-eq-answer :
    (now : ℕ) (key : Key) (store : CandidateCooldownStore)
    → (is_in_cooldown now key store).0 ≡ answer now (Dict.lookup key store.health)
unfolding is_in_cooldown
is_in_cooldown-eq-answer now key store = ground arith
