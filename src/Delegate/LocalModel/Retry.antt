-- ===== src/Delegate/LocalModel/Retry.antt =====
-- How often `delegate` asks its candidate.
use josu.Common.{ℕ, String, none, ◌≡◌, ◌≢◌, ◌⊎◌, inl, inr, arith}
use josu.Delegate.Errors.{ok, raise, delegate_error, malformed}
use josu.Delegate.Client.{Exchange}
use josu.Delegate.LocalModel.{Decoders, attempt, delegate}

module _ (decoders : Decoders) (name model : String) where
  -- A delegate call depends on two exchanges at most, and on the second one only if the first reply
  -- was malformed.
  pub delegate_at_most_two :
      (exchanges others : ℕ → Exchange)
      → exchanges 0 ≡ others 0
      → (exchanges 1 ≡ others 1) ⊎ (attempt decoders name (exchanges 0) ≢ ok none)
      → delegate decoders name model exchanges ≡ delegate decoders name model others
  unfolding delegate
  delegate_at_most_two exchanges others same (inl second) = ground arith
  delegate_at_most_two exchanges others same (inr wellformed) = ground arith

  -- What the two attempts make of a call: the retry is made after a malformed reply only, and a
  -- second malformed reply is the error.
  pub delegate_malformed :
      (exchanges : ℕ → Exchange)
      → attempt decoders name (exchanges 0) ≡ ok none
      → attempt decoders name (exchanges 1) ≡ ok none
      → delegate decoders name model exchanges ≡ raise (delegate_error (malformed model))
  unfolding delegate
  delegate_malformed exchanges first second = ground arith
