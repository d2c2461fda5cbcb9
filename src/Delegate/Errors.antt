-- ===== src/Delegate/Errors.antt =====
-- The exceptions that meet in src/josu/delegate: the taxonomy of client.py, the cooldown error of
-- chain.py, and what asyncio and other libraries raise. An exception is its class and the values
-- that it carries; messages are left out.
use josu.Common.{String, Option, none, ℕ, ◌≡◌, refl, ◌⊎◌, inl, inr}

pub data DelegateError : Type 0 where
  unreachable : (candidate : String) → DelegateError
  rate_limited : (candidate : String) (retry_after : Option String) → DelegateError
  api_error : (candidate : String) (status_code : ℕ) → DelegateError
  malformed : (candidate : String) → DelegateError
  in_cooldown : (candidate : String) → DelegateError

pub data Exception : Type 0 where
  delegate_error : DelegateError → Exception
  timeout_error cancelled_error value_error : Exception
  -- any other class, by its name
  other : String → Exception

pub data Result {ℓ} (A : Type ℓ) : Type ℓ where
  ok : A → Result A
  raise : Exception → Result A

-- `type(exc).__name__`
abbrev pub class_name : Exception → String
class_name (delegate_error (unreachable c)) = "DelegateUnreachableError"
class_name (delegate_error (rate_limited c r)) = "DelegateRateLimitedError"
class_name (delegate_error (api_error c s)) = "DelegateAPIError"
class_name (delegate_error (malformed c)) = "DelegateMalformedResponseError"
class_name (delegate_error (in_cooldown c)) = "CandidateCooldownError"
class_name timeout_error = "TimeoutError"
class_name cancelled_error = "CancelledError"
class_name value_error = "ValueError"
class_name (other name) = name

-- `getattr(exc, "retry_after", None)`
abbrev pub retry_after_of : Exception → Option String
retry_after_of (delegate_error (rate_limited c r)) = r
retry_after_of _ = none

-- `exc.candidate`
abbrev pub candidate_of : DelegateError → String
candidate_of (unreachable c) = c
candidate_of (rate_limited c r) = c
candidate_of (api_error c s) = c
candidate_of (malformed c) = c
candidate_of (in_cooldown c) = c

pub Result-cases {ℓ} :
    {A : Type ℓ} (r : Result A) → ((e : Exception) × (r ≡ raise e)) ⊎ ((a : A) × (r ≡ ok a))
Result-cases (ok a) = inr (a, refl)
Result-cases (raise e) = inl (e, refl)

-- The next step, if there is no exception.
abbrev pub bind {ℓ κ} : {A : Type ℓ} {B : Type κ} → Result A → (A → Result B) → Result B
bind (raise e) f = raise e
bind (ok a) f = f a

pub bind-ok {ℓ κ} :
    {A : Type ℓ} {B : Type κ} (r : Result A) (f : A → Result B) (b : B)
    → bind r f ≡ ok b
    → (a : A) × ((r ≡ ok a) × (f a ≡ ok b))
bind-ok (raise e) f b h = cc
bind-ok (ok a) f b h = (a, (refl, h))
