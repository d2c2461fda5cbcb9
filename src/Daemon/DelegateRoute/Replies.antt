-- ===== src/Daemon/DelegateRoute/Replies.antt =====
-- What the handler answers.
use josu.Common.{
  ℕ, Bool, true, false, String, Option, none, some, contains, ◌≡◌, refl, sym, arith, subst,
  eq_string, get_or_else, inl, inr, ◌⊎◌, Option-cases,
}
use josu.Common.Int.{ℤ, Float}
use josu.Config.Chains.{ChainsConfig, Registry}
use josu.Delegate.Errors.{other, class_name}
use josu.Delegate.Json.{Json, Fields, Decoded}
use josu.Delegate.Client.{Bytes}
use josu.Delegate.Chain.{Env, Session}
use josu.Daemon.Body.{Request, body, error_response, lets_out, Body-cases, read_bounded_json_body}
use josu.Daemon.Body.Bounds.{
  is_refused, let_out, read_bounded_json_body-refused, read_bounded_json_body-let_out,
}
use josu.Daemon.DelegateRoute.{
  DelegateInternalRequest, is_valid, is_timeout, Reply, error, result, raised, respond,
  model_validate, handle, max_body_bytes,
}

-- An answer given before any chain is run: one of three statuses, or one of those exceptions.
abbrev pub is_refusal : Reply → Bool
is_refusal (error e status) = is_refused status
is_refusal (result r) = false
is_refusal (raised e) = contains let_out (class_name e)

-- A payload that the handler goes on with: its task, its scope, and the timeout of its chain are
-- within their limits, and it names either a task type or candidates.
abbrev pub IsAdmitted : (Fields → ℕ) → Float → DelegateInternalRequest → Type 0
IsAdmitted dumps_length timeout = λ payload.
    (is_valid dumps_length payload ≡ true)
    × (is_timeout (get_or_else payload.timeout timeout) ≡ true)

model_validate-valid :
    (convert : Json → Option DelegateInternalRequest) (dumps_length : Fields → ℕ) (raw : Json)
    (payload : DelegateInternalRequest)
    → model_validate convert dumps_length raw ≡ some payload
    → is_valid dumps_length payload ≡ true
unfolding model_validate
model_validate-valid convert dumps_length raw payload h = elim (Option-cases (convert raw)) [
  | inl none_made ↦ ground arith
  | inr (made, converted) ↦ ground arith
]

valid_timeout :
    (dumps_length : Fields → ℕ) (timeout : Float) (payload : DelegateInternalRequest)
    → is_timeout timeout ≡ true
    → is_valid dumps_length payload ≡ true
    → is_timeout (get_or_else payload.timeout timeout) ≡ true
unfolding is_valid
valid_timeout dumps_length timeout payload default valid = ground arith

module _ (env : Float → Option String → Env) (timeout : Float) (config : ChainsConfig)
    (registry : Registry) (loads : Bytes → Decoded) (to_int : String → Option ℤ)
    (convert : Json → Option DelegateInternalRequest) (dumps_length : Fields → ℕ) where
  abbrev handles : Request → Session → Reply × Session
  handles = handle env timeout config registry loads to_int convert dumps_length

  handle_error :
      (request : Request) (s : Session) (e : String) (status : ℕ)
      → read_bounded_json_body loads to_int request max_body_bytes ≡ error_response e status
      → handles request s ≡ (error e status, s)
  unfolding handle
  handle_error request s e status h = ground arith

  handle_let_out :
      (request : Request) (s : Session) (class : String)
      → read_bounded_json_body loads to_int request max_body_bytes ≡ lets_out class
      → handles request s ≡ (raised (other class), s)
  unfolding handle
  handle_let_out request s class h = ground arith

  handle_body :
      (request : Request) (s : Session) (raw : Json)
      → read_bounded_json_body loads to_int request max_body_bytes ≡ body raw
      → (model_validate convert dumps_length raw ≡ none
          → handles request s ≡ (error "invalid_request" 400, s))
        × ((payload : DelegateInternalRequest)
            → model_validate convert dumps_length raw ≡ some payload
            → handles request s ≡ respond env timeout config registry payload s)
  unfolding handle
  handle_body request s raw h = ((λ invalid. ground arith), (λ payload valid. ground arith))

  -- How a request is handled, as `handle-cases` states it.
  abbrev Handled : Session → Reply × Session → Type 0
  Handled s = λ out.
      ((is_refusal out.0 ≡ true) × (out.1 ≡ s))
      ⊎ ((payload : DelegateInternalRequest) × (IsAdmitted dumps_length timeout payload
            × (out ≡ respond env timeout config registry payload s)))

  -- Where the default timeout is more than 0 and at most the limit, a request is either refused, by a
  -- 400, 413 or 415 error or by a RecursionError, a ValueError or a ClientDisconnect of its body's
  -- reader, and the session is as before, or it is answered as its payload, which is within all
  -- limits, is.
  pub handle-cases :
      (request : Request) (s : Session)
      → is_timeout timeout ≡ true
      → ((is_refusal (handles request s).0 ≡ true) × ((handles request s).1 ≡ s))
        ⊎ ((payload : DelegateInternalRequest) × (IsAdmitted dumps_length timeout payload
              × (handles request s ≡ respond env timeout config registry payload s)))
  handle-cases request s default =
      elim (Body-cases (read_bounded_json_body loads to_int request max_body_bytes)) [
        | inr (inl (e, (status, refused))) ↦
            subst (Handled s) (sym (handle_error request s e status refused)) (
              inl (
                read_bounded_json_body-refused loads to_int request max_body_bytes e status refused,
                refl,
              ))
        | inr (inr (class, out)) ↦ subst (Handled s) (sym (handle_let_out request s class out)) (
            inl
              (read_bounded_json_body-let_out loads to_int request max_body_bytes class out, refl))
        | inl (raw, read) ↦ elim (Option-cases (model_validate convert dumps_length raw)) [
          | inl invalid ↦
              subst (Handled s) (sym ((handle_body request s raw read).0 invalid))
                (inl (refl, refl))
          | inr (payload, valid) ↦
              let admitted = model_validate-valid convert dumps_length raw payload valid in
              inr (
                payload,
                (
                  (admitted, valid_timeout dumps_length timeout payload default admitted),
                  (handle_body request s raw read).1 payload valid,
                ),
              )
        ]
      ]
