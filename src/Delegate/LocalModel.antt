-- ===== src/Delegate/LocalModel.antt =====
-- src/josu/delegate/local_model.py: `delegate`, from the exchanges that its client would carry out.
-- The prompt goes into an exchange and is not looked at again, so that it is left out.
pub mod Retry
mod Examples
use josu.Common.{ℕ, String, Option, none, some}
use josu.Delegate.Errors.{
  DelegateError, malformed, Exception, delegate_error, other, Result, ok, raise,
}
use josu.Delegate.Json.{
  Json, str, Decoded, decoded, decode_error, unicode_error, value_error, too_deep, subscript,
}
use josu.Delegate.Client.{Bytes, Exchange, Libraries, complete, default_max_response_bytes}

pub record DelegateResult : Type 0 where
  pub result : String
  pub caveats : String
  pub model : String

-- What `delegate` calls of its libraries: those of the client, and the decoder of a text.
pub record Decoders : Type 0 where
  pub libraries : Libraries
  pub open libraries use *
  pub loads_text : String → Decoded

module _ (decoders : Decoders) where
  -- `_parse_response` under its `try` statement: a malformation that is caught is `ok none`.
  parse_response : Decoded → Result (Option (String × String))
  parse_response (decoded value) = elim (subscript value "result") [
    | none ↦ ok none
    | some result ↦ elim (subscript value "caveats") [
      | none ↦ ok (some (decoders.show result, ""))
      | some caveats ↦ ok (some (decoders.show result, decoders.show caveats))
    ]
  ]
  parse_response decode_error = ok none
  parse_response too_deep = ok none
  parse_response unicode_error = raise (other "UnicodeDecodeError")
  parse_response value_error = raise (other "ValueError")

  -- `_attempt`: a malformed reply is `ok none`; any other exception goes through.
  unfoldable pub attempt : String → Exchange → Result (Option (String × String))
  unfolding parse_response
  attempt name exchange =
      elim (complete decoders.libraries name default_max_response_bytes exchange) [
        | ok content ↦ parse_response (decoders.loads_text content)
        | raise (delegate_error (malformed c)) ↦ ok none
        | raise e ↦ raise e
      ]

  -- The first exchange, and the one of the retry.
  unfoldable pub delegate : (name model : String) → (ℕ → Exchange) → Result DelegateResult
  delegate name model exchanges = elim (attempt name (exchanges 0)) [
    | raise e ↦ raise e
    | ok (some (result, caveats)) ↦
        ok (record { result = result; caveats = caveats; model = model })
    | ok none ↦ elim (attempt name (exchanges 1)) [
      | raise e ↦ raise e
      | ok (some (result, caveats)) ↦
          ok (record { result = result; caveats = caveats; model = model })
      | ok none ↦ raise (delegate_error (malformed model))
    ]
  ]
