-- ===== src/Delegate/Client.antt =====
-- src/josu/delegate/client.py: `OpenAICompatibleDelegateClient.complete`. The exchange that httpx
-- carries out, and the JSON decoder, are parameters.
pub mod Laws
mod Examples
use josu.Common.{
  ℕ, ◌+◌, Bool, true, false, String, Option, none, some, List, [], ◌∷◌, ◌++◌, length, ltb, leb,
  nat_eq, if◌then◌else◌,
}
use josu.Delegate.Errors.{
  DelegateError, unreachable, rate_limited, api_error, malformed, Exception, delegate_error, other,
  Result, ok, raise,
}
use josu.Delegate.Json.{
  Json, Decoded, decoded, decode_error, unicode_error, value_error, too_deep, subscript, first,
}

abbrev pub Bytes : Type 0
Bytes = List ℕ

abbrev pub default_max_response_bytes : ℕ
default_max_response_bytes = 2000000

-- How a connection fails: by one of the classes that `complete` catches (ConnectError and the
-- timeouts), or by another class of httpx, by its name.
pub data Failure : Type 0 where
  connection : Failure
  transport : (name : String) → Failure

pub record Response : Type 0 where
  pub status_code : ℕ
  pub retry_after : Option String
  pub chunks : List Bytes
  -- what ends the stream after the chunks, if it does not end by itself
  pub cut : Option Failure

pub data Exchange : Type 0 where
  failed : Failure → Exchange
  responded : Response → Exchange

-- The code that a client needs of its libraries.
pub record Libraries : Type 0 where
  pub loads : Bytes → Decoded
  pub show : Json → String

module _ (name : String) (max_response_bytes : ℕ) where
  raise_failure : {A : Type 0} → Failure → Result A
  raise_failure connection = raise (delegate_error (unreachable name))
  raise_failure (transport class) = raise (other class)

  -- The loop over `response.aiter_bytes()`, from what has been read.
  unfoldable pub read_body : Bytes → List Bytes → Option Failure → Result Bytes
  unfolding raise_failure
  read_body body [] none = ok body
  read_body body [] (some failure) = raise_failure failure
  read_body body (chunk ∷ chunks) cut = elim (ltb max_response_bytes (length (body ++ chunk))) [
    | true ↦ raise (delegate_error (malformed name))
    | false ↦ read_body (body ++ chunk) chunks cut
  ]

  unfoldable pub stream : Exchange → Result Bytes
  unfolding raise_failure read_body
  stream (failed failure) = raise_failure failure
  stream (responded response) =
      if nat_eq response.status_code 429
      then raise (delegate_error (rate_limited name response.retry_after))
      else if leb 400 response.status_code
      then raise (delegate_error (api_error name response.status_code))
      else read_body [] response.chunks response.cut

-- `data["choices"][0]["message"]["content"]`
abbrev pub bind_option : {A B : Type 0} → Option A → (A → Option B) → Option B
bind_option none f = none
bind_option (some a) f = f a

abbrev pub content : Json → Option Json
content value =
    bind_option
      (bind_option (bind_option (subscript value "choices") first) (λ c. subscript c "message"))
      (λ m. subscript m "content")

module _ (libraries : Libraries) where
  parse : String → Decoded → Result String
  parse name (decoded value) = elim (content value) [
    | none ↦ raise (delegate_error (malformed name))
    | some c ↦ ok (libraries.show c)
  ]
  parse name decode_error = raise (delegate_error (malformed name))
  -- a `UnicodeDecodeError` or a plain `ValueError` is no `JSONDecodeError`, and not among the classes
  -- that are caught
  parse name unicode_error = raise (other "UnicodeDecodeError")
  parse name value_error = raise (other "ValueError")
  parse name too_deep = raise (delegate_error (malformed name))

  unfoldable pub complete : String → ℕ → Exchange → Result String
  unfolding stream parse
  complete name max_response_bytes exchange = elim (stream name max_response_bytes exchange) [
    | raise e ↦ raise e
    | ok body ↦ parse name (libraries.loads body)
  ]
