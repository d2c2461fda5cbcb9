-- ===== src/Daemon/Body.antt =====
-- src/josu/internal_route_http.py: `read_bounded_json_body`. The JSON decoder and `int()` of a header
-- are parameters.
pub mod Bounds
use josu.Common.{
  ℕ, ◌+◌, Bool, true, false, not, String, Option, none, some, List, [], ◌∷◌, ◌++◌, length, ltb,
  if◌then◌else◌, get_or_else, ◌≡◌, refl, ◌⊎◌, inl, inr,
}
use josu.Common.Int.{ℤ, pos, negsuc}
use josu.Common.Latin.{strip, before, is_lower_of}
use josu.Delegate.Client.{Bytes}
use josu.Delegate.Json.{Json, Decoded, decoded, decode_error, unicode_error, value_error, too_deep}

-- A request: the two headers that are looked at, and the chunks in which its body comes.
pub record Request : Type 0 where
  pub content_length : Option String
  pub content_type : Option String
  pub chunks : List Bytes
  -- whether the client goes away after the chunks, before the body ends
  pub is_disconnected : Bool

-- What the function returns, a value or an error response, or the class of the exception that it lets
-- out.
pub data Body : Type 0 where
  body : Json → Body
  error_response : (error : String) (status_code : ℕ) → Body
  lets_out : (class : String) → Body

-- `declared_bytes > max_bytes`
abbrev pub exceeds : ℕ → Option ℤ → Bool
exceeds max_bytes none = false
exceeds max_bytes (some (pos n)) = ltb max_bytes n
exceeds max_bytes (some (negsuc n)) = false

abbrev pub declares_too_much : (String → Option ℤ) → ℕ → Request → Bool
declares_too_much to_int max_bytes request = elim request.content_length [
  | none ↦ false
  | some declared_length ↦ exceeds max_bytes (to_int declared_length)
]

abbrev pub is_json : Request → Bool
is_json request =
    is_lower_of "application/json" (strip (before 59 (get_or_else request.content_type "")))

-- The loop over the chunks, from the bytes counted and those kept.
unfoldable pub read_stream : (max_bytes total_bytes : ℕ) → Bytes → List Bytes → Option Bytes
read_stream max_bytes total_bytes kept [] = some kept
read_stream max_bytes total_bytes kept (chunk ∷ chunks) =
    elim (ltb max_bytes (total_bytes + length chunk)) [
      | true ↦ none
      | false ↦ read_stream max_bytes (total_bytes + length chunk) (kept ++ chunk) chunks
    ]

pub Body-cases :
    (b : Body)
    → ((value : Json) × (b ≡ body value))
      ⊎ (((e : String) × ((status : ℕ) × (b ≡ error_response e status)))
          ⊎ ((class : String) × (b ≡ lets_out class)))
Body-cases (body value) = inl (value, refl)
Body-cases (error_response e status) = inr (inl (e, (status, refl)))
Body-cases (lets_out class) = inr (inr (class, refl))

pub decode : Decoded → Body
decode (decoded value) = body value
decode decode_error = error_response "invalid_json" 400
decode unicode_error = error_response "invalid_json" 400
decode value_error = lets_out "ValueError"
decode too_deep = lets_out "RecursionError"

module _ (loads : Bytes → Decoded) (to_int : String → Option ℤ) where
  unfoldable pub read_bounded_json_body : Request → ℕ → Body
  unfolding decode
  read_bounded_json_body request max_bytes =
      if declares_too_much to_int max_bytes request
      then error_response "request_too_large" 413
      else if not (is_json request)
      then error_response "unsupported_media_type" 415
      else elim (read_stream max_bytes 0 [] request.chunks) [
        | none ↦ error_response "request_too_large" 413
        | some bytes ↦
            if request.is_disconnected then lets_out "ClientDisconnect" else decode (loads bytes)
      ]
