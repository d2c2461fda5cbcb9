-- ===== src/Daemon/Body/Bounds.antt =====
-- How much of a body is read.
use josu.Common.{
  ℕ, ◌+◌, ◌≤◌, Bool, true, Option, none, some, List, [], ◌∷◌, ◌++◌, length, length-append, ltb, leb,
  nat_eq, ◌||◌, subst, if◌then◌else◌, ◌≡◌, refl, arith, inl, inr, Bool-cases, Option-cases,
  append-nil, append_assoc, String, contains, eq_string,
}
use josu.Common.Int.{ℤ}
use josu.Delegate.Client.{Bytes}
use josu.Delegate.Json.{Decoded, decoded, decode_error, unicode_error, value_error, too_deep}
use josu.Daemon.Body.{
  Request, Body, error_response, read_stream, read_bounded_json_body, declares_too_much, is_json,
  decode, body, lets_out,
}

abbrev pub join : List Bytes → Bytes
join [] = []
join (chunk ∷ chunks) = chunk ++ join chunks

abbrev within : ℕ → Bytes → Option Bytes
within max_bytes bytes = if leb (length bytes) max_bytes then some bytes else none

read_stream-within :
    (max_bytes total : ℕ) (kept : Bytes) (chunks : List Bytes)
    → total ≡ length kept
    → total ≤ max_bytes
    → read_stream max_bytes total kept chunks ≡ within max_bytes (kept ++ join chunks)
unfolding read_stream
read_stream-within max_bytes total kept [] same h = rw (append-nil kept) (ground arith)
read_stream-within max_bytes total kept (chunk ∷ chunks) same h =
    elim (Bool-cases (ltb max_bytes (total + length chunk))) [
      | inl over ↦
          ground
            (arith, length-append kept (chunk ++ join chunks), length-append chunk (join chunks))
      | inr fits ↦ ground (
        arith,
        read_stream-within max_bytes (total + length chunk) (kept ++ chunk) chunks
            (omega (arith, length-append kept chunk)) (ground arith),
        append_assoc kept chunk (join chunks),
      )
    ]

-- The decoder is reached just if no guard fires and the chunks together are at most `max_bytes`
-- long and the client stays, and it then gets them all; a client that goes away is a
-- ClientDisconnect, and otherwise the answer is the 413 or the 415 error of the first
-- guard that fires.
pub read_bounded_json_body-eq :
    (loads : Bytes → Decoded) (to_int : String → Option ℤ) (request : Request) (max_bytes : ℕ)
    → read_bounded_json_body loads to_int request max_bytes ≡ (
        if declares_too_much to_int max_bytes request
        then error_response "request_too_large" 413
        else if is_json request
        then (if leb (length (join request.chunks)) max_bytes
            then (if request.is_disconnected
                then lets_out "ClientDisconnect"
                else decode (loads (join request.chunks)))
            else error_response "request_too_large" 413)
        else error_response "unsupported_media_type" 415)
unfolding read_bounded_json_body
read_bounded_json_body-eq loads to_int request max_bytes =
    ground (arith, read_stream-within max_bytes 0 [] request.chunks refl (omega arith))

-- The classes of the exceptions that the body's reader lets out.
abbrev pub let_out : List String
let_out = "RecursionError" ∷ "ValueError" ∷ "ClientDisconnect" ∷ []

-- The statuses of a refused request.
abbrev pub is_refused : ℕ → Bool
is_refused status = nat_eq status 400 || nat_eq status 413 || nat_eq status 415

abbrev refuses : Body → Bool
refuses (error_response e status) = is_refused status
refuses (lets_out class) = contains let_out class
refuses (body value) = true

decode-refuses : (read : Decoded) → refuses (decode read) ≡ true
unfolding decode
decode-refuses (decoded value) = refl
decode-refuses decode_error = refl
decode-refuses unicode_error = refl
decode-refuses value_error = refl
decode-refuses too_deep = refl

read_bounded_json_body-refuses :
    (loads : Bytes → Decoded) (to_int : String → Option ℤ) (request : Request) (max_bytes : ℕ)
    → refuses (read_bounded_json_body loads to_int request max_bytes) ≡ true
unfolding read_bounded_json_body
read_bounded_json_body-refuses loads to_int request max_bytes =
    elim (Option-cases (read_stream max_bytes 0 [] request.chunks)) [
      | inl over ↦ ground arith
      | inr (bytes, whole) ↦ ground (arith, decode-refuses (loads bytes))
    ]

pub read_bounded_json_body-refused :
    (loads : Bytes → Decoded) (to_int : String → Option ℤ) (request : Request) (max_bytes : ℕ)
    (e : String) (status : ℕ)
    → read_bounded_json_body loads to_int request max_bytes ≡ error_response e status
    → is_refused status ≡ true
read_bounded_json_body-refused loads to_int request max_bytes e status h =
    subst (λ b. refuses b ≡ true) h (read_bounded_json_body-refuses loads to_int request max_bytes)

pub read_bounded_json_body-let_out :
    (loads : Bytes → Decoded) (to_int : String → Option ℤ) (request : Request) (max_bytes : ℕ)
    (class : String)
    → read_bounded_json_body loads to_int request max_bytes ≡ lets_out class
    → contains let_out class ≡ true
read_bounded_json_body-let_out loads to_int request max_bytes class h =
    subst (λ b. refuses b ≡ true) h (read_bounded_json_body-refuses loads to_int request max_bytes)
