-- ===== src/Delegate/Client/Laws.antt =====
-- What `complete` returns and raises.
use josu.Common.{
  Bool, true, false, ℕ, ◌≤◌, String, Option, none, some, List, [], ◌∷◌, ◌++◌, ◌≡◌, refl, arith,
  length, length-append, ltb, leb, if◌then◌else◌, append_assoc, append-nil, Bool-cases, inl, inr,
  subst,
}
use josu.Delegate.Errors.{
  malformed, Exception, delegate_error, other, Result, ok, raise, candidate_of, Result-cases,
}
use josu.Delegate.Json.{Decoded, decoded, decode_error, unicode_error, value_error, too_deep}
use josu.Delegate.Client.{
  Bytes, Failure, connection, transport, Response, Exchange, failed, responded, Libraries,
  read_body, stream, complete, parse,
}

-- The bytes of a stream that ends by itself.
abbrev pub join : List Bytes → Bytes
join [] = []
join (chunk ∷ chunks) = chunk ++ join chunks

module _ (name : String) (max_response_bytes : ℕ) where
  read_body-eq_from :
      (body : Bytes) (chunks : List Bytes)
      → length body ≤ max_response_bytes
      → read_body name max_response_bytes body chunks none ≡ (
          if leb (length (body ++ join chunks)) max_response_bytes
          then ok (body ++ join chunks)
          else raise (delegate_error (malformed name)))
  unfolding read_body
  read_body-eq_from body [] h = rw (append-nil) (ground arith)
  read_body-eq_from body (chunk ∷ chunks) h =
      elim (Bool-cases (ltb max_response_bytes (length (body ++ chunk)))) [
        | inl long ↦ ground (
          arith,
          length-append body chunk,
          length-append body (chunk ++ join chunks),
          length-append chunk (join chunks),
        )
        | inr fits ↦
            rw (fits, read_body, ← append_assoc body chunk (join chunks))
              (read_body-eq_from (body ++ chunk) chunks (ground arith))
      ]

  -- A response whose stream ends by itself is read whole if it is no longer than the limit, however
  -- it is cut into chunks, and is malformed if it is longer.
  pub read_body-eq :
      (chunks : List Bytes)
      → read_body name max_response_bytes [] chunks none ≡ (
          if leb (length (join chunks)) max_response_bytes
          then ok (join chunks)
          else raise (delegate_error (malformed name)))
  read_body-eq chunks = read_body-eq_from [] chunks (omega arith)

-- The failures of the connection are among those that the client knows.
abbrev pub IsKnownFailure : Failure → Type 0
IsKnownFailure connection = Unit
IsKnownFailure (transport class) = ⊥

abbrev pub IsKnownCut : Option Failure → Type 0
IsKnownCut none = Unit
IsKnownCut (some f) = IsKnownFailure f

abbrev pub IsKnown : Exchange → Type 0
IsKnown (failed f) = IsKnownFailure f
IsKnown (responded r) = IsKnownCut r.cut

-- A delegate error about the candidate of this name.
abbrev pub IsOwnError : String → Exception → Type 0
IsOwnError name (delegate_error e) = candidate_of e ≡ name
IsOwnError name _ = ⊥

abbrev pub OnRaise : {A : Type 0} → (Exception → Type 0) → Result A → Type 0
OnRaise P (ok a) = Unit
OnRaise P (raise e) = P e

module _ (name : String) (max_response_bytes : ℕ) where
  read_body-OnRaise :
      (body : Bytes) (chunks : List Bytes) (cut : Option Failure)
      → IsKnownCut cut
      → OnRaise (IsOwnError name) (read_body name max_response_bytes body chunks cut)
  unfolding read_body
  read_body-OnRaise body [] none h = tt
  read_body-OnRaise body [] (some connection) h = refl
  read_body-OnRaise body [] (some (transport class)) h = elim h [ ]
  read_body-OnRaise body (chunk ∷ chunks) cut h =
      elim (Bool-cases (ltb max_response_bytes (length (body ++ chunk)))) [
        | inl long ↦ rw (long, read_body, OnRaise) refl
        | inr fits ↦ rw (fits, read_body) (read_body-OnRaise (body ++ chunk) chunks cut h)
      ]

  stream-OnRaise :
      (exchange : Exchange)
      → IsKnown exchange
      → OnRaise (IsOwnError name) (stream name max_response_bytes exchange)
  unfolding stream
  stream-OnRaise (failed connection) h = refl
  stream-OnRaise (failed (transport class)) h = elim h [ ]
  stream-OnRaise (responded r) h = ground (arith, read_body-OnRaise [] r.chunks r.cut h)

-- The decoder fails by a class that the client does not catch.
abbrev pub is_uncaught : Decoded → Bool
is_uncaught unicode_error = true
is_uncaught value_error = true
is_uncaught _ = false

module _ (libraries : Libraries) (name : String) (max_response_bytes : ℕ) where
  parse-OnRaise :
      (d : Decoded) → is_uncaught d ≡ false → OnRaise (IsOwnError name) (parse libraries name d)
  unfolding parse
  parse-OnRaise (decoded value) h = ground arith
  parse-OnRaise decode_error h = refl
  parse-OnRaise unicode_error h = cc
  parse-OnRaise value_error h = cc
  parse-OnRaise too_deep h = refl

  complete-OnRaise :
      (exchange : Exchange)
      → IsKnown exchange
      → ((body : Bytes) → is_uncaught (libraries.loads body) ≡ false)
      → OnRaise (IsOwnError name) (complete libraries name max_response_bytes exchange)
  unfolding complete
  complete-OnRaise exchange known text =
      elim (Result-cases (stream name max_response_bytes exchange)) [
        | inl (e, p) ↦
            rw (p, complete)
              (subst (OnRaise (IsOwnError name)) p
                (stream-OnRaise name max_response_bytes exchange known))
        | inr (body, p) ↦ rw (p, complete) (parse-OnRaise (libraries.loads body) (text body))
      ]

  -- If the connection fails only in ways that the client knows and the decoder finds neither invalid
  -- UTF-8 nor an integer that is too long, every exception of `complete` is a delegate error about the client's own candidate.
  pub complete-raises_own :
      (exchange : Exchange) (e : Exception)
      → IsKnown exchange
      → ((body : Bytes) → is_uncaught (libraries.loads body) ≡ false)
      → complete libraries name max_response_bytes exchange ≡ raise e
      → IsOwnError name e
  complete-raises_own exchange e known text h =
      subst (OnRaise (IsOwnError name)) h (complete-OnRaise exchange known text)

  -- A reply whose body is read whole and is no valid UTF-8 escapes the taxonomy: `complete` raises a
  -- UnicodeDecodeError, which is no delegate error.
  pub complete_invalid_utf8 :
      (response : Response)
      → response.status_code ≡ 200
      → response.cut ≡ none
      → length (join response.chunks) ≤ max_response_bytes
      → libraries.loads (join response.chunks) ≡ unicode_error
      → complete libraries name max_response_bytes (responded response)
        ≡ raise (other "UnicodeDecodeError")
  unfolding complete stream parse
  complete_invalid_utf8 response status whole fits bad =
      ground (arith, read_body-eq name max_response_bytes response.chunks)
