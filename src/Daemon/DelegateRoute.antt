-- ===== src/Daemon/DelegateRoute.antt =====
-- src/josu/delegate/internal_api.py: the handler of POST /delegate/internal. Pydantic's conversion of
-- the fields' types and the length of `json.dumps` are parameters; what a chain meets depends on the
-- timeout and the scope root that it is given.
pub mod PreResolved
pub mod Replies
use Prim.Native.String.{count}
use josu.Common.{
  ℕ, Bool, true, false, not, ◌&&◌, String, Option, none, some, List, [], ◌∷◌, ltb, leb, eq_string,
  if◌then◌else◌, is_some, get_or_else,
}
use josu.Common.Dict
use josu.Common.Int.{ℤ, pos, Float, finite}
use josu.Config.Delegate.{DelegateCandidate}
use josu.Config.Chains.{DelegationChain, ChainsConfig, Registry}
use josu.Delegate.Errors.{Exception, other, Result, ok, raise}
use josu.Delegate.Json.{Json, str, Fields, Decoded, get}
use josu.Delegate.Client.{Bytes}
use josu.Delegate.LocalModel.{DelegateResult}
use josu.Delegate.Chain.{
  Env, Session, Outcome, served, no_candidates, chain_exhausted, propagated, execute_chain,
}
use josu.Proactive.{by_name, names_of}
use josu.Daemon.Body.{Request, Body, body, error_response, lets_out, read_bounded_json_body}

abbrev pub max_body_bytes : ℕ
max_body_bytes = 2000000

abbrev pub max_task_chars : ℕ
max_task_chars = 200000

abbrev pub max_scope_bytes : ℕ
max_scope_bytes = 200000

-- in milliseconds, as all timeouts here
abbrev pub max_delegate_timeout : ℕ
max_delegate_timeout = 600000

abbrev pub pre_resolved_chain_key : String
pre_resolved_chain_key = "__josu_internal_pre_resolved__"

pub record DelegateInternalRequest : Type 0 where
  pub task : String
  pub scope : Option Fields
  pub task_type : Option String
  pub candidates : Option (List String)
  pub timeout : Option Float

-- `gt=0, le=MAX_DELEGATE_TIMEOUT_SECONDS, allow_inf_nan=False`
abbrev pub is_timeout : Float → Bool
is_timeout (finite (pos n)) = ltb 0 n && leb n max_delegate_timeout
is_timeout _ = false

abbrev pub all_of {ℓ} : {A : Type ℓ} → (A → Bool) → Option A → Bool
all_of p none = true
all_of p (some a) = p a

-- `bool(self.candidates)`
abbrev pub has_candidates : Option (List String) → Bool
has_candidates (some (name ∷ names)) = true
has_candidates _ = false

abbrev xor : Bool → Bool → Bool
xor true b = not b
xor false b = b

-- The limits of the fields, and `_validate_shape`.
unfoldable pub is_valid : (dumps_length : Fields → ℕ) → DelegateInternalRequest → Bool
is_valid dumps_length payload =
    leb (count payload.task) max_task_chars
    && all_of is_timeout payload.timeout
    && xor (is_some payload.task_type) (has_candidates payload.candidates)
    && all_of (λ scope. leb (dumps_length scope) max_scope_bytes) payload.scope

-- `DelegateInternalRequest.model_validate`, where `none` is a ValidationError
unfoldable pub model_validate :
    (convert : Json → Option DelegateInternalRequest) (dumps_length : Fields → ℕ) (value : Json)
    → Option DelegateInternalRequest
model_validate convert dumps_length value = elim (convert value) [
  | none ↦ none
  | some payload ↦ if is_valid dumps_length payload then some payload else none
]

-- `local_candidates`
unfoldable pub local_candidates : List String → Registry → List DelegateCandidate
local_candidates [] registry = []
local_candidates (name ∷ names) registry =
    let rest = local_candidates names registry in
    elim (Dict.lookup name registry) [ none ↦ rest | some c ↦ if c.local then c ∷ rest else rest ]

abbrev pub pre_resolved_config : List DelegateCandidate → ChainsConfig
pre_resolved_config candidates = record {
  chains =
      record {
        task_type = pre_resolved_chain_key;
        candidates = names_of candidates;
        explicit_order = true;
        stays_hosted = false;
      }
      ∷ [];
  allow_remote = false;
}

-- `resolved_task_type`, `resolved_chains_config` and `resolved_registry`
unfoldable pub resolved :
    DelegateInternalRequest → ChainsConfig → Registry → String × (ChainsConfig × Registry)
resolved payload config registry = elim (has_candidates payload.candidates) [
  | true ↦
      let candidates = local_candidates (get_or_else payload.candidates []) registry in
      (pre_resolved_chain_key, (pre_resolved_config candidates, by_name [] candidates))
  | false ↦ (get_or_else payload.task_type "", (config, registry))
]

-- `Path` of a value that is no text is a TypeError.
unfoldable pub scope_root : Option Fields → Result (Option String)
scope_root none = ok none
scope_root (some scope) = elim (get "path" scope) [
  | none ↦ ok none
  | some (str path) ↦ ok (some path)
  | some value ↦ raise (other "TypeError")
]

-- What the handler returns, or the exception that it lets out.
pub data Reply : Type 0 where
  error : (error : String) (status_code : ℕ) → Reply
  result : DelegateResult → Reply
  raised : Exception → Reply

-- The `try` statement round the chain, and the answer after it.
unfoldable pub reply : Outcome → Reply
reply (served r) = result r
reply (no_candidates t) = error "no_candidates" 422
reply (chain_exhausted t attempted skip_records last_error) = error "chain_exhausted" 502
reply (propagated e) = raised e

module _ (env : Float → Option String → Env) (timeout : Float) (config : ChainsConfig)
    (registry : Registry) where
  -- The handler, from a payload that is valid. A timeout that is given is not 0.
  unfoldable pub respond : DelegateInternalRequest → Session → Reply × Session
  respond payload s = elim (scope_root payload.scope) [
    | raise e ↦ (raised e, s)
    | ok root ↦
        let (task_type, inputs) = resolved payload config registry in
        let (outcome, s') =
          execute_chain (env (get_or_else payload.timeout timeout) root) task_type none inputs.0
            inputs.1 s in
        (reply outcome, s')
  ]

  module _ (loads : Bytes → Decoded) (to_int : String → Option ℤ)
      (convert : Json → Option DelegateInternalRequest) (dumps_length : Fields → ℕ) where
    unfoldable pub handle : Request → Session → Reply × Session
    handle request s = elim (read_bounded_json_body loads to_int request max_body_bytes) [
      | error_response e status ↦ (error e status, s)
      | lets_out class ↦ (raised (other class), s)
      | body raw ↦ elim (model_validate convert dumps_length raw) [
        | none ↦ (error "invalid_request" 400, s)
        | some payload ↦ respond payload s
      ]
    ]
