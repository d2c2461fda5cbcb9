-- ===== src/Daemon/Examples.antt =====
-- Requests to the daemon, and the theorems at them.
use josu.Common.{
  true, false, String, Option, none, some, [], ◌∷◌, ◌≡◌, ◌↔◌, ◌⊎◌, refl, eq_string, filter,
}
use josu.Common.Dict
use josu.Common.Int.{ℤ, pos, Float, finite}
use josu.Common.Latin.{strip_left, strip_right, before, cut_prefix_lower, is_ascii}
use josu.Common.Text.{cut_prefix}
use josu.Config.Delegate.{DelegateCandidate}
use josu.Config.Chains.{
  ChainsConfig, Registry, is_local, lookup_candidates, resolve_chain, find_chain,
  default_chain_order, insert_sorted,
}
use josu.Delegate.Json.{
  Json, object, field, end, str, array, cons, nil, Decoded, decoded, subscript, first,
}
use josu.Delegate.Client.{Bytes, responded, complete, stream, read_body}
use josu.Delegate.LocalModel
use josu.Delegate.LocalModel.{Decoders, delegate}
use josu.Delegate.Queue.{try_each, run_chain}
use josu.Delegate.Cooldown.{is_in_cooldown, record_failure, record_success}
use josu.Delegate.Chain.{Env, finishes, Session, execute_chain, run_candidates, attempt}
use josu.Models.{preflight_check}
use josu.Proactive.{by_name}
use josu.Proactive.Projection.{IsKeyed, IsKeyed-by_name, IsKeyed-nil}
use josu.Daemon.Body.{Request, is_json}
use josu.Daemon.Auth.{Scope, invoked, unauthorized, middleware_call, supplied_token}
use josu.Daemon.Auth.Entry.{needs_token, middleware_call-invoked_iff}
use josu.Daemon.DelegateRoute.{
  DelegateInternalRequest, respond, reply, handle, scope_root, resolved, local_candidates,
}
use josu.Daemon.DelegateRoute.PreResolved.{answer, respond-eq-answer}
use josu.Daemon.DelegateRoute.Replies.{is_refusal, IsAdmitted, handle-cases}

abbrev request : Request
request = record {
  content_length = some "3";
  content_type = some "Application/JSON; charset=utf-8";
  chunks = (1 ∷ 2 ∷ []) ∷ (3 ∷ []) ∷ [];
  is_disconnected = false;
}

abbrev envelope : Json
envelope = object (
    field "choices"
      (array (cons (object (field "message" (object (field "content" (str "{}") end)) end)) nil))
      end)

abbrev loads : Bytes → Decoded
loads bytes = decoded envelope

abbrev to_int : String → Option ℤ
to_int s = some (pos 3)

texts : Unit {0}
unfolding strip_left strip_right before cut_prefix_lower cut_prefix is_ascii
texts = tt

accepts : is_json request ≡ true
unfolding texts
accepts = refl

-- A request with the right token in its header, and one with a wrong one in its query.
abbrev with_header : Scope
with_header = record {
  type = "http";
  path = "/delegate/internal";
  query_token = none;
  authorization = some "BEARER s3cret";
}

abbrev with_query : Scope
with_query = record with_header { query_token = some "guess" }

middleware_call-invoked_iff_example :
    (middleware_call "s3cret" with_header ≡ invoked)
    ↔ ((needs_token with_header ≡ false) ⊎ (supplied_token with_header ≡ some "s3cret"))
unfolding texts
middleware_call-invoked_iff_example = middleware_call-invoked_iff "s3cret" with_header refl

authorized :
    (middleware_call "s3cret" with_header ≡ invoked)
    × (middleware_call "s3cret" with_query ≡ unauthorized)
unfolding texts middleware_call supplied_token
authorized = (refl, refl)

abbrev remote : DelegateCandidate
remote = record {
  name = "remote";
  endpoint = "https://remote";
  api_key_env = some "KEY";
  local = false;
  model = "big";
}

abbrev ollama : DelegateCandidate
ollama = record {
  name = "ollama";
  endpoint = "http://localhost:11434/v1";
  api_key_env = none;
  local = true;
  model = "qwen2.5-coder:7b";
}

abbrev registry : Registry
registry = by_name [] (remote ∷ ollama ∷ [])

abbrev config : ChainsConfig
config = record { chains = []; allow_remote = true }

abbrev env : Float → Option String → Env
env timeout root = record {
  clock = λ n. n;
  exchanges = λ n k.
      responded
        (record { status_code = 200; retry_after = none; chunks = (1 ∷ []) ∷ []; cut = none });
  ending = λ n. finishes;
  measured_ram = 160;
  decoders = record {
    libraries = record { loads = loads; show = λ v. "done" };
    loads_text = λ text. decoded (object (field "result" (str "done") end));
  };
}

abbrev payload : DelegateInternalRequest
payload = record {
  task = "say hello";
  scope = none;
  task_type = none;
  candidates = some ("remote" ∷ "ollama" ∷ "unknown" ∷ []);
  timeout = none;
}

abbrev start : Session
start = record {
  store = record { failure_threshold = 1; cooldown_seconds = 60; health = [] };
  attempted = [];
  skip_records = [];
  ticks = 0;
  calls = [];
}

abbrev minute : Float
minute = finite (pos 60000)

registry-IsKeyed : IsKeyed registry
registry-IsKeyed = IsKeyed-by_name [] (remote ∷ ollama ∷ []) IsKeyed-nil

respond-eq-answer_example :
    respond env minute config registry payload start
    ≡ answer env minute config registry payload none
        (filter is_local (lookup_candidates ("remote" ∷ "ollama" ∷ "unknown" ∷ []) registry))
        start
unfolding scope_root
respond-eq-answer_example =
    respond-eq-answer env minute config registry payload "remote" ("ollama" ∷ "unknown" ∷ []) none
      start registry-IsKeyed refl refl

program : Unit {0}
unfolding execute_chain run_candidates resolve_chain find_chain lookup_candidates
    default_chain_order insert_sorted Dict.lookup Dict.insert Dict.erase run_chain try_each attempt
    is_in_cooldown record_failure record_success delegate LocalModel.attempt complete stream
    read_body subscript first preflight_check respond resolved scope_root local_candidates by_name
    reply
program = tt

-- Of the three names, only that of the local candidate is called.
calls_local : (respond env minute config registry payload start).1.calls ≡ ollama ∷ []
unfolding program
calls_local = refl

abbrev convert : Json → Option DelegateInternalRequest
convert value = some payload

handle-cases_example :
    ((is_refusal
          (handle env minute config registry loads to_int convert (λ scope. 0) request start).0
        ≡ true)
      × ((handle env minute config registry loads to_int convert (λ scope. 0) request start).1
          ≡ start))
    ⊎ ((sent : DelegateInternalRequest) × (IsAdmitted (λ scope. 0) minute sent
          × (handle env minute config registry loads to_int convert (λ scope. 0) request start
              ≡ respond env minute config registry sent start)))
handle-cases_example =
    handle-cases env minute config registry loads to_int convert (λ scope. 0) request start refl
