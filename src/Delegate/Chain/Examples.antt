-- ===== src/Delegate/Chain/Examples.antt =====
-- A chain over two candidates, and the theorems at it.
use josu.Common.{
  ℕ, zero, suc, Bool, true, false, String, none, some, [], ◌∷◌, ◌++◌, ◌≡◌, ◌≢◌, refl, All,
  eq_string,
}
use josu.Common.Dict
use josu.Models.{preflight_check}
use josu.Config.Delegate.{DelegateCandidate}
use josu.Config.Chains.{
  ChainsConfig, Registry, resolve_chain, find_chain, lookup_candidates, default_chain_order,
  insert_sorted,
}
use josu.Delegate.Json.{Json, str, object, field, end, array, cons, nil, decoded, subscript, first}
use josu.Delegate.Errors.{Exception, other, delegate_error, api_error}
use josu.Delegate.Client.{Exchange, failed, responded, transport, complete, stream, read_body}
use josu.Delegate.LocalModel
use josu.Delegate.LocalModel.{Decoders, DelegateResult, delegate}
use josu.Delegate.Queue.{try_each, run_chain}
use josu.Delegate.Cooldown.{Key, is_in_cooldown, record_failure, record_success}
use josu.Delegate.Chain.{
  Env, finishes, Session, SkipRecord, served, chain_exhausted, propagated, execute_chain,
  run_candidates, attempt,
}
use josu.Delegate.Chain.Calls.{execute_chain-calls}
use josu.Delegate.Chain.Account.{execute_chain-served, execute_chain-exhausted}
use josu.Delegate.Chain.Walk.{names, skipped, ServedBy}
use josu.Delegate.Chain.Cooling.{execute_chain-AllCooling}
use josu.Delegate.Chain.Escape.{execute_chain_transport_error}

abbrev envelope : Json
envelope = object (
    field "choices"
      (array (cons (object (field "message" (object (field "content" (str "{}") end)) end)) nil))
      end)

abbrev show : Json → String
show (str s) = s
show _ = "?"

abbrev decoders : Decoders
decoders = record {
  libraries = record { loads = λ bytes. decoded envelope; show = show };
  loads_text = λ text. decoded (object (field "result" (str "done") end));
}

-- The first call meets the given exchange, the later ones a good reply.
abbrev replies : Exchange → ℕ → ℕ → Exchange
replies e zero k = e
replies e (suc n) k =
    responded (record { status_code = 200; retry_after = none; chunks = (1 ∷ []) ∷ []; cut = none })

abbrev env : Exchange → Env
env e = record {
  clock = λ n. n;
  exchanges = replies e;
  ending = λ n. finishes;
  measured_ram = 160;
  decoders = decoders;
}

abbrev busy : Exchange
busy = responded (record { status_code = 503; retry_after = none; chunks = []; cut = none })

abbrev remote : DelegateCandidate
remote = record {
  name = "remote";
  endpoint = "https://remote";
  api_key_env = some "KEY";
  local = false;
  model = "big";
}

abbrev ollama : DelegateCandidate
ollama = record {
  name = "ollama";
  endpoint = "http://localhost:11434/v1";
  api_key_env = none;
  local = true;
  model = "qwen2.5-coder:7b";
}

abbrev registry : Registry
registry = ("remote", remote) ∷ ("ollama", ollama) ∷ []

abbrev config : ChainsConfig
config = record {
  chains =
      record {
        task_type = "scaffold";
        candidates = "remote" ∷ "ollama" ∷ [];
        explicit_order = true;
        stays_hosted = false;
      }
      ∷ [];
  allow_remote = true;
}

abbrev start : Session
start = record {
  store = record { failure_threshold = 1; cooldown_seconds = 60; health = [] };
  attempted = [];
  skip_records = [];
  ticks = 0;
  calls = [];
}

program : Unit {0}
unfolding execute_chain run_candidates resolve_chain find_chain lookup_candidates
    default_chain_order insert_sorted Dict.lookup Dict.insert Dict.erase run_chain try_each attempt
    is_in_cooldown record_failure record_success delegate LocalModel.attempt complete stream
    read_body subscript first preflight_check
program = tt

abbrev done : DelegateResult
done = record { result = "done"; caveats = ""; model = "qwen2.5-coder:7b" }

-- The remote candidate fails, and the local one serves.
serves : (execute_chain (env busy) "scaffold" none config registry start).0 ≡ served done
unfolding program
serves = refl

abbrev at_home : ChainsConfig
at_home = record config { allow_remote = false }

execute_chain-calls_example :
    All
      (λ c. c.local ≡ true)
      (execute_chain (env busy) "scaffold" none at_home registry start).1.calls
unfolding program
execute_chain-calls_example =
    execute_chain-calls (λ c. c.local ≡ true) (env busy) "scaffold" none at_home registry start
      (refl, tt) tt

abbrev elsewhere : Key
elsewhere = ("summarize", "remote")

execute_chain-served_example :
    ServedBy
      (resolve_chain "scaffold" config registry)
      start
      (execute_chain (env busy) "scaffold" none config registry start).1
unfolding program
execute_chain-served_example =
    execute_chain-served (env busy) "scaffold" none config registry start done refl

abbrev remote_only : Registry
remote_only = ("remote", remote) ∷ []

abbrev busy_record : SkipRecord
busy_record = record { candidate = "remote"; error = "DelegateAPIError"; retry_after = none }

execute_chain-exhausted_example :
    (("remote" ∷ []) ≡ names (resolve_chain "scaffold" config remote_only))
    × (skipped (busy_record ∷ []) ≡ names (resolve_chain "scaffold" config remote_only))
    × (resolve_chain "scaffold" config remote_only ≢ [])
    × (◌≡◌ {A = String} "scaffold" "scaffold")
    × (◌≡◌ {A = Bool} true true)
unfolding program
execute_chain-exhausted_example =
    execute_chain-exhausted (env busy) "scaffold" none config remote_only start "scaffold"
      ("remote" ∷ []) (busy_record ∷ []) (delegate_error (api_error "remote" 503)) refl

-- The clock stands still, and the remote candidate cools down until 60.
abbrev still : Env
still = record (env busy) { clock = λ n. 5 }

abbrev tripped : Session
tripped = record start {
  store = record {
    failure_threshold = 1;
    cooldown_seconds = 60;
    health =
        (("scaffold", "remote"), record { consecutive_failures = 1; cooldown_expiry = some 60 })
        ∷ [];
  };
}

execute_chain-AllCooling_example :
    (x : Exception) × ((execute_chain still "scaffold" none config remote_only tripped).0
      ≡ chain_exhausted "scaffold"
          (execute_chain still "scaffold" none config remote_only tripped).1.attempted
          (execute_chain still "scaffold" none config remote_only tripped).1.skip_records
          x)
    × ((execute_chain still "scaffold" none config remote_only tripped).1.calls ≡ [])
    × ((execute_chain still "scaffold" none config remote_only tripped).1.store ≡ tripped.store)
unfolding program
execute_chain-AllCooling_example =
    execute_chain-AllCooling still "scaffold" none config remote_only tripped (λ e. cc)
      (λ n. refl, tt)

execute_chain_transport_error_example :
    ((execute_chain (env (failed (transport "ReadError"))) "scaffold" none config registry start).0
      ≡ propagated (other "ReadError"))
    × ((execute_chain
          (env (failed (transport "ReadError")))
          "scaffold"
          none
          config
          registry
          start).1.calls
        ≡ [] ++ remote ∷ [])
    × ((execute_chain
          (env (failed (transport "ReadError")))
          "scaffold"
          none
          config
          registry
          start).1.skip_records
        ≡ [])
    × ((execute_chain
          (env (failed (transport "ReadError")))
          "scaffold"
          none
          config
          registry
          start).1.store
        ≡ (is_in_cooldown 0 ("scaffold", "remote") start.store).1)
unfolding program
execute_chain_transport_error_example =
    execute_chain_transport_error (env (failed (transport "ReadError"))) "scaffold" none config
      registry start remote (ollama ∷ []) "ReadError" refl refl refl refl refl
