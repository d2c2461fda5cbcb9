-- ===== src/Proactive/Examples.antt =====
-- A proactive check over a registry with a remote candidate and a local one.
use josu.Common.{true, false, none, some, List, [], ◌∷◌, ◌≡◌, refl, All, eq_string}
use josu.Common.Dict
use josu.Config.Delegate.{DelegateCandidate}
use josu.Config.Chains.{
  ChainsConfig, Registry, find_chain, lookup_candidates, default_chain_order, insert_sorted,
  resolve_proactive_check_chain,
}
use josu.Delegate.Json.{decode_error}
use josu.Delegate.Client.{failed, connection}
use josu.Delegate.LocalModel.{Decoders}
use josu.Delegate.Chain.{Env, finishes, Session}
use josu.Proactive.{by_name, run_proactive_check}
use josu.Proactive.Projection.{IsKeyed-by_name, IsKeyed-nil, IsKeyed}
use josu.Proactive.Safety.{run_proactive_check-calls}

abbrev remote : DelegateCandidate
remote = record {
  name = "remote";
  endpoint = "https://remote";
  api_key_env = some "KEY";
  local = false;
  model = "big";
}

abbrev ollama : DelegateCandidate
ollama = record {
  name = "ollama";
  endpoint = "http://localhost:11434/v1";
  api_key_env = none;
  local = true;
  model = "phi";
}

abbrev roster : List DelegateCandidate
roster = remote ∷ ollama ∷ []

abbrev registry : Registry
registry = ("remote", remote) ∷ ("ollama", ollama) ∷ []

abbrev config : ChainsConfig
config = record {
  chains =
      record {
        task_type = "proactive_check";
        candidates = "remote" ∷ "ollama" ∷ [];
        explicit_order = false;
        stays_hosted = false;
      }
      ∷ [];
  allow_remote = true;
}

abbrev decoders : Decoders
decoders = record {
  libraries = record { loads = λ bytes. decode_error; show = λ value. "" };
  loads_text = λ text. decode_error;
}

-- Nothing answers.
abbrev env : Env
env = record {
  clock = λ n. n;
  exchanges = λ n k. failed connection;
  ending = λ n. finishes;
  measured_ram = 160;
  decoders = decoders;
}

abbrev start : Session
start = record {
  store = record { failure_threshold = 1; cooldown_seconds = 60; health = [] };
  attempted = [];
  skip_records = [];
  ticks = 0;
  calls = [];
}

keyed : IsKeyed registry
unfolding by_name Dict.insert
keyed = IsKeyed-by_name [] roster IsKeyed-nil

run_proactive_check-calls_example :
    All
      (λ c. c.name ≡ "ollama")
      (run_proactive_check env none
        (λ r. true)
        (some (λ r. r.result))
        config
        registry
        start).1.calls
unfolding Dict.lookup resolve_proactive_check_chain find_chain lookup_candidates default_chain_order
    insert_sorted
run_proactive_check-calls_example =
    run_proactive_check-calls env none (λ r. true) (some (λ r. r.result)) (λ c. c.name ≡ "ollama")
      config registry start keyed (refl, tt) tt
