-- ===== src/Runlog/Examples.antt =====
-- A run's record, and the theorems at it.
use josu.Common.{
  ℕ, true, false, String, none, some, List, [], ◌∷◌, ◌≡◌, refl, arith, All, map, if◌then◌else◌,
  ◌==◌, eq_string,
}
use josu.Common.Dict
use josu.Delegate.Json.{Json, object, field, Decoded, decoded, array, nil}
use josu.Delegate.Errors.{delegate_error, unreachable}
use josu.Delegate.Client.{failed, connection, complete, stream, read_body}
use josu.Delegate.LocalModel
use josu.Delegate.LocalModel.{delegate}
use josu.Models.{preflight_check}
use josu.Delegate.Cooldown.{is_in_cooldown, record_failure, record_success}
use josu.Delegate.Queue.{try_each, run_chain}
use josu.Delegate.Chain.{Env, finishes, Session, SkipRecord, execute_chain, run_candidates, attempt}
use josu.Delegate.Chain.Walk.{names}
use josu.Config.Delegate.{DelegateCandidate}
use josu.Config.Chains.{
  ChainsConfig, Registry, resolve_chain, find_chain, lookup_candidates, default_chain_order,
  insert_sorted,
}
use josu.Runlog.{RunRecord, DelegationEvent, from_chain_exhausted, from_skip_record}
use josu.Runlog.Codec.{to_fields, to_dict, from_dict}
use josu.Runlog.Codec.RoundTrip.{from_dict_ignores}
use josu.Runlog.Directory.{
  Directory, load_run, save_run, latest_run, loaded, load_run-save_run, latest_run-save_run,
}
use josu.Runlog.Render.{render_run}
use josu.Runlog.Render.Told.{Tells, TellsDelegation, render_run-Tells}
use josu.Runlog.Events.{
  Op, graph_query, exhausted, concluded, apply_all, fresh, IsBounded, apply_all-fresh-IsBounded,
  from_chain_exhausted-names,
}

abbrev ollama_skip : SkipRecord
ollama_skip = record { candidate = "ollama"; error = "CandidateCooldownError"; retry_after = none }

abbrev ops : List Op
ops =
    graph_query "t1" "search" "merge" "3"
    ∷ exhausted "t2" "scaffold" "a test" (ollama_skip ∷ []) "0.5"
    ∷ concluded "error" (some "/w") [] (some "MergeError") (some "no")
    ∷ []

abbrev run : RunRecord
run = fresh "r1" "t0" (some "tidy up")

apply_all-fresh-IsBounded_example : IsBounded (apply_all ops run)
apply_all-fresh-IsBounded_example = apply_all-fresh-IsBounded ops "r1" "t0" (some "tidy up")

abbrev event : DelegationEvent
event = record {
  task_type = "scaffold";
  task_summary = "a test";
  outcome = "served";
  candidate = some "ollama";
  caveats = none;
  duration_seconds = "0.5";
  cost = none;
  skipped = from_skip_record ollama_skip ∷ [];
  timestamp = "t2";
}

abbrev done : RunRecord
done = record run { delegations = event ∷ []; outcome = some "merged" }

abbrev dumps : Json → String
dumps v = "{}"

abbrev loads : String → Decoded
loads text = decoded (to_dict done)

abbrev older : Directory
older = some (("r0", record { text = "old"; mtime = 3 }) ∷ [])

load_run-save_run_example :
    load_run loads "now" "r1" (save_run dumps 5 done older)
    ≡ (if done.run_id == "r1" then loaded done else load_run loads "now" "r1" older)
load_run-save_run_example = load_run-save_run dumps loads "now" 5 done "r1" older refl

latest_run-save_run_example :
    latest_run loads "now" (save_run dumps 5 done older) ≡ some ("r1", loaded done)
latest_run-save_run_example =
    latest_run-save_run dumps loads "now" 5 done older refl (omega arith, tt)

from_dict_ignores_example :
    from_dict "now" (object (field "reindexed_files" (array nil) (to_fields done)))
    ≡ from_dict "now" (object (to_fields done))
from_dict_ignores_example =
    from_dict_ignores "now" "reindexed_files" (array nil) (to_fields done) refl

abbrev same : String → String
same s = s

abbrev decimal : ℕ → String
decimal n = "1"

render_run-Tells_example :
    All
      (λ q.
        Tells
          (render_run same same decimal done)
          (q.timestamp ∷ q.operation ∷ q.query ∷ q.result_count ∷ []))
      done.graph_queries
    × All (TellsDelegation same same decimal (render_run same same decimal done)) done.delegations
    × All
        (λ c.
          Tells
            (render_run same same decimal done)
            (c.timestamp ∷ c.kind ∷ c.elapsed_seconds ∷ c.timeout_seconds ∷ []))
        done.circuit_breaker_events
render_run-Tells_example = render_run-Tells same same decimal done

abbrev remote : DelegateCandidate
remote = record {
  name = "remote";
  endpoint = "https://remote";
  api_key_env = some "KEY";
  local = false;
  model = "big";
}

abbrev registry : Registry
registry = ("remote", remote) ∷ []

abbrev config : ChainsConfig
config = record {
  chains =
      record {
        task_type = "scaffold";
        candidates = "remote" ∷ [];
        explicit_order = true;
        stays_hosted = false;
      }
      ∷ [];
  allow_remote = true;
}

abbrev unreachable_env : Env
unreachable_env = record {
  clock = λ n. n;
  exchanges = λ n k. failed connection;
  ending = λ n. finishes;
  measured_ram = 160;
  decoders = record {
    libraries = record { loads = λ bytes. decoded (to_dict done); show = λ v. "" };
    loads_text = λ text. decoded (to_dict done);
  };
}

abbrev start : Session
start = record {
  store = record { failure_threshold = 1; cooldown_seconds = 60; health = [] };
  attempted = [];
  skip_records = [];
  ticks = 0;
  calls = [];
}

program : Unit {0}
unfolding execute_chain run_candidates resolve_chain find_chain lookup_candidates
    default_chain_order insert_sorted Dict.lookup Dict.insert Dict.erase run_chain try_each attempt
    is_in_cooldown record_failure record_success delegate LocalModel.attempt complete stream
    read_body preflight_check
program = tt

abbrev unreached : SkipRecord
unreached = record { candidate = "remote"; error = "DelegateUnreachableError"; retry_after = none }

from_chain_exhausted-names_example :
    map
      (λ s. s.candidate)
      (from_chain_exhausted "t2" "scaffold" "a test" (unreached ∷ []) "0.5").skipped
    ≡ names (resolve_chain "scaffold" config registry)
unfolding program
from_chain_exhausted-names_example =
    from_chain_exhausted-names unreachable_env none config registry start "scaffold" "scaffold"
      ("remote" ∷ []) (unreached ∷ []) (delegate_error (unreachable "remote")) "t2" "a test" "0.5"
      refl
