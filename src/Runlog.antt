-- ===== src/Runlog.antt =====
-- src/josu/observability/runlog.py: the records of a run. A number that the code only stores is the
-- numeral that JSON has for it, and a timestamp is an argument.
pub mod Codec
pub mod Directory
pub mod Render
pub mod Events
mod Examples
use Prim.Native.String as Str
use Prim.Native.String.{count}
use josu.Common.{
  ℕ, zero, suc, ◌-◌, Bool, true, false, String, Option, none, some, List, [], ◌∷◌, ◌++◌, map, leb,
  if◌then◌else◌, is_some,
}
use josu.Common.Latin.{is_empty}
use josu.Delegate.Chain.{SkipRecord}
use josu.Delegate.LocalModel.{DelegateResult}

abbrev pub delegation_outcome_served : String
delegation_outcome_served = "served"

abbrev pub delegation_outcome_chain_exhausted : String
delegation_outcome_chain_exhausted = "delegation_exhausted_orchestrator_completed_directly"

abbrev pub max_task_summary_chars : ℕ
max_task_summary_chars = 500

-- `text[:n]`
unfoldable pub take_chars : ℕ → String → String
take_chars zero s = Str.[]
take_chars (suc n) Str.[] = Str.[]
take_chars (suc n) (Str.◌∷◌ c s) = Str.◌∷◌ c (take_chars n s)

-- `a + b`, by clauses that compute on an open text
unfoldable pub append : String → String → String
append Str.[] t = t
append (Str.◌∷◌ c s) t = Str.◌∷◌ c (append s t)

unfoldable pub truncate : ℕ → String → String
truncate limit text =
    if leb (count text) limit then text else append (take_chars (limit - 1) text) "…"

pub record GraphQueryEvent : Type 0 where
  pub operation : String
  pub query : String
  pub result_count : String
  pub timestamp : String

pub record SkipEntry : Type 0 where
  pub candidate : String
  pub error_class : String
  pub retry_after : Option String

-- `SkipEntry.from_skip_record`
abbrev pub from_skip_record : SkipRecord → SkipEntry
from_skip_record r = record {
  candidate = r.candidate;
  error_class = r.error;
  retry_after = r.retry_after;
}

pub record DelegationEvent : Type 0 where
  pub task_type : String
  pub task_summary : String
  pub outcome : String
  pub candidate : Option String
  pub caveats : Option String
  pub duration_seconds : String
  pub cost : Option String
  pub skipped : List SkipEntry
  pub timestamp : String

-- `result.caveats or None`
abbrev pub or_none : String → Option String
or_none s = if is_empty s then none else some s

-- `DelegationEvent.from_result`
unfoldable pub from_result :
    (timestamp task_type task_summary : String) (result : DelegateResult)
    (candidate duration : String) (skipped : List SkipRecord) (cost : Option String)
    → DelegationEvent
from_result timestamp task_type task_summary result candidate duration skipped cost = record {
  task_type = task_type;
  task_summary = truncate max_task_summary_chars task_summary;
  outcome = delegation_outcome_served;
  candidate = some candidate;
  caveats = or_none result.caveats;
  duration_seconds = duration;
  cost = cost;
  skipped = map from_skip_record skipped;
  timestamp = timestamp;
}

-- `DelegationEvent.from_chain_exhausted`
unfoldable pub from_chain_exhausted :
    (timestamp task_type task_summary : String) (skip_records : List SkipRecord) (duration : String)
    → DelegationEvent
from_chain_exhausted timestamp task_type task_summary skip_records duration = record {
  task_type = task_type;
  task_summary = truncate max_task_summary_chars task_summary;
  outcome = delegation_outcome_chain_exhausted;
  candidate = none;
  caveats = none;
  duration_seconds = duration;
  cost = none;
  skipped = map from_skip_record skip_records;
  timestamp = timestamp;
}

pub record CircuitBreakerEvent : Type 0 where
  pub kind : String
  pub timeout_seconds : String
  pub elapsed_seconds : String
  pub timestamp : String

-- `CircuitBreakerEvent.from_timeout_error`
abbrev pub from_timeout_error :
    (timestamp timeout_seconds elapsed_seconds : String) → CircuitBreakerEvent
from_timeout_error timestamp timeout_seconds elapsed_seconds = record {
  kind = "wall_clock_timeout";
  timeout_seconds = timeout_seconds;
  elapsed_seconds = elapsed_seconds;
  timestamp = timestamp;
}

pub record RunRecord : Type 0 where
  pub run_id : String
  pub started_at : String
  pub task_description : Option String
  pub graph_queries : List GraphQueryEvent
  pub delegations : List DelegationEvent
  pub circuit_breaker_events : List CircuitBreakerEvent
  pub outcome : Option String
  pub worktree_path : Option String
  pub diverged_paths : List String
  pub error_class : Option String
  pub error_message : Option String

unfoldable pub record_graph_query :
    (timestamp operation query result_count : String) → RunRecord → RunRecord
record_graph_query timestamp operation query result_count r = record r {
  graph_queries =
      r.graph_queries
      ++ record {
        operation = operation;
        query = truncate max_task_summary_chars query;
        result_count = result_count;
        timestamp = timestamp;
      }
        ∷ [];
}

unfoldable pub record_delegation : DelegationEvent → RunRecord → RunRecord
record_delegation event r = record r { delegations = r.delegations ++ event ∷ [] }

unfoldable pub record_circuit_breaker_event : CircuitBreakerEvent → RunRecord → RunRecord
record_circuit_breaker_event event r = record r {
  circuit_breaker_events = r.circuit_breaker_events ++ event ∷ [];
}

abbrev truncated : Option String → Option String
truncated none = none
truncated (some s) = some (truncate max_task_summary_chars s)

abbrev given : Option String → Option String → Option String
given none old = old
given (some new) old = some new

unfoldable pub record_outcome :
    (outcome : String) (worktree_path : Option String) (diverged_paths : List String)
    (error_class error_message : Option String)
    → RunRecord
    → RunRecord
record_outcome outcome worktree_path diverged_paths error_class error_message r = record r {
  outcome = some outcome;
  worktree_path = given worktree_path r.worktree_path;
  diverged_paths = diverged_paths;
  error_class = error_class;
  error_message = truncated error_message;
}
