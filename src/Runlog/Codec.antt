-- ===== src/Runlog/Codec.antt =====
-- src/josu/observability/runlog.py: `RunRecord.to_dict` and `from_dict`. A dataclass's constructor
-- takes each key that it declares, and no other. `none` is an exception, or a value of another type
-- than the dataclass declares, which Python would let through.
pub mod RoundTrip
use josu.Common.{
  Bool, true, false, not, ◌&&◌, String, Option, none, some, List, [], ◌∷◌, ◌>>=◌, map, contains,
  if◌then◌else◌, eq_string, ◌==◌, get_or_else,
}
use josu.Delegate.Json.{
  Json, null, number, str, array, object, Items, nil, cons, Fields, field, end, get,
}
use josu.Runlog.{GraphQueryEvent, SkipEntry, DelegationEvent, CircuitBreakerEvent, RunRecord}

abbrev optional : (String → Json) → Option String → Json
optional f none = null
optional f (some s) = f s

unfoldable pub items_of {ℓ} : {A : Type ℓ} → (A → Json) → List A → Items
items_of f [] = nil
items_of f (x ∷ xs) = cons (f x) (items_of f xs)

unfoldable pub graph_query_dict : GraphQueryEvent → Json
graph_query_dict e = object (
    field "operation" (str e.operation) (
      field "query" (str e.query)
        (field "result_count" (number e.result_count) (field "timestamp" (str e.timestamp) end))))

unfoldable pub skip_dict : SkipEntry → Json
skip_dict e = object (
    field "candidate" (str e.candidate) (
      field "error_class" (str e.error_class)
        (field "retry_after" (optional str e.retry_after) end)))

unfoldable pub delegation_dict : DelegationEvent → Json
delegation_dict e = object (
    field "task_type" (str e.task_type) (
      field "task_summary" (str e.task_summary) (
        field "outcome" (str e.outcome) (
          field "candidate" (optional str e.candidate) (
            field "caveats" (optional str e.caveats) (
              field "duration_seconds" (number e.duration_seconds) (
                field "cost" (optional number e.cost) (
                  field "skipped" (array (items_of skip_dict e.skipped))
                    (field "timestamp" (str e.timestamp) end)))))))))

unfoldable pub circuit_breaker_dict : CircuitBreakerEvent → Json
circuit_breaker_dict e = object (
    field "kind" (str e.kind) (
      field "timeout_seconds" (number e.timeout_seconds) (
        field "elapsed_seconds" (number e.elapsed_seconds)
          (field "timestamp" (str e.timestamp) end))))

-- `asdict(self)`
unfoldable pub to_fields : RunRecord → Fields
to_fields r = field "run_id" (str r.run_id) (
    field "started_at" (str r.started_at) (
      field "task_description" (optional str r.task_description) (
        field "graph_queries" (array (items_of graph_query_dict r.graph_queries)) (
          field "delegations" (array (items_of delegation_dict r.delegations)) (
            field "circuit_breaker_events"
              (array (items_of circuit_breaker_dict r.circuit_breaker_events))
              (field "outcome" (optional str r.outcome) (
                field "worktree_path" (optional str r.worktree_path) (
                  field "diverged_paths" (array (items_of str r.diverged_paths)) (
                    field "error_class" (optional str r.error_class)
                      (field "error_message" (optional str r.error_message) end))))))))))

abbrev pub to_dict : RunRecord → Json
to_dict r = object (to_fields r)

abbrev text : Json → Option String
text (str s) = some s
text _ = none

abbrev numeral : Json → Option String
numeral (number n) = some n
numeral _ = none

abbrev text_or_none : Json → Option (Option String)
text_or_none null = some none
text_or_none (str s) = some (some s)
text_or_none _ = none

abbrev numeral_or_none : Json → Option (Option String)
numeral_or_none null = some none
numeral_or_none (number n) = some (some n)
numeral_or_none _ = none

unfoldable pub list_of {ℓ} : {A : Type ℓ} → (Json → Option A) → Items → Option (List A)
list_of f nil = some []
list_of f (cons v vs) = do x ← f v; xs ← list_of f vs; some (x ∷ xs)

abbrev sequence {ℓ} : {A : Type ℓ} → (Json → Option A) → Json → Option (List A)
sequence f (array vs) = list_of f vs
sequence f _ = none

-- The keys of `**raw` are all declared.
unfoldable pub declared : List String → Fields → Bool
declared names end = true
declared names (field k v fs) = contains names k && declared names fs

-- The object with no other keys than those.
abbrev fields_of : List String → Json → Option Fields
fields_of names (object fs) = if declared names fs then some fs else none
fields_of names _ = none

-- `data.get(key, default)`
abbrev get_or : String → Json → Fields → Json
get_or key default fs = get_or_else (get key fs) default

module _ (now : String) where
  unfoldable pub graph_query_of : Json → Option GraphQueryEvent
  graph_query_of v = do
    fs ← fields_of ("operation" ∷ "query" ∷ "result_count" ∷ "timestamp" ∷ []) v
    operation ← get "operation" fs >>= text
    query ← get "query" fs >>= text
    result_count ← get "result_count" fs >>= numeral
    timestamp ← text (get_or "timestamp" (str now) fs)
    some (record {
      operation = operation;
      query = query;
      result_count = result_count;
      timestamp = timestamp;
    })

  unfoldable pub skip_of : Json → Option SkipEntry
  skip_of v = do
    fs ← fields_of ("candidate" ∷ "error_class" ∷ "retry_after" ∷ []) v
    candidate ← get "candidate" fs >>= text
    error_class ← get "error_class" fs >>= text
    retry_after ← text_or_none (get_or "retry_after" null fs)
    some (record { candidate = candidate; error_class = error_class; retry_after = retry_after })

  abbrev delegation_keys : List String
  delegation_keys =
      "task_type" ∷ "task_summary" ∷ "outcome" ∷ "candidate" ∷ "caveats" ∷ "duration_seconds"
      ∷ "cost" ∷ "skipped" ∷ "timestamp" ∷ []

  unfoldable pub delegation_of : Json → Option DelegationEvent
  delegation_of v = do
    fs ← fields_of delegation_keys v
    task_type ← get "task_type" fs >>= text
    task_summary ← get "task_summary" fs >>= text
    outcome ← get "outcome" fs >>= text
    candidate ← get "candidate" fs >>= text_or_none
    caveats ← get "caveats" fs >>= text_or_none
    duration_seconds ← get "duration_seconds" fs >>= numeral
    cost ← numeral_or_none (get_or "cost" null fs)
    skipped ← sequence skip_of (get_or "skipped" (array nil) fs)
    timestamp ← text (get_or "timestamp" (str now) fs)
    some (record {
      task_type = task_type;
      task_summary = task_summary;
      outcome = outcome;
      candidate = candidate;
      caveats = caveats;
      duration_seconds = duration_seconds;
      cost = cost;
      skipped = skipped;
      timestamp = timestamp;
    })

  unfoldable pub circuit_breaker_of : Json → Option CircuitBreakerEvent
  circuit_breaker_of v = do
    fs ← fields_of ("kind" ∷ "timeout_seconds" ∷ "elapsed_seconds" ∷ "timestamp" ∷ []) v
    kind ← get "kind" fs >>= text
    timeout_seconds ← get "timeout_seconds" fs >>= numeral
    elapsed_seconds ← get "elapsed_seconds" fs >>= numeral
    timestamp ← text (get_or "timestamp" (str now) fs)
    some (record {
      kind = kind;
      timeout_seconds = timeout_seconds;
      elapsed_seconds = elapsed_seconds;
      timestamp = timestamp;
    })

  unfoldable pub from_fields : Fields → Option RunRecord
  from_fields fs = do
    delegations ← sequence delegation_of (get_or "delegations" (array nil) fs)
    run_id ← get "run_id" fs >>= text
    started_at ← text (get_or "started_at" (str now) fs)
    task_description ← text_or_none (get_or "task_description" null fs)
    graph_queries ← sequence graph_query_of (get_or "graph_queries" (array nil) fs)
    circuit_breaker_events ←
        sequence circuit_breaker_of (get_or "circuit_breaker_events" (array nil) fs)
    outcome ← text_or_none (get_or "outcome" null fs)
    worktree_path ← text_or_none (get_or "worktree_path" null fs)
    diverged_paths ← sequence text (get_or "diverged_paths" (array nil) fs)
    error_class ← text_or_none (get_or "error_class" null fs)
    error_message ← text_or_none (get_or "error_message" null fs)
    some (record {
      run_id = run_id;
      started_at = started_at;
      task_description = task_description;
      graph_queries = graph_queries;
      delegations = delegations;
      circuit_breaker_events = circuit_breaker_events;
      outcome = outcome;
      worktree_path = worktree_path;
      diverged_paths = diverged_paths;
      error_class = error_class;
      error_message = error_message;
    })

  -- `RunRecord.from_dict`
  unfoldable pub from_dict : Json → Option RunRecord
  unfolding from_fields
  from_dict (object fs) = from_fields fs
  from_dict _ = none
