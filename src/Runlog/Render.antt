-- ===== src/Runlog/Render.antt =====
-- src/josu/observability/runlog.py: `render_run`, as its lines. `repr`, the format of
-- seconds and the decimal of a number are parameters.
pub mod Shown
pub mod Told
use josu.Common.{
  ℕ, length, Bool, true, false, not, ◌&&◌, ◌||◌, String, Option, none, some, List, [], ◌∷◌, ◌++◌,
  map, if◌then◌else◌, ◌==◌, eq_string, is_some,
}
use josu.Common.Latin.{is_empty}
use josu.Common.Text.{concat}
use josu.Runlog.{
  GraphQueryEvent, SkipEntry, DelegationEvent, CircuitBreakerEvent, RunRecord,
  delegation_outcome_served, delegation_outcome_chain_exhausted,
}

-- An f-string of its parts.
abbrev pub text_of : List String → String
text_of [] = ""
text_of (s ∷ ss) = concat s (text_of ss)

-- `", ".join(names)`
abbrev comma_list : List String → String
comma_list [] = ""
comma_list (s ∷ []) = s
comma_list (s ∷ t ∷ ss) = text_of (s ∷ ", " ∷ comma_list (t ∷ ss) ∷ [])

-- `bool(value)`
abbrev truthy : Option String → Bool
truthy none = false
truthy (some s) = not (is_empty s)

-- `f"{value}"`
abbrev shown : Option String → String
shown none = "None"
shown (some s) = s

abbrev is_nil {ℓ} : {A : Type ℓ} → List A → Bool
is_nil [] = true
is_nil (x ∷ xs) = false

unfoldable pub concat_map {ℓ} : {A : Type ℓ} → (A → List String) → List A → List String
concat_map f [] = []
concat_map f (x ∷ xs) = f x ++ concat_map f xs

module _ (repr : String → String) (seconds : String → String) where
  abbrev pub graph_query_line : GraphQueryEvent → String
  graph_query_line q = text_of (
      "    - ["
      ∷ q.timestamp
      ∷ "] "
      ∷ q.operation
      ∷ "("
      ∷ repr q.query
      ∷ ") -> "
      ∷ q.result_count
      ∷ " result(s)"
      ∷ [])

  abbrev pub outcome_label : DelegationEvent → String
  outcome_label d =
      if d.outcome == delegation_outcome_chain_exhausted
      then "delegation exhausted, orchestrator completed directly"
      else if d.outcome == delegation_outcome_served
      then text_of ("served by " ∷ (elim d.candidate [ none ↦ "None" | some c ↦ repr c ]) ∷ [])
      else d.outcome

  abbrev pub retry_label : Option String → String
  retry_label after = if truthy after then text_of (", retry-after=" ∷ shown after ∷ []) else ""

  abbrev pub skip_line : SkipEntry → String
  skip_line s = text_of (
      "        skipped: "
      ∷ s.candidate
      ∷ " ("
      ∷ s.error_class
      ∷ retry_label s.retry_after
      ∷ ")"
      ∷ [])

  abbrev pub caveats_lines : Option String → List String
  caveats_lines caveats =
      if truthy caveats then text_of ("        caveats: " ∷ shown caveats ∷ []) ∷ [] else []

  abbrev pub cost_lines : Option String → List String
  cost_lines none = []
  cost_lines (some cost) = text_of ("        cost: " ∷ cost ∷ []) ∷ []

  abbrev pub delegation_line : DelegationEvent → String
  delegation_line d = text_of (
      "    - ["
      ∷ d.timestamp
      ∷ "] "
      ∷ d.task_type
      ∷ ": "
      ∷ repr d.task_summary
      ∷ " -- "
      ∷ outcome_label d
      ∷ " ("
      ∷ seconds d.duration_seconds
      ∷ "s)"
      ∷ [])

  unfoldable pub delegation_lines : DelegationEvent → List String
  delegation_lines d =
      delegation_line d
      ∷ (caveats_lines d.caveats ++ (cost_lines d.cost ++ map skip_line d.skipped))

  abbrev pub circuit_breaker_line : CircuitBreakerEvent → String
  circuit_breaker_line c = text_of (
      "    - ["
      ∷ c.timestamp
      ∷ "] "
      ∷ c.kind
      ∷ " tripped: "
      ∷ seconds c.elapsed_seconds
      ∷ "s elapsed > "
      ∷ seconds c.timeout_seconds
      ∷ "s limit"
      ∷ [])

  -- The lines on the outcome.
  outcome_lines : RunRecord → List String
  outcome_lines r = elim r.outcome [
    | none ↦ []
    | some outcome ↦
        text_of ("  outcome: " ∷ outcome ∷ [])
        ∷ ((if truthy r.worktree_path
              then text_of ("    worktree: " ∷ shown r.worktree_path ∷ []) ∷ []
              else [])
            ++ ((if is_nil r.diverged_paths
                  then []
                  else text_of ("    diverged paths: " ∷ comma_list r.diverged_paths ∷ []) ∷ [])
                ++ (if truthy r.error_class || truthy r.error_message
                    then text_of
                        ("    error: " ∷ shown r.error_class ∷ ": " ∷ shown r.error_message ∷ [])
                      ∷ []
                    else [])))
  ]

  header_lines : RunRecord → List String
  unfolding outcome_lines
  header_lines r =
      text_of ("Run " ∷ r.run_id ∷ " (started " ∷ r.started_at ∷ ")" ∷ [])
      ∷ ((if truthy r.task_description
            then text_of ("  task: " ∷ shown r.task_description ∷ []) ∷ []
            else [])
          ++ outcome_lines r)

  module _ (decimal : ℕ → String) where
    -- A section of events: its title with their number and their lines, or that there are none.
    section : {A : Type 0} → String → (A → List String) → List A → List String
    section title lines [] = text_of ("  " ∷ title ∷ ": none" ∷ []) ∷ []
    section title lines (e ∷ es) =
        text_of ("  " ∷ title ∷ " (" ∷ decimal (length (e ∷ es)) ∷ "):" ∷ [])
        ∷ (lines e ++ concat_map lines es)

    unfoldable pub render_run : RunRecord → List String
    unfolding header_lines section concat_map delegation_lines
    render_run r =
        if is_nil r.graph_queries && is_nil r.delegations && is_nil r.circuit_breaker_events
        then header_lines r
          ++ "  (no graph queries, delegations, or circuit-breaker events recorded)" ∷ []
        else header_lines r
          ++ (section "graph queries" (λ q. graph_query_line q ∷ []) r.graph_queries
              ++ (section "delegations" delegation_lines r.delegations
                  ++ section "circuit-breaker events" (λ c. circuit_breaker_line c ∷ [])
                      r.circuit_breaker_events))
