-- ===== src/Orchestrator/Run.antt =====
-- src/josu/orchestrator/run.py: `run_task`. Each step that git, the file system, the agent or the
-- developer answers ends as the environment says; the merge is the one of Merge.antt.
pub mod Settling
pub mod Lifecycle
pub mod Writes
mod Examples
use Prim.Native.Char.{code}
use Prim.Native.String as Str
use josu.Common.{
  Bool, true, false, ◌&&◌, ◌||◌, String, Option, none, some, List, [], ◌∷◌, ◌++◌, ◌==◌, eq_string,
  any, contains, nat_eq, if◌then◌else◌,
}
use josu.Common.Text.{concat}
use josu.Delegate.Errors.{class_name}
use josu.Orchestrator.Merge.{
  Files, Git, RepoSnapshot, Merged, merged, rejected, diverged_error, merge_error, unread, os_error,
  merge,
}

-- An exception: its class, the `diverged_paths` that it may carry, and whether it is an `Exception`, as
-- a KeyboardInterrupt is not.
pub record Failure : Type 0 where
  pub class_name : String
  pub diverged_paths : List String
  pub is_exception : Bool

abbrev pub plain_failure : String → Failure
plain_failure name = record { class_name = name; diverged_paths = []; is_exception = true }

-- How a step ends; `expired` is a `subprocess.TimeoutExpired`.
pub data Step : Type 0 where
  passed expired : Step
  failed : Failure → Step

-- What the developer answers to a diff.
pub data Answer : Type 0 where
  answers : Bool → Answer
  throws : Failure → Answer

pub record RunEnv : Type 0 where
  pub daemon : Step
  pub daemon_token : Step
  -- the names of the usable adapters, the one asked for, and whether `adapter_run` is given
  pub usable : List String
  pub adapter_name : String
  pub adapter_given : Bool
  -- the constructor of the breaker, and whether its time is over when each phase starts
  pub breaker : Step
  pub over_at_prepare : Bool
  pub over_at_adapter : Bool
  pub create : Step
  -- whether a creation that fails has added the worktree before, and a removal that fails leaves it
  pub create_leaves : Bool
  pub remove_leaves : Bool
  pub snapshot : Step
  pub write : Step
  pub validate : Step
  pub adapter : Step
  pub diff : Step
  pub approve : Answer
  -- what the merge meets after the agent's work
  pub git : Git
  pub baseline : RepoSnapshot
  pub worktree_files : Files
  pub remove : Step
  pub save : Step

pub data RunOutcome : Type 0 where
  merged_outcome rejected_outcome diverged_outcome timeout_outcome error_outcome : RunOutcome

-- What `record_outcome` writes into the record.
pub record Saved : Type 0 where
  pub outcome : RunOutcome
  pub has_worktree : Bool
  pub diverged_paths : List String
  pub error_class : Option String

-- The repository's files as the merge meets them (nothing before it looks at them), whether the run's worktree exists, and the saved records.
pub record World : Type 0 where
  pub files : Files
  pub live : Bool
  pub saved : List Saved

pub data Ended : Type 0 where
  returned : RunOutcome → Ended
  raised : Failure → Ended

-- The `try` statement's end: what it returns or raises, and the two variables that `finally` reads.
-- `created` tells whether the variable `worktree` is set.
pub record Tried : Type 0 where
  pub ended : Ended
  pub outcome : RunOutcome
  pub error : Option Failure
  pub created : Bool
  pub world : World

-- `name.replace("_", "-")`
unfoldable pub normalize : String → String
normalize Str.[] = Str.[]
normalize (Str.◌∷◌ c s) =
    let rest = normalize s in if nat_eq (code c) 95 then concat "-" rest else Str.◌∷◌ c rest

abbrev pub dispatched : List String
dispatched = "claude_code" ∷ "claude-code" ∷ []

-- `_resolve_adapter_config`, and the choice of `run_fn`
unfoldable pub has_adapter : RunEnv → Bool
has_adapter env =
    let name = env.adapter_name in
    any (λ n. n == name || n == normalize name) env.usable
    && (env.adapter_given || contains dispatched name || contains dispatched (normalize name))

-- A failure in the `try` statement, with the outcome set so far: an `Exception` is caught, noted as the
-- error, and raised again; any other one goes through.
abbrev pub fails_after : RunOutcome → Bool → Failure → World → Tried
fails_after outcome created failure w = record {
  ended = raised failure;
  outcome = if failure.is_exception then error_outcome else outcome;
  error = if failure.is_exception then some failure else none;
  created = created;
  world = w;
}

-- The outcome is that of an error at first.
abbrev pub fails : Bool → Failure → World → Tried
fails = fails_after error_outcome

abbrev pub ends : RunOutcome → Option Failure → World → Tried
ends outcome error w = record {
  ended = returned outcome;
  outcome = outcome;
  error = error;
  created = true;
  world = w;
}

abbrev pub trip : Failure
trip = plain_failure "CircuitBreakerTimeoutError"

-- The breaker's trip is caught: the worktree is left in place.
abbrev pub times_out : Bool → World → Tried
times_out created w = record (ends timeout_outcome (some trip) w) { created = created }

-- A step that the breaker bounds, and one that it does not.
abbrev pub bounded : Bool → Step → World → Tried → Tried
bounded created passed w rest = rest
bounded created expired w rest = times_out created w
bounded created (failed failure) w rest = fails created failure w

abbrev pub unbounded : Step → World → Tried → Tried
unbounded passed w rest = rest
unbounded expired w rest = fails true (plain_failure "TimeoutExpired") w
unbounded (failed failure) w rest = fails true failure w

module _ (env : RunEnv) where
  -- A terminal state removes the worktree.
  abbrev pub dispose : RunOutcome → World → Tried
  dispose outcome w =
      let left : World = record w { live = env.remove_leaves } in
      elim env.remove [
        | passed ↦ ends outcome none (record w { live = false })
        | expired ↦ fails_after outcome true (plain_failure "TimeoutExpired") left
        | failed failure ↦ fails_after outcome true failure left
      ]

  unfoldable pub conclude_merge : World → Merged × Files → Tried
  conclude_merge w (merged, files) = dispose merged_outcome (record w { files = files })
  conclude_merge w (rejected, files) = dispose rejected_outcome (record w { files = files })
  conclude_merge w (diverged_error paths, files) =
      ends diverged_outcome
        (some (record (plain_failure "DivergedWorkingTreeError") { diverged_paths = paths }))
        (record w { files = files })
  conclude_merge w (merge_error, files) =
      fails true (plain_failure "MergeError") (record w { files = files })
  conclude_merge w (unread e, files) =
      fails true (plain_failure (class_name e)) (record w { files = files })
  conclude_merge w (os_error class path, files) =
      fails true (plain_failure class) (record w { files = files })

  -- Step 5: the diff, the developer's answer, and the merge.
  unfoldable pub review : World → Tried
  review w = unbounded env.diff w (elim env.approve [
    | throws failure ↦ fails true failure w
    | answers approved ↦
        conclude_merge w (merge env.git env.baseline env.worktree_files approved w.files)
  ])

  -- Step 4
  unfoldable pub invoke : World → Tried
  invoke w = if env.over_at_adapter then times_out true w else bounded true env.adapter w (review w)

  -- Steps 1 to 3
  unfoldable pub prepare : World → Tried
  prepare w =
      let w' : World = record w { live = true } in
      if env.over_at_prepare
      then times_out false w
      else bounded false env.create (record w { live = env.create_leaves })
          (bounded true env.snapshot w'
            (bounded true env.write w' (bounded true env.validate w' (invoke w'))))

  -- The `try` statement, where a `ValueError` of the breaker's constructor is caught as well.
  unfoldable pub try_run : World → Tried
  try_run w = elim env.breaker [
    | passed ↦ prepare w
    | expired ↦ fails false (plain_failure "TimeoutExpired") w
    | failed failure ↦ fails false failure w
  ]

  abbrev pub diverged_of : Option Failure → List String
  diverged_of none = []
  diverged_of (some failure) = failure.diverged_paths

  abbrev pub error_class_of : RunOutcome → Option Failure → Option String
  error_class_of error_outcome (some failure) = some failure.class_name
  error_class_of _ _ = none

  abbrev pub record_of : Tried → Saved
  record_of t = record {
    outcome = t.outcome;
    has_worktree = t.created;
    diverged_paths = diverged_of t.error;
    error_class = error_class_of t.outcome t.error;
  }

  -- The `finally` clause: an exception of `save_run` takes the place of what was under way.
  unfoldable pub finish : Tried → Ended × World
  finish t = elim env.save [
    | passed ↦ (t.ended, record t.world { saved = t.world.saved ++ record_of t ∷ [] })
    | expired ↦ (raised (plain_failure "TimeoutExpired"), t.world)
    | failed failure ↦ (raised failure, t.world)
  ]

  unfoldable pub run_task : World → Ended × World
  run_task w = elim env.daemon [
    | expired ↦ (raised (plain_failure "TimeoutExpired"), w)
    | failed failure ↦ (raised failure, w)
    | passed ↦ elim env.daemon_token [
      | expired ↦ (raised (plain_failure "TimeoutExpired"), w)
      | failed failure ↦ (raised failure, w)
      | passed ↦
          if has_adapter env
          then finish (try_run w)
          else (raised (plain_failure "NoUsableAdapterError"), w)
    ]
  ]
