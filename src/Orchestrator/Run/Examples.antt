-- ===== src/Orchestrator/Run/Examples.antt =====
-- A run that merges, and one whose agent is too slow.
use josu.Common.{true, false, none, some, [], ◌∷◌, ◌≡◌, refl, ap, eq_string}
use josu.Common.Dict
use josu.Common.Text.{cut_prefix, split_tab, is_blank, concat}
use josu.Orchestrator.Merge.{
  Files, Git, change_of, changed_paths, touched, content_at_snapshot, content_now, diverged_from,
  find_diverged_paths, apply_change, apply_changes, merge, remove_at, remove_old, copy_to,
  parents_from,
}
use josu.Orchestrator.Run.{
  RunEnv, passed, expired, answers, World, normalize, has_adapter, conclude_merge, review, invoke,
  prepare, try_run, finish, run_task, returned, merged_outcome, timeout_outcome, Saved,
}
use josu.Orchestrator.Run.Lifecycle.{SettlesAfter, run_task-SettlesAfter}
use josu.Orchestrator.Run.Writes.{IsCleared, run_task-IsCleared}

abbrev repository : Files
repository = ("a.py", 1 ∷ []) ∷ []

abbrev git : Git
git = record {
  name_status = some ("M\ta.py" ∷ []);
  show = λ ref path. Dict.lookup path repository;
  decode_strict = λ bytes. some "text";
  decode_escaped = λ bytes. "text";
  is_directory = λ path. false;
  can_unlink = λ path. true;
  broken = λ path. none;
}

abbrev env : RunEnv
env = record {
  daemon = passed;
  daemon_token = passed;
  usable = "claude-code" ∷ [];
  adapter_name = "claude_code";
  adapter_given = false;
  breaker = passed;
  over_at_prepare = false;
  over_at_adapter = false;
  create = passed;
  create_leaves = false;
  remove_leaves = true;
  snapshot = passed;
  write = passed;
  validate = passed;
  adapter = passed;
  diff = passed;
  approve = answers true;
  git = git;
  baseline = record { head = "c0ffee"; stash_ref = none };
  worktree_files = ("a.py", 9 ∷ []) ∷ [];
  remove = passed;
  save = passed;
}

abbrev start : World
start = record { files = repository; live = false; saved = [] }

abbrev merged_record : Saved
merged_record = record {
  outcome = merged_outcome;
  has_worktree = true;
  diverged_paths = [];
  error_class = none;
}

program : Unit {0}
unfolding run_task finish try_run prepare invoke review conclude_merge has_adapter normalize concat
    merge find_diverged_paths diverged_from content_at_snapshot content_now changed_paths change_of
    split_tab is_blank cut_prefix touched apply_change apply_changes Dict.lookup Dict.insert
    Dict.erase remove_at remove_old copy_to parents_from
program = tt

merges : run_task env start ≡ (
  returned merged_outcome,
  record { files = ("a.py", 9 ∷ []) ∷ []; live = false; saved = merged_record ∷ [] },
)
unfolding program
merges = refl

-- The worktree of a run that is stopped stays.
stops :
    ((run_task (record env { adapter = expired }) start).0 ≡ returned timeout_outcome)
    × ((run_task (record env { adapter = expired }) start).1.live ≡ true)
unfolding program
stops = (refl, refl)

run_task-SettlesAfter_example : SettlesAfter env [] (run_task env start)
unfolding has_adapter normalize concat
run_task-SettlesAfter_example = run_task-SettlesAfter env start (refl, refl, refl) refl refl

run_task-IsCleared_example : IsCleared env repository
unfolding program
run_task-IsCleared_example = run_task-IsCleared env start (λ e. cc (ap (Dict.lookup "a.py") e))
