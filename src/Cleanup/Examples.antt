-- ===== src/Cleanup/Examples.antt =====
-- A scan and a cleanup, and the theorems at them.
use josu.Common.{
  Bool, true, false, String, none, some, List, [], ◌∷◌, ◌≡◌, refl, contains, eq_string, ◌&&◌, ◌||◌,
  if◌then◌else◌,
}
use josu.Common.Dict
use josu.Common.Int.{pos}
use josu.Common.Text.{cut_prefix, concat}
use josu.Fallback.{
  AbandonedWorktreeRecord, ClaudeCodeFailureSignal, Markers, marker, marker_record, sorted,
  insert_marker, read_markers, list_abandoned_worktrees, mark_worktree_abandoned,
  handle_invocation_failure, abandon_reason_quota_exhaustion, default_quota_classifier, search,
  cut_folded,
}
use josu.Orchestrator.Worktree.{
  Worktree, parse_lines, parse_worktree_list_porcelain, managed_of, list_managed_worktrees,
  find_orphaned_worktrees,
}
use josu.Cleanup.{scan_and_collect, mark_all, cmd_cleanup}
use josu.Cleanup.Scan.Kept.{handle_invocation_failure-kept}
use josu.Cleanup.Removal.{asked, all_removed, is_removed, is_nil, cmd_cleanup-eq}

-- Worktrees lie below /w, and their names are their paths.
abbrev is_under : String → Bool
is_under path = elim (cut_prefix "/w/" path) [ none ↦ false | some rest ↦ true ]

abbrev name_of : String → String
name_of path = path

abbrev record_a : AbandonedWorktreeRecord
record_a = record {
  worktree_path = "/w/a";
  branch = "josu/a";
  repo_root = "/repo";
  reason = abandon_reason_quota_exhaustion;
  detected_at = "t0";
  task_description = none;
}

abbrev markers : Markers
markers = ("/w/a", marker record_a) ∷ []

abbrev lines : List String
lines =
    "worktree /repo" ∷ "branch refs/heads/main" ∷ "" ∷ "worktree /w/a" ∷ "branch refs/heads/josu/a"
    ∷ "" ∷ "worktree /w/b" ∷ "branch refs/heads/josu/b" ∷ []

program : Unit {0}
unfolding scan_and_collect mark_all list_abandoned_worktrees read_markers sorted insert_marker
    mark_worktree_abandoned find_orphaned_worktrees list_managed_worktrees managed_of
    parse_worktree_list_porcelain parse_lines cut_prefix Dict.insert concat default_quota_classifier
    search cut_folded
program = tt

-- The worktree that has no marker is found.
finds_b :
    (scan_and_collect is_under name_of "/repo" "t1" lines markers).0
    ≡ some (
      "/w/b" ∷ [],
      record_a
          ∷ record {
            worktree_path = "/w/b";
            branch = "josu/b";
            repo_root = "/repo";
            reason = "crash_orphaned_no_matching_record";
            detected_at = "t1";
            task_description = none;
          }
          ∷ [],
    )
unfolding program
finds_b = refl

abbrev quota_signal : ClaudeCodeFailureSignal
quota_signal = record {
  returncode = pos 1;
  stdout = "";
  stderr = "Claude AI: 5-Hour LIMIT, rate limit";
}

abbrev worktree_c : Worktree
worktree_c = record {
  path = "/w/c";
  branch = "josu/c";
  repo_root = "/repo";
  stash_ref = none;
  task_description = some "tidy up";
}

handle_invocation_failure-kept_example :
    Dict.lookup "/w/c"
      (scan_and_collect is_under name_of "/repo" "t2" lines
        (handle_invocation_failure name_of "t1"
          (default_quota_classifier (λ c. false))
          quota_signal
          (some worktree_c)
          markers).1).1
    ≡ some (marker (marker_record "t1" abandon_reason_quota_exhaustion worktree_c))
unfolding program
handle_invocation_failure-kept_example =
    handle_invocation_failure-kept is_under name_of "/repo" "t1" "t2"
      (default_quota_classifier (λ c. false)) quota_signal worktree_c markers lines (refl, tt) refl

cmd_cleanup-eq_example :
    ((cmd_cleanup name_of (λ r. true) ("/w/a" ∷ "/w/x" ∷ []) false (record_a ∷ []) markers).0 ≡ (
      if is_nil (record_a ∷ [])
        || all_removed name_of
            (λ r. true)
            (record_a ∷ [])
            (asked name_of (λ r. true) ("/w/a" ∷ "/w/x" ∷ []) false (record_a ∷ []))
      then 0
      else 1))
    × (Dict.lookup "/w/a"
          (cmd_cleanup name_of (λ r. true) ("/w/a" ∷ "/w/x" ∷ []) false (record_a ∷ []) markers).1
        ≡ (if contains
                (asked name_of (λ r. true) ("/w/a" ∷ "/w/x" ∷ []) false (record_a ∷ []))
                "/w/a"
              && is_removed name_of (λ r. true) (record_a ∷ []) "/w/a"
            then none
            else Dict.lookup "/w/a" markers))
cmd_cleanup-eq_example =
    cmd_cleanup-eq name_of (λ r. true) ("/w/a" ∷ "/w/x" ∷ []) false (record_a ∷ []) markers "/w/a"
