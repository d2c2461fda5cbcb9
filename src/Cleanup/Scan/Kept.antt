-- ===== src/Cleanup/Scan/Kept.antt =====
-- A run that an exhausted quota ended is not taken for a crashed one.
use josu.Common.{
  Bool, true, String, some, List, ◌≡◌, refl, sym, ◌∙◌, subst, arith, ==_refl, eq_string,
}
use josu.Common.Dict
use josu.Common.Dict.{lookup-insert}
use josu.Fallback.{
  ClaudeCodeFailureSignal, Markers, marker, marker_record, handle_invocation_failure,
  mark_worktree_abandoned, abandon_reason_quota_exhaustion,
}
use josu.Orchestrator.Worktree.{Worktree}
use josu.Cleanup.{scan_and_collect}
use josu.Cleanup.Scan.{AllOwn, contains-insert, insert-AllOwn}
use josu.Cleanup.Scan.Again.{scan_and_collect-again}

module _ (is_under : String → Bool) (name_of : String → String) (repo_root now later : String)
    (classifier : ClaudeCodeFailureSignal → Bool) where
  -- Where every marker is that of its own worktree, and a failed run is held to be one of an
  -- exhausted quota, the worktree's marker gives that reason, and it gives it still after a scan for
  -- crashed runs, whatever git lists.
  pub handle_invocation_failure-kept :
      (signal : ClaudeCodeFailureSignal) (w : Worktree) (fs : Markers) (lines : List String)
      → AllOwn name_of fs
      → classifier signal ≡ true
      → let marked = (handle_invocation_failure name_of now classifier signal (some w) fs).1 in
        Dict.lookup
          (name_of w.path)
          (scan_and_collect is_under name_of repo_root later lines marked).1
        ≡ some (marker (marker_record now abandon_reason_quota_exhaustion w))
  unfolding mark_worktree_abandoned
  handle_invocation_failure-kept signal w fs lines own quota =
      let made = marker (marker_record now abandon_reason_quota_exhaustion w) in
      let k = name_of w.path in
      let marked : (handle_invocation_failure name_of now classifier signal (some w) fs).1
          ≡ Dict.insert k made fs =
        unfold handle_invocation_failure in ground arith in
      let (found, (records, (first, (new, (second, keeps))))) =
        scan_and_collect-again is_under name_of repo_root later lines (Dict.insert k made fs)
          (insert-AllOwn name_of k made fs refl own) in
      subst
        (λ fs'.
          Dict.lookup k (scan_and_collect is_under name_of repo_root later lines fs').1 ≡ some made)
        (sym marked)
        (keeps k (ground (arith, contains-insert name_of k k made fs, ==_refl k))
          ∙ ground (arith, lookup-insert k k made fs, ==_refl k))
