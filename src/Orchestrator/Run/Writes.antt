-- ===== src/Orchestrator/Run/Writes.antt =====
-- When a run writes into the repository.
use josu.Common.{
  Bool, true, false, String, some, List, [], ◌≡◌, ◌≢◌, refl, ◌∙◌, ap, arith, if◌then◌else◌,
}
use josu.Delegate.Errors.{ok}
use josu.Orchestrator.Merge.{
  Files, Merged, merged, rejected, diverged_error, merge_error, unread, os_error, merge,
  changed_paths, find_diverged_paths,
}
use josu.Orchestrator.Merge.Untouched.{merge-writes}
use josu.Orchestrator.Run.{
  RunEnv, Step, passed, expired, failed, Answer, answers, throws, RunOutcome, merged_outcome,
  rejected_outcome, World, Tried, fails, times_out, bounded, unbounded, dispose, conclude_merge,
  plain_failure, review, invoke, prepare, try_run, finish, run_task,
}

-- The repository is as before, unless the claim holds.
abbrev Only : Files → Type 0 → Tried → Type 0
Only before C t = t.world.files ≢ before → C

if-Only :
    (before : Files) (C : Type 0) (b : Bool) (t u : Tried)
    → Only before C t
    → Only before C u
    → Only before C (if b then t else u)
if-Only before C true t u h k = h
if-Only before C false t u h k = k

module _ (env : RunEnv) (before : Files) (C : Type 0) where
  bounded-Only :
      (created : Bool) (step : Step) (w : World) (rest : Tried)
      → w.files ≡ before
      → (step ≡ passed → Only before C rest)
      → Only before C (bounded created step w rest)
  bounded-Only created passed w rest h r n = r refl n
  bounded-Only created expired w rest h r n = absurd (n h)
  bounded-Only created (failed f) w rest h r n = absurd (n h)

  unbounded-Only :
      (step : Step) (w : World) (rest : Tried)
      → w.files ≡ before
      → (step ≡ passed → Only before C rest)
      → Only before C (unbounded step w rest)
  unbounded-Only passed w rest h r n = r refl n
  unbounded-Only expired w rest h r n = absurd (n h)
  unbounded-Only (failed f) w rest h r n = absurd (n h)

  files-dispose : (o : RunOutcome) (w : World) → (dispose env o w).world.files ≡ w.files
  files-dispose o w = ground arith

  files-conclude_merge :
      (w : World) (out : Merged × Files) → (conclude_merge env w out).world.files ≡ out.1
  unfolding conclude_merge
  files-conclude_merge w (merged, files) = files-dispose merged_outcome (record w { files = files })
  files-conclude_merge w (rejected, files) =
      files-dispose rejected_outcome (record w { files = files })
  files-conclude_merge w (diverged_error ps, files) = refl
  files-conclude_merge w (merge_error, files) = refl
  files-conclude_merge w (unread e, files) = refl
  files-conclude_merge w (os_error c p, files) = refl

-- What must hold for a run to write.
abbrev pub IsCleared : RunEnv → Files → Type 0
IsCleared env files =
    (env.adapter ≡ passed)
    × (env.diff ≡ passed)
    × (env.approve ≡ answers true)
    × (lines : List String) × (env.git.name_status ≡ some lines)
    × (find_diverged_paths env.git env.baseline files (changed_paths lines) ≡ ok [])

module _ (env : RunEnv) where
  review-Only :
      (w : World) → env.adapter ≡ passed → Only w.files (IsCleared env w.files) (review env w)
  unfolding review
  review-Only w agent =
      unbounded-Only env w.files (IsCleared env w.files) env.diff w (on env.approve) refl
        (λ shown. answer-Only env.approve refl shown)
    where
      on : Answer → Tried
      on answer = elim answer [
        | throws failure ↦ fails true failure w
        | answers approved ↦
            conclude_merge env w (merge env.git env.baseline env.worktree_files approved w.files)
      ]

      answer-Only :
          (answer : Answer)
          → env.approve ≡ answer
          → env.diff ≡ passed
          → Only w.files (IsCleared env w.files) (on answer)
      answer-Only (throws f) e shown n = absurd (n refl)
      answer-Only (answers approved) e shown n =
          let out = merge env.git env.baseline env.worktree_files approved w.files in
          let (approval, lines, named, clean) =
            merge-writes env.git env.baseline env.worktree_files approved w.files
              (λ same. n (files-conclude_merge env w.files (IsCleared env w.files) w out ∙ same)) in
          (agent, shown, e ∙ ap answers approval, lines, named, clean)

  invoke-Only : (w : World) → Only w.files (IsCleared env w.files) (invoke env w)
  unfolding invoke
  invoke-Only w =
      if-Only w.files (IsCleared env w.files) env.over_at_adapter (times_out true w)
        (bounded true env.adapter w (review env w)) (λ n. absurd (n refl))
        (bounded-Only env w.files (IsCleared env w.files) true env.adapter w (review env w) refl
          (λ agent. review-Only w agent))

  prepare-Only : (w : World) → Only w.files (IsCleared env w.files) (prepare env w)
  unfolding prepare
  prepare-Only w =
      let w' : World = record w { live = true } in
      let left : World = record w { live = env.create_leaves } in
      let invoked = invoke env w' in
      let validated = bounded true env.validate w' invoked in
      let written = bounded true env.write w' validated in
      let snapped = bounded true env.snapshot w' written in
      let step = bounded-Only env w.files (IsCleared env w.files) in
      if-Only w.files (IsCleared env w.files) env.over_at_prepare (times_out false w)
        (bounded false env.create left snapped) (λ n. absurd (n refl))
        (step false env.create left snapped refl (λ made.
          step true env.snapshot w' written refl (λ taken.
            step true env.write w' validated refl
              (λ wrote. step true env.validate w' invoked refl (λ valid. invoke-Only w')))))

  try_run-Only : (w : World) → Only w.files (IsCleared env w.files) (try_run env w)
  unfolding try_run
  try_run-Only w = breaker-Only env.breaker
    where
      breaker-Only :
          (step : Step)
          → Only w.files (IsCleared env w.files) (elim step [
            | passed ↦ prepare env w
            | expired ↦ fails false (plain_failure "TimeoutExpired") w
            | failed failure ↦ fails false failure w
          ])
      breaker-Only passed = prepare-Only w
      breaker-Only expired = λ n. absurd (n refl)
      breaker-Only (failed f) = λ n. absurd (n refl)

  files-finish : (t : Tried) → (finish env t).1.files ≡ t.world.files
  unfolding finish
  files-finish t = ground arith

  -- A run that changes the repository in any way had its agent finish within the budget, its diff
  -- shown and approved by the developer, and none of the paths that the worktree touches had
  -- diverged from what the snapshot of the repository holds.
  pub run_task-IsCleared : (w : World) → (run_task env w).1.files ≢ w.files → IsCleared env w.files
  unfolding run_task
  run_task-IsCleared w n =
      try_run-Only w (λ same. n (all_same (files-finish (try_run env w) ∙ same)))
    where
      all_same : (finish env (try_run env w)).1.files ≡ w.files → (run_task env w).1.files ≡ w.files
      all_same h = ground arith
