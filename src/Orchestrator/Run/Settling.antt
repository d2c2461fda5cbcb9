-- ===== src/Orchestrator/Run/Settling.antt =====
-- What the end of a run's try statement leaves behind.
use josu.Common.{
  Bool, true, false, none, some, List, ◌≡◌, ◌≢◌, refl, subst, ◌∙◌, ap, ◌⊎◌, inl, inr, if◌then◌else◌,
}
use josu.Orchestrator.Merge.{
  Files, Merged, merged, rejected, diverged_error, merge_error, unread, os_error, merge,
}
use josu.Orchestrator.Run.{
  RunEnv, Step, passed, Failure, RunOutcome, merged_outcome, rejected_outcome, error_outcome, Saved,
  World, returned, raised, Tried, conclude_merge, review, invoke, prepare, try_run, dispose, fails,
  times_out, bounded, unbounded, Answer, answers, throws, expired, failed, ends, fails_after,
  plain_failure,
}

module _ (env : RunEnv) where
  -- What a run that did not remove its worktree leaves: if the record names the worktree, it is there,
  -- unless a removal has failed; if not, it is there only if its creation has failed after adding it.
  abbrev pub Leaves : (named live : Bool) → Type 0
  Leaves named live =
      (named ≡ true → (live ≡ true) ⊎ (env.remove ≢ passed))
      × (named ≡ false → live ≡ true → (env.create ≢ passed) × (env.create_leaves ≡ true))

  -- What the end of the `try` statement tells of the worktree: it is gone after a merge or a
  -- rejection that returns, and otherwise left as `Leaves` says; and the outcome is the one that is
  -- returned, or an error.
  abbrev pub IsSettled : List Saved → Tried → Type 0
  IsSettled before t =
      (t.ended ≡ returned merged_outcome → t.world.live ≡ false)
      × (t.ended ≡ returned rejected_outcome → t.world.live ≡ false)
      × (t.ended ≢ returned merged_outcome
          → t.ended ≢ returned rejected_outcome
          → Leaves t.created t.world.live)
      × ((o : RunOutcome) → t.ended ≡ returned o → t.outcome ≡ o)
      × ((f : Failure)
          → t.ended ≡ raised f
          → (f.is_exception ≡ true → (t.outcome ≡ error_outcome) × (t.error ≡ some f))
            × (f.is_exception ≡ false → t.error ≡ none))
      × (t.world.saved ≡ before)

  Leaves-kept : (live : Bool) → live ≡ true → Leaves true live
  Leaves-kept live h = ((λ e. inl h), (λ e l. cc))

  Leaves-nothing : (live : Bool) → live ≡ false → Leaves false live
  Leaves-nothing live h = ((λ e. cc), (λ e l. cc))

  if-IsSettled :
      (b : Bool) (before : List Saved) (t u : Tried)
      → IsSettled before t
      → IsSettled before u
      → IsSettled before (if b then t else u)
  if-IsSettled true before t u h k = h
  if-IsSettled false before t u h k = k

  fails_after-IsSettled :
      (o : RunOutcome) (created : Bool) (f : Failure) (w : World)
      → Leaves created w.live
      → IsSettled w.saved (fails_after o created f w)
  fails_after-IsSettled o created f w h = (
    (λ e. cc),
    (λ e. cc),
    (λ m r. h),
    (λ p e. cc),
    (λ g e.
        let same : f ≡ g = cc in
        (
          (λ is.
              subst
                (λ x.
                  ((if f.is_exception then error_outcome else o) ≡ error_outcome)
                  × ((if f.is_exception then some f else none) ≡ some x))
                same (rw (ap (λ x. x.is_exception) same ∙ is) (refl, refl))),
          (λ is. rw (ap (λ x. x.is_exception) same ∙ is) refl),
        )),
    refl,
  )

  fails-IsSettled :
      (created : Bool) (f : Failure) (w : World)
      → Leaves created w.live
      → IsSettled w.saved (fails created f w)
  fails-IsSettled = fails_after-IsSettled error_outcome

  unbounded-IsSettled :
      (step : Step) (w : World) (rest : Tried)
      → w.live ≡ true
      → IsSettled w.saved rest
      → IsSettled w.saved (unbounded step w rest)
  unbounded-IsSettled passed w rest h r = r
  unbounded-IsSettled expired w rest h r = fails-IsSettled true _ w (Leaves-kept w.live h)
  unbounded-IsSettled (failed f) w rest h r = fails-IsSettled true f w (Leaves-kept w.live h)

  times_out-IsSettled :
      (created : Bool) (w : World) → Leaves created w.live → IsSettled w.saved (times_out created w)
  times_out-IsSettled created w h =
      ((λ e. cc), (λ e. cc), (λ m r. h), (λ o e. cc), (λ g e. cc), refl)

  bounded-IsSettled :
      (created : Bool) (step : Step) (w : World) (rest : Tried)
      → (step ≢ passed → Leaves created w.live)
      → IsSettled w.saved rest
      → IsSettled w.saved (bounded created step w rest)
  bounded-IsSettled created passed w rest h r = r
  bounded-IsSettled created expired w rest h r = times_out-IsSettled created w (h (λ e. cc e))
  bounded-IsSettled created (failed f) w rest h r = fails-IsSettled created f w (h (λ e. cc e))

  dispose-IsSettled :
      (o : RunOutcome) (w : World)
      → (o ≡ merged_outcome) ⊎ (o ≡ rejected_outcome)
      → IsSettled w.saved (dispose env o w)
  dispose-IsSettled o w which = removed-IsSettled env.remove refl
    where
      left : World
      left = record w { live = env.remove_leaves }

      neither :
          (o ≡ merged_outcome) ⊎ (o ≡ rejected_outcome)
          → returned o ≢ returned merged_outcome
          → returned o ≢ returned rejected_outcome
          → ⊥
      neither (inl e) m r = m (ap returned e)
      neither (inr e) m r = r (ap returned e)

      not_removed : env.remove ≢ passed → Leaves true env.remove_leaves
      not_removed h = ((λ e. inr h), (λ e l. cc))

      removed-IsSettled :
          (step : Step)
          → env.remove ≡ step
          → IsSettled w.saved (elim step [
            | passed ↦ ends o none (record w { live = false })
            | expired ↦ fails_after o true (plain_failure "TimeoutExpired") left
            | failed failure ↦ fails_after o true failure left
          ])
      removed-IsSettled passed e = (
        (λ e. refl),
        (λ e. refl),
        (λ m r. absurd (neither which m r)),
        (λ p e. cc),
        (λ g e. cc),
        refl,
      )
      removed-IsSettled expired e =
          fails_after-IsSettled o true (plain_failure "TimeoutExpired") left
            (not_removed (λ p. cc (p, e)))
      removed-IsSettled (failed f) e =
          fails_after-IsSettled o true f left (not_removed (λ p. cc (p, e)))

  conclude_merge-IsSettled :
      (w : World) (out : Merged × Files)
      → w.live ≡ true
      → IsSettled w.saved (conclude_merge env w out)
  unfolding conclude_merge
  conclude_merge-IsSettled w (merged, files) h =
      dispose-IsSettled merged_outcome (record w { files = files }) (inl refl)
  conclude_merge-IsSettled w (rejected, files) h =
      dispose-IsSettled rejected_outcome (record w { files = files }) (inr refl)
  conclude_merge-IsSettled w (diverged_error ps, files) h =
      ((λ e. cc), (λ e. cc), (λ m r. Leaves-kept w.live h), (λ o e. cc), (λ g e. cc), refl)
  conclude_merge-IsSettled w (merge_error, files) h =
      fails-IsSettled true _ (record w { files = files }) (Leaves-kept w.live h)
  conclude_merge-IsSettled w (unread e, files) h =
      fails-IsSettled true _ (record w { files = files }) (Leaves-kept w.live h)
  conclude_merge-IsSettled w (os_error c p, files) h =
      fails-IsSettled true _ (record w { files = files }) (Leaves-kept w.live h)

  review-IsSettled : (w : World) → w.live ≡ true → IsSettled w.saved (review env w)
  unfolding review
  review-IsSettled w h = unbounded-IsSettled env.diff w _ h (answer-IsSettled env.approve)
    where
      answer-IsSettled :
          (answer : Answer)
          → IsSettled w.saved (elim answer [
            | throws failure ↦ fails true failure w
            | answers approved ↦
                conclude_merge env w
                  (merge env.git env.baseline env.worktree_files approved w.files)
          ])
      answer-IsSettled (throws f) = fails-IsSettled true f w (Leaves-kept w.live h)
      answer-IsSettled (answers approved) = conclude_merge-IsSettled w _ h

  invoke-IsSettled : (w : World) → w.live ≡ true → IsSettled w.saved (invoke env w)
  unfolding invoke
  invoke-IsSettled w h =
      if-IsSettled env.over_at_adapter w.saved (times_out true w)
        (bounded true env.adapter w (review env w))
        (times_out-IsSettled true w (Leaves-kept w.live h))
        (bounded-IsSettled true env.adapter w (review env w) (λ f. Leaves-kept w.live h)
          (review-IsSettled w h))

  prepare-IsSettled : (w : World) → w.live ≡ false → IsSettled w.saved (prepare env w)
  unfolding prepare
  prepare-IsSettled w h =
      let w' : World = record w { live = true } in
      let left : World = record w { live = env.create_leaves } in
      let invoked = invoke env w' in
      let validated = bounded true env.validate w' invoked in
      let written = bounded true env.write w' validated in
      let snapped = bounded true env.snapshot w' written in
      if-IsSettled env.over_at_prepare w.saved (times_out false w)
        (bounded false env.create left snapped)
        (times_out-IsSettled false w (Leaves-nothing w.live h))
        (bounded-IsSettled false env.create left snapped (λ f. ((λ e. cc), (λ e l. (f, l))))
          (bounded-IsSettled true env.snapshot w' written (λ f. Leaves-kept true refl)
            (bounded-IsSettled true env.write w' validated (λ f. Leaves-kept true refl)
              (bounded-IsSettled true env.validate w' invoked (λ f. Leaves-kept true refl)
                (invoke-IsSettled w' refl)))))

  pub try_run-IsSettled : (w : World) → w.live ≡ false → IsSettled w.saved (try_run env w)
  unfolding try_run
  try_run-IsSettled w h = breaker-IsSettled env.breaker
    where
      breaker-IsSettled :
          (step : Step)
          → IsSettled w.saved (elim step [
            | passed ↦ prepare env w
            | expired ↦ fails false (plain_failure "TimeoutExpired") w
            | failed failure ↦ fails false failure w
          ])
      breaker-IsSettled passed = prepare-IsSettled w h
      breaker-IsSettled expired =
          fails-IsSettled false (plain_failure "TimeoutExpired") w (Leaves-nothing w.live h)
      breaker-IsSettled (failed f) = fails-IsSettled false f w (Leaves-nothing w.live h)
      -- The checks that come before anything is recorded.
