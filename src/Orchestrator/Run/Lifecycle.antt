-- ===== src/Orchestrator/Run/Lifecycle.antt =====
-- How a run ends, and what it leaves behind.
use josu.Common.{true, false, none, some, List, [], ◌∷◌, ◌++◌, ◌≡◌, ◌≢◌, sym, subst, ◌∙◌, ap, arith}
use josu.Orchestrator.Run.{
  RunEnv, passed, Failure, RunOutcome, merged_outcome, rejected_outcome, error_outcome, Saved,
  World, Ended, returned, raised, Tried, has_adapter, try_run, finish, run_task, record_of,
}
use josu.Orchestrator.Run.Settling.{Leaves, IsSettled, try_run-IsSettled}

module _ (env : RunEnv) where
  -- One record more is saved. It has the outcome that the run returns, or, for an `Exception` that it
  -- raises, the error outcome with its class; after a merge or a rejection that is returned the
  -- worktree is gone, and after every other end it is left as `Leaves` says.
  abbrev pub SettlesAfter : List Saved → Ended × World → Type 0
  SettlesAfter before out =
      (r : Saved) × (out.1.saved ≡ before ++ r ∷ [])
      × (out.0 ≡ returned merged_outcome → out.1.live ≡ false)
      × (out.0 ≡ returned rejected_outcome → out.1.live ≡ false)
      × (out.0 ≢ returned merged_outcome
          → out.0 ≢ returned rejected_outcome
          → Leaves env r.has_worktree out.1.live)
      × ((o : RunOutcome) → out.0 ≡ returned o → r.outcome ≡ o)
      × ((f : Failure)
          → out.0 ≡ raised f
          → (f.is_exception ≡ true
              → (r.outcome ≡ error_outcome) × (r.error_class ≡ some f.class_name))
            × (f.is_exception ≡ false → r.error_class ≡ none))

  abbrev pub Starts : Type 0
  Starts = (env.daemon ≡ passed) × (env.daemon_token ≡ passed) × (has_adapter env ≡ true)

  run_task_started : (w : World) → Starts → run_task env w ≡ finish env (try_run env w)
  unfolding run_task
  run_task_started w (d, t, a) = ground arith

  finish_saved :
      (t : Tried)
      → env.save ≡ passed
      → finish env t ≡ (t.ended, record t.world { saved = t.world.saved ++ record_of env t ∷ [] })
  unfolding finish
  finish_saved t h = ground arith

  SettlesAfter-finished :
      (before : List Saved) (t : Tried)
      → IsSettled env before t
      → SettlesAfter before
          (t.ended, record t.world { saved = t.world.saved ++ record_of env t ∷ [] })
  SettlesAfter-finished before t (m, r, other, o, f, saved) = (
    record_of env t,
    ap (λ l. l ++ record_of env t ∷ []) saved,
    m,
    r,
    other,
    o,
    (λ g e. (
      (λ is. let (p, q) = (f g e).0 is in (p, class_of t g p q)),
      (λ is. no_class t ((f g e).1 is)),
    )),
  )
    where
      class_of :
          (u : Tried) (g : Failure)
          → u.outcome ≡ error_outcome
          → u.error ≡ some g
          → (record_of env u).error_class ≡ some g.class_name
      class_of u g p q = ground arith

      no_class : (u : Tried) → u.error ≡ none → (record_of env u).error_class ≡ none
      no_class u q = ground arith

  -- If the daemon, its token and the adapter are there, the record can be saved, and no worktree
  -- exists before, a run saves one record more, which has the outcome that the run returns or the
  -- class of the `Exception` that it raises. The worktree is gone after a merge or a rejection that
  -- is returned. After every other end a worktree that the record names is left in place, unless its
  -- removal has failed, and one that it does not name only if its creation has failed after adding
  -- it.
  pub run_task-SettlesAfter :
      (w : World)
      → Starts
      → env.save ≡ passed
      → w.live ≡ false
      → SettlesAfter w.saved (run_task env w)
  run_task-SettlesAfter w starts saves h =
      subst (SettlesAfter w.saved)
        (sym (run_task_started w starts ∙ finish_saved (try_run env w) saves))
        (SettlesAfter-finished w.saved (try_run env w) (try_run-IsSettled env w h))
