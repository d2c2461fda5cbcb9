-- ===== src/Orchestrator/Merge/Untouched.antt =====
-- What a merge leaves alone.
use josu.Common.{
  Bool, true, false, ◌||◌, String, none, some, List, [], ◌∷◌, ◌++◌, eq_string, contains, ◌≡◌, ◌≢◌,
  refl, ap, ◌∙◌, ◌⊎◌, arith, inl, inr, Option-cases, eq_iff,
}
use josu.Common.Dict
use josu.Common.Dict.{lookup-insert, lookup-erase}
use josu.Delegate.Errors.{Result, ok, raise, Result-cases}
use josu.Orchestrator.Merge.{
  Merged, Stepped, stepped, stopped, made_by, remove_at, copy_to, apply_new, Git, RepoSnapshot,
  Files, Change, changed_paths, touched, paths_of, find_diverged_paths, remove_old, apply_change,
  apply_changes, merge, merge_checked,
}

module _ (git : Git) (snapshot : RepoSnapshot) (worktree_files : Files) where
  -- A merge that changes the repository in any way was approved, and the check had found that none
  -- of the touched paths has diverged.
  pub merge-writes :
      (approved : Bool) (files : Files)
      → (merge git snapshot worktree_files approved files).1 ≢ files
      → (approved ≡ true)
        × (lines : List String) × (git.name_status ≡ some lines)
        × (find_diverged_paths git snapshot files (changed_paths lines) ≡ ok [])
  unfolding merge
  merge-writes false files h = absurd (h refl)
  merge-writes true files h = elim (Option-cases git.name_status) [
    | inl failed ↦ absurd (h (ground arith))
    | inr (lines, p) ↦
        elim (Result-cases (find_diverged_paths git snapshot files (changed_paths lines))) [
          | inl (e, unread) ↦ absurd (h (ground arith))
          | inr ([], q) ↦ (refl, lines, p, q)
          | inr (path ∷ paths, q) ↦ absurd (h (ground arith))
        ]
  ]

pub contains-append :
    (xs ys : List String) (p : String) → contains (xs ++ ys) p ≡ (contains xs p || contains ys p)
contains-append [] ys p = refl
contains-append (x ∷ xs) ys p = ground (arith, contains-append xs ys p)

-- The files behind a step, however it ends.
abbrev pub left_of : Stepped → Files
left_of (stepped files) = files
left_of (stopped e files) = files

module _ (git : Git) (worktree_files : Files) (made : List String) where
  lookup-remove_at :
      (path : String) (files : Files) (p : String)
      → p ≢ path
      → Dict.lookup p (left_of (remove_at git worktree_files made path files)) ≡ Dict.lookup p files
  unfolding remove_at
  lookup-remove_at path files p apart = ground (arith, lookup-erase path p files, eq_iff path p)

  lookup-copy_to :
      (path : String) (files : Files) (p : String)
      → p ≢ path
      → Dict.lookup p (left_of (copy_to git worktree_files made path files)) ≡ Dict.lookup p files
  unfolding copy_to
  lookup-copy_to path files p apart = elim (Option-cases (Dict.lookup path worktree_files)) [
    | inl absent ↦ ground arith
    | inr (bytes, found) ↦ elim (Option-cases (git.broken path)) [
      | inl fits ↦ ground (arith, lookup-insert path p bytes files, eq_iff path p)
      | inr (none, cut) ↦ ground (arith, lookup-erase path p files, eq_iff path p)
      | inr (some part, cut) ↦ ground (arith, lookup-insert path p part files, eq_iff path p)
    ]
  ]

  not_old_path :
      (change : Change) (old p : String)
      → contains (paths_of change) p ≡ false
      → change.old_path ≡ some old
      → p ≢ old
  not_old_path change old p h is = λ q. ground (arith, eq_iff p old)

  not_new_path :
      (change : Change) (p : String) → contains (paths_of change) p ≡ false → p ≢ change.new_path
  not_new_path change p h = elim (Option-cases change.old_path) [
    | inl unset ↦ λ q. ground (arith, eq_iff p change.new_path)
    | inr (old, r) ↦ λ q. ground (arith, eq_iff p change.new_path)
  ]

  lookup-remove_old :
      (change : Change) (files : Files) (p : String)
      → contains (paths_of change) p ≡ false
      → Dict.lookup p (left_of (remove_old git worktree_files made change files))
        ≡ Dict.lookup p files
  unfolding remove_old
  lookup-remove_old change files p h = elim (Option-cases change.old_path) [
    | inl unset ↦ ground arith
    | inr (old, q) ↦ ground (arith, lookup-remove_at old files p (not_old_path change old p h q))
  ]

  lookup-apply_new :
      (change : Change) (s : Stepped) (p : String)
      → p ≢ change.new_path
      → Dict.lookup p (left_of (apply_new git worktree_files made change s))
        ≡ Dict.lookup p (left_of s)
  unfolding apply_new
  lookup-apply_new change (stopped e files) p apart = refl
  lookup-apply_new change (stepped files) p apart = ground (
    arith,
    lookup-remove_at change.new_path files p apart,
    lookup-copy_to change.new_path files p apart,
  )

  pub lookup-apply_change :
      (change : Change) (files : Files) (p : String)
      → contains (paths_of change) p ≡ false
      → Dict.lookup p (left_of (apply_change git worktree_files made change files))
        ≡ Dict.lookup p files
  unfolding apply_change
  lookup-apply_change change files p h =
      lookup-apply_new change (remove_old git worktree_files made change files) p
        (not_new_path change p h)
      ∙ lookup-remove_old change files p h

pub Stepped-cases :
    (s : Stepped)
    → ((e : Merged) × ((files : Files) × (s ≡ stopped e files)))
      ⊎ ((files : Files) × (s ≡ stepped files))
Stepped-cases (stopped e files) = inl (e, (files, refl))
Stepped-cases (stepped files) = inr (files, refl)

module _ (git : Git) (worktree_files : Files) where
  pub lookup-apply_changes :
      (made : List String) (changes : List Change) (files : Files) (p : String)
      → contains (touched changes) p ≡ false
      → Dict.lookup p (apply_changes git worktree_files made changes files).1 ≡ Dict.lookup p files
  unfolding apply_changes touched
  lookup-apply_changes made [] files p h = refl
  lookup-apply_changes made (change ∷ changes) files p h =
      let split = contains-append (paths_of change) (touched changes) p in
      let apart : contains (paths_of change) p ≡ false = ground arith in
      let later : contains (touched changes) p ≡ false = ground arith in
      let same = lookup-apply_change git worktree_files made change files p apart in
      elim (Stepped-cases (apply_change git worktree_files made change files)) [
        | inl (e, (left, q)) ↦ ground arith
        | inr (after, q) ↦
            ground (arith, lookup-apply_changes (made_by change made) changes after p later)
      ]

-- The changes that git reports, if it does.
abbrev pub changes_of : Git → List Change
changes_of git = elim git.name_status [ none ↦ [] | some lines ↦ changed_paths lines ]

module _ (git : Git) (snapshot : RepoSnapshot) (worktree_files : Files) where
  lookup-merge_checked :
      (changes : List Change) (check : Result (List String)) (files : Files) (p : String)
      → contains (touched changes) p ≡ false
      → Dict.lookup p (merge_checked git snapshot worktree_files changes check files).1
        ≡ Dict.lookup p files
  unfolding merge_checked
  lookup-merge_checked changes (raise e) files p apart = refl
  lookup-merge_checked changes (ok []) files p apart =
      lookup-apply_changes git worktree_files [] changes files p apart
  lookup-merge_checked changes (ok (path ∷ paths)) files p apart = refl

  -- However a merge ends, a file of the repository that no change of the worktree touches is what
  -- it was, and stays absent if it was absent.
  pub lookup-merge :
      (approved : Bool) (files : Files) (p : String)
      → contains (touched (changes_of git)) p ≡ false
      → Dict.lookup p (merge git snapshot worktree_files approved files).1 ≡ Dict.lookup p files
  unfolding merge
  lookup-merge false files p h = refl
  lookup-merge true files p h = elim (Option-cases git.name_status) [
    | inl failed ↦ ground arith
    | inr (lines, e) ↦
        let changes = changed_paths lines in
        let apart : contains (touched changes) p ≡ false = rw (e) at h in
        let checked : merge git snapshot worktree_files true files
            ≡ merge_checked git snapshot worktree_files changes
                (find_diverged_paths git snapshot files changes) files =
          ground arith in
        ap (λ out. Dict.lookup p out.1) checked
        ∙ lookup-merge_checked changes (find_diverged_paths git snapshot files changes) files p
            apart
  ]
