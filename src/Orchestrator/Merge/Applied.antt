-- ===== src/Orchestrator/Merge/Applied.antt =====
-- What an approved merge does to the paths that it touches.
use josu.Common.{
  true, String, none, some, [], ◌∷◌, eq_string, contains, ◌≡◌, refl, sym, subst, ◌∙◌, arith, inl,
  inr, All, All-contains, List, false, Bool-cases, All-imp, ap, ==_refl,
}
use josu.Common.Dict
use josu.Common.Dict.{lookup-insert, lookup-erase}
use josu.Common.Text.{starts_with}
use josu.Delegate.Errors.{ok}
use josu.Orchestrator.Merge.{
  Git, RepoSnapshot, Files, Change, changed_paths, touched, paths_of, find_diverged_paths,
  apply_change, apply_changes, merged, merge, parents, stepped, made_by,
}
use josu.Orchestrator.Merge.Untouched.{
  lookup-apply_changes, lookup-apply_change, contains-append, left_of,
}
use josu.Orchestrator.Merge.Steps.{
  Holds, AreApart, HasSource, IsWritable, IsOpen, IsFree, has_new, has_old, apply_change-Holds,
}

outside :
    (paths ps : List String) (q : String)
    → All (λ p. contains paths p ≡ true) ps
    → contains paths q ≡ false
    → contains ps q ≡ false
outside paths ps q within absent = elim (Bool-cases (contains ps q)) [
  | inr apart ↦ apart
  | inl same ↦ let there = All-contains (λ p. contains paths p ≡ true) ps q within same in cc
]

contains_self : (xs : List String) → All (λ x. contains xs x ≡ true) xs
contains_self [] = tt
contains_self (x ∷ xs) = (
  ground (arith, ==_refl x),
  All-imp (λ y. contains xs y ≡ true) (λ y. contains (x ∷ xs) y ≡ true) (λ y h. ground arith) xs
      (contains_self xs),
)

-- The paths of each change are among those touched.
touched-All :
    (cs : List Change) → All (λ c. All (λ p. contains (touched cs) p ≡ true) (paths_of c)) cs
unfolding touched
touched-All [] = tt
touched-All (c ∷ cs) = (
  All-imp (λ p. contains (paths_of c) p ≡ true) (λ p. contains (touched (c ∷ cs)) p ≡ true)
      (λ p h. ground (arith, contains-append (paths_of c) (touched cs) p)) (paths_of c)
      (contains_self (paths_of c)),
  All-imp (λ d. All (λ p. contains (touched cs) p ≡ true) (paths_of d))
      (λ d. All (λ p. contains (touched (c ∷ cs)) p ≡ true) (paths_of d))
      (λ d.
        All-imp (λ p. contains (touched cs) p ≡ true) (λ p. contains (touched (c ∷ cs)) p ≡ true)
          (λ p h. ground (arith, contains-append (paths_of c) (touched cs) p)) (paths_of d))
      cs (touched-All cs),
)

module _ (git : Git) (worktree_files : Files) where
  -- A change holds on while the others leave its paths alone.
  Holds-apply_changes :
      (made : List String) (change : Change) (changes : List Change) (files : Files)
      → All (λ p. contains (touched changes) p ≡ false) (paths_of change)
      → Holds worktree_files files change
      → Holds worktree_files (apply_changes git worktree_files made changes files).1 change
  Holds-apply_changes made change changes files apart (deleted, copied, gone) =
      let new = change.new_path in
      let keep : (p : String)
          → contains (paths_of change) p ≡ true
          → Dict.lookup p (apply_changes git worktree_files made changes files).1
            ≡ Dict.lookup p files =
        λ p q.
          lookup-apply_changes git worktree_files made changes files p (
            All-contains (λ x. contains (touched changes) x ≡ false) (paths_of change) p apart q) in
      (
        (λ d. keep new (has_new git worktree_files change) ∙ deleted d),
        (λ d. keep new (has_new git worktree_files change) ∙ copied d),
        (λ old o differs. keep old (has_old git worktree_files change old o) ∙ gone old o differs),
      )

  apply_changes_step :
      (made : List String) (change : Change) (changes : List Change) (files after : Files)
      → apply_change git worktree_files made change files ≡ stepped after
      → apply_changes git worktree_files made (change ∷ changes) files
        ≡ apply_changes git worktree_files (made_by change made) changes after
  unfolding apply_changes
  apply_changes_step made change changes files after q = ground arith

  -- Of a list of paths: those touched, which are free, and which no directory is that is made.
  module _ (paths : List String)
      (writable : (p : String) → contains paths p ≡ true → IsWritable git p) where
    abbrev AreElsewhere : List String → Type 0
    AreElsewhere made = (q : String) → contains made q ≡ true → contains paths q ≡ false

    All-IsFree :
        (made ps : List String)
        → AreElsewhere made
        → All (λ p. contains paths p ≡ true) ps
        → All (IsFree git worktree_files made) ps
    All-IsFree made ps elsewhere =
        All-imp (λ p. contains paths p ≡ true) (IsFree git worktree_files made)
          (λ p h.
            let (file, (unlinks, fits)) = writable p h in
            (
              (elim (Bool-cases (contains made p)) [
                | inl same ↦ let other = elsewhere p same in cc
                | inr apart ↦ ground arith
              ]),
              (unlinks, fits),
            ))
          ps

    made_by-AreElsewhere :
        (made : List String) (change : Change) (files : Files)
        → AreElsewhere made
        → IsOpen paths files change
        → AreElsewhere (made_by change made)
    made_by-AreElsewhere made change files elsewhere roomy q there =
        elim (Bool-cases (starts_with change.status "D")) [
          | inl d ↦ elsewhere q (ground arith)
          | inr d ↦ elim (Bool-cases (contains (parents change.new_path) q)) [
            | inl new ↦
                (All-contains (λ p. (contains paths p ≡ false) × (Dict.lookup p files ≡ none))
                  (parents change.new_path) q (roomy d) new).0
            | inr old ↦
                elsewhere q (ground (arith, contains-append (parents change.new_path) made q))
          ]
        ]

    IsOpen-after :
        (made : List String) (change other : Change) (files after : Files)
        → All (λ p. contains paths p ≡ true) (paths_of change)
        → apply_change git worktree_files made change files ≡ stepped after
        → IsOpen paths files other
        → IsOpen paths after other
    IsOpen-after made change other files after within e roomy d =
        All-imp (λ q. (contains paths q ≡ false) × (Dict.lookup q files ≡ none))
          (λ q. (contains paths q ≡ false) × (Dict.lookup q after ≡ none))
          (λ q (apart, absent). (
            apart,
            ap (λ s. Dict.lookup q (left_of s)) (sym e)
                ∙ lookup-apply_change git worktree_files made change files q
                    (outside paths (paths_of change) q within apart)
                ∙ absent,
          ))
          (parents other.new_path) (roomy d)

    apply_changes-Holds :
        (made : List String) (changes : List Change) (files : Files)
        → AreElsewhere made
        → All (λ c. All (λ p. contains paths p ≡ true) (paths_of c)) changes
        → All (HasSource worktree_files) changes
        → All (IsOpen paths files) changes
        → AreApart changes
        → ((apply_changes git worktree_files made changes files).0 ≡ merged)
          × All
              (Holds worktree_files (apply_changes git worktree_files made changes files).1)
              changes
    unfolding apply_changes
    apply_changes-Holds made [] files elsewhere within sources roomy apart = (refl, tt)
    apply_changes-Holds made (change ∷ changes) files elsewhere (here, within) (source, sources)
          (open_here, roomy) (apart, rest) =
        let (after, q, holds) =
          apply_change-Holds git worktree_files made change files
            (All-IsFree made (paths_of change) elsewhere here) source
            (λ d.
              All-imp (λ p. (contains paths p ≡ false) × (Dict.lookup p files ≡ none))
                (λ p. Dict.lookup p files ≡ none) (λ p h. h.1) (parents change.new_path)
                (open_here d)) in
        let made' = made_by change made in
        let (ends, hold) =
          apply_changes-Holds made' changes after
            (made_by-AreElsewhere made change files elsewhere open_here) within sources
            (All-imp (IsOpen paths files) (IsOpen paths after)
              (λ c. IsOpen-after made change c files after here q) changes roomy)
            rest in
        let first = Holds-apply_changes made' change changes after apart holds in
        subst (λ out. (out.0 ≡ merged) × All (Holds worktree_files out.1) (change ∷ changes))
          (sym (apply_changes_step made change changes files after q)) (ends, (first, hold))

module _ (git : Git) (snapshot : RepoSnapshot) (worktree_files : Files) where
  merge_clean :
      (lines : List String) (files : Files)
      → git.name_status ≡ some lines
      → find_diverged_paths git snapshot files (changed_paths lines) ≡ ok []
      → merge git snapshot worktree_files true files
        ≡ apply_changes git worktree_files [] (changed_paths lines) files
  unfolding merge
  merge_clean lines files p q = ground arith

  -- An approved merge without divergence succeeds, where the worktree has the files that its changes
  -- add or modify, none of them lies below a file of the repository or below a touched path, no path
  -- belongs to two changes, and no touched path is a directory or one whose removal or write the
  -- operating system refuses. Afterwards each change holds in the repository: a deleted path is gone,
  -- every other new path has the worktree's bytes, and an old path is gone.
  pub merge-Holds :
      (lines : List String) (files : Files)
      → git.name_status ≡ some lines
      → find_diverged_paths git snapshot files (changed_paths lines) ≡ ok []
      → All (HasSource worktree_files) (changed_paths lines)
      → All (IsOpen (touched (changed_paths lines)) files) (changed_paths lines)
      → AreApart (changed_paths lines)
      → ((p : String) → contains (touched (changed_paths lines)) p ≡ true → IsWritable git p)
      → ((merge git snapshot worktree_files true files).0 ≡ merged)
        × All
            (Holds worktree_files (merge git snapshot worktree_files true files).1)
            (changed_paths lines)
  merge-Holds lines files e clean sources roomy apart writable =
      let changes = changed_paths lines in
      subst (λ out. (out.0 ≡ merged) × All (Holds worktree_files out.1) changes)
        (sym (merge_clean lines files e clean))
        (apply_changes-Holds git worktree_files (touched changes) writable [] changes files
          (λ q h. cc) (touched-All changes) sources roomy apart)
