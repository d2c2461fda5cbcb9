-- ===== src/Orchestrator/Merge/Steps.antt =====
-- What one approved change does to the paths that it names.
use josu.Common.{
  true, String, none, some, [], ◌∷◌, eq_string, contains, ◌≡◌, ◌≢◌, refl, arith, inl, inr,
  Option-cases, eq_iff, All, All-contains, List, any, is_some, false, ◌==◌, if◌then◌else◌,
  Bool-cases, All-imp,
}
use josu.Common.Dict
use josu.Common.Dict.{lookup-insert, lookup-erase}
use josu.Common.Text.{starts_with}
use josu.Orchestrator.Merge.{
  Git, Files, Change, touched, paths_of, remove_old, apply_change, Bytes, parents, is_dir,
  is_blocked, remove_at, copy_to, apply_new, stepped,
}

-- The repository has the worktree's side of a change: no old path, and the new one as it is in the
-- worktree, or gone.
abbrev pub Holds : Files → Files → Change → Type 0
Holds worktree_files files change =
    (starts_with change.status "D" ≡ true → Dict.lookup change.new_path files ≡ none)
    × (starts_with change.status "D" ≡ false
        → Dict.lookup change.new_path files ≡ Dict.lookup change.new_path worktree_files)
    × ((old : String)
        → change.old_path ≡ some old
        → old ≢ change.new_path
        → Dict.lookup old files ≡ none)

-- No path belongs to two changes.
abbrev pub AreApart : List Change → Type 0
AreApart [] = Unit
AreApart (change ∷ changes) =
    All (λ p. contains (touched changes) p ≡ false) (paths_of change) × AreApart changes

-- The worktree has the file that a change is to copy.
abbrev pub HasSource : Files → Change → Type 0
HasSource worktree_files change =
    starts_with change.status "D" ≡ false → Dict.lookup change.new_path worktree_files ≢ none

-- There is no directory at a path, and the operating system lets a file there be removed and written.
abbrev pub IsWritable : Git → String → Type 0
IsWritable git path =
    (git.is_directory path ≡ false) × ((git.can_unlink path ≡ true) × (git.broken path ≡ none))

-- What a change adds or modifies lies below no file, and below no path of a list.
abbrev pub IsOpen : List String → Files → Change → Type 0
IsOpen paths files change =
    starts_with change.status "D" ≡ false
    → All (λ q. (contains paths q ≡ false) × (Dict.lookup q files ≡ none)) (parents change.new_path)

module _ (git : Git) (worktree_files : Files) where
  -- A path at which a step goes through.
  abbrev pub IsFree : List String → String → Type 0
  IsFree made path =
      (is_dir git worktree_files made path ≡ false)
      × ((git.can_unlink path ≡ true) × (git.broken path ≡ none))

  remove_at-free :
      (made : List String) (path : String) (files : Files)
      → IsFree made path
      → remove_at git worktree_files made path files ≡ stepped (Dict.erase path files)
  unfolding remove_at
  remove_at-free made path files (file, (unlinks, fits)) = ground arith

  is_blocked-open :
      (made : List String) (path : String) (files : Files)
      → All (λ q. Dict.lookup q files ≡ none) (parents path)
      → is_blocked git worktree_files made path files ≡ false
  is_blocked-open made path files = any_none (parents path)
    where
      any_none :
          (qs : List String)
          → All (λ q. Dict.lookup q files ≡ none) qs
          → any (λ q. is_some (Dict.lookup q files)) qs ≡ false
      any_none [] h = refl
      any_none (q ∷ qs) (here, h) = ground (arith, any_none qs h)

  copy_to-free :
      (made : List String) (path : String) (bytes : Bytes) (files : Files)
      → IsFree made path
      → All (λ q. Dict.lookup q files ≡ none) (parents path)
      → Dict.lookup path worktree_files ≡ some bytes
      → copy_to git worktree_files made path files ≡ stepped (Dict.insert path bytes files)
  unfolding copy_to
  copy_to-free made path bytes files (file, (unlinks, fits)) roomy source =
      let open_path = is_blocked-open made path files roomy in
      rw (open_path, source, file, fits, copy_to) refl

  -- The files without the old path of a change.
  abbrev cleared : Change → Files → Files
  cleared change files = elim change.old_path [
    | none ↦ files
    | some old ↦ if old == change.new_path then files else Dict.erase old files
  ]

  pub has_new : (c : Change) → contains (paths_of c) c.new_path ≡ true
  has_new c = elim (Option-cases c.old_path) [
    | inl unset ↦ ground (arith, eq_iff c.new_path c.new_path)
    | inr (old, r) ↦ ground (arith, eq_iff c.new_path c.new_path)
  ]

  pub has_old :
      (c : Change) (old : String) → c.old_path ≡ some old → contains (paths_of c) old ≡ true
  has_old c old o = ground (arith, eq_iff old old)

  remove_old-free :
      (made : List String) (change : Change) (files : Files)
      → All (IsFree made) (paths_of change)
      → remove_old git worktree_files made change files ≡ stepped (cleared change files)
  unfolding remove_old
  remove_old-free made change files free = elim (Option-cases change.old_path) [
    | inl unset ↦ ground arith
    | inr (old, o) ↦
        let here = All-contains (IsFree made) (paths_of change) old free (has_old change old o) in
        ground (arith, remove_at-free made old files here)
  ]

  lookup-cleared :
      (change : Change) (files : Files) (q : String)
      → Dict.lookup q files ≡ none
      → Dict.lookup q (cleared change files) ≡ none
  lookup-cleared change files q absent = elim (Option-cases change.old_path) [
    | inl unset ↦ ground arith
    | inr (old, o) ↦ ground (arith, lookup-erase old q files)
  ]

  lookup-cleared_gone :
      (change : Change) (files : Files) (old : String)
      → change.old_path ≡ some old
      → old ≢ change.new_path
      → Dict.lookup old (cleared change files) ≡ none
  lookup-cleared_gone change files old o differs =
      ground (arith, lookup-erase old old files, eq_iff old old, eq_iff old change.new_path)

  module _ (made : List String) (change : Change) (files : Files)
      (free : All (IsFree made) (paths_of change)) where
    new-IsFree : IsFree made change.new_path
    new-IsFree = All-contains (IsFree made) (paths_of change) change.new_path free (has_new change)

    apply_change-deletes :
        starts_with change.status "D" ≡ true
        → apply_change git worktree_files made change files
          ≡ stepped (Dict.erase change.new_path (cleared change files))
    unfolding apply_change apply_new
    apply_change-deletes d =
        let gone = remove_at-free made change.new_path (cleared change files) new-IsFree in
        rw (apply_change, remove_old-free made change files free, apply_new, d) gone

    apply_change-copies :
        (bytes : Bytes)
        → starts_with change.status "D" ≡ false
        → All (λ q. Dict.lookup q files ≡ none) (parents change.new_path)
        → Dict.lookup change.new_path worktree_files ≡ some bytes
        → apply_change git worktree_files made change files
          ≡ stepped (Dict.insert change.new_path bytes (cleared change files))
    unfolding apply_change apply_new
    apply_change-copies bytes d roomy source =
        let still =
          All-imp (λ q. Dict.lookup q files ≡ none)
            (λ q. Dict.lookup q (cleared change files) ≡ none) (lookup-cleared change files)
            (parents change.new_path) roomy in
        let copied =
          copy_to-free made change.new_path bytes (cleared change files) new-IsFree still source in
        rw (apply_change, remove_old-free made change files free, apply_new, d) copied

    pub apply_change-Holds :
        HasSource worktree_files change
        → (starts_with change.status "D" ≡ false
            → All (λ q. Dict.lookup q files ≡ none) (parents change.new_path))
        → (after : Files) × (apply_change git worktree_files made change files ≡ stepped after)
          × Holds worktree_files after change
    apply_change-Holds source roomy =
        let new = change.new_path in
        let left = cleared change files in
        elim (Bool-cases (starts_with change.status "D")) [
          | inl d ↦ (
            Dict.erase new left,
            apply_change-deletes d,
            (
              (λ e. ground (arith, lookup-erase new new left, eq_iff new new)),
              (λ e. ground arith),
              (λ old o differs. ground (
                arith,
                lookup-cleared_gone change files old o differs,
                lookup-erase new old left,
              )),
            ),
          )
          | inr d ↦ elim (Option-cases (Dict.lookup new worktree_files)) [
            | inl absent ↦ absurd (source d absent)
            | inr (bytes, found) ↦ (
              Dict.insert new bytes left,
              apply_change-copies bytes d (roomy d) found,
              (
                (λ e. ground arith),
                (λ e. ground (arith, lookup-insert new new bytes left, eq_iff new new)),
                (λ old o differs. ground (
                  arith,
                  lookup-cleared_gone change files old o differs,
                  lookup-insert new old bytes left,
                  eq_iff new old,
                )),
              ),
            )
          ]
        ]
