-- ===== src/Cleanup.antt =====
-- src/josu/cli.py: the scan for the worktrees that a crash left behind, and `josu cleanup`. What git
-- lists and whether it removes a worktree, and the operations on paths, are parameters.
pub mod Scan
pub mod Removal
mod Examples
use Prim.Native.String as Str
use josu.Common.{
  ℕ, Bool, true, false, String, Option, none, some, List, [], ◌∷◌, map, if◌then◌else◌, ◌==◌,
  eq_string, ◌>>=◌,
}
use josu.Common.Dict
use josu.Fallback.{
  AbandonedWorktreeRecord, Markers, abandon_reason_crash_orphaned, list_abandoned_worktrees,
  mark_worktree_abandoned,
}
use josu.Orchestrator.Worktree.{Worktree, find_orphaned_worktrees}

-- `name_of` is `Path.name`, and `is_under` tells whether a path lies in the directory of worktrees.
module _ (is_under : String → Bool) (name_of : String → String) (repo_root now : String) where
  -- The loop over the orphans.
  unfoldable pub mark_all : List Worktree → Markers → Markers
  mark_all [] markers = markers
  mark_all (w ∷ ws) markers =
      mark_all ws (mark_worktree_abandoned name_of now abandon_reason_crash_orphaned w markers)

  abbrev pub known_names : List AbandonedWorktreeRecord → List String
  known_names = map (λ r. name_of r.worktree_path)

  -- The names and the records that the scan returns.
  collected :
      List Worktree
      → List AbandonedWorktreeRecord
      → Markers
      → Option (List String × List AbandonedWorktreeRecord)
  collected [] existing markers = some ([], existing)
  collected (w ∷ ws) existing markers = do
    records ← list_abandoned_worktrees markers
    some (map (λ w. name_of w.path) (w ∷ ws), records)

  -- `_scan_and_collect_abandoned_worktrees`, from the lines of `git worktree list`: what it returns,
  -- or `none` for the exception of an unreadable marker, and the markers behind it
  unfoldable pub scan_and_collect :
      List String → Markers → Option (List String × List AbandonedWorktreeRecord) × Markers
  unfolding collected
  scan_and_collect lines markers = elim (list_abandoned_worktrees markers) [
    | none ↦ (none, markers)
    | some existing ↦
        let orphans =
          find_orphaned_worktrees is_under name_of repo_root (known_names existing) lines in
        let marked = mark_all orphans markers in (collected orphans existing marked, marked)
  ]

-- The names of a set, in order.
unfoldable pub insert_name : String → List String → List String
insert_name n [] = n ∷ []
insert_name n (m ∷ ms) =
    let rest = insert_name n ms in
    elim (Str.compare n m) [
      | Prim.Native.Nat.Ordering.lt ↦ n ∷ m ∷ ms
      | Prim.Native.Nat.Ordering.eq ↦ m ∷ ms
      | Prim.Native.Nat.Ordering.gt ↦ m ∷ rest
    ]

-- `sorted(set(names))`
unfoldable pub sorted_set : List String → List String
sorted_set [] = []
sorted_set (n ∷ ns) = insert_name n (sorted_set ns)

-- `removes` is whether `git worktree remove` succeeds for a record's worktree.
module _ (name_of : String → String) (removes : AbandonedWorktreeRecord → Bool) where
  -- `next((record for record in records if ... == name), None)`
  unfoldable pub find_record :
      String → List AbandonedWorktreeRecord → Option AbandonedWorktreeRecord
  find_record name [] = none
  find_record name (r ∷ rs) =
      let rest = find_record name rs in if name_of r.worktree_path == name then some r else rest

  -- `remove_abandoned_worktree`, where `none` is the WorktreeError
  unfoldable pub remove_abandoned_worktree : AbandonedWorktreeRecord → Markers → Option Markers
  remove_abandoned_worktree r markers =
      if removes r then some (Dict.erase (name_of r.worktree_path) markers) else none

  -- The loop over the names: the exit code, from the one so far, and the markers that are left.
  unfoldable pub remove_each :
      List AbandonedWorktreeRecord → List String → ℕ → Markers → ℕ × Markers
  remove_each records [] exit_code markers = (exit_code, markers)
  remove_each records (name ∷ names) exit_code markers = elim (find_record name records) [
    | none ↦ remove_each records names 1 markers
    | some r ↦ elim (remove_abandoned_worktree r markers) [
      | none ↦ remove_each records names 1 markers
      | some left ↦ remove_each records names exit_code left
    ]
  ]

  abbrev pub names_to_remove : List String → Bool → List AbandonedWorktreeRecord → List String
  names_to_remove remove remove_all records =
      sorted_set (if remove_all then map (λ r. name_of r.worktree_path) records else remove)

  -- `_cmd_cleanup` behind its report: an empty report ends it.
  unfoldable pub cmd_cleanup :
      (remove : List String) (remove_all : Bool)
      → List AbandonedWorktreeRecord
      → Markers
      → ℕ × Markers
  cmd_cleanup remove remove_all [] markers = (0, markers)
  cmd_cleanup remove remove_all (r ∷ rs) markers =
      remove_each (r ∷ rs) (names_to_remove remove remove_all (r ∷ rs)) 0 markers
