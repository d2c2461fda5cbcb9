-- ===== src/Orchestrator/Worktree.antt =====
-- src/josu/orchestrator/worktree.py: the parser of `git worktree list --porcelain`, and the search
-- for the worktrees that a crash left behind. Paths are texts; `resolve`, `relative_to` and `name`
-- of pathlib are parameters.
pub mod Porcelain
mod Examples
use josu.Common.{
  Bool, true, false, ◌&&◌, not, String, Option, none, some, List, [], ◌∷◌, ◌++◌, eq_string,
  contains, filter, get_or_else, if◌then◌else◌,
}
use josu.Common.Text.{cut_prefix}

pub record WorktreeListEntry : Type 0 where
  pub path : String
  pub branch : Option String

-- `_flush`, as what it appends
abbrev pub flush : Option String → Option String → List WorktreeListEntry
flush none branch = []
flush (some path) branch = record { path = path; branch = branch } ∷ []

-- `ref.removeprefix("refs/heads/")`
abbrev pub branch_of : String → String
branch_of ref = get_or_else (cut_prefix "refs/heads/" ref) ref

-- The loop, from the path and the branch of the current record, and the flush behind it.
unfoldable pub parse_lines : Option String → Option String → List String → List WorktreeListEntry
parse_lines path branch [] = flush path branch
parse_lines path branch (line ∷ lines) = elim (cut_prefix "worktree " line) [
  | some p ↦ flush path branch ++ parse_lines (some p) none lines
  | none ↦ elim (cut_prefix "branch " line) [
    | some ref ↦ parse_lines path (some (branch_of ref)) lines
    | none ↦ parse_lines path branch lines
  ]
]

unfoldable pub parse_worktree_list_porcelain : List String → List WorktreeListEntry
parse_worktree_list_porcelain lines = parse_lines none none lines

pub record Worktree : Type 0 where
  pub path : String
  pub branch : String
  pub repo_root : String
  pub stash_ref : Option String
  pub task_description : Option String

-- `Worktree(path=entry.path, branch=entry.branch or "", ...)`
abbrev pub rediscovered : String → WorktreeListEntry → Worktree
rediscovered repo_root entry = record {
  path = entry.path;
  branch = get_or_else entry.branch "";
  repo_root = repo_root;
  stash_ref = none;
  task_description = none;
}

-- `is_under path`: the resolved path is relative to the resolved directory of the worktrees.
module _ (is_under : String → Bool) (name_of : String → String) (repo_root : String) where
  unfoldable pub managed_of : List WorktreeListEntry → List Worktree
  managed_of [] = []
  managed_of (entry ∷ entries) =
      let rest = managed_of entries in
      if is_under entry.path then rediscovered repo_root entry ∷ rest else rest

  unfoldable pub list_managed_worktrees : List String → List Worktree
  list_managed_worktrees lines = managed_of (parse_worktree_list_porcelain lines)

  unfoldable pub find_orphaned_worktrees : (known : List String) → List String → List Worktree
  find_orphaned_worktrees known lines =
      filter (λ w. not (contains known (name_of w.path))) (list_managed_worktrees lines)
