-- ===== src/Orchestrator/Worktree/Porcelain.antt =====
-- What the parser makes of the lines that git prints.
use josu.Common.{
  Bool, ◌&&◌, not, String, Option, none, some, List, [], ◌∷◌, ◌++◌, ◌≡◌, refl, sym, ◌∙◌, ap, arith,
  map, All, append_assoc, append-nil, filter, contains, eq_string,
}
use josu.Common.Text.{cut_prefix, concat, cut_prefix-concat}
use josu.Orchestrator.Worktree.{
  WorktreeListEntry, flush, parse_lines, parse_worktree_list_porcelain, rediscovered, managed_of,
  list_managed_worktrees, find_orphaned_worktrees,
}

-- One record of the output: a worktree with its branch, if it has one, and the other lines of the
-- record before and behind that of the branch.
pub record Printed : Type 0 where
  pub entry : WorktreeListEntry
  pub before : List String
  pub after : List String

abbrev pub branch_line : Option String → List String
branch_line none = []
branch_line (some name) = concat "branch " (concat "refs/heads/" name) ∷ []

-- The lines of one record, and of the whole output.
abbrev pub print : Printed → List String
print p = concat "worktree " p.entry.path ∷ (p.before ++ (branch_line p.entry.branch ++ p.after))

abbrev pub print_all : List Printed → List String
print_all [] = []
print_all (p ∷ ps) = print p ++ print_all ps

-- A line that begins neither a record nor a branch.
abbrev pub IsOther : String → Type 0
IsOther line = (cut_prefix "worktree " line ≡ none) × (cut_prefix "branch " line ≡ none)

abbrev pub IsPrinted : Printed → Type 0
IsPrinted p = All IsOther p.before × All IsOther p.after

branch_line-IsBranch : (s : String) → cut_prefix "worktree " (concat "branch " s) ≡ none
unfolding cut_prefix concat
branch_line-IsBranch s = refl

parse_lines-others :
    (others lines : List String) (path branch : Option String)
    → All IsOther others
    → parse_lines path branch (others ++ lines) ≡ parse_lines path branch lines
unfolding parse_lines
parse_lines-others [] lines path branch h = refl
parse_lines-others (line ∷ others) lines path branch ((w, b), h) =
    ground (arith, parse_lines-others others lines path branch h)

parse_lines-branch_line :
    (branch : Option String) (lines : List String) (path : Option String)
    → parse_lines path none (branch_line branch ++ lines) ≡ parse_lines path branch lines
unfolding parse_lines
parse_lines-branch_line none lines path = refl
parse_lines-branch_line (some name) lines path = ground (
  arith,
  branch_line-IsBranch (concat "refs/heads/" name),
  cut_prefix-concat "branch " (concat "refs/heads/" name),
  cut_prefix-concat "refs/heads/" name,
)

parse_lines-print :
    (p : Printed) (lines : List String) (path branch : Option String)
    → IsPrinted p
    → parse_lines path branch (print p ++ lines)
      ≡ flush path branch ++ parse_lines (some p.entry.path) p.entry.branch lines
unfolding parse_lines
parse_lines-print p lines path branch (before, after) =
    let rest = p.after ++ lines in
    let branches = branch_line p.entry.branch in
    let shape : (p.before ++ (branches ++ p.after)) ++ lines ≡ p.before ++ (branches ++ rest) =
      append_assoc p.before (branches ++ p.after) lines
      ∙ ap (λ l. p.before ++ l) (append_assoc branches p.after lines) in
    let from = parse_lines (some p.entry.path) none in
    let body : from ((p.before ++ (branches ++ p.after)) ++ lines)
        ≡ parse_lines (some p.entry.path) p.entry.branch lines =
      ap from shape
      ∙ parse_lines-others p.before (branches ++ rest) (some p.entry.path) none before
      ∙ parse_lines-branch_line p.entry.branch rest (some p.entry.path)
      ∙ parse_lines-others p.after lines (some p.entry.path) p.entry.branch after in
    ground (arith, cut_prefix-concat "worktree " p.entry.path)

parse_lines-print_all :
    (ps : List Printed) (path branch : Option String)
    → All IsPrinted ps
    → parse_lines path branch (print_all ps) ≡ flush path branch ++ map (λ p. p.entry) ps
unfolding parse_lines
parse_lines-print_all [] path branch h = sym (append-nil (flush path branch))
parse_lines-print_all (p ∷ ps) path branch (here, h) =
    parse_lines-print p (print_all ps) path branch here
    ∙ ap (λ es. flush path branch ++ es)
        (parse_lines-print_all ps (some p.entry.path) p.entry.branch h)

-- From the lines that git prints for a list of worktrees, each with its branch or without one and
-- with whatever other lines stand in its record, the parser makes just that list.
pub parse_worktree_list_porcelain-print_all :
    (ps : List Printed)
    → All IsPrinted ps
    → parse_worktree_list_porcelain (print_all ps) ≡ map (λ p. p.entry) ps
unfolding parse_worktree_list_porcelain
parse_worktree_list_porcelain-print_all ps h = parse_lines-print_all ps none none h

module _ (is_under : String → Bool) (name_of : String → String) (repo_root : String) where
  -- A worktree of josu's own that has no known record.
  abbrev pub is_orphan : List String → WorktreeListEntry → Bool
  is_orphan known entry = is_under entry.path && not (contains known (name_of entry.path))

  filter-managed_of :
      (known : List String) (entries : List WorktreeListEntry)
      → filter
          (λ w. not (contains known (name_of w.path)))
          (managed_of is_under name_of repo_root entries)
        ≡ map (rediscovered repo_root) (filter (is_orphan known) entries)
  unfolding managed_of
  filter-managed_of known [] = refl
  filter-managed_of known (entry ∷ entries) = ground (arith, filter-managed_of known entries)

  -- The scan for crashed runs returns, in git's order, just the worktrees that git prints, that lie
  -- under the directory of the worktrees, and whose name is not among the known ones.
  pub find_orphaned_worktrees-print_all :
      (known : List String) (ps : List Printed)
      → All IsPrinted ps
      → find_orphaned_worktrees is_under name_of repo_root known (print_all ps)
        ≡ map (rediscovered repo_root) (filter (is_orphan known) (map (λ p. p.entry) ps))
  unfolding find_orphaned_worktrees list_managed_worktrees
  find_orphaned_worktrees-print_all known ps h =
      ap
        (λ es.
          filter (λ w. not (contains known (name_of w.path)))
            (managed_of is_under name_of repo_root es))
        (parse_worktree_list_porcelain-print_all ps h)
      ∙ filter-managed_of known (map (λ p. p.entry) ps)
