-- ===== src/Orchestrator/Worktree/Examples.antt =====
-- The output of git for a repository with one worktree of josu's.
use josu.Common.{Bool, String, none, some, List, [], ◌∷◌, ◌≡◌, refl, ◌==◌, eq_string, if◌then◌else◌}
use josu.Common.Text.{cut_prefix}
use josu.Orchestrator.Worktree.{
  WorktreeListEntry, Worktree, parse_lines, parse_worktree_list_porcelain,
}
use josu.Orchestrator.Worktree.Porcelain.{
  Printed, print_all, parse_worktree_list_porcelain-print_all,
}

abbrev primary : WorktreeListEntry
primary = record { path = "/repo"; branch = some "main" }

abbrev crashed : WorktreeListEntry
crashed = record { path = "/w/josu-1"; branch = none }

abbrev printed : List Printed
printed =
    record { entry = primary; before = "HEAD c0ffee" ∷ []; after = "" ∷ [] }
    ∷ record { entry = crashed; before = "HEAD c0ffee" ∷ "detached" ∷ []; after = "" ∷ [] }
    ∷ []

parses :
    parse_worktree_list_porcelain (
      "worktree /repo" ∷ "HEAD c0ffee" ∷ "branch refs/heads/main" ∷ "" ∷ "worktree /w/josu-1"
      ∷ "detached" ∷ [])
    ≡ primary ∷ crashed ∷ []
unfolding parse_worktree_list_porcelain parse_lines cut_prefix
parses = refl

parse_worktree_list_porcelain-print_all_example :
    parse_worktree_list_porcelain (print_all printed) ≡ primary ∷ crashed ∷ []
unfolding cut_prefix
parse_worktree_list_porcelain-print_all_example = parse_worktree_list_porcelain-print_all printed (
  (((refl, refl), tt), ((refl, refl), tt)),
  ((((refl, refl), ((refl, refl), tt)), ((refl, refl), tt)), tt),
)

abbrev is_under : String → Bool
is_under path = path == "/w/josu-1"

abbrev name_of : String → String
name_of path = if path == "/w/josu-1" then "josu-1" else path

abbrev lost : Worktree
lost = record {
  path = "/w/josu-1";
  branch = "";
  repo_root = "/repo";
  stash_ref = none;
  task_description = none;
}
