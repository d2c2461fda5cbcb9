-- ===== src/Orchestrator/Merge/Examples.antt =====
-- A worktree that changes one file, renames another and deletes a third, and its merges.
use josu.Common.{
  true, false, ◌&&◌, String, Option, none, some, List, [], ◌∷◌, eq_string, contains, ◌≡◌, refl, All,
  nat_eq, if◌then◌else◌, ap,
}
use josu.Common.Dict
use josu.Common.Text.{concat, cut_prefix, split_tab, is_blank}
use josu.Delegate.Errors.{ok}
use josu.Orchestrator.Merge.{
  remove_at, remove_old, copy_to, parents_from, Bytes, Files, Git, RepoSnapshot, change_of,
  changed_paths, touched, content_at_snapshot, content_now, diverged_from, find_diverged_paths,
  apply_change, apply_changes, merged, diverged_error, merge, os_error,
}
use josu.Orchestrator.Merge.Divergence.{IsDistinct, differs, find_diverged_paths-exact}
use josu.Orchestrator.Merge.Untouched.{merge-writes}
use josu.Orchestrator.Merge.Steps.{Holds}
use josu.Orchestrator.Merge.Applied.{merge-Holds}

abbrev repository : Files
repository = ("a.py", 1 ∷ []) ∷ ("old.py", 2 ∷ []) ∷ ("gone.py", 3 ∷ []) ∷ ("notes", 4 ∷ []) ∷ []

abbrev worktree : Files
worktree = ("a.py", 9 ∷ []) ∷ ("new.py", 2 ∷ []) ∷ ("notes", 4 ∷ []) ∷ []

abbrev text_of : Bytes → String
text_of [] = ""
text_of (b ∷ bs) = if nat_eq b 1 then "one" else if nat_eq b 2 then "two" else "more"

-- A byte of 255 is no text.
abbrev strict : Bytes → Option String
strict [] = some ""
strict (b ∷ bs) = if nat_eq b 255 then none else some (text_of (b ∷ bs))

abbrev git : Files → List String → Git
git committed lines = record {
  name_status = some lines;
  show = λ ref path. Dict.lookup path committed;
  decode_strict = strict;
  decode_escaped = text_of;
  is_directory = λ p. false;
  can_unlink = λ p. true;
  broken = λ p. none;
}

abbrev lines : List String
lines = "M\ta.py" ∷ "R100\told.py\tnew.py" ∷ "D\tgone.py" ∷ []

abbrev snapshot : RepoSnapshot
snapshot = record { head = "c0ffee"; stash_ref = none }

abbrev merged_files : Files
merged_files = ("a.py", 9 ∷ []) ∷ ("notes", 4 ∷ []) ∷ ("new.py", 2 ∷ []) ∷ []

merges : merge (git repository lines) snapshot worktree true repository ≡ (merged, merged_files)
unfolding merge find_diverged_paths diverged_from content_at_snapshot content_now changed_paths
    change_of split_tab is_blank cut_prefix touched apply_change apply_changes Dict.lookup
    Dict.insert Dict.erase remove_at remove_old copy_to parents_from
merges = refl

abbrev edited : Files
edited = ("a.py", 7 ∷ []) ∷ ("old.py", 2 ∷ []) ∷ ("gone.py", 3 ∷ []) ∷ ("notes", 4 ∷ []) ∷ []

diverges :
    merge (git repository lines) snapshot worktree true edited
    ≡ (diverged_error ("a.py" ∷ []), edited)
unfolding merge find_diverged_paths diverged_from content_at_snapshot content_now changed_paths
    change_of split_tab is_blank cut_prefix touched apply_change apply_changes Dict.lookup
    Dict.insert Dict.erase remove_at remove_old copy_to parents_from
diverges = refl

merge-writes_example :
    (true ≡ true)
    × (ls : List String) × (some lines ≡ some ls)
    × (find_diverged_paths (git repository lines) snapshot repository (changed_paths ls) ≡ ok [])
unfolding merge find_diverged_paths diverged_from content_at_snapshot content_now changed_paths
    change_of split_tab is_blank cut_prefix touched apply_change apply_changes Dict.lookup
    Dict.insert Dict.erase remove_at remove_old copy_to parents_from
merge-writes_example =
    merge-writes (git repository lines) snapshot worktree true repository
      (λ e. cc (ap (Dict.lookup "gone.py") e))

find_diverged_paths-exact_example :
    IsDistinct ("a.py" ∷ [])
    × ((p : String)
        → contains ("a.py" ∷ []) p ≡ (
            contains (touched (changed_paths lines)) p
            && differs (git repository lines) snapshot edited p))
unfolding find_diverged_paths diverged_from content_at_snapshot content_now changed_paths change_of
    split_tab is_blank cut_prefix touched Dict.lookup
find_diverged_paths-exact_example =
    find_diverged_paths-exact (git repository lines) snapshot edited (changed_paths lines)
      ("a.py" ∷ []) refl

merge-Holds_example :
    ((merge (git repository lines) snapshot worktree true repository).0 ≡ merged)
    × All
        (Holds worktree (merge (git repository lines) snapshot worktree true repository).1)
        (changed_paths lines)
unfolding find_diverged_paths diverged_from content_at_snapshot content_now changed_paths change_of
    split_tab is_blank cut_prefix touched Dict.lookup parents_from
merge-Holds_example =
    merge-Holds (git repository lines) snapshot worktree lines repository refl refl
      ((λ d e. cc e), ((λ d e. cc e), ((λ d. cc d), tt))) ((λ d. tt), ((λ d. tt), ((λ d. tt), tt)))
      ((refl, tt), (((refl, (refl, tt))), ((refl, tt), tt))) (λ p h. (refl, (refl, refl)))

-- A file in the way of a directory stops the merge, and what was done before it stays.
blocked :
    merge
      (git repository ("M\ta.py" ∷ "A\tnotes/x" ∷ []))
      snapshot
      (("a.py", 9 ∷ []) ∷ ("notes/x", 5 ∷ []) ∷ [])
      true
      repository
    ≡ (
      os_error "FileExistsError" "notes/x",
      ("a.py", 9 ∷ []) ∷ ("old.py", 2 ∷ []) ∷ ("gone.py", 3 ∷ []) ∷ ("notes", 4 ∷ []) ∷ [],
    )
unfolding merge find_diverged_paths diverged_from content_at_snapshot content_now changed_paths
    change_of split_tab is_blank cut_prefix touched apply_change apply_changes Dict.lookup
    Dict.insert Dict.erase remove_at remove_old copy_to parents_from concat
blocked = refl
