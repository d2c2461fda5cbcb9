-- ===== src/Orchestrator/Merge.antt =====
-- src/josu/orchestrator/merge.py: the divergence check and the approved merge. A working tree is a
-- map from the path of a file to its bytes, with its directories; there are no symbolic links. What
-- git prints, and which writes the operating system refuses or breaks off, are parameters.
pub mod Divergence
pub mod Untouched
pub mod Steps
pub mod Applied
mod Examples
use Prim.Native.Char.{code}
use Prim.Native.String as Str
use josu.Common.{
  ℕ, Bool, true, false, ◌&&◌, ◌||◌, not, String, Option, none, some, List, [], ◌∷◌, ◌++◌, ◌==◌,
  eq_string, contains, any, nat_eq, is_some, if◌then◌else◌, get_or_else,
}
use josu.Common.Dict
use josu.Common.Dict.{Dict}
use josu.Common.Text.{starts_with, is_blank, split_tab, concat}
use josu.Delegate.Errors.{Exception, other, Result, ok, raise}

abbrev pub Bytes : Type 0
Bytes = List ℕ

abbrev pub Files : Type 0
Files = Dict String Bytes

-- Python's `==` on two optional texts
abbrev pub same_content : Option String → Option String → Bool
same_content none none = true
same_content (some a) (some b) = a == b
same_content _ _ = false

-- What the merge gets from git and from Python's decoders. A failed `git show` is `none`, and so is
-- a UnicodeDecodeError of the strict decoder.
pub record Git : Type 0 where
  -- the lines of `git diff --name-status HEAD`, or `none` where git fails
  pub name_status : Option (List String)
  pub show : (ref path : String) → Option Bytes
  -- the decoder of `subprocess.run(text=True)`
  pub decode_strict : Bytes → Option String
  -- the decoder of `read_text(encoding="utf-8", errors="surrogateescape")`
  pub decode_escaped : Bytes → String
  -- the directories of the repository when the merge begins
  pub is_directory : String → Bool
  -- whether the file at a path can be removed, and what a write to it leaves, if it fails
  pub can_unlink : String → Bool
  pub broken : String → Option (Option Bytes)

pub record RepoSnapshot : Type 0 where
  pub head : String
  pub stash_ref : Option String

pub record Change : Type 0 where
  pub status : String
  pub old_path : Option String
  pub new_path : String

abbrev last_of : String → List String → String
last_of d [] = d
last_of d (p ∷ ps) = last_of p ps

-- `parts[1] if len(parts) > 2 else None`
abbrev second : List String → Option String
second (a ∷ b ∷ c ∷ ps) = some b
second _ = none

unfoldable pub change_of : List String → Change
change_of [] = record { status = ""; old_path = none; new_path = "" }
change_of (status ∷ parts) = record {
  status = status;
  old_path =
      if starts_with status "R" || starts_with status "C" then second (status ∷ parts) else none;
  new_path = last_of status parts;
}

-- `_changed_paths`, from the lines of git
unfoldable pub changed_paths : List String → List Change
unfolding change_of
changed_paths [] = []
changed_paths (line ∷ lines) =
    let rest = changed_paths lines in
    if is_blank line then rest else change_of (split_tab line) ∷ rest

-- `if snapshot.stash_ref`: an empty text is false.
abbrev pub ref_of : RepoSnapshot → String
ref_of snapshot =
    let stash = get_or_else snapshot.stash_ref "" in if stash == "" then snapshot.head else stash

-- `(p for p in (old_path, new_path) if p is not None)`
abbrev pub paths_of : Change → List String
paths_of change = elim change.old_path [
  | none ↦ change.new_path ∷ []
  | some old ↦ old ∷ change.new_path ∷ []
]

unfoldable pub touched : List Change → List String
touched [] = []
touched (change ∷ changes) = paths_of change ++ touched changes

module _ (git : Git) (snapshot : RepoSnapshot) (files : Files) where
  -- `_content_at_snapshot`
  unfoldable pub content_at_snapshot : String → Result (Option String)
  content_at_snapshot path = elim (git.show (ref_of snapshot) path) [
    | none ↦ ok none
    | some bytes ↦ elim (git.decode_strict bytes) [
      | none ↦ raise (other "UnicodeDecodeError")
      | some text ↦ ok (some text)
    ]
  ]

  -- `_content_now`
  unfoldable pub content_now : String → Result (Option String)
  content_now path =
      if git.is_directory path
      then raise (other "IsADirectoryError")
      else elim (Dict.lookup path files) [
        | none ↦ ok none
        | some bytes ↦ ok (some (git.decode_escaped bytes))
      ]

  -- The loop of `find_diverged_paths`, from the paths seen.
  unfoldable pub diverged_from : (seen paths : List String) → Result (List String)
  diverged_from seen [] = ok []
  diverged_from seen (path ∷ paths) =
      let passed = diverged_from seen paths in
      let rest = diverged_from (path ∷ seen) paths in
      if contains seen path then passed else elim (content_at_snapshot path) [
        | raise e ↦ raise e
        | ok before ↦ elim (content_now path) [
          | raise e ↦ raise e
          | ok now ↦ elim rest [
            | raise e ↦ raise e
            | ok diverged ↦ ok (if same_content before now then diverged else path ∷ diverged)
          ]
        ]
      ]

  unfoldable pub find_diverged_paths : List Change → Result (List String)
  find_diverged_paths changes = diverged_from [] (touched changes)

-- How a merge ends: with its result, or with an exception.
pub data Merged : Type 0 where
  merged rejected : Merged
  diverged_error : List String → Merged
  merge_error : Merged
  -- an exception of the divergence check
  unread : Exception → Merged
  -- the class of the exception of a step at a path
  os_error : (class path : String) → Merged

-- `path.parents`, without the root: the texts before its slashes, from what was read so far
unfoldable pub parents_from : (read path : String) → List String
parents_from read Str.[] = []
parents_from read (Str.◌∷◌ c s) =
    let rest = parents_from (concat read (Str.◌∷◌ c Str.[])) s in
    if nat_eq (code c) 47 then read ∷ rest else rest

abbrev pub parents : String → List String
parents = parents_from ""

-- `target.parent`: the last of them
abbrev pub parent_of : List String → Option String
parent_of [] = none
parent_of (p ∷ []) = some p
parent_of (p ∷ q ∷ ps) = parent_of (q ∷ ps)

-- The files behind a step, or the exception that ends the merge, with the files that are left.
pub data Stepped : Type 0 where
  stepped : Files → Stepped
  stopped : Merged → Files → Stepped

-- `made` are the directories that the merge has made so far.
module _ (git : Git) (worktree_files : Files) (made : List String) where
  abbrev pub is_dir : String → Bool
  is_dir path = git.is_directory path || contains made path

  -- `if target.exists(): target.unlink()`
  unfoldable pub remove_at : String → Files → Stepped
  remove_at path files =
      if is_dir path
      then stopped (os_error "IsADirectoryError" path) files
      else if is_some (Dict.lookup path files) && not (git.can_unlink path)
      then stopped (os_error "OSError" path) files
      else stepped (Dict.erase path files)

  -- The old target.
  unfoldable pub remove_old : Change → Files → Stepped
  unfolding remove_at
  remove_old change files = elim change.old_path [
    | none ↦ stepped files
    | some old ↦ if old == change.new_path then stepped files else remove_at old files
  ]

  -- A parent that is a file stops `mkdir`.
  abbrev pub is_blocked : String → Files → Bool
  is_blocked path files = any (λ parent. is_some (Dict.lookup parent files)) (parents path)

  abbrev mkdir_class : Option String → Files → String
  mkdir_class none files = "NotADirectoryError"
  mkdir_class (some parent) files =
      if is_some (Dict.lookup parent files) then "FileExistsError" else "NotADirectoryError"

  -- `target.parent.mkdir(...)` and `target.write_bytes(source.read_bytes())`
  unfoldable pub copy_to : String → Files → Stepped
  copy_to path files =
      if is_blocked path files
      then stopped (os_error (mkdir_class (parent_of (parents path)) files) path) files
      else elim (Dict.lookup path worktree_files) [
        | none ↦ stopped (os_error "FileNotFoundError" path) files
        | some bytes ↦
            if is_dir path
            then stopped (os_error "IsADirectoryError" path) files
            else elim (git.broken path) [
              | some left ↦ stopped (os_error "OSError" path) (elim left [
                | none ↦ Dict.erase path files
                | some part ↦ Dict.insert path part files
              ])
              | none ↦ stepped (Dict.insert path bytes files)
            ]
      ]

  -- What follows the removal of the old target.
  apply_new : Change → Stepped → Stepped
  unfolding remove_at copy_to
  apply_new change (stopped e files) = stopped e files
  apply_new change (stepped files) =
      if starts_with change.status "D"
      then remove_at change.new_path files
      else copy_to change.new_path files

  -- One turn of the loop.
  unfoldable pub apply_change : Change → Files → Stepped
  unfolding remove_old apply_new
  apply_change change files = apply_new change (remove_old change files)

-- The directories that there are behind a change.
abbrev pub made_by : Change → List String → List String
made_by change made =
    if starts_with change.status "D" then made else parents change.new_path ++ made

module _ (git : Git) (worktree_files : Files) where
  -- The loop, from the directories made.
  unfoldable pub apply_changes : List String → List Change → Files → Merged × Files
  apply_changes made [] files = (merged, files)
  apply_changes made (change ∷ changes) files =
      elim (apply_change git worktree_files made change files) [
        | stopped e left ↦ (e, left)
        | stepped files' ↦ apply_changes (made_by change made) changes files'
      ]

-- The merge of a worktree's files into those of the repository.
module _ (git : Git) (snapshot : RepoSnapshot) (worktree_files : Files) where
  merge_checked : List Change → Result (List String) → Files → Merged × Files
  merge_checked changes (raise e) files = (unread e, files)
  merge_checked changes (ok []) files = apply_changes git worktree_files [] changes files
  merge_checked changes (ok (path ∷ paths)) files = (diverged_error (path ∷ paths), files)

  unfoldable pub merge : (approved : Bool) → Files → Merged × Files
  unfolding merge_checked
  merge false files = (rejected, files)
  merge true files = elim git.name_status [
    | none ↦ (merge_error, files)
    | some lines ↦
        let changes = changed_paths lines in
        merge_checked changes (find_diverged_paths git snapshot files changes) files
  ]
