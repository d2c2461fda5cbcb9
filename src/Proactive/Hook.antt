-- ===== src/Proactive/Hook.antt =====
-- src/josu/proactive/watchers.py: `install_commit_hook`. A hook file is its text, if it can be read
-- as one, and its permission to run. A text is read with universal newlines, so that it has no
-- carriage return. The decimal digits of Unicode, and how a write ends, are parameters.
pub mod Kept
mod Examples
use Prim.Native.Char.{Char, code}
use Prim.Native.String as Str
use josu.Common.{
  Bool, true, false, ◌&&◌, ◌||◌, not, String, Option, none, some, List, [], ◌∷◌, any, nat_eq, leb,
  if◌then◌else◌, is_some,
}
use josu.Common.Latin.{is_space, is_within, is_empty, strip_left}
use josu.Common.Text.{cut_prefix, starts_with, concat}

-- `p in s`
unfoldable pub contains_text : (p s : String) → Bool
contains_text p Str.[] = starts_with "" p
contains_text p (Str.◌∷◌ c s) = starts_with (Str.◌∷◌ c s) p || contains_text p s

-- `s.rstrip("\n")`
unfoldable pub rstrip_newlines : String → String
rstrip_newlines Str.[] = Str.[]
rstrip_newlines (Str.◌∷◌ c s) =
    let rest = rstrip_newlines s in
    if nat_eq (code c) 10 && is_empty rest then Str.[] else Str.◌∷◌ c rest

abbrev cons_first : Char → List String → List String
cons_first c [] = (Str.◌∷◌ c Str.[]) ∷ []
cons_first c (line ∷ lines) = (Str.◌∷◌ c line) ∷ lines

-- The characters at which `str.splitlines` splits.
abbrev is_line_break : Char → Bool
is_line_break c =
    let n = code c in
    is_within 10 13 n || is_within 28 30 n || nat_eq n 133 || is_within 8232 8233 n

-- `s.splitlines()`, of a text without carriage returns
unfoldable pub splitlines : String → List String
splitlines Str.[] = []
splitlines (Str.◌∷◌ c s) =
    let rest = splitlines s in if is_line_break c then "" ∷ rest else cons_first c rest

abbrev first_line : List String → String
first_line [] = ""
first_line (line ∷ lines) = line

abbrev recognized_shell_markers : List String
recognized_shell_markers = "sh" ∷ "bash" ∷ "zsh" ∷ []

-- `is_decimal` is what `\d` matches.
module _ (is_decimal : Char → Bool) where
  unfoldable pub drop_digits : String → String
  drop_digits Str.[] = Str.[]
  drop_digits (Str.◌∷◌ c s) = let rest = drop_digits s in if is_decimal c then rest else Str.◌∷◌ c s

  -- `\d*[<>]|&` at the start of a text
  abbrev is_redirection : String → Bool
  is_redirection s =
      starts_with s "&" || starts_with (drop_digits s) "<" || starts_with (drop_digits s) ">"

  -- Something that is no white space, after some white space.
  abbrev is_command : String → Bool
  is_command Str.[] = false
  is_command (Str.◌∷◌ c s) =
      let command = strip_left s in
      is_space c && not (is_empty command) && not (is_redirection command)

  -- `_BARE_EXEC_PATTERN.match(line)`
  unfoldable pub is_bare_exec : String → Bool
  is_bare_exec line = elim (cut_prefix "exec" (strip_left line)) [
    | none ↦ false
    | some rest ↦ is_command rest
  ]

  unfoldable pub looks_safely_chainable : String → Bool
  looks_safely_chainable existing =
      let stripped = strip_left existing in
      starts_with stripped "#!"
      && any (λ marker. contains_text marker (first_line (splitlines stripped)))
          recognized_shell_markers
      && not (any is_bare_exec (splitlines existing))

abbrev pub marker_start : String
marker_start = "# >>> josu proactive check (managed by `josu init`, U9) >>>"

abbrev marker_end : String
marker_end = "# <<< josu proactive check (managed by `josu init`, U9) <<<"

-- `_josu_hook_block`
unfoldable pub josu_hook_block : String → String
josu_hook_block python = concat marker_start (
    concat "\n\""
      (concat python (concat "\" -m josu.proactive.watchers\n" (concat marker_end "\n"))))

pub record HookFile : Type 0 where
  -- `none` where it cannot be read as a text
  pub content : Option String
  pub executable : Bool

-- What `install_commit_hook` returns, its HookInstallationError, or the exception of `write_text` (or
-- of making the directory) or of `_make_executable`.
pub data Installation : Type 0 where
  installed : (chained_existing already_installed : Bool) → Installation
  refused write_failed chmod_failed : Installation

-- How the write of the hook ends, if there is one: it goes through, only the file's mode cannot be
-- changed, or it fails, for which `write_text` has cut the file before, and leaves what it leaves.
pub data Write : Type 0 where
  written unchanged_mode : Write
  cut : (left : Option HookFile) → Write

module _ (write : Write) where
  -- `write_text` and `_make_executable`, over a file with or without the permission
  put : Installation → String → Bool → Installation × Option HookFile
  put done text executable = elim write [
    | written ↦ (done, some (record { content = some text; executable = true }))
    | unchanged_mode ↦
        (chmod_failed, some (record { content = some text; executable = executable }))
    | cut left ↦ (write_failed, left)
  ]

module _ (is_decimal : Char → Bool) (python : String) (write : Write) where
  unfoldable pub chain_hook : String → HookFile → Installation × Option HookFile
  unfolding put
  chain_hook existing hook =
      if contains_text marker_start existing
      then (installed false true, some hook)
      else if looks_safely_chainable is_decimal existing
      then put write (installed true false)
          (concat (rstrip_newlines existing) (concat "\n\n" (josu_hook_block python)))
          hook.executable
      else (refused, some hook)

  -- From whether there is a `.git` directory, and the hook that is there.
  unfoldable pub install_commit_hook :
      (has_git : Bool) → Option HookFile → Installation × Option HookFile
  unfolding put
  install_commit_hook false hook = (refused, hook)
  install_commit_hook true none =
      put write (installed false false) (concat "#!/bin/sh\n" (josu_hook_block python)) false
  install_commit_hook true (some hook) = elim hook.content [
    | none ↦ (refused, some hook)
    | some existing ↦ chain_hook existing hook
  ]
