-- ===== src/Proactive/Hook/Examples.antt =====
-- Hooks that can be chained, and hooks that cannot.
use josu.Common.{Bool, true, false, String, none, some, ◌≡◌, ◌≢◌, refl}
use Prim.Native.Char.{Char, code}
use josu.Common.Latin.{is_within, strip_left}
use josu.Common.Text.{cut_prefix, concat}
use josu.Proactive.Hook.{
  contains_text, rstrip_newlines, splitlines, drop_digits, is_bare_exec, looks_safely_chainable,
  josu_hook_block, HookFile, written, cut, write_failed, chain_hook, install_commit_hook,
}
use josu.Proactive.Hook.Kept.{install_commit_hook-keeps}

-- The digits of ASCII.
abbrev is_decimal : Char → Bool
is_decimal c = is_within 48 57 (code c)

program : Unit {0}
unfolding install_commit_hook chain_hook looks_safely_chainable is_bare_exec drop_digits splitlines
    rstrip_newlines strip_left contains_text cut_prefix concat josu_hook_block
program = tt

plain_is_safe : looks_safely_chainable is_decimal "#!/bin/sh\nexec > log\necho done\n" ≡ true
unfolding program
plain_is_safe = refl

exec_is_unsafe : looks_safely_chainable is_decimal "#!/bin/sh\n  exec husky\n" ≡ false
unfolding program
exec_is_unsafe = refl

-- An `exit` before the appended block is not seen.
exit_is_safe : looks_safely_chainable is_decimal "#!/bin/sh\nexit 0\n" ≡ true
unfolding program
exit_is_safe = refl

abbrev existing : String
existing = "#!/bin/sh\necho done\n"

abbrev hook : HookFile
hook = record { content = some existing; executable = false }

-- A disk that is full loses the hook.
loses :
    install_commit_hook is_decimal "python"
      (cut (some (record hook { content = some "" })))
      true
      (some hook)
    ≡ (write_failed, some (record hook { content = some "" }))
unfolding program
loses = refl

install_commit_hook-keeps_example :
    (after : HookFile) × (text : String) × ((install_commit_hook is_decimal "python" written true
        (some hook)).1
      ≡ some after)
    × (after.content ≡ some text)
    × (cut_prefix (rstrip_newlines existing) text ≢ none)
unfolding program
install_commit_hook-keeps_example =
    install_commit_hook-keeps is_decimal "python" written true hook existing refl (λ failed. cc)
