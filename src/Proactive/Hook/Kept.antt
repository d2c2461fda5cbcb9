-- ===== src/Proactive/Hook/Kept.antt =====
-- What an installation keeps of a hook, and that it is made once.
use Prim.Native.Char.{Char, code}
use Prim.Native.String as Str
use josu.Common.{
  Bool, true, false, String, Option, none, some, ◌≡◌, ◌≢◌, refl, ap, ◌∙◌, arith, inl, inr,
  Bool-cases, Option-cases, if◌then◌else◌, nat_eq_iff,
}
use josu.Common.Text.{cut_prefix, concat, cut_prefix-concat}
use josu.Proactive.Hook.{
  contains_text, rstrip_newlines, looks_safely_chainable, marker_start, josu_hook_block, HookFile,
  Installation, installed, Write, written, unchanged_mode, cut, write_failed, put, chain_hook,
  install_commit_hook,
}

pub contains_text-here : (p s : String) → contains_text p (concat p s) ≡ true
unfolding contains_text
contains_text-here p s = starts-contains (concat p s) (cut_prefix-concat p s)
  where
    starts-contains :
        (t : String) {s' : String} → cut_prefix p t ≡ some s' → contains_text p t ≡ true
    starts-contains Str.[] h = ground arith
    starts-contains (Str.◌∷◌ c t) h = ground arith

contains_text-concat : (a p s : String) → contains_text p (concat a (concat p s)) ≡ true
unfolding contains_text concat
contains_text-concat Str.[] p s = contains_text-here p s
contains_text-concat (Str.◌∷◌ c a) p s = ground (arith, contains_text-concat a p s)

contains_text-block :
    (a python : String) → contains_text marker_start (concat a (josu_hook_block python)) ≡ true
unfolding josu_hook_block
contains_text-block a python = contains_text-concat a marker_start _

concat_assoc : (a b c : String) → concat (concat a b) c ≡ concat a (concat b c)
unfolding concat
concat_assoc Str.[] b c = refl
concat_assoc (Str.◌∷◌ x a) b c = ap (λ s. Str.◌∷◌ x s) (concat_assoc a b c)

cut_prefix-rstrip_newlines : (s : String) → cut_prefix (rstrip_newlines s) s ≢ none
unfolding cut_prefix rstrip_newlines
cut_prefix-rstrip_newlines Str.[] = λ e. cc e
cut_prefix-rstrip_newlines (Str.◌∷◌ c s) =
    keeps_first _ (rstrip_newlines s) (cut_prefix-rstrip_newlines s)
  where
    keeps_first :
        (b : Bool) (r : String)
        → cut_prefix r s ≢ none
        → cut_prefix (if b then Str.[] else Str.◌∷◌ c r) (Str.◌∷◌ c s) ≢ none
    keeps_first true r h = λ e. cc e
    keeps_first false r h = ground (arith, nat_eq_iff (code c) (code c))

put-content :
    (write : Write) (done : Installation) (text : String) (executable : Bool)
    → (put write done text executable).0 ≢ write_failed
    → (after : HookFile) × ((put write done text executable).1 ≡ some after)
      × (after.content ≡ some text)
unfolding put
put-content written done text executable whole =
    (record { content = some text; executable = true }, refl, refl)
put-content unchanged_mode done text executable whole =
    (record { content = some text; executable = executable }, refl, refl)
put-content (cut left) done text executable whole = absurd (whole refl)

module _ (is_decimal : Char → Bool) (python : String) (write : Write) where
  -- A successful installation is made once: after it, another one says that the hook is installed
  -- and changes nothing.
  pub install_commit_hook-again :
      (later : Write) (has_git : Bool) (hook : Option HookFile) (chained already : Bool)
      → (install_commit_hook is_decimal python write has_git hook).0 ≡ installed chained already
      → install_commit_hook is_decimal python later has_git
          (install_commit_hook is_decimal python write has_git hook).1
        ≡ (installed false true, (install_commit_hook is_decimal python write has_git hook).1)
  unfolding install_commit_hook chain_hook
  install_commit_hook-again later false hook chained already h = cc
  install_commit_hook-again later true none chained already h =
      ground (arith, contains_text-block "#!/bin/sh\n" python)
  install_commit_hook-again later true (some hook) chained already h =
      elim (Option-cases hook.content) [
        | inl unreadable ↦ ground arith
        | inr (existing, readable) ↦
            let kept = concat (rstrip_newlines existing) "\n\n" in
            ground (
              arith,
              contains_text-block kept python,
              concat_assoc (rstrip_newlines existing) "\n\n" (josu_hook_block python),
            )
      ]

  -- However an installation ends, unless its write fails, a hook that could be read is still there
  -- and begins with the text that was read, up to the line feeds at its end.
  pub install_commit_hook-keeps :
      (has_git : Bool) (hook : HookFile) (existing : String)
      → hook.content ≡ some existing
      → (install_commit_hook is_decimal python write has_git (some hook)).0 ≢ write_failed
      → (after : HookFile) × (text : String) × ((install_commit_hook is_decimal python write has_git
            (some hook)).1
          ≡ some after)
        × (after.content ≡ some text)
        × (cut_prefix (rstrip_newlines existing) text ≢ none)
  unfolding install_commit_hook chain_hook
  install_commit_hook-keeps false hook existing h whole =
      (hook, existing, refl, h, cut_prefix-rstrip_newlines existing)
  install_commit_hook-keeps true hook existing h whole =
      elim (Bool-cases (contains_text marker_start existing)) [
        | inl ours ↦ (hook, existing, ground arith, h, cut_prefix-rstrip_newlines existing)
        | inr theirs ↦ elim (Bool-cases (looks_safely_chainable is_decimal existing)) [
          | inl safe ↦
              let kept = rstrip_newlines existing in
              let rest = concat "\n\n" (josu_hook_block python) in
              let text = concat kept rest in
              let done : install_commit_hook is_decimal python write true (some hook)
                  ≡ put write (installed true false) text hook.executable =
                ground arith in
              let (after, same, holds) =
                put-content write (installed true false) text hook.executable
                  (λ failed. whole (ap (λ out. out.0) done ∙ failed)) in
              (
                after,
                text,
                ap (λ out. out.1) done ∙ same,
                holds,
                ground (arith, cut_prefix-concat kept rest),
              )
          | inr unsafe ↦ (hook, existing, ground arith, h, cut_prefix-rstrip_newlines existing)
        ]
      ]
