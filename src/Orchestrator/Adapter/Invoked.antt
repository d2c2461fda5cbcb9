-- ===== src/Orchestrator/Adapter/Invoked.antt =====
-- What holds where a subprocess is started.
use josu.Common.{
  suc, true, false, String, Option, none, some, List, [], ◌∷◌, any, contains, length, ◌≡◌, ◌≢◌,
  refl, sym, ◌∙◌, ap, subst, arith, All, if◌then◌else◌, eq_string, eq_iff, inl, inr, Bool-cases,
  All-any_none, ◌>>=◌, >>=-some,
}
use josu.Common.Dict
use josu.Common.Dict.{lookup-erase}
use josu.Config.Orchestrator.{OrchestratorAdapterConfig, allowed_adapter_commands}
use josu.Proactive.Hook.{contains_text}
use josu.Orchestrator.Adapter.{
  Environ, Refusal, disallowed_command, not_verified, forbidden_flag, refused, spawns,
  Substitutions, format, format_all, value_of, in_text, build_argv, has_bypass_flag,
  build_subprocess_env, checked, prepare_invocation, forbidden_flag_substrings,
}

lookup-build_subprocess_env :
    (names : List String) (env : Environ) (n : String)
    → Dict.lookup n (build_subprocess_env names env)
      ≡ (if contains names n then none else Dict.lookup n env)
unfolding build_subprocess_env
lookup-build_subprocess_env [] env n = refl
lookup-build_subprocess_env (name ∷ names) env n = ground (
  arith,
  lookup-build_subprocess_env names (Dict.erase name env) n,
  lookup-erase name n env,
  eq_iff name n,
  eq_iff n name,
)

refused_spawns : (r : Refusal) (argv : List String) (env : Environ) → refused r ≢ spawns argv env
refused_spawns r argv env h = cc

module _ (lower : String → String) (special : Substitutions → String → Option String) where
  -- No forbidden flag stands in an argument, in lower case.
  abbrev pub IsClean : String → Type 0
  IsClean = λ arg. any (λ flag. contains_text flag (lower arg)) forbidden_flag_substrings ≡ false

  format_all-length :
      (s : Substitutions) (args argv : List String)
      → format_all lower special s args ≡ some argv
      → length argv ≡ length args
  unfolding format_all
  format_all-length s [] argv h = let same : [] ≡ argv = cc in ap length (sym same)
  format_all-length s (arg ∷ args) argv h =
      let (a, (made, tail)) =
        >>=-some (format (value_of lower special s) in_text arg)
          (λ a. format_all lower special s args >>= λ rest. some (a ∷ rest)) argv h in
      let (rest, (others, same)) =
        >>=-some (format_all lower special s args) (λ rest. some (a ∷ rest)) argv tail in
      let shape : a ∷ rest ≡ argv = cc in
      ap length (sym shape) ∙ ap suc (format_all-length s args rest others)

  build_argv-length :
      (adapter : OrchestratorAdapterConfig) (s : Substitutions) (argv : List String)
      → build_argv lower special adapter s ≡ some argv
      → length argv ≡ suc (length adapter.args)
  unfolding build_argv
  build_argv-length adapter s argv h =
      let (args, (made, same)) =
        >>=-some (format_all lower special s adapter.args) (λ args. some (adapter.command ∷ args))
          argv h in
      let shape : adapter.command ∷ args ≡ argv = cc in
      ap length (sym shape) ∙ ap suc (format_all-length s adapter.args args made)

  -- What is known of a subprocess that is started with these arguments and this environment.
  abbrev pub IsGuarded :
      OrchestratorAdapterConfig
      → Substitutions
      → List String
      → Environ
      → List String
      → Environ
      → Type 0
  IsGuarded adapter s forbidden env argv made =
      (contains allowed_adapter_commands adapter.command ≡ true)
      × ((adapter.mcp_approval_verified.verified ≡ true)
          × ((build_argv lower special adapter s ≡ some argv)
              × ((length argv ≡ suc (length adapter.args))
                  × (All IsClean argv
                      × ((name : String)
                          → Dict.lookup name made
                            ≡ (if contains forbidden name then none else Dict.lookup name env))))))

  checked-some :
      (line forbidden : List String) (env : Environ)
      → (has_bypass_flag lower special line ≡ true
          → checked lower special (some line) forbidden env ≡ refused forbidden_flag)
        × (has_bypass_flag lower special line ≡ false
            → checked lower special (some line) forbidden env
              ≡ spawns line (build_subprocess_env forbidden env))
  unfolding checked
  checked-some line forbidden env =
      ((λ flagged. rw (flagged, checked) refl), (λ clean. rw (clean, checked) refl))

  checked-spawns :
      (built : Option (List String)) (forbidden argv : List String) (env made : Environ)
      → checked lower special built forbidden env ≡ spawns argv made
      → (built ≡ some argv)
        × ((has_bypass_flag lower special argv ≡ false)
            × (build_subprocess_env forbidden env ≡ made))
  unfolding checked
  checked-spawns none forbidden argv env made h = cc
  checked-spawns (some line) forbidden argv env made h =
      elim (Bool-cases (has_bypass_flag lower special line)) [
        | inl flagged ↦ absurd (
            refused_spawns forbidden_flag argv made
              (sym ((checked-some line forbidden env).0 flagged) ∙ h))
        | inr clean ↦
            let same = sym ((checked-some line forbidden env).1 clean) ∙ h in
            let line_same : line ≡ argv = cc in
            let env_same : build_subprocess_env forbidden env ≡ made = cc in
            (
              ap some line_same,
              (subst (λ l. has_bypass_flag lower special l ≡ false) line_same clean, env_same),
            )
      ]

  prepare_invocation_disallowed :
      (adapter : OrchestratorAdapterConfig) (s : Substitutions) (forbidden : List String)
      (env : Environ)
      → contains allowed_adapter_commands adapter.command ≡ false
      → prepare_invocation lower special adapter s forbidden env ≡ refused disallowed_command
  unfolding prepare_invocation
  prepare_invocation_disallowed adapter s forbidden env other = ground arith

  prepare_invocation_unverified :
      (adapter : OrchestratorAdapterConfig) (s : Substitutions) (forbidden : List String)
      (env : Environ)
      → contains allowed_adapter_commands adapter.command ≡ true
      → adapter.mcp_approval_verified.verified ≡ false
      → prepare_invocation lower special adapter s forbidden env ≡ refused not_verified
  unfolding prepare_invocation
  prepare_invocation_unverified adapter s forbidden env allowed unverified = ground arith

  prepare_invocation-checked :
      (adapter : OrchestratorAdapterConfig) (s : Substitutions) (forbidden : List String)
      (env : Environ)
      → contains allowed_adapter_commands adapter.command ≡ true
      → adapter.mcp_approval_verified.verified ≡ true
      → prepare_invocation lower special adapter s forbidden env
        ≡ checked lower special (build_argv lower special adapter s) forbidden env
  unfolding prepare_invocation
  prepare_invocation-checked adapter s forbidden env allowed verified = ground arith

  unflagged : (argv : List String) → has_bypass_flag lower special argv ≡ false → All IsClean argv
  unfolding has_bypass_flag
  unflagged argv h =
      All-any_none (λ arg. any (λ flag. contains_text flag (lower arg)) forbidden_flag_substrings)
        argv h

  -- A subprocess is started only for an allowed command that is attested, with one argument for each
  -- template behind the command, in none of which a forbidden flag stands, and in an environment
  -- without the forbidden names that is otherwise the given one.
  pub prepare_invocation-IsGuarded :
      (adapter : OrchestratorAdapterConfig) (s : Substitutions) (forbidden argv : List String)
      (env made : Environ)
      → prepare_invocation lower special adapter s forbidden env ≡ spawns argv made
      → IsGuarded adapter s forbidden env argv made
  prepare_invocation-IsGuarded adapter s forbidden argv env made h =
      elim (Bool-cases (contains allowed_adapter_commands adapter.command)) [
        | inr other ↦ absurd (
            refused_spawns disallowed_command argv made
              (sym (prepare_invocation_disallowed adapter s forbidden env other) ∙ h))
        | inl allowed ↦ elim (Bool-cases adapter.mcp_approval_verified.verified) [
          | inr unverified ↦ absurd (
              refused_spawns not_verified argv made (
                sym (prepare_invocation_unverified adapter s forbidden env allowed unverified) ∙ h))
          | inl verified ↦
              let (built, (clean, scrubbed)) =
                checked-spawns (build_argv lower special adapter s) forbidden argv env made
                  (sym (prepare_invocation-checked adapter s forbidden env allowed verified) ∙ h) in
              (
                allowed,
                (
                  verified,
                  (
                    built,
                    (
                      build_argv-length adapter s argv built,
                      (
                        unflagged argv clean,
                        (λ name.
                            ap (Dict.lookup name) (sym scrubbed)
                            ∙ lookup-build_subprocess_env forbidden env name),
                      ),
                    ),
                  ),
                ),
              )
        ]
      ]
