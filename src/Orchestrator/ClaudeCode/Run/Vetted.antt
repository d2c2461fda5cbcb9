-- ===== src/Orchestrator/ClaudeCode/Run/Vetted.antt =====
-- What holds of a run that is returned.
use josu.Common.{
  Bool, true, false, not, String, Option, none, some, List, any, ◌≡◌, refl, ap, subst, arith, All,
  All-imp, All-any_none, eq_string, inl, inr, ◌⊎◌, Bool-cases,
}
use josu.Common.Dict.{Dict}
use josu.Config.Delegate.{DelegateCandidate}
use josu.Config.Orchestrator.{OrchestratorAdapterConfig}
use josu.Delegate.Errors.{Result, ok, raise}
use josu.Delegate.Json.{Json, Decoded}
use josu.Orchestrator.Adapter.{
  Substitutions, Environ, Prepared, refused, spawns, prepare_invocation, extract_fields,
}
use josu.Orchestrator.ClaudeCode.{ParsedRun, required_mcp_servers, parse_stream_json}
use josu.Orchestrator.ClaudeCode.Run.{
  violates, RunEnv, Problem, ◌or_else◌, raise_if, paths_problem, git_problem, staged_problem,
  is_staged, staged_of, wrapper_side_checks, is_connected, servers_problem, flatten, returned,
  concluded, judged, finish_run, finish_parsed, diffed, read_output, invoked, validated,
  forbidden_env_names, run,
}

or_else-none : (a b : Problem) → (a or_else b) ≡ none → (a ≡ none) × (b ≡ none)
or_else-none none b h = (refl, h)
or_else-none (some x) b h = cc

raise_if-none : (b : Bool) (name : String) → raise_if b name ≡ none → b ≡ false
raise_if-none true name h = cc
raise_if-none false name h = refl

not-false : (b : Bool) → not b ≡ false → b ≡ true
not-false true h = refl
not-false false h = cc

module _ (shlex : String → Option (List String)) (split : String → List String) (env : RunEnv)
    (adapter : OrchestratorAdapterConfig) where
  -- The checks of the wrapper, passed.
  abbrev pub IsSafe : ParsedRun → Type 0
  IsSafe p =
      All (λ path. env.is_under path ≡ true) p.read_edit_paths
      × (All (λ command. violates shlex command ≡ false) p.bash_commands
          × ((env.config_is_under ≡ false)
              ⊎ ((lines : List String) × ((env.staged ≡ ok lines)
                    × (is_staged shlex env lines ≡ false)))))

  staged_of-none :
      (staged : Result (List String))
      → staged_of shlex env staged ≡ none
      → (lines : List String) × ((staged ≡ ok lines) × (is_staged shlex env lines ≡ false))
  unfolding staged_of
  staged_of-none (raise e) h = cc
  staged_of-none (ok lines) h =
      (lines, (refl, raise_if-none (is_staged shlex env lines) "ConfigPathStagedError" h))

  staged-none :
      staged_problem shlex env ≡ none
      → (env.config_is_under ≡ false)
        ⊎ ((lines : List String) × ((env.staged ≡ ok lines) × (is_staged shlex env lines ≡ false)))
  unfolding staged_problem
  staged-none h = elim (Bool-cases env.config_is_under) [
    | inr outside ↦ inl outside
    | inl inside ↦ inr (staged_of-none env.staged (ground arith))
  ]

  wrapper_side_checks-IsSafe : (p : ParsedRun) → wrapper_side_checks shlex env p ≡ none → IsSafe p
  unfolding wrapper_side_checks paths_problem git_problem
  wrapper_side_checks-IsSafe p h =
      let (paths, rest) =
        or_else-none (paths_problem shlex env p)
          (git_problem shlex env p or_else staged_problem shlex env) h in
      let (git, staged) = or_else-none (git_problem shlex env p) (staged_problem shlex env) rest in
      (
        All-imp (λ path. not (env.is_under path) ≡ false) (λ path. env.is_under path ≡ true)
            (λ path. not-false (env.is_under path)) p.read_edit_paths
            (All-any_none (λ path. not (env.is_under path)) p.read_edit_paths
              (raise_if-none (any (λ path. not (env.is_under path)) p.read_edit_paths)
                "PathEscapesWorktreeError" paths)),
        (
          All-any_none (violates shlex) p.bash_commands (
              raise_if-none (any (violates shlex) p.bash_commands) "GitAllowlistViolationError"
                git),
          staged-none staged,
        ),
      )

  diffed-returned :
      (p q : ParsedRun) (found fields : Dict String Json) (made : Result String) (diff : String)
      → diffed shlex split env adapter p found made ≡ returned q fields diff
      → p ≡ q
  unfolding diffed
  diffed-returned p q found fields (raise e) diff h = cc
  diffed-returned p q found fields (ok text) diff h = cc

  concluded-returned :
      (p q : ParsedRun) (flat : Option Json) (fields : Dict String Json) (diff : String)
      → concluded shlex split env adapter p flat ≡ returned q fields diff
      → p ≡ q
  unfolding concluded
  concluded-returned p q none fields diff h = cc
  concluded-returned p q (some flat) fields diff h =
      diffed-returned p q (extract_fields split adapter.field_mapping flat) fields env.diff diff h

  judged-returned :
      (problem : Problem) (p q : ParsedRun) (fields : Dict String Json) (diff : String)
      → judged shlex split env adapter problem p ≡ returned q fields diff
      → (problem ≡ none) × (p ≡ q)
  unfolding judged
  judged-returned (some x) p q fields diff h = cc
  judged-returned none p q fields diff h = (refl, concluded-returned p q (flatten p) fields diff h)

  -- What is returned has passed the checks of the wrapper, and both servers are connected.
  abbrev pub IsVetted : ParsedRun → Type 0
  IsVetted p = IsSafe p × All (λ name. is_connected p name ≡ true) required_mcp_servers

  finish_run-IsVetted :
      (p q : ParsedRun) (fields : Dict String Json) (diff : String)
      → finish_run shlex split env adapter p ≡ returned q fields diff
      → (p ≡ q) × IsVetted p
  unfolding finish_run servers_problem
  finish_run-IsVetted p q fields diff h =
      let (passed, same) =
        judged-returned (wrapper_side_checks shlex env p or_else servers_problem p) p q fields diff
          h in
      let (safe, connected) =
        or_else-none (wrapper_side_checks shlex env p) (servers_problem p) passed in
      let missing =
        raise_if-none (any (λ name. not (is_connected p name)) required_mcp_servers)
          "MCPServerConnectionError" connected in
      (
        same,
        (
          wrapper_side_checks-IsSafe p safe,
          All-imp (λ name. not (is_connected p name) ≡ false) (λ name. is_connected p name ≡ true)
              (λ name. not-false (is_connected p name)) required_mcp_servers
              (All-any_none (λ name. not (is_connected p name)) required_mcp_servers missing),
        ),
      )

  finish_parsed-returned :
      (parsed : Result ParsedRun) (q : ParsedRun) (fields : Dict String Json) (diff : String)
      → finish_parsed shlex split env adapter parsed ≡ returned q fields diff
      → (parsed ≡ ok q) × IsVetted q
  unfolding finish_parsed
  finish_parsed-returned (raise e) q fields diff h = cc
  finish_parsed-returned (ok p) q fields diff h =
      let (same, vetted) = finish_run-IsVetted p q fields diff h in
      (ap ok same, subst IsVetted same vetted)

  module _ (loads : String → Decoded) (is_zero : String → Bool) where
    read_output-returned :
        (output : Result (List String)) (q : ParsedRun) (fields : Dict String Json) (diff : String)
        → read_output shlex split env adapter loads is_zero output ≡ returned q fields diff
        → (lines : List String) × ((output ≡ ok lines)
            × ((parse_stream_json loads is_zero lines ≡ ok q) × IsVetted q))
    unfolding read_output
    read_output-returned (raise e) q fields diff h = cc
    read_output-returned (ok lines) q fields diff h = (
      lines,
      (refl, finish_parsed-returned (parse_stream_json loads is_zero lines) q fields diff h),
    )

    -- The subprocess whose output a returned run has parsed.
    abbrev pub Stems : Prepared → ParsedRun → Type 0
    Stems prepared q =
        (argv : List String) × ((made : Environ) × ((lines : List String) × ((prepared
                ≡ spawns argv made)
              × ((env.answer argv made ≡ ok lines)
                  × ((parse_stream_json loads is_zero lines ≡ ok q) × IsVetted q)))))

    validated-returned :
        (problem : Problem) (prepared : Prepared) (q : ParsedRun) (fields : Dict String Json)
        (diff : String)
        → validated shlex split env adapter loads is_zero problem prepared ≡ returned q fields diff
        → (problem ≡ none) × Stems prepared q
    unfolding validated invoked
    validated-returned (some x) prepared q fields diff h = cc
    validated-returned none (refused r) q fields diff h = cc
    validated-returned none (spawns argv made) q fields diff h =
        let (lines, (answered, parsed)) =
          read_output-returned (env.answer argv made) q fields diff h in
        (refl, (argv, (made, (lines, (refl, (answered, parsed))))))

    -- A run is returned only if the manifest is in order, the adapter's process was started with
    -- checked arguments and its output parsed, every path that it read or edited lies in the
    -- worktree, every command that looks like one of git is allowed, a configuration inside of the
    -- worktree is not staged, and both servers are connected.
    pub run-IsVetted :
        (lower : String → String) (special : Substitutions → String → Option String)
        (s : Substitutions) (candidates : Option (List DelegateCandidate)) (environ : Environ)
        (q : ParsedRun) (fields : Dict String Json) (diff : String)
        → run shlex split env adapter loads is_zero lower special s candidates environ
          ≡ returned q fields diff
        → (env.manifest_problem ≡ none)
          × Stems
              (prepare_invocation lower special adapter s (forbidden_env_names candidates) environ)
              q
    unfolding run
    run-IsVetted lower special s candidates environ q fields diff h =
        validated-returned env.manifest_problem
          (prepare_invocation lower special adapter s (forbidden_env_names candidates) environ) q
          fields diff h
