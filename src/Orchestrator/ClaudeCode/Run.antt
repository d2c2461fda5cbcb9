-- ===== src/Orchestrator/ClaudeCode/Run.antt =====
-- src/josu/orchestrator/adapters/claude_code.py: the checks of a parsed run, and `run`. An exception is
-- the name of its class.
pub mod Vetted
use josu.Common.{
  Bool, true, false, not, ◌&&◌, ◌||◌, String, Option, none, some, List, [], ◌∷◌, any, contains,
  if◌then◌else◌, ◌==◌, eq_string, ◌>>=◌,
}
use josu.Common.Dict.{Dict}
use josu.Common.Latin.{strip, is_empty}
use josu.Config.Delegate.{DelegateCandidate}
use josu.Config.Orchestrator.{OrchestratorAdapterConfig}
use josu.Delegate.Errors.{Result, ok, raise, class_name}
use josu.Delegate.Json.{Json, str, array, object, Items, nil, cons, Fields, field, Decoded}
use josu.Proactive.Hook.{contains_text}
use josu.Cleanup.{sorted_set}
use josu.Orchestrator.Adapter.{
  Substitutions, Environ, Refusal, disallowed_command, not_verified, format_error, forbidden_flag,
  Prepared, refused, spawns, prepare_invocation, extract_fields,
}
use josu.Orchestrator.ClaudeCode.{
  ParsedRun, required_mcp_servers, allowed_git_subcommands, forbidden_git_tokens,
  shell_metacharacters, is_str, parse_stream_json,
}

-- `shlex` is `shlex.split`, where `none` is its ValueError.
module _ (shlex : String → Option (List String)) where
  -- The tokens of a git command that is allowed.
  abbrev pub are_allowed : List String → Bool
  are_allowed [] = false
  are_allowed (program ∷ []) = false
  are_allowed (program ∷ subcommand ∷ rest) =
      program == "git"
      && (not (any (contains forbidden_git_tokens) (subcommand ∷ rest))
          && contains allowed_git_subcommands subcommand)

  unfoldable pub is_git_subcommand_allowed : String → Bool
  is_git_subcommand_allowed command =
      if any (λ meta. contains_text meta command) shell_metacharacters
      then false
      else elim (shlex command) [ none ↦ false | some tokens ↦ are_allowed tokens ]

  abbrev starts_with_git : List String → Bool
  starts_with_git [] = false
  starts_with_git (token ∷ tokens) = token == "git"

  unfoldable pub looks_like_git : String → Bool
  looks_like_git command = elim (shlex command) [
    | none ↦ true
    | some tokens ↦ starts_with_git tokens
  ]

  abbrev pub violates : String → Bool
  violates command = looks_like_git command && not (is_git_subcommand_allowed command)

-- What a run meets: the fault of the manifest, what the subprocess answers to its arguments and its
-- environment, whether a path lies in the worktree and the configuration does, what git says is
-- staged, whether a staged path is that of the configuration, and the diff.
pub record RunEnv : Type 0 where
  pub manifest_problem : Option String
  pub answer : List String → Environ → Result (List String)
  pub is_under : String → Bool
  pub config_is_under : Bool
  pub staged : Result (List String)
  pub is_config : String → Bool
  pub diff : Result String

-- The class of the exception that a step raises, and the first of two.
abbrev pub Problem : Type 0
Problem = Option String

infixr 20 ◌or_else◌
abbrev pub ◌or_else◌ : Problem → Problem → Problem
none or_else later = later
some problem or_else later = some problem

abbrev pub raise_if : Bool → String → Problem
raise_if true name = some name
raise_if false name = none

module _ (shlex : String → Option (List String)) (env : RunEnv) where
  paths_problem : ParsedRun → Problem
  paths_problem p =
      raise_if (any (λ path. not (env.is_under path)) p.read_edit_paths) "PathEscapesWorktreeError"

  git_problem : ParsedRun → Problem
  git_problem p = raise_if (any (violates shlex) p.bash_commands) "GitAllowlistViolationError"

  pub is_staged : List String → Bool
  is_staged lines = any (λ line. not (is_empty (strip line)) && env.is_config (strip line)) lines

  staged_of : Result (List String) → Problem
  unfolding is_staged
  staged_of (raise e) = some (class_name e)
  staged_of (ok lines) = raise_if (is_staged lines) "ConfigPathStagedError"

  -- `assert_config_not_staged`
  staged_problem : Problem
  unfolding staged_of
  staged_problem = if not env.config_is_under then none else staged_of env.staged

  -- `_apply_wrapper_side_checks`
  unfoldable pub wrapper_side_checks : ParsedRun → Problem
  unfolding paths_problem git_problem staged_problem
  wrapper_side_checks p = paths_problem p or_else git_problem p or_else staged_problem

-- A server is among those that are connected.
abbrev pub is_connected : ParsedRun → String → Bool
is_connected p name = any (λ v. is_str name (some v)) p.mcp_servers_connected

-- `assert_both_mcp_servers_connected`
unfoldable pub servers_problem : ParsedRun → Problem
servers_problem p =
    raise_if (any (λ name. not (is_connected p name)) required_mcp_servers)
      "MCPServerConnectionError"

-- `sorted(names)`, where `none` is the TypeError of names that cannot be compared
unfoldable pub texts_of : List Json → Option (List String)
texts_of [] = some []
texts_of (str s ∷ names) = do rest ← texts_of names; some (s ∷ rest)
texts_of (name ∷ names) = none

unfoldable pub str_items : List String → Items
str_items [] = nil
str_items (s ∷ ss) = cons (str s) (str_items ss)

-- `_flatten`
unfoldable pub flatten : ParsedRun → Option Json
flatten p = do
  names ← texts_of p.mcp_servers_connected
  some
      (object (field "mcp_servers_connected" (array (str_items (sorted_set names))) p.result_event))

pub data Ran : Type 0 where
  returned : (parsed : ParsedRun) (fields : Dict String Json) (diff : String) → Ran
  raised : (class : String) → Ran

-- `_forbidden_env_names`: none if the configuration cannot be loaded.
unfoldable pub key_names : List DelegateCandidate → List String
key_names [] = []
key_names (c ∷ cs) =
    let rest = key_names cs in
    elim c.api_key_env [ none ↦ rest | some name ↦ if is_empty name then rest else name ∷ rest ]

abbrev pub forbidden_env_names : Option (List DelegateCandidate) → List String
forbidden_env_names none = []
forbidden_env_names (some candidates) = key_names candidates

abbrev refusal_class : Refusal → String
refusal_class disallowed_command = "DisallowedCommandError"
refusal_class not_verified = "McpApprovalNotVerifiedError"
refusal_class format_error = "KeyError"
refusal_class forbidden_flag = "ForbiddenFlagError"

module _ (shlex : String → Option (List String)) (split : String → List String) (env : RunEnv)
    (adapter : OrchestratorAdapterConfig) where
  diffed : ParsedRun → Dict String Json → Result String → Ran
  diffed p fields (raise e) = raised (class_name e)
  diffed p fields (ok diff) = returned p fields diff

  concluded : ParsedRun → Option Json → Ran
  unfolding diffed
  concluded p none = raised "TypeError"
  concluded p (some flat) = diffed p (extract_fields split adapter.field_mapping flat) env.diff

  judged : Problem → ParsedRun → Ran
  unfolding concluded
  judged (some problem) p = raised problem
  judged none p = concluded p (flatten p)

  -- What follows the parser.
  unfoldable pub finish_run : ParsedRun → Ran
  unfolding judged
  finish_run p = judged (wrapper_side_checks shlex env p or_else servers_problem p) p

  finish_parsed : Result ParsedRun → Ran
  finish_parsed (raise e) = raised (class_name e)
  finish_parsed (ok p) = finish_run p

  module _ (loads : String → Decoded) (is_zero : String → Bool) where
    -- What follows the subprocess.
    read_output : Result (List String) → Ran
    unfolding finish_parsed
    read_output (raise e) = raised (class_name e)
    read_output (ok lines) = finish_parsed (parse_stream_json loads is_zero lines)

    invoked : Prepared → Ran
    unfolding read_output
    invoked (refused refusal) = raised (refusal_class refusal)
    invoked (spawns argv made) = read_output (env.answer argv made)

    validated : Problem → Prepared → Ran
    unfolding invoked
    validated (some problem) prepared = raised problem
    validated none prepared = invoked prepared

    module _ (lower : String → String) (special : Substitutions → String → Option String) where
      unfoldable pub run : Substitutions → Option (List DelegateCandidate) → Environ → Ran
      unfolding validated
      run s candidates environ =
          validated env.manifest_problem
            (prepare_invocation lower special adapter s (forbidden_env_names candidates) environ)
