-- ===== src/Orchestrator/ClaudeCode/Argv.antt =====
-- src/josu/orchestrator/adapters/claude_code.py: the adapter of Claude Code, and its command line.
use Prim.Native.String as Str
use josu.Common.{String, Option, some, List, [], ◌∷◌, ◌≡◌, refl, ap, eq_string}
use josu.Common.Text.{concat}
use josu.Config.Orchestrator.{McpApprovalVerified, OrchestratorAdapterConfig}
use josu.Orchestrator.Adapter.{Substitutions, format, format_all, build_argv, value_of, in_text}

abbrev pub adapter_name : String
adapter_name = "claude-code"

-- `_allowed_tools_arg()`
abbrev allowed_tools_arg : String
allowed_tools_arg =
    "mcp__context-graph__search,mcp__context-graph__execute,mcp__delegate-to-local__delegate_to_local,Read({worktree}/**),Edit({worktree}/**),Bash(git status),Bash(git diff),Bash(git add *),Bash(git commit *)"

abbrev pub adapter_args_template : List String
adapter_args_template =
    "-p" ∷ "--strict-mcp-config" ∷ "{mcp_config}" ∷ "--allowedTools" ∷ allowed_tools_arg
    ∷ "--output-format" ∷ "stream-json" ∷ "{task}" ∷ []

abbrev pub build_default_adapter_config : McpApprovalVerified → OrchestratorAdapterConfig
build_default_adapter_config attestation = record {
  name = adapter_name;
  command = "claude";
  args = adapter_args_template;
  structured_output_mode = "stream-json";
  field_mapping =
      ("result", "result") ∷ ("session_id", "session_id") ∷ ("is_error", "is_error") ∷ [];
  mcp_approval_verified = attestation;
}

-- The tools that are allowed in a worktree.
abbrev pub tools_in : String → String
tools_in worktree =
    concat
      "mcp__context-graph__search,mcp__context-graph__execute,mcp__delegate-to-local__delegate_to_local,Read("
      (concat worktree (
        concat "/**),Edit(" (
          concat worktree
            "/**),Bash(git status),Bash(git diff),Bash(git add *),Bash(git commit *)")))

concat-nil : (s : String) → concat s "" ≡ s
unfolding concat
concat-nil Str.[] = refl
concat-nil (Str.◌∷◌ c s) = ap (Str.◌∷◌ c) (concat-nil s)

module _ (lower : String → String) (special : Substitutions → String → Option String) where
  tools-format :
      (s : Substitutions)
      → format (value_of lower special s) in_text allowed_tools_arg ≡ some (tools_in s.worktree)
  unfolding format value_of concat
  tools-format s = refl

  field-format :
      (s : Substitutions)
      → (format (value_of lower special s) in_text "{mcp_config}" ≡ some s.mcp_config)
        × (format (value_of lower special s) in_text "{task}" ≡ some s.task)
  unfolding format value_of concat
  field-format s = (ap some (concat-nil s.mcp_config), ap some (concat-nil s.task))

  -- The command line of Claude Code is, for every worktree, MCP configuration and task, the nine
  -- arguments below, where the task is the last one, letter by letter, braces and all.
  pub build_argv-default :
      (attestation : McpApprovalVerified) (s : Substitutions)
      → build_argv lower special (build_default_adapter_config attestation) s
        ≡ some (
            "claude"
            ∷ "-p"
            ∷ "--strict-mcp-config"
            ∷ s.mcp_config
            ∷ "--allowedTools"
            ∷ tools_in s.worktree
            ∷ "--output-format"
            ∷ "stream-json"
            ∷ s.task
            ∷ [])
  unfolding build_argv format_all concat
  build_argv-default attestation s =
      let (mcp, task) = field-format s in unfold format in rw (mcp, tools-format s, task) refl
