-- ===== src/Orchestrator/ClaudeCode/Examples.antt =====
-- A run of Claude Code, and the theorems at it.
use josu.Common.{
  Bool, true, false, String, Option, none, some, List, [], ◌∷◌, ◌≡◌, refl, eq_string, ◌==◌,
  if◌then◌else◌,
}
use josu.Common.Dict
use josu.Common.Dict.{Dict}
use josu.Common.Latin.{strip_left, strip_right}
use josu.Common.Text.{concat, cut_prefix}
use josu.Config.Orchestrator.{McpApprovalVerified, OrchestratorAdapterConfig}
use josu.Delegate.Errors.{ok}
use josu.Delegate.Json.{
  Json, str, array, object, nil, cons, Fields, field, end, get, Decoded, decoded, decode_error,
}
use josu.Proactive.Hook.{contains_text}
use josu.Cleanup.{sorted_set, insert_name}
use josu.Orchestrator.Adapter.{
  Substitutions, Environ, prepare_invocation, build_argv, build_subprocess_env, has_bypass_flag,
  format, format_all, value_of, follow, extract_fields,
}
use josu.Orchestrator.Adapter.Invoked.{IsGuarded, prepare_invocation-IsGuarded}
use josu.Orchestrator.ClaudeCode.{
  ParsedRun, parse_stream_json, events_of, record_events, record_event, record_blocks, record_block,
  content_of, elements, items,
}
use josu.Orchestrator.ClaudeCode.Stream.{
  concat_map, command_of, path_of, blocks_of, parse_stream_json-Adds,
}
use josu.Orchestrator.ClaudeCode.Run.{
  RunEnv, run, finish_run, wrapper_side_checks, servers_problem, flatten, texts_of, str_items,
  is_git_subcommand_allowed, looks_like_git, key_names, forbidden_env_names,
}
use josu.Orchestrator.ClaudeCode.Run.Vetted.{Stems, run-IsVetted}
use josu.Orchestrator.ClaudeCode.Argv.{build_default_adapter_config, tools_in}

abbrev attestation : McpApprovalVerified
attestation = record { verified = true; verified_date = 20000 }

abbrev adapter : OrchestratorAdapterConfig
adapter = build_default_adapter_config attestation

abbrev same : String → String
same s = s

abbrev special : Substitutions → String → Option String
special s name = none

abbrev s : Substitutions
s = record { worktree = "/w/a"; mcp_config = "/w/a.json"; task = "fix {this}" }

abbrev environ : Environ
environ = ("PATH", "/bin") ∷ ("KEY", "secret") ∷ []

abbrev line : List String
line =
    "claude"
    ∷ "-p"
    ∷ "--strict-mcp-config"
    ∷ "/w/a.json"
    ∷ "--allowedTools"
    ∷ tools_in "/w/a"
    ∷ "--output-format"
    ∷ "stream-json"
    ∷ "fix {this}"
    ∷ []

program : Unit {0}
unfolding prepare_invocation build_argv build_subprocess_env has_bypass_flag format format_all
    value_of concat cut_prefix contains_text Dict.erase follow extract_fields parse_stream_json
    events_of record_events record_event record_blocks record_block content_of elements items run
    finish_run wrapper_side_checks servers_problem flatten texts_of str_items
    is_git_subcommand_allowed looks_like_git key_names sorted_set insert_name strip_left strip_right
    get
program = tt

prepare_invocation-IsGuarded_example :
    IsGuarded same special adapter s ("KEY" ∷ []) environ line (("PATH", "/bin") ∷ [])
unfolding program
prepare_invocation-IsGuarded_example =
    prepare_invocation-IsGuarded same special adapter s ("KEY" ∷ []) line environ
      (("PATH", "/bin") ∷ []) refl

-- The events of the two lines of the output.
abbrev server : String → Json
server name = object (field "name" (str name) (field "status" (str "connected") end))

abbrev init : Json
init = object (
    field "type" (str "system") (
      field "subtype" (str "init") (
        field "mcp_servers"
          (array (cons (server "context-graph") (cons (server "delegate-to-local") nil))) end)))

abbrev bash_call : Json
bash_call = object (
    field "type" (str "tool_use") (
      field "name" (str "Bash")
        (field "input" (object (field "command" (str "git status") end)) end)))

abbrev assistant : Json
assistant = object (
    field "type" (str "assistant")
      (field "message" (object (field "content" (array (cons bash_call nil)) end)) end))

abbrev result_event : Fields
result_event = field "type" (str "result") (field "result" (str "done") end)

abbrev loads : String → Decoded
loads text =
    if text == "1"
    then decoded init
    else if text == "2"
    then decoded assistant
    else if text == "3"
    then decoded (object result_event)
    else decode_error

abbrev shlex : String → Option (List String)
shlex command = if command == "git status" then some ("git" ∷ "status" ∷ []) else none

abbrev split : String → List String
split path = path ∷ []

abbrev is_zero : String → Bool
is_zero n = false

abbrev env : RunEnv
env = record {
  manifest_problem = none;
  answer = λ argv made. ok ("1" ∷ "?" ∷ "2" ∷ "3" ∷ []);
  is_under = λ path. true;
  config_is_under = false;
  staged = ok [];
  is_config = λ path. false;
  diff = ok "diff";
}

abbrev parsed : ParsedRun
parsed = record {
  mcp_servers_connected = str "delegate-to-local" ∷ str "context-graph" ∷ [];
  bash_commands = "git status" ∷ [];
  read_edit_paths = [];
  result_event = result_event;
}

parse_stream_json-Adds_example :
    (events : List Fields) × ((events_of loads ("1" ∷ "?" ∷ "2" ∷ "3" ∷ []) ≡ ok events)
      × ((parsed.bash_commands ≡ concat_map (λ e. concat_map command_of (blocks_of e)) events)
          × (parsed.read_edit_paths ≡ concat_map (λ e. concat_map path_of (blocks_of e)) events)))
unfolding program
parse_stream_json-Adds_example =
    parse_stream_json-Adds loads is_zero ("1" ∷ "?" ∷ "2" ∷ "3" ∷ []) parsed refl

run-IsVetted_example :
    (env.manifest_problem ≡ none)
    × Stems shlex split env adapter loads is_zero
        (prepare_invocation same special adapter s (forbidden_env_names none) environ)
        parsed
unfolding program
run-IsVetted_example =
    run-IsVetted shlex split env adapter loads is_zero same special s none environ parsed
      (("result", str "done") ∷ []) "diff" refl
