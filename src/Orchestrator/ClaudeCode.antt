-- ===== src/Orchestrator/ClaudeCode.antt =====
-- src/josu/orchestrator/adapters/claude_code.py: the parser of the event stream, the checks of the
-- wrapper, and `run`. `json.loads`, `shlex.split`, paths, git and the subprocess are parameters, and
-- the stream is its lines.
pub mod Stream
pub mod Run
pub mod Argv
mod Examples
use josu.Common.{
  ℕ, Bool, true, false, not, ◌&&◌, ◌||◌, String, Option, none, some, List, [], ◌∷◌, ◌++◌, any,
  contains, map, if◌then◌else◌, ◌==◌, eq_string, ◌>>=◌, is_some,
}
use josu.Common.Dict
use josu.Common.Dict.{Dict}
use josu.Common.Latin.{strip, is_empty}
use josu.Config.Delegate.{DelegateCandidate}
use josu.Config.Orchestrator.{OrchestratorAdapterConfig}
use josu.Delegate.Errors.{Result, ok, raise, other, bind}
use josu.Delegate.Json.{
  Json, null, bool, number, str, array, object, Items, nil, cons, Fields, field, end, get, Decoded,
  decoded, decode_error, unicode_error, value_error, too_deep,
}
use josu.Proactive.Hook.{contains_text}
use josu.Cleanup.{sorted_set}
use josu.Orchestrator.Adapter.{
  Substitutions, Environ, Refusal, disallowed_command, not_verified, format_error, forbidden_flag,
  Prepared, refused, spawns, prepare_invocation, extract_fields,
}

abbrev pub required_mcp_servers : List String
required_mcp_servers = "context-graph" ∷ "delegate-to-local" ∷ []

abbrev pub allowed_git_subcommands : List String
allowed_git_subcommands = "status" ∷ "diff" ∷ "add" ∷ "commit" ∷ []

abbrev pub forbidden_git_tokens : List String
forbidden_git_tokens = "push" ∷ "reset" ∷ "clean" ∷ "worktree" ∷ "config" ∷ "-c" ∷ []

abbrev pub shell_metacharacters : List String
shell_metacharacters = ";" ∷ "&&" ∷ "|" ∷ "`" ∷ "$(" ∷ ">" ∷ "<" ∷ []

pub record ParsedRun : Type 0 where
  pub mcp_servers_connected : List Json
  pub bash_commands : List String
  pub read_edit_paths : List String
  pub result_event : Fields

-- `value == text`, for what `get` returns
abbrev pub is_str : String → Option Json → Bool
is_str text (some (str s)) = s == text
is_str text _ = false

-- The elements that a loop over a value meets and that may be objects: those of an array. The keys of
-- an object and the characters of a text are texts, which the loops pass over.
unfoldable pub items : Items → List Json
items nil = []
items (cons v vs) = v ∷ items vs

unfoldable pub elements : Option Json → Result (List Json)
unfolding items
elements none = ok []
elements (some (array vs)) = ok (items vs)
elements (some (object fs)) = ok []
elements (some (str s)) = ok []
elements (some value) = raise (other "TypeError")

-- `is_zero` tells whether a numeral is that of 0.
module _ (is_zero : String → Bool) where
  -- `if name: mcp_servers_connected.add(name)`: a list and an object have no hash.
  add_name : Option Json → List Json → Result (List Json)
  add_name none names = ok names
  add_name (some null) names = ok names
  add_name (some (bool b)) names = ok (if b then bool b ∷ names else names)
  add_name (some (number n)) names = ok (if is_zero n then names else number n ∷ names)
  add_name (some (str s)) names = ok (if is_empty s then names else str s ∷ names)
  add_name (some (array nil)) names = ok names
  add_name (some (array (cons v vs))) names = raise (other "TypeError")
  add_name (some (object end)) names = ok names
  add_name (some (object (field k v fs))) names = raise (other "TypeError")

  -- The loop over `mcp_servers`.
  add_servers : List Json → List Json → Result (List Json)
  unfolding add_name
  add_servers [] names = ok names
  add_servers (object fs ∷ servers) names =
      if is_str "connected" (get "status" fs)
      then bind (add_name (get "name" fs) names) (add_servers servers)
      else add_servers servers names
  add_servers (server ∷ servers) names = add_servers servers names

  abbrev init_servers : Fields → List Json → Result (List Json)
  init_servers event names =
      bind (elements (get "mcp_servers" event)) (λ servers. add_servers servers names)

-- `tool_input`, an object
abbrev pub input_of : Fields → Option Fields
input_of block = elim (get "input" block) [
  | none ↦ some end
  | some (object fs) ↦ some fs
  | some _ ↦ none
]

abbrev pub text_at : String → Fields → Option String
text_at key fs = elim (get key fs) [ some (str s) ↦ some s | _ ↦ none ]

-- One block of a message: its effect on the two lists.
unfoldable pub record_block : Json → ParsedRun → ParsedRun
record_block (object block) p =
    if not (is_str "tool_use" (get "type" block)) then p else elim (input_of block) [
      | none ↦ p
      | some tool_input ↦
          if is_str "Bash" (get "name" block)
          then elim (text_at "command" tool_input) [
            | none ↦ p
            | some command ↦ record p { bash_commands = p.bash_commands ++ command ∷ [] }
          ]
          else if is_str "Read" (get "name" block) || is_str "Edit" (get "name" block)
          then elim (text_at "file_path" tool_input) [
            | none ↦ p
            | some path ↦ record p { read_edit_paths = p.read_edit_paths ++ path ∷ [] }
          ]
          else p
    ]
record_block block p = p

unfoldable pub record_blocks : List Json → ParsedRun → ParsedRun
record_blocks [] p = p
record_blocks (block ∷ blocks) p = record_blocks blocks (record_block block p)

-- `content`
unfoldable pub content_of : Fields → Result (List Json)
content_of event = elim (get "message" event) [
  | some (object message) ↦ elements (get "content" message)
  | _ ↦ ok []
]

module _ (is_zero : String → Bool) where
  -- One event.
  unfoldable pub record_event : Fields → ParsedRun → Result ParsedRun
  unfolding add_servers
  record_event event p =
      if is_str "system" (get "type" event) && is_str "init" (get "subtype" event)
      then bind (init_servers is_zero event p.mcp_servers_connected)
          (λ names. ok (record p { mcp_servers_connected = names }))
      else if is_str "assistant" (get "type" event)
      then bind (content_of event) (λ blocks. ok (record_blocks blocks p))
      else if is_str "result" (get "type" event)
      then ok (record p { result_event = event })
      else ok p

  unfoldable pub record_events : List Fields → ParsedRun → Result ParsedRun
  record_events [] p = ok p
  record_events (event ∷ events) p = bind (record_event event p) (record_events events)

abbrev pub nothing_parsed : ParsedRun
nothing_parsed = record {
  mcp_servers_connected = [];
  bash_commands = [];
  read_edit_paths = [];
  result_event = end;
}

module _ (loads : String → Decoded) where
  event_of : String → Result (List Fields)
  event_of line = if is_empty (strip line) then ok [] else elim (loads (strip line)) [
    | decoded (object fs) ↦ ok (fs ∷ [])
    | decoded value ↦ ok []
    | decode_error ↦ ok []
    | unicode_error ↦ raise (other "UnicodeDecodeError")
    | value_error ↦ raise (other "ValueError")
    | too_deep ↦ raise (other "RecursionError")
  ]

  unfoldable pub events_of : List String → Result (List Fields)
  unfolding event_of
  events_of [] = ok []
  events_of (line ∷ lines) =
      bind (event_of line) (λ found. bind (events_of lines) (λ events. ok (found ++ events)))

  unfoldable pub parse_stream_json : (is_zero : String → Bool) → List String → Result ParsedRun
  parse_stream_json is_zero lines =
      bind (events_of lines) (λ events. record_events is_zero events nothing_parsed)
