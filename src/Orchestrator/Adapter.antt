-- ===== src/Orchestrator/Adapter.antt =====
-- src/josu/orchestrator/adapter.py: the invocation of an adapter. `str.lower`, the fields of
-- `str.format` that are more than a bare name, and what a subprocess answers are parameters.
pub mod Invoked
use Prim.Native.Char.{Char, code}
use Prim.Native.String as Str
use josu.Common.{
  ℕ, suc, zero, Bool, true, false, not, String, Option, none, some, List, [], ◌∷◌, any, contains,
  map, nat_eq, if◌then◌else◌, ◌==◌, eq_string, ◌>>=◌,
}
use josu.Common.Dict
use josu.Common.Dict.{Dict}
use josu.Common.Text.{concat}
use josu.Common.Int.{ℤ}
use josu.Config.Orchestrator.{OrchestratorAdapterConfig, allowed_adapter_commands}
use josu.Delegate.Json.{Json, object, Fields, get}
use josu.Proactive.Hook.{contains_text}

abbrev pub forbidden_flag_substrings : List String
forbidden_flag_substrings =
    "dangerously-skip-permissions" ∷ "bypasspermissions" ∷ "bypass-permissions" ∷ []

-- Where `str.format` stands: in the text, behind an opening brace, in a replacement field with some
-- nested braces, or behind a closing brace.
pub data State : Type 0 where
  in_text opened closing : State
  in_field : (depth : ℕ) (field : String) → State

abbrev one : Char → String
one c = Str.◌∷◌ c Str.[]

module _ (value : String → Option String) where
  emit_field : String → Option (String × State)
  emit_field field = elim (value field) [ none ↦ none | some v ↦ some (v, in_text) ]

  -- What the next character adds, and where it leads; `none` is an exception.
  next : State → Char → Option (String × State)
  unfolding emit_field
  next in_text c =
      if nat_eq (code c) 123
      then some ("", opened)
      else if nat_eq (code c) 125
      then some ("", closing)
      else some (one c, in_text)
  next opened c =
      if nat_eq (code c) 123
      then some ("{", in_text)
      else if nat_eq (code c) 125
      then emit_field ""
      else some ("", in_field 0 (one c))
  next closing c = if nat_eq (code c) 125 then some ("}", in_text) else none
  next (in_field zero field) c =
      if nat_eq (code c) 125
      then emit_field field
      else if nat_eq (code c) 123
      then some ("", in_field 1 (concat field "{"))
      else some ("", in_field 0 (concat field (one c)))
  next (in_field (suc depth) field) c =
      if nat_eq (code c) 125
      then some ("", in_field depth (concat field "}"))
      else if nat_eq (code c) 123
      then some ("", in_field (suc (suc depth)) (concat field "{"))
      else some ("", in_field (suc depth) (concat field (one c)))

  is_end : State → Option String
  is_end in_text = some ""
  is_end _ = none

  prepend : String → Option String → Option String
  prepend out none = none
  prepend out (some s) = some (concat out s)

  -- `template.format(...)`, from a state
  unfoldable pub format : State → String → Option String
  unfolding next is_end prepend
  format state Str.[] = is_end state
  format state (Str.◌∷◌ c s) = elim (next state c) [
    | none ↦ none
    | some (out, state') ↦ prepend out (format state' s)
  ]

-- The substitutions of `build_argv`.
pub record Substitutions : Type 0 where
  pub worktree : String
  pub mcp_config : String
  pub task : String

abbrev pub Environ : Type 0
Environ = Dict String String

-- `_build_subprocess_env`
unfoldable pub build_subprocess_env : List String → Environ → Environ
build_subprocess_env [] env = env
build_subprocess_env (name ∷ names) env = build_subprocess_env names (Dict.erase name env)

pub data Refusal : Type 0 where
  disallowed_command not_verified format_error forbidden_flag : Refusal

-- What goes before the subprocess: a refusal, or its arguments and its environment.
pub data Prepared : Type 0 where
  refused : Refusal → Prepared
  spawns : (argv : List String) (env : Environ) → Prepared

module _ (lower : String → String) (special : Substitutions → String → Option String) where
  unfoldable pub value_of : Substitutions → String → Option String
  value_of s field =
      if field == "worktree"
      then some s.worktree
      else if field == "mcp_config"
      then some s.mcp_config
      else if field == "task"
      then some s.task
      else special s field

  unfoldable pub format_all : Substitutions → List String → Option (List String)
  unfolding format
  format_all s [] = some []
  format_all s (arg ∷ args) = do
    a ← format (value_of s) in_text arg
    rest ← format_all s args
    some (a ∷ rest)

  -- `build_argv`, where `none` is an exception of `str.format`
  unfoldable pub build_argv : OrchestratorAdapterConfig → Substitutions → Option (List String)
  build_argv adapter s = do args ← format_all s adapter.args; some (adapter.command ∷ args)

  -- `_forbid_bypass_flags` raises.
  unfoldable pub has_bypass_flag : List String → Bool
  has_bypass_flag argv =
      any (λ arg. any (λ flag. contains_text flag (lower arg)) forbidden_flag_substrings) argv

  checked : Option (List String) → List String → Environ → Prepared
  checked none forbidden env = refused format_error
  checked (some argv) forbidden env =
      if has_bypass_flag argv
      then refused forbidden_flag
      else spawns argv (build_subprocess_env forbidden env)

  -- `invoke_adapter` up to `subprocess.run`
  unfoldable pub prepare_invocation :
      OrchestratorAdapterConfig
      → Substitutions
      → (forbidden_env_names : List String) → Environ
      → Prepared
  unfolding checked
  prepare_invocation adapter s forbidden env =
      if not (contains allowed_adapter_commands adapter.command)
      then refused disallowed_command
      else if not adapter.mcp_approval_verified.verified
      then refused not_verified
      else checked (build_argv adapter s) forbidden env

-- The value at a path of keys.
unfoldable pub follow : List String → Json → Option Json
follow [] value = some value
follow (key ∷ keys) (object fields) = elim (get key fields) [
  | none ↦ none
  | some value ↦ follow keys value
]
follow (key ∷ keys) value = none

-- `extract_fields`; `split` is `path.split(".")`.
unfoldable pub extract_fields :
    (split : String → List String) → List (String × String) → Json → Dict String Json
extract_fields split [] value = []
extract_fields split ((name, path) ∷ mapping) value =
    let rest = extract_fields split mapping value in
    elim (follow (split path) value) [ none ↦ rest | some found ↦ (name, found) ∷ rest ]
