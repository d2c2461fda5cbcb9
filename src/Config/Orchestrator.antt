-- ===== src/Config/Orchestrator.antt =====
-- src/josu/config/orchestrator.py: the adapters of the orchestrator section. Pydantic's conversion of
-- an entry's types is a parameter; a date is the number of its day.
pub mod Gates
mod Examples
use josu.Common.{
  ℕ, ◌+◌, ◌-◌, Bool, true, false, not, ◌&&◌, String, Option, none, some, List, [], ◌∷◌, contains,
  ltb, if◌then◌else◌, ◌==◌, eq_string, ◌++◌,
}
use josu.Common.Latin.{strip, is_empty}
use josu.Config.Toml.{Toml, str, array, nil, table, end, get_in, iterate}
use josu.Config.Delegate.{Validated, valid, invalid}

abbrev pub allowed_adapter_commands : List String
allowed_adapter_commands = "claude" ∷ []

abbrev pub allowed_output_modes : List String
allowed_output_modes = "stream-json" ∷ []

abbrev pub staleness_window_days : ℕ
staleness_window_days = 180

pub record McpApprovalVerified : Type 0 where
  pub verified : Bool
  pub verified_date : ℕ

pub record OrchestratorAdapterConfig : Type 0 where
  pub name : String
  pub command : String
  pub args : List String
  pub structured_output_mode : String
  pub field_mapping : List (String × String)
  pub mcp_approval_verified : McpApprovalVerified

-- What follows the first `name` in a list, if it is there.
unfoldable pub after_first : String → List String → Option (List String)
after_first name [] = none
after_first name (arg ∷ args) =
    let rest = after_first name args in if arg == name then some args else rest

-- `_args_scoping_problem`, where the reasons are told apart by their number
unfoldable pub args_scoping_problem : List String → Option ℕ
args_scoping_problem args =
    if not (contains args "--strict-mcp-config")
    then some 1
    else elim (after_first "--allowedTools" args) [
      | none ↦ some 2
      | some [] ↦ some 3
      | some (value ∷ rest) ↦ if is_empty (strip value) then some 3 else none
    ]

pub data AdapterWarning : Type 0 where
  rejected : (name : Toml) → AdapterWarning
  unscoped : (name : Toml) (reason : ℕ) → AdapterWarning
  excluded stale : (name : String) → AdapterWarning

-- The two field validators.
abbrev pub is_declarable : OrchestratorAdapterConfig → Bool
is_declarable a =
    contains allowed_adapter_commands a.command
    && contains allowed_output_modes a.structured_output_mode

module _ (convert : Toml → Validated OrchestratorAdapterConfig) where
  -- One entry: the adapter, or the warning.
  load_entry : Toml → (Option OrchestratorAdapterConfig) × List AdapterWarning
  load_entry entry =
      let name = get_in entry "name" (str "<unnamed>") in
      elim (convert entry) [
        | invalid detail ↦ (none, rejected name ∷ [])
        | valid a ↦
            if not (is_declarable a)
            then (none, rejected name ∷ [])
            else elim (args_scoping_problem a.args) [
              | some reason ↦ (none, unscoped name reason ∷ [])
              | none ↦ (some a, [])
            ]
      ]

  prepend_some {ℓ} : {A : Type ℓ} → Option A → List A → List A
  prepend_some none xs = xs
  prepend_some (some x) xs = x ∷ xs

  unfoldable pub load_adapters : List Toml → List OrchestratorAdapterConfig × List AdapterWarning
  unfolding load_entry prepend_some
  load_adapters [] = ([], [])
  load_adapters (entry ∷ entries) =
      let (parsed, warnings) = load_adapters entries in
      let (adapter, told) = load_entry entry in (prepend_some adapter parsed, told ++ warnings)

  load_entries_of :
      Option (List Toml) → Option (List OrchestratorAdapterConfig × List AdapterWarning)
  load_entries_of none = none
  load_entries_of (some entries) = some (load_adapters entries)

  load_section : Toml → Option (List OrchestratorAdapterConfig × List AdapterWarning)
  unfolding load_entries_of
  load_section (table fields) =
      load_entries_of (iterate (get_in (table fields) "adapters" (array nil)))
  load_section _ = none

  -- `load_orchestrator_config`, where `none` is the AttributeError of a section that is no table, or
  -- the TypeError of a list of adapters that cannot be iterated
  unfoldable pub load_orchestrator_config :
      Toml → Option (List OrchestratorAdapterConfig × List AdapterWarning)
  unfolding load_section
  load_orchestrator_config document = load_section (get_in document "orchestrator" (table end))

-- `usable_adapters`
unfoldable pub usable_adapters :
    (today : ℕ)
    → List OrchestratorAdapterConfig
    → List OrchestratorAdapterConfig × List AdapterWarning
usable_adapters today [] = ([], [])
usable_adapters today (a ∷ adapters) =
    let (usable, warnings) = usable_adapters today adapters in
    if not a.mcp_approval_verified.verified
    then (usable, excluded a.name ∷ warnings)
    else if ltb staleness_window_days (today - a.mcp_approval_verified.verified_date)
    then (a ∷ usable, stale a.name ∷ warnings)
    else (a ∷ usable, warnings)
