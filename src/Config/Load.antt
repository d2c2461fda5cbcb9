-- ===== src/Config/Load.antt =====
-- src/josu/config/__init__.py: `check_permissions` and `load_config`. The file is what the loader meets
-- of it, and its path is resolved.
pub mod Accepted
mod Examples
use Prim.Native.Nat.{◌%◌}
use josu.Common.{
  ℕ, Bool, true, false, not, String, Option, none, some, List, [], ◌∷◌, ◌++◌, map, nat_eq,
  if◌then◌else◌,
}
use josu.Common.Int.{ℤ, Float}
use josu.Config.Toml.{Toml}
use josu.Config.Delegate.{DelegateCandidate, Validated, Warning, load_delegate_config}
use josu.Config.Chains.{DelegationChain, ChainsConfig}
use josu.Config.Chains.Load as Chains
use josu.Config.Chains.Load.{ChainWarning, load_chains_config}
use josu.Config.Orchestrator.{OrchestratorAdapterConfig, AdapterWarning, load_orchestrator_config}
use josu.Config.GraphEngines.{GraphEngineTargetConfig, GraphWarning, load_graph_engines_config}
use josu.Config.Settings.{
  SettingWarning, load_wall_clock_timeout_seconds, load_delegate_cooldown_config,
  default_wall_clock_timeout_seconds, default_candidate_failure_threshold,
  default_candidate_cooldown_seconds,
}

-- A warning, by the part that gives it.
pub data LoadWarning : Type 0 where
  missing_file open_to_others : LoadWarning
  of_delegate : Warning → LoadWarning
  of_chains : ChainWarning → LoadWarning
  of_orchestrator : AdapterWarning → LoadWarning
  of_graph : GraphWarning → LoadWarning
  of_settings : SettingWarning → LoadWarning

pub record JosuConfig : Type 0 where
  pub delegate : List DelegateCandidate
  pub chains : ChainsConfig
  pub orchestrator : List OrchestratorAdapterConfig
  pub graph_engines : List GraphEngineTargetConfig
  pub wall_clock_timeout_seconds : Float
  pub candidate_failure_threshold : ℤ
  pub candidate_cooldown_seconds : Float
  pub warnings : List LoadWarning

-- The part that raises.
pub data Part : Type 0 where
  permissions parsing delegate_part chains_part orchestrator_part graph_part settings_part : Part

pub data Loading : Type 0 where
  loaded : JosuConfig → Loading
  raised : Part → Loading

-- A file that exists: its mode, and its document, or none for an error of `open` or `tomllib.load`.
pub record ConfigFile : Type 0 where
  pub mode : ℕ
  pub document : Option Toml

-- `mode & _GROUP_OR_WORLD_ACCESSIBLE`, which are the last six bits
unfoldable pub is_open_to_others : ℕ → Bool
is_open_to_others mode = not (nat_eq (mode % 64) 0)

-- `check_permissions`, where `none` is the ConfigPermissionError
unfoldable pub check_permissions : (mode : ℕ) (strict : Bool) → Option (List LoadWarning)
check_permissions mode strict =
    if not (is_open_to_others mode)
    then some []
    else if strict
    then none
    else some (open_to_others ∷ [])

-- The config of a file that does not exist.
abbrev pub default_config : JosuConfig
default_config = record {
  delegate = [];
  chains = record { chains = []; allow_remote = false };
  orchestrator = [];
  graph_engines = [];
  wall_clock_timeout_seconds = default_wall_clock_timeout_seconds;
  candidate_failure_threshold = default_candidate_failure_threshold;
  candidate_cooldown_seconds = default_candidate_cooldown_seconds;
  warnings = missing_file ∷ [];
}

-- What is under another library: pydantic's validations, and Python's conversions and environment.
pub record Readers : Type 0 where
  pub candidate : Toml → Validated DelegateCandidate
  pub chain : Toml → Validated DelegationChain
  pub flag : Toml → Validated Bool
  pub adapter : Toml → Validated OrchestratorAdapterConfig
  pub engine : Toml → Validated GraphEngineTargetConfig
  pub in_environ : String → Bool
  pub too_large : ℤ → Bool
  pub parse_float : String → Option Float
  pub parse_int : String → Option ℤ

module _ (readers : Readers) where
  -- The two numbers' loaders, in their order, on the config of the sections.
  load_settings : Toml → JosuConfig → Loading
  load_settings document config =
      elim (load_wall_clock_timeout_seconds readers.too_large readers.parse_float document) [
        | none ↦ raised settings_part
        | some (timeout, told) ↦
            elim (load_delegate_cooldown_config readers.too_large readers.parse_float
              readers.parse_int document) [
                | none ↦ raised settings_part
                | some (threshold, (cooldown, more)) ↦ loaded (record config {
                  wall_clock_timeout_seconds = timeout;
                  candidate_failure_threshold = threshold;
                  candidate_cooldown_seconds = cooldown;
                  warnings = config.warnings ++ (map of_settings told ++ map of_settings more);
                })
              ]
      ]

  load_graph : Toml → JosuConfig → Loading
  unfolding load_settings
  load_graph document config =
      elim (load_graph_engines_config readers.engine readers.in_environ document) [
        | none ↦ raised graph_part
        | some (engines, told) ↦ load_settings document (record config {
          graph_engines = engines;
          warnings = config.warnings ++ map of_graph told;
        })
      ]

  load_orchestrator : Toml → JosuConfig → Loading
  unfolding load_graph
  load_orchestrator document config = elim (load_orchestrator_config readers.adapter document) [
    | none ↦ raised orchestrator_part
    | some (adapters, told) ↦ load_graph document (record config {
      orchestrator = adapters;
      warnings = config.warnings ++ map of_orchestrator told;
    })
  ]

  load_chains : Toml → JosuConfig → Loading
  unfolding load_orchestrator
  load_chains document config = elim (load_chains_config readers.chain readers.flag document) [
    | Chains.raised e ↦ raised chains_part
    | Chains.ok (chains, told) ↦
        load_orchestrator document
          (record config { chains = chains; warnings = config.warnings ++ map of_chains told })
  ]

  load_document : Toml → JosuConfig → Loading
  unfolding load_chains
  load_document document config =
      elim (load_delegate_config readers.candidate readers.in_environ document) [
        | none ↦ raised delegate_part
        | some (candidates, told) ↦ load_chains document (record config {
          delegate = candidates;
          warnings = config.warnings ++ map of_delegate told;
        })
      ]

  load_file : ConfigFile → Option (List LoadWarning) → Loading
  unfolding load_document
  load_file file none = raised permissions
  load_file file (some told) = elim file.document [
    | none ↦ raised parsing
    | some document ↦ load_document document (record default_config { warnings = told })
  ]

  -- `load_config`, of a file that is there or not
  unfoldable pub load_config : Option ConfigFile → (strict : Bool) → Loading
  unfolding load_file
  load_config none strict = loaded default_config
  load_config (some file) strict = load_file file (check_permissions file.mode strict)
