-- ===== src/Config/GraphEngines.antt =====
-- src/josu/config/graph_engines.py: the engine targets of the graph section. Pydantic's validation of
-- one entry and the environment are parameters.
use josu.Common.{
  Bool, String, Option, none, some, List, [], ◌∷◌, ◌++◌, contains, map, if◌then◌else◌, eq_string,
}
use josu.Common.Int.{ℤ}
use josu.Config.Toml.{Toml, str, array, nil, table, end, get_in, iterate}
use josu.Config.Delegate.{Validated, valid, invalid}

abbrev pub loopback_hosts : List String
loopback_hosts = "127.0.0.1" ∷ "localhost" ∷ "::1" ∷ []

pub record GraphEngineTargetConfig : Type 0 where
  pub name : String
  pub host : String
  pub port : ℤ
  pub api_key_env : Option String

pub data GraphWarning : Type 0 where
  rejected : (name : Toml) (detail : String) → GraphWarning
  ignored : (active : String) (names : List String) → GraphWarning
  unset : (name variable : String) → GraphWarning
  cleartext : (name host : String) → GraphWarning

module _ (validate : Toml → Validated GraphEngineTargetConfig) (in_environ : String → Bool) where
  -- The loop over the raw entries.
  unfoldable pub load_engines : List Toml → List GraphEngineTargetConfig × List GraphWarning
  load_engines [] = ([], [])
  load_engines (entry ∷ rest) =
      let (engines, warnings) = load_engines rest in
      elim (validate entry) [
        | valid engine ↦ (engine ∷ engines, warnings)
        | invalid detail ↦
            (engines, rejected (get_in entry "name" (str "<unnamed>")) detail ∷ warnings)
      ]

  -- The warning on the engines behind the first.
  ignored_warning : List GraphEngineTargetConfig → List GraphWarning
  ignored_warning [] = []
  ignored_warning (active ∷ []) = []
  ignored_warning (active ∷ others) = ignored active.name (map (λ e. e.name) others) ∷ []

  -- The warnings on the credential of the active engine.
  active_warnings : List GraphEngineTargetConfig → List GraphWarning
  active_warnings [] = []
  active_warnings (active ∷ others) = elim active.api_key_env [
    | none ↦ []
    | some variable ↦
        (if in_environ variable then [] else unset active.name variable ∷ [])
        ++ (if contains loopback_hosts active.host
            then []
            else cleartext active.name active.host ∷ [])
  ]

  -- `load_graph_engines_config`, where `none` is the TypeError of an `engines` value that cannot be
  -- iterated
  unfoldable pub load_graph_engines_config :
      Toml → Option (List GraphEngineTargetConfig × List GraphWarning)
  unfolding ignored_warning active_warnings
  load_graph_engines_config document =
      let section = get_in document "graph" (table end) in
      elim (iterate (get_in section "engines" (array nil))) [
        | none ↦ none
        | some entries ↦
            let (engines, warnings) = load_engines entries in
            some (engines, warnings ++ (ignored_warning engines ++ active_warnings engines))
      ]
