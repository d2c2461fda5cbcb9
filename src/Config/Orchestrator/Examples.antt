-- ===== src/Config/Orchestrator/Examples.antt =====
-- A load of two adapters, and the theorem at it.
use josu.Common.{true, false, some, [], ◌∷◌, ◌≡◌, refl, All, eq_string}
use josu.Common.Latin.{strip_left, strip_right}
use josu.Config.Toml.{
  Toml, str, bool, array, table, nil, cons, end, field, get, get_in, iterate, items,
}
use josu.Config.Delegate.{Validated, valid, invalid}
use josu.Config.Orchestrator.{
  OrchestratorAdapterConfig, load_orchestrator_config, load_adapters, args_scoping_problem,
  after_first, usable_adapters, unscoped,
}
use josu.Config.Orchestrator.Gates.{IsGated, usable_adapters-IsGated}

abbrev claude : OrchestratorAdapterConfig
claude = record {
  name = "claude-code";
  command = "claude";
  args = "--strict-mcp-config" ∷ "{mcp_config}" ∷ "--allowedTools" ∷ "Read" ∷ [];
  structured_output_mode = "stream-json";
  field_mapping = [];
  mcp_approval_verified = record { verified = true; verified_date = 100 };
}

-- An entry that is true is that of an adapter whose arguments restrict nothing.
abbrev convert : Toml → Validated OrchestratorAdapterConfig
convert (bool true) = valid (record claude { args = "-p" ∷ [] })
convert (bool false) = valid claude
convert entry = invalid "no table"

abbrev document : Toml
document = table (
    field "orchestrator"
      (table (field "adapters" (array (cons (bool true) (cons (bool false) nil))) end)) end)

program : Unit {0}
unfolding load_orchestrator_config load_adapters args_scoping_problem after_first usable_adapters
    get get_in iterate items strip_left strip_right
program = tt

loads :
    load_orchestrator_config convert document
    ≡ some (claude ∷ [], unscoped (str "<unnamed>") 1 ∷ [])
unfolding program
loads = refl

usable_adapters-IsGated_example :
    All
      (λ a. IsGated a × (a.mcp_approval_verified.verified ≡ true))
      (usable_adapters 300 (claude ∷ [])).0
unfolding program
usable_adapters-IsGated_example =
    usable_adapters-IsGated convert document 300 (claude ∷ []) (unscoped (str "<unnamed>") 1 ∷ [])
      refl
