-- ===== src/Config/Load/Examples.antt =====
-- Loads of a file with a bad and a good number, and the theorem at one.
use josu.Common.{true, false, none, some, [], ◌∷◌, ◌≡◌, refl, eq_string}
use josu.Common.Int.{pos, inf}
use josu.Config.Toml.{int, float, table, end, field, get, get_in, iterate, items}
use josu.Config.Delegate as Delegate
use josu.Config.Delegate.{invalid, valid, load_delegate_config, env_warnings}
use josu.Config.Chains.Load as Chains
use josu.Config.Chains.Load.{load_chains_config}
use josu.Config.Orchestrator.{load_orchestrator_config, load_adapters}
use josu.Config.GraphEngines.{load_graph_engines_config, load_engines}
use josu.Config.Settings.{
  not_positive, load_seconds, load_threshold, load_delegate_cooldown_config, to_float, to_int,
}
use josu.Config.Load.{
  JosuConfig, ConfigFile, Readers, loaded, raised, permissions, settings_part, open_to_others,
  of_settings, default_config, load_config, check_permissions, is_open_to_others,
}
use josu.Config.Load.Accepted.{IsAccepted, load_config-IsAccepted}

-- No entry is valid, the flag is false.
abbrev readers : Readers
readers = record {
  candidate = λ entry. invalid "no table";
  chain = λ entry. invalid "no table";
  flag = λ value. valid false;
  adapter = λ entry. invalid "no table";
  engine = λ entry. invalid "no table";
  in_environ = λ name. false;
  too_large = λ n. false;
  parse_float = λ text. none;
  parse_int = λ text. none;
}

-- `failure_threshold = 7` and `cooldown_seconds = inf`, in a file of mode 0o100644
abbrev file : ConfigFile
file = record {
  mode = 33188;
  document = some (
      table (
        field "delegate"
          (table
            (field "failure_threshold" (int (pos 7)) (field "cooldown_seconds" (float inf) end)))
          end));
}

abbrev expected : JosuConfig
expected = record default_config {
  candidate_failure_threshold = pos 7;
  warnings = open_to_others ∷ of_settings (not_positive "cooldown_seconds") ∷ [];
}

program : Unit {0}
unfolding load_config check_permissions is_open_to_others load_delegate_config load_chains_config
    load_orchestrator_config load_graph_engines_config load_seconds load_threshold
    load_delegate_cooldown_config to_float to_int get get_in iterate items Delegate.load_entries
    Chains.load_entries load_adapters load_engines env_warnings
program = tt

loads : load_config readers (some file) false ≡ loaded expected
unfolding program
loads = refl

refuses : load_config readers (some file) true ≡ raised permissions
unfolding program
refuses = refl

-- An integer that is too large for a float.
overflows :
    load_config
      (record readers { too_large = λ n. true })
      (some (record {
        mode = 33152;
        document = some (
            table (
              field "orchestrator"
                (table (field "wall_clock_timeout_seconds" (int (pos 9)) end))
                end));
      }))
      false
    ≡ raised settings_part
unfolding program
overflows = refl

load_config-IsAccepted_example : IsAccepted expected
unfolding program
load_config-IsAccepted_example = load_config-IsAccepted readers (some file) false expected refl
