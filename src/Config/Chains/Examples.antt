-- ===== src/Config/Chains/Examples.antt =====
-- Small configurations, and the theorems at them.
use josu.Common.{Bool, true, false, String, none, List, [], ◌∷◌, ◌≡◌, refl, eq_string}
use josu.Common.Int.{pos}
use josu.Common.Dict
use josu.Config.Toml.{Toml, str, int, array, cons, nil, table, field, end, get_in}
use josu.Config.Delegate.{DelegateCandidate, Validated, valid, invalid}
use josu.Config.Chains.{
  DelegationChain, ChainsConfig, Registry, find_chain, lookup_candidates, default_chain_order,
  resolve_chain, insert_sorted,
}
use josu.Config.Chains.Resolve.{candidates_of, resolve_chain-eq-candidates_of}

abbrev candidate : String → Bool → DelegateCandidate
candidate name local = record {
  name = name;
  endpoint = "";
  api_key_env = none;
  local = local;
  model = name;
}

abbrev far : DelegateCandidate
far = candidate "far" false

abbrev near : DelegateCandidate
near = candidate "near" true

abbrev registry : Registry
registry = ("far", far) ∷ ("near", near) ∷ []

abbrev chain : String → DelegationChain
chain task_type = record {
  task_type = task_type;
  candidates = "far" ∷ "gone" ∷ "near" ∷ [];
  explicit_order = false;
  stays_hosted = false;
}

abbrev config : ChainsConfig
config = record { chains = chain "proactive_check" ∷ chain "scaffold" ∷ []; allow_remote = true }

local_first : resolve_chain "scaffold" config registry ≡ near ∷ far ∷ []
unfolding resolve_chain find_chain lookup_candidates default_chain_order insert_sorted Dict.lookup
local_first = refl

resolve_chain-eq-candidates_of_example :
    resolve_chain "scaffold" config registry
    ≡ candidates_of (find_chain config.chains "scaffold") true registry
resolve_chain-eq-candidates_of_example = resolve_chain-eq-candidates_of "scaffold" config registry

-- A validator that reads the task type and leaves the rest at its defaults.
abbrev of_task_type : Toml → Validated DelegationChain
of_task_type (str name) = valid (chain name)
of_task_type _ = invalid "task_type: Input should be a valid string"

validate : Toml → Validated DelegationChain
validate entry = of_task_type (get_in entry "task_type" (int (pos 0)))

abbrev validate_flag : Toml → Validated Bool
validate_flag value = valid false

abbrev entry : Toml → Toml
entry name = table (field "task_type" name end)

abbrev entries : List Toml
entries = entry (str "scaffold") ∷ entry (int (pos 3)) ∷ entry (str "scaffold") ∷ []

abbrev document : Toml → Toml
document chains = table (field "delegation" (table (field "chains" chains end)) end)

abbrev good : Toml
good = document (
    array (
      cons (entry (str "scaffold"))
        (cons (entry (int (pos 3))) (cons (entry (str "scaffold")) nil))))

abbrev loaded : ChainsConfig
loaded = record { chains = chain "scaffold" ∷ chain "scaffold" ∷ []; allow_remote = false }
