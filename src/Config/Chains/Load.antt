-- ===== src/Config/Chains/Load.antt =====
-- `load_chains_config` of src/josu/config/chains.py. Pydantic's validation of a chain entry and of
-- the `allow_remote` flag are parameters.
use josu.Common.{
  ℕ, ◌+◌, Bool, false, String, none, some, List, [], ◌∷◌, ◌≡◌, refl, arith, contains, length,
  if◌then◌else◌, eq_string, inl, inr,
}
use josu.Config.Toml.{Toml, str, array, nil, table, end, bool, get_in, iterate}
use josu.Config.Delegate.{Validated, valid, invalid, Validated-cases}
use josu.Config.Chains.{DelegationChain, ChainsConfig}

pub data ChainWarning : Type 0 where
  rejected : (task_type : Toml) (detail : String) → ChainWarning
  repeated : (task_type : String) → ChainWarning

pub data LoadError : Type 0 where
  type_error : LoadError
  validation_error : String → LoadError

pub data Loaded (A : Type 0) : Type 0 where
  ok : A → Loaded A
  raised : LoadError → Loaded A

module _ (validate : Toml → Validated DelegationChain) where
  -- The loop, from the task types seen so far.
  unfoldable pub load_entries : List String → List Toml → List DelegationChain × List ChainWarning
  load_entries seen [] = ([], [])
  load_entries seen (entry ∷ rest) = elim (validate entry) [
    | invalid detail ↦
        let (chains, warnings) = load_entries seen rest in
        (chains, rejected (get_in entry "task_type" (str "<unnamed>")) detail ∷ warnings)
    | valid chain ↦
        let (chains, warnings) = load_entries (chain.task_type ∷ seen) rest in
        (
          chain ∷ chains,
          (if contains seen chain.task_type then repeated chain.task_type ∷ warnings else warnings),
        )
  ]

  unfoldable pub load_chains_config :
      (Toml → Validated Bool) → Toml → Loaded (ChainsConfig × List ChainWarning)
  load_chains_config validate_flag document =
      let section = get_in document "delegation" (table end) in
      elim (iterate (get_in section "chains" (array nil))) [
        | none ↦ raised type_error
        | some entries ↦
            let (chains, warnings) = load_entries [] entries in
            elim (validate_flag (get_in document "allow_remote" (bool false))) [
              | invalid detail ↦ raised (validation_error detail)
              | valid allow_remote ↦
                  ok (record { chains = chains; allow_remote = allow_remote }, warnings)
            ]
      ]

  -- The entries that pass validation, in the order of the document.
  abbrev pub valid_entries : List Toml → List DelegationChain
  valid_entries [] = []
  valid_entries (entry ∷ rest) =
      let others = valid_entries rest in
      elim (validate entry) [ invalid detail ↦ others | valid chain ↦ chain ∷ others ]

  abbrev pub count_invalid : List Toml → ℕ
  count_invalid [] = 0
  count_invalid (entry ∷ rest) =
      let others = count_invalid rest in
      elim (validate entry) [ invalid detail ↦ others + 1 | valid chain ↦ others ]

-- How many chains name a task type that an earlier one names.
abbrev pub count_repeated : List String → List DelegationChain → ℕ
count_repeated seen [] = 0
count_repeated seen (chain ∷ chains) =
    let others = count_repeated (chain.task_type ∷ seen) chains in
    if contains seen chain.task_type then others + 1 else others

module _ (validate : Toml → Validated DelegationChain) where
  load_entries-eq :
      (seen : List String) (entries : List Toml)
      → ((load_entries validate seen entries).0 ≡ valid_entries validate entries)
        × (length (load_entries validate seen entries).1
            ≡ count_invalid validate entries + count_repeated seen (valid_entries validate entries))
  unfolding load_entries
  load_entries-eq seen [] = (refl, omega arith)
  load_entries-eq seen (entry ∷ rest) = elim (Validated-cases (validate entry)) [
    | inl (detail, e) ↦ ground (arith, load_entries-eq seen rest)
    | inr (chain, e) ↦ ground (arith, load_entries-eq (chain.task_type ∷ seen) rest)
  ]

  -- Loading keeps exactly the chain entries that pass validation, in order, and writes one warning
  -- for each entry that does not and one for each kept chain whose task type an earlier one names.
  pub load_chains_config-keeps_valid :
      (validate_flag : Toml → Validated Bool) (document : Toml) (entries : List Toml)
      (config : ChainsConfig) (warnings : List ChainWarning)
      → iterate (get_in (get_in document "delegation" (table end)) "chains" (array nil))
        ≡ some entries
      → load_chains_config validate validate_flag document ≡ ok (config, warnings)
      → (config.chains ≡ valid_entries validate entries)
        × (length warnings ≡ count_invalid validate entries + count_repeated [] config.chains)
  unfolding load_chains_config
  load_chains_config-keeps_valid validate_flag document entries config warnings e h =
      ground (arith, load_entries-eq [] entries)

  -- The document is refused by a raised TypeError, not by a warning, when the value under
  -- `delegation.chains` is a number, a Boolean or a date.
  pub load_chains_config_raises :
      (validate_flag : Toml → Validated Bool) (document : Toml)
      → iterate (get_in (get_in document "delegation" (table end)) "chains" (array nil)) ≡ none
      → load_chains_config validate validate_flag document ≡ raised type_error
  unfolding load_chains_config
  load_chains_config_raises validate_flag document e = ground arith
