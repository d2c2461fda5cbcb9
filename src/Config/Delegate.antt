-- ===== src/Config/Delegate.antt =====
-- src/josu/config/delegate.py: the roster of delegate candidates. Pydantic's validation of one entry
-- and the environment are parameters.
use josu.Common.{
  Bool, String, Option, none, some, List, [], ◌∷◌, ◌++◌, if◌then◌else◌, ◌≡◌, refl, ◌⊎◌, inl, inr,
}
use josu.Config.Toml.{Toml, str, array, nil, table, end, get_in, iterate}

pub record DelegateCandidate : Type 0 where
  pub name : String
  pub endpoint : String
  pub api_key_env : Option String
  pub local : Bool
  pub model : String

-- What a pydantic model's `model_validate` returns, or the detail of its `ValidationError`.
pub data Validated (A : Type 0) : Type 0 where
  valid : A → Validated A
  invalid : String → Validated A

pub Validated-cases :
    {A : Type 0} (v : Validated A)
    → ((detail : String) × (v ≡ invalid detail)) ⊎ ((a : A) × (v ≡ valid a))
Validated-cases (valid a) = inr (a, refl)
Validated-cases (invalid detail) = inl (detail, refl)

pub data Warning : Type 0 where
  rejected : (name : Toml) (detail : String) → Warning
  unset : (name variable : String) → Warning

module _ (validate : Toml → Validated DelegateCandidate) (in_environ : String → Bool) where
  -- The loop over the raw entries.
  unfoldable pub load_entries : List Toml → List DelegateCandidate × List Warning
  load_entries [] = ([], [])
  load_entries (entry ∷ rest) =
      let (candidates, warnings) = load_entries rest in
      elim (validate entry) [
        | valid candidate ↦ (candidate ∷ candidates, warnings)
        | invalid detail ↦
            (candidates, rejected (get_in entry "name" (str "<unnamed>")) detail ∷ warnings)
      ]

  env_warning : DelegateCandidate → List Warning
  env_warning c = elim c.api_key_env [
    | none ↦ []
    | some variable ↦ if in_environ variable then [] else unset c.name variable ∷ []
  ]

  unfoldable pub env_warnings : List DelegateCandidate → List Warning
  unfolding env_warning
  env_warnings [] = []
  env_warnings (c ∷ cs) = env_warning c ++ env_warnings cs

  -- `load_delegate_config`, where `none` is the `TypeError` of a `candidates` value that cannot be
  -- iterated
  unfoldable pub load_delegate_config : Toml → Option (List DelegateCandidate × List Warning)
  load_delegate_config document =
      let section = get_in document "delegate" (table end) in
      elim (iterate (get_in section "candidates" (array nil))) [
        | none ↦ none
        | some entries ↦
            let (candidates, warnings) = load_entries entries in
            some (candidates, warnings ++ env_warnings candidates)
      ]
