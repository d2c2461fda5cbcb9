-- ===== src/Config/Orchestrator/Gates.antt =====
-- What the adapters have passed that are loaded and usable.
use josu.Common.{
  ℕ, true, false, String, Option, none, some, List, [], ◌∷◌, ◌++◌, contains, ◌≡◌, ◌≢◌, refl, ap,
  sym, ◌∙◌, subst, arith, All, ◌==◌, eq_string, eq_iff, inl, inr, ◌⊎◌, Bool-cases, Option-cases,
}
use josu.Common.Latin.{strip, is_empty}
use josu.Config.Toml.{
  Toml, str, int, float, bool, datetime, array, table, nil, end, get_in, iterate,
}
use josu.Config.Delegate.{Validated, valid, Validated-cases}
use josu.Config.Orchestrator.{
  OrchestratorAdapterConfig, AdapterWarning, allowed_adapter_commands, allowed_output_modes,
  after_first, args_scoping_problem, is_declarable, load_entry, prepend_some, load_adapters,
  load_entries_of, load_section, load_orchestrator_config, usable_adapters,
}

-- The arguments name the strict MCP configuration, and the first `--allowedTools` among them is
-- followed by a value that is not blank.
abbrev pub IsScoped : List String → Type 0
IsScoped args =
    (contains args "--strict-mcp-config" ≡ true)
    × ((before : List String) × ((value : String) × ((rest : List String) × ((args
                ≡ before ++ "--allowedTools" ∷ value ∷ rest)
              × ((contains before "--allowedTools" ≡ false) × (is_empty (strip value) ≡ false))))))

after_first-some :
    (name : String) (args rest : List String)
    → after_first name args ≡ some rest
    → (before : List String) × ((args ≡ before ++ name ∷ rest) × (contains before name ≡ false))
unfolding after_first
after_first-some name [] rest h = cc
after_first-some name (arg ∷ args) rest h = elim (Bool-cases (arg == name)) [
  | inl same ↦ (
    [],
    (
      (let named : arg ≡ name = (eq_iff arg name).0 same in
          let tail : some args ≡ some rest = ground arith in cc),
      refl,
    ),
  )
  | inr differs ↦
      let (before, (shape, absent)) = after_first-some name args rest (ground arith) in
      (arg ∷ before, (ap (λ l. arg ∷ l) shape, ground (arith, eq_iff name arg, eq_iff arg name)))
]

some-none : (n : ℕ) → some n ≢ none
some-none n h = cc

scoped : (args : List String) → args_scoping_problem args ≡ none → IsScoped args
unfolding args_scoping_problem
scoped args h = elim (Bool-cases (contains args "--strict-mcp-config")) [
  | inr open_mcp ↦ absurd (some-none 1 (ground arith))
  | inl strict ↦ elim (Option-cases (after_first "--allowedTools" args)) [
    | inl missing ↦ absurd (some-none 2 (ground arith))
    | inr ([], found) ↦ absurd (some-none 3 (ground arith))
    | inr (value ∷ rest, found) ↦
        let (before, (shape, absent)) =
          after_first-some "--allowedTools" args (value ∷ rest) found in
        (strict, (before, (value, (rest, (shape, (absent, ground arith))))))
  ]
]

-- An adapter that the loader lets through.
abbrev pub IsGated : OrchestratorAdapterConfig → Type 0
IsGated = λ a.
    (contains allowed_adapter_commands a.command ≡ true)
    × ((contains allowed_output_modes a.structured_output_mode ≡ true) × IsScoped a.args)

none-some : (a : OrchestratorAdapterConfig) → none ≢ some a
none-some a h = cc

module _ (convert : Toml → Validated OrchestratorAdapterConfig) where
  refused :
      (entry : Toml) (b : OrchestratorAdapterConfig)
      → convert entry ≡ valid b
      → (is_declarable b ≡ false) ⊎ ((reason : ℕ) × (args_scoping_problem b.args ≡ some reason))
      → (load_entry convert entry).0 ≡ none
  unfolding load_entry
  refused entry b good (inl undeclared) = rw (good, undeclared, load_entry) refl
  refused entry b good (inr (reason, problem)) = elim (Bool-cases (is_declarable b)) [
    | inl declared ↦ rw (good, declared, problem, load_entry) refl
    | inr undeclared ↦ rw (good, undeclared, load_entry) refl
  ]

  taken :
      (entry : Toml) (b : OrchestratorAdapterConfig)
      → convert entry ≡ valid b
      → is_declarable b ≡ true
      → args_scoping_problem b.args ≡ none
      → (load_entry convert entry).0 ≡ some b
  unfolding load_entry
  taken entry b good declared restricted = rw (good, declared, restricted, load_entry) refl

  load_entry-IsGated :
      (entry : Toml) (a : OrchestratorAdapterConfig)
      → (load_entry convert entry).0 ≡ some a
      → IsGated a
  unfolding load_entry
  load_entry-IsGated entry a h = elim (Validated-cases (convert entry)) [
    | inl (detail, bad) ↦ cc
    | inr (b, good) ↦ elim (Bool-cases (is_declarable b)) [
      | inr undeclared ↦ absurd (none-some a (sym (refused entry b good (inl undeclared)) ∙ h))
      | inl declared ↦ elim (Option-cases (args_scoping_problem b.args)) [
        | inr (reason, problem) ↦
            absurd (none-some a (sym (refused entry b good (inr (reason, problem))) ∙ h))
        | inl restricted ↦
            let same : some b ≡ some a = sym (taken entry b good declared restricted) ∙ h in
            let is : b ≡ a = cc in
            subst IsGated is (ground arith, (ground arith, scoped b.args restricted))
      ]
    ]
  ]

  prepend_some-All :
      (P : OrchestratorAdapterConfig → Type 0) (o : Option OrchestratorAdapterConfig)
      (xs : List OrchestratorAdapterConfig)
      → ((a : OrchestratorAdapterConfig) → o ≡ some a → P a)
      → All P xs
      → All P (prepend_some convert o xs)
  unfolding prepend_some
  prepend_some-All P none xs h k = k
  prepend_some-All P (some a) xs h k = (h a refl, k)

  load_adapters-IsGated : (entries : List Toml) → All IsGated (load_adapters convert entries).0
  unfolding load_adapters
  load_adapters-IsGated [] = tt
  load_adapters-IsGated (entry ∷ entries) =
      prepend_some-All IsGated (load_entry convert entry).0 (load_adapters convert entries).0
        (load_entry-IsGated entry) (load_adapters-IsGated entries)

  load_entries_of-IsGated :
      (entries : Option (List Toml)) (adapters : List OrchestratorAdapterConfig)
      (warnings : List AdapterWarning)
      → load_entries_of convert entries ≡ some (adapters, warnings)
      → All IsGated adapters
  unfolding load_entries_of
  load_entries_of-IsGated none adapters warnings h = cc
  load_entries_of-IsGated (some entries) adapters warnings h =
      let same : (load_adapters convert entries).0 ≡ adapters = cc in
      subst (All IsGated) same (load_adapters-IsGated entries)

  load_section-IsGated :
      (section : Toml) (adapters : List OrchestratorAdapterConfig) (warnings : List AdapterWarning)
      → load_section convert section ≡ some (adapters, warnings)
      → All IsGated adapters
  unfolding load_section
  load_section-IsGated (table fields) adapters warnings h =
      load_entries_of-IsGated (iterate (get_in (table fields) "adapters" (array nil))) adapters
        warnings h
  load_section-IsGated (str s) adapters warnings h = cc
  load_section-IsGated (int z) adapters warnings h = cc
  load_section-IsGated (float x) adapters warnings h = cc
  load_section-IsGated (bool b) adapters warnings h = cc
  load_section-IsGated datetime adapters warnings h = cc
  load_section-IsGated (array xs) adapters warnings h = cc

usable_adapters-verified :
    (today : ℕ) (a : OrchestratorAdapterConfig) (xs : List OrchestratorAdapterConfig)
    → a.mcp_approval_verified.verified ≡ true
    → (usable_adapters today (a ∷ xs)).0 ≡ a ∷ (usable_adapters today xs).0
unfolding usable_adapters
usable_adapters-verified today a xs verified = ground arith

usable_adapters-All :
    (P : OrchestratorAdapterConfig → Type 0) (today : ℕ) (xs : List OrchestratorAdapterConfig)
    → All P xs
    → All (λ a. P a × (a.mcp_approval_verified.verified ≡ true)) (usable_adapters today xs).0
unfolding usable_adapters
usable_adapters-All P today [] h = tt
usable_adapters-All P today (a ∷ xs) h = elim (Bool-cases a.mcp_approval_verified.verified) [
  | inr unverified ↦ ground (arith, usable_adapters-All P today xs h.1)
  | inl verified ↦
      subst (All (λ b. P b × (b.mcp_approval_verified.verified ≡ true)))
        (sym (usable_adapters-verified today a xs verified))
        ((h.0, verified), usable_adapters-All P today xs h.1)
]

-- Every adapter that is usable after a load is of an allowed command and an allowed output mode, is
-- attested, and has arguments that name the strict MCP configuration and give `--allowedTools` a
-- value that is not blank.
pub usable_adapters-IsGated :
    (convert : Toml → Validated OrchestratorAdapterConfig) (document : Toml) (today : ℕ)
    (adapters : List OrchestratorAdapterConfig) (warnings : List AdapterWarning)
    → load_orchestrator_config convert document ≡ some (adapters, warnings)
    → All
        (λ a. IsGated a × (a.mcp_approval_verified.verified ≡ true))
        (usable_adapters today adapters).0
unfolding load_orchestrator_config
usable_adapters-IsGated convert document today adapters warnings h =
    usable_adapters-All IsGated today adapters (
      load_section-IsGated convert (get_in document "orchestrator" (table end)) adapters warnings h)
