-- ===== src/Graph/Router.antt =====
-- src/josu/graph/router.py: RoutingEngine, up to the engine that a call reaches. An engine is a value
-- of a parameter, times are ticks of a thousandth of a second, and the operations on paths, what a
-- probe of the target answers and whether graphify can be imported are parameters.
pub mod Probes
pub mod Scope
mod Examples
use josu.Common.{
  ℕ, ◌+◌, Bool, true, false, not, ◌&&◌, ◌||◌, String, Option, none, some, List, [], ◌∷◌, contains,
  leb, if◌then◌else◌, ◌==◌, eq_string, get_or_else, is_some,
}
use josu.Common.Latin.{is_empty}
use josu.Delegate.Json.{Json, str, Fields, get}

abbrev pub reprobe_interval : ℕ
reprobe_interval = 30000

-- `RECOGNIZED_EXTENSIONS`
abbrev pub recognized_extensions : List String
recognized_extensions = ".xlsx" ∷ ".docx" ∷ ".gdoc" ∷ ".gsheet" ∷ ".gslides" ∷ []

-- What `primary_factory` returns: an engine or none, and the reason of none.
abbrev pub Probe : Type 0 → Type 0
Probe E = Option E × Option String

pub record RoutingEngine (E : Type 0) : Type 0 where
  pub primary : Option E
  pub has_factory : Bool
  pub is_graphify_made : Bool
  pub is_instruction_shown : Bool
  pub last_reprobe_at : ℕ
  pub unavailable_reason : Option String

-- An engine, or the reason of a GraphEngineUnavailableError.
pub data Reached (E : Type 0) : Type 0 where
  reached : E → Reached E
  unavailable : (reason : String) → Reached E

-- `__init__`
abbrev pub make : {E : Type 0} → Option E → Bool → Option String → RoutingEngine E
make primary has_factory reason = record {
  primary = primary;
  has_factory = has_factory;
  is_graphify_made = false;
  is_instruction_shown = false;
  last_reprobe_at = 0;
  unavailable_reason = if is_some primary then none else reason;
}

-- `self._unavailable_reason or "unconfigured"`
abbrev or_unconfigured : Option String → String
or_unconfigured none = "unconfigured"
or_unconfigured (some reason) = if is_empty reason then "unconfigured" else reason

module _ {E : Type 0} where
  -- The target is probed at a time.
  unfoldable pub reprobes : ℕ → RoutingEngine E → Bool
  reprobes now r =
      not (is_some r.primary) && r.has_factory && leb (r.last_reprobe_at + reprobe_interval) now

  abbrev pub probed : ℕ → Probe E → RoutingEngine E → RoutingEngine E
  probed now probe r = record r {
    primary = probe.0;
    unavailable_reason = probe.1;
    last_reprobe_at = now;
  }

  abbrev pub answer : RoutingEngine E → Reached E
  answer r = elim r.primary [
    | none ↦ unavailable (or_unconfigured r.unavailable_reason)
    | some engine ↦ reached engine
  ]

  -- `_require_primary`, at a time, where the probe answers that if it is made
  unfoldable pub require_primary : ℕ → Probe E → RoutingEngine E → Reached E × RoutingEngine E
  require_primary now probe r =
      if reprobes now r then (answer (probed now probe r), probed now probe r) else (answer r, r)

-- The engine that an `execute` reaches, and the path that graphify is given.
pub data Dispatched (E : Type 0) : Type 0 where
  to_graphify : (path : String) → Dispatched E
  to_primary : Reached E → Dispatched E
  refused : (reason : String) → Dispatched E

-- Of `pathlib`: the suffix in lower case, whether a path is absolute, a path under a root, its
-- resolution, and whether the second path is among the parents of the first.
pub record Paths : Type 0 where
  pub suffix : String → String
  pub is_absolute : String → Bool
  pub join : String → String → String
  pub resolve : String → String
  pub has_parent : String → String → Bool

module _ (paths : Paths) (scope_root : Option String) (can_import : Bool) where
  -- `_is_graphify_path`, and the path
  unfoldable pub graphify_path : Option Json → Option String
  graphify_path (some (str path)) =
      if not (is_empty path) && contains recognized_extensions (paths.suffix path)
      then some path
      else none
  graphify_path _ = none

  -- `_resolve_scoped_path`
  unfoldable pub resolve_scoped_path : String → String
  resolve_scoped_path path = elim scope_root [
    | none ↦ paths.resolve path
    | some root ↦
        if not (paths.is_absolute path)
        then paths.resolve (paths.join root path)
        else paths.resolve path
  ]

  -- `_check_in_scope` passes.
  unfoldable pub is_in_scope : String → Bool
  is_in_scope resolved = elim scope_root [
    | none ↦ true
    | some root ↦ resolved == root || paths.has_parent resolved root
  ]

  module _ {E : Type 0} where
    -- `_resolve_graphify`, and the engine's call
    dispatch_graphify : String → RoutingEngine E → Dispatched E × RoutingEngine E
    dispatch_graphify resolved r =
        if r.is_graphify_made
        then (to_graphify resolved, r)
        else if can_import
        then (to_graphify resolved, record r { is_graphify_made = true })
        else (refused "graphify-not-installed", record r { is_instruction_shown = true })

    dispatch_scoped : String → RoutingEngine E → Dispatched E × RoutingEngine E
    unfolding dispatch_graphify
    dispatch_scoped resolved r =
        if not (is_in_scope resolved)
        then (refused "out-of-scope", r)
        else dispatch_graphify resolved r

    -- `execute`
    unfoldable pub execute :
        ℕ → Probe E → (params : Fields) → RoutingEngine E → Dispatched E × RoutingEngine E
    unfolding dispatch_scoped
    execute now probe params r = elim (graphify_path (get "path" params)) [
      | some path ↦ dispatch_scoped (resolve_scoped_path path) r
      | none ↦ let (engine, r') = require_primary now probe r in (to_primary engine, r')
    ]
