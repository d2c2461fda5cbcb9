-- ===== src/Graph/Router/Scope.antt =====
-- What graphify is asked to read.
use josu.Common.{
  Bool, true, false, ◌||◌, String, Option, none, some, ◌≡◌, refl, sym, subst, ◌∙◌, arith, ◌==◌,
  eq_string, contains, inl, inr, Bool-cases, Option-cases, ℕ,
}
use josu.Delegate.Json.{Json, str, Fields, get}
use josu.Graph.Router.{
  RoutingEngine, Probe, Dispatched, to_graphify, refused, Paths, recognized_extensions,
  graphify_path, resolve_scoped_path, is_in_scope, dispatch_graphify, dispatch_scoped, execute,
}

module _ (paths : Paths) (root : String) (can_import : Bool) where
  graphify_path-some :
      (value : Option Json) (raw : String)
      → graphify_path paths (some root) can_import value ≡ some raw
      → (value ≡ some (str raw)) × (contains recognized_extensions (paths.suffix raw) ≡ true)
  unfolding graphify_path
  graphify_path-some (some (str text)) raw h = ground arith
  graphify_path-some none raw h = cc
  graphify_path-some (some Json.null) raw h = cc
  graphify_path-some (some (Json.bool b)) raw h = cc
  graphify_path-some (some (Json.number n)) raw h = cc
  graphify_path-some (some (Json.array vs)) raw h = cc
  graphify_path-some (some (Json.object fs)) raw h = cc

  -- The root itself, or a path below it.
  abbrev pub IsInScope : String → Type 0
  IsInScope path = (path == root || paths.has_parent path root) ≡ true

  is_in_scope-IsInScope :
      (resolved : String)
      → is_in_scope paths (some root) can_import resolved ≡ true
      → IsInScope resolved
  unfolding is_in_scope
  is_in_scope-IsInScope resolved inside = inside

  module _ {E : Type 0} where
    dispatch_graphify-path :
        (resolved path : String) (r r' : RoutingEngine E)
        → dispatch_graphify paths (some root) can_import resolved r ≡ (to_graphify path, r')
        → path ≡ resolved
    unfolding dispatch_graphify
    dispatch_graphify-path resolved path r r' h = ground arith

    scoped-inside :
        (resolved : String) (r : RoutingEngine E)
        → is_in_scope paths (some root) can_import resolved ≡ true
        → dispatch_scoped paths (some root) can_import resolved r
          ≡ dispatch_graphify paths (some root) can_import resolved r
    unfolding dispatch_scoped
    scoped-inside resolved r inside = rw inside refl

    scoped-outside :
        (resolved : String) (r : RoutingEngine E)
        → is_in_scope paths (some root) can_import resolved ≡ false
        → dispatch_scoped paths (some root) can_import resolved r ≡ (refused "out-of-scope", r)
    unfolding dispatch_scoped
    scoped-outside resolved r outside = rw outside refl

    dispatch_scoped-IsInScope :
        (resolved path : String) (r r' : RoutingEngine E)
        → dispatch_scoped paths (some root) can_import resolved r ≡ (to_graphify path, r')
        → (path ≡ resolved) × IsInScope path
    dispatch_scoped-IsInScope resolved path r r' h =
        elim (Bool-cases (is_in_scope paths (some root) can_import resolved)) [
          | inl inside ↦
              let same =
                dispatch_graphify-path resolved path r r'
                  (sym (scoped-inside resolved r inside) ∙ h) in
              (same, subst IsInScope (sym same) (is_in_scope-IsInScope resolved inside))
          | inr outside ↦
              let clash : ◌≡◌ {A = Dispatched E × RoutingEngine E} (refused "out-of-scope", r)
                  (to_graphify path, r') =
                sym (scoped-outside resolved r outside) ∙ h in
              cc
        ]

    -- Where the engine has a scope, a call reaches graphify only with the resolution of the text that
    -- it names as its path, which has a recognized suffix, and only if that is the root of the scope
    -- or a path below it.
    pub execute-IsInScope :
        (now : ℕ) (probe : Probe E) (params : Fields) (path : String) (r r' : RoutingEngine E)
        → execute paths (some root) can_import now probe params r ≡ (to_graphify path, r')
        → (raw : String) × ((get "path" params ≡ some (str raw))
            × ((contains recognized_extensions (paths.suffix raw) ≡ true)
                × ((path ≡ resolve_scoped_path paths (some root) can_import raw) × IsInScope path)))
    unfolding execute
    execute-IsInScope now probe params path r r' h =
        elim (Option-cases (graphify_path paths (some root) can_import (get "path" params))) [
          | inl other ↦ grind arith
          | inr (raw, named) ↦
              let (given, known) = graphify_path-some (get "path" params) raw named in
              (
                raw,
                (
                  given,
                  (
                    known,
                    dispatch_scoped-IsInScope (resolve_scoped_path paths (some root) can_import raw)
                        path r r' (grind arith),
                  ),
                ),
              )
        ]
