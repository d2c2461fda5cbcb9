-- ===== src/Graph/Router/Examples.antt =====
-- Calls of an engine whose target comes up late, and of graphify, and the theorems at them.
use josu.Common.{
  String, none, some, true, false, [], ◌∷◌, ◌≡◌, refl, List, ◌==◌, eq_string, arith, contains,
}
use josu.Delegate.Json.{Fields, str, field, end, get}
use josu.Graph.Router.{
  RoutingEngine, Probe, make, reached, unavailable, to_graphify, refused, Paths,
  recognized_extensions, graphify_path, resolve_scoped_path, is_in_scope, execute, require_primary,
  reprobes,
}
use josu.Graph.Router.Probes.{
  Call, run, probe_times, IsSpaced, probe_times-IsSpaced, require_primary-recovers,
}
use josu.Graph.Router.Scope.{IsInScope, execute-IsInScope}

-- An engine is its name; the target is down at the start.
abbrev router : RoutingEngine String
router = make none true (some "unreachable")

abbrev down : Probe String
down = (none, some "incapable")

abbrev up : Probe String
up = (some "gortex", none)

abbrev calls : List (Call String)
calls = (10000, up) ∷ (40000, down) ∷ (60000, up) ∷ (75000, up) ∷ (999999, down) ∷ []

-- Every path is a document of the directory `/repo`, or the root.
abbrev paths : Paths
paths = record {
  suffix = λ path. ".docx";
  is_absolute = λ path. false;
  join = λ root path. "/repo/a.docx";
  resolve = λ path. path;
  has_parent = λ path root. path == "/repo/a.docx";
}

abbrev params : Fields
params = field "path" (str "a.docx") end

program : Unit {0}
unfolding require_primary reprobes graphify_path resolve_scoped_path is_in_scope execute get
program = tt

probes : probe_times calls router ≡ 40000 ∷ 75000 ∷ []
unfolding program
probes = refl

reason_of_down : (require_primary 40000 down router).0 ≡ unavailable "incapable"
unfolding program
reason_of_down = refl

reads : (execute paths (some "/repo") true 0 up params router).0 ≡ to_graphify "/repo/a.docx"
unfolding program
reads = refl

escapes :
    (execute
      (record paths { has_parent = λ path root. false })
      (some "/repo")
      true
      0
      up
      params
      router).0
    ≡ refused "out-of-scope"
unfolding program
escapes = refl

probe_times-IsSpaced_example : IsSpaced 0 (probe_times calls router)
probe_times-IsSpaced_example = probe_times-IsSpaced calls router

require_primary-recovers_example :
    ((require_primary 30000 (some "gortex", none) router).0 ≡ reached "gortex")
    × (((require_primary 7 down
            (run calls (require_primary 30000 (some "gortex", none) router).1)).0
          ≡ reached "gortex")
        × (probe_times calls (require_primary 30000 (some "gortex", none) router).1 ≡ []))
require_primary-recovers_example =
    require_primary-recovers 30000 "gortex" router calls 7 down refl refl (omega arith)

execute-IsInScope_example :
    (raw : String) × ((get "path" params ≡ some (str raw))
      × ((contains recognized_extensions (paths.suffix raw) ≡ true)
          × (("/repo/a.docx" ≡ resolve_scoped_path paths (some "/repo") true raw)
              × IsInScope paths "/repo" true "/repo/a.docx")))
unfolding program
execute-IsInScope_example =
    execute-IsInScope paths "/repo" true 0 up params "/repo/a.docx" router
      (record router { is_graphify_made = true }) refl
