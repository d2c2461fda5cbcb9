-- ===== src/Daemon/Auth.antt =====
-- src/josu/daemon_auth.py: the token file and `DaemonAuthMiddleware`.
pub mod Token
pub mod Entry
use josu.Common.{
  Bool, true, false, not, ◌&&◌, ◌||◌, String, Option, none, some, List, [], ◌∷◌, if◌then◌else◌,
  ◌==◌, eq_string, get_or_else, any,
}
use josu.Common.Text.{starts_with}
use josu.Common.Latin.{is_ascii, cut_prefix_lower, strip}

abbrev pub session_scoped_path_prefixes : List String
session_scoped_path_prefixes = "/graph/messages/" ∷ "/delegate/messages/" ∷ []

-- The parts of an ASGI scope that are looked at.
pub record Scope : Type 0 where
  pub type : String
  pub path : String
  -- the `token` of the query, and the `authorization` header
  pub query_token : Option String
  pub authorization : Option String

-- How a request ends here: at the app, with a 401, or with the TypeError of `compare_digest`.
pub data Access : Type 0 where
  invoked unauthorized type_error : Access

-- `secrets.compare_digest`, where `none` is its TypeError for texts that are not ASCII
unfoldable pub compare_digest : (a b : String) → Option Bool
compare_digest a b = if is_ascii a && is_ascii b then some (a == b) else none

-- `supplied`
unfoldable pub supplied_token : Scope → Option String
supplied_token scope = elim scope.query_token [
  | some token ↦ some token
  | none ↦ cut_prefix_lower "bearer " (get_or_else scope.authorization "")
]

check_token : String → Option String → Access
unfolding compare_digest
check_token token none = unauthorized
check_token token (some supplied) = elim (compare_digest supplied token) [
  | none ↦ type_error
  | some true ↦ invoked
  | some false ↦ unauthorized
]

-- `path.startswith(_SESSION_SCOPED_PATH_PREFIXES)`
abbrev pub is_session_scoped : String → Bool
is_session_scoped path = any (starts_with path) session_scoped_path_prefixes

-- `DaemonAuthMiddleware.__call__`
unfoldable pub middleware_call : (token : String) → Scope → Access
unfolding check_token supplied_token
middleware_call token scope =
    if not (scope.type == "http")
    then invoked
    else if is_session_scoped scope.path
    then invoked
    else check_token token (supplied_token scope)

-- What `load_or_create_daemon_token` meets on its way: the text that `secrets` generates, the file
-- that another process has made since the first look, and whether the write goes through.
pub record Meets : Type 0 where
  pub generated : String
  pub raced : Option String
  pub write_succeeds : Bool

-- The token, or `none` for the exception of a failed write, with the file that is left.
unfoldable pub load_or_create_daemon_token :
    Meets → (file : Option String) → Option String × Option String
load_or_create_daemon_token meets (some text) = (some (strip text), some text)
load_or_create_daemon_token meets none = elim meets.raced [
  | some text ↦ (some (strip text), some text)
  | none ↦
      if meets.write_succeeds then (some meets.generated, some meets.generated) else (none, none)
]
