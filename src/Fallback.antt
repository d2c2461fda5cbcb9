-- ===== src/Fallback.antt =====
-- src/josu/fallback/quota.py: the signs of an exhausted quota, the markers of abandoned worktrees,
-- and the direct way to a delegate. A directory of markers maps the name before `.json` to what a
-- marker file holds; times are arguments.
use Prim.Native.Char.{Char, code}
use Prim.Native.String as Str
use josu.Common.{
  ℕ, ◌+◌, Bool, true, false, not, ◌&&◌, ◌||◌, String, Option, none, some, List, [], ◌∷◌, any,
  nat_eq, leb, if◌then◌else◌, is_some, contains, eq_string, ◌>>=◌,
}
use josu.Common.Dict
use josu.Common.Dict.{Dict}
use josu.Common.Int.{ℤ, pos, negsuc}
use josu.Common.Text.{concat}
use josu.Config.Chains.{ChainsConfig, Registry, delegable_task_types}
use josu.Delegate.LocalModel.{DelegateResult}
use josu.Delegate.Chain.{Env, Session, Outcome, served, execute_chain}
use josu.Orchestrator.Worktree.{Worktree}

abbrev pub abandon_reason_quota_exhaustion : String
abandon_reason_quota_exhaustion = "quota_exhaustion_detected_mid_run"

abbrev pub abandon_reason_crash_orphaned : String
abandon_reason_crash_orphaned = "crash_orphaned_no_matching_record"

pub record ClaudeCodeFailureSignal : Type 0 where
  pub returncode : ℤ
  pub stdout : String
  pub stderr : String

-- The letter that `re.IGNORECASE` compares, by its code: ASCII letters, and the four other characters
-- that it holds to be an i, an s or a k.
abbrev fold_code : Char → ℕ
fold_code c =
    let n = code c in
    if leb 65 n && leb n 90
    then n + 32
    else if nat_eq n 304 || nat_eq n 305
    then 105
    else if nat_eq n 383
    then 115
    else if nat_eq n 8490
    then 107
    else n

-- The text behind a literal that it begins with.
unfoldable pub cut_folded : (p s : String) → Option String
cut_folded Str.[] s = some s
cut_folded (Str.◌∷◌ d p) Str.[] = none
cut_folded (Str.◌∷◌ d p) (Str.◌∷◌ c s) =
    let rest = cut_folded p s in if nat_eq (fold_code c) (code d) then rest else none

-- A search tries a match at every place.
unfoldable pub search : (String → Bool) → String → Bool
search here Str.[] = here Str.[]
search here (Str.◌∷◌ c s) = here (Str.◌∷◌ c s) || search here s

-- A literal, and a literal with one of two ends.
abbrev literal : String → String → Bool
literal p s = is_some (cut_folded p s)

abbrev one_of : String → List String → String → Bool
one_of p ends s = elim (cut_folded p s) [
  | none ↦ false
  | some rest ↦ any (λ e. literal e rest) ends
]

-- `signal.combined_text`
abbrev pub combined_text : ClaudeCodeFailureSignal → String
combined_text signal = concat signal.stdout (concat "\n" signal.stderr)

abbrev is_zero : ℤ → Bool
is_zero (pos n) = nat_eq n 0
is_zero (negsuc n) = false

-- `is_digit` is the `\d` of `re`.
module _ (is_digit : Char → Bool) where
  -- `\d+-hour limit`, found at its last digit
  abbrev hour_limit : String → Bool
  hour_limit Str.[] = false
  hour_limit (Str.◌∷◌ c s) = is_digit c && literal "-hour limit" s

  abbrev quota_patterns : List (String → Bool)
  quota_patterns =
      literal "rate limit"
      ∷ literal "usage limit"
      ∷ hour_limit
      ∷ one_of "quota " ("exceeded" ∷ "exhausted" ∷ [])
      ∷ literal "limit reached"
      ∷ []

  abbrev non_quota_exclusion_patterns : List (String → Bool)
  non_quota_exclusion_patterns =
      literal "invalid api key"
      ∷ literal "unauthorized"
      ∷ one_of "authentication " ("failed" ∷ "error" ∷ [])
      ∷ literal "forbidden"
      ∷ one_of "connection " ("refused" ∷ "reset" ∷ "error" ∷ [])
      ∷ one_of "network " ("error" ∷ "unreachable" ∷ [])
      ∷ literal "could not resolve host"
      ∷ one_of "time" ("out" ∷ " out" ∷ "dout" ∷ "d out" ∷ [])
      ∷ []

  unfoldable pub default_quota_classifier : ClaudeCodeFailureSignal → Bool
  default_quota_classifier signal =
      let text = combined_text signal in
      if is_zero signal.returncode
      then false
      else if any (λ pattern. search pattern text) non_quota_exclusion_patterns
      then false
      else any (λ pattern. search pattern text) quota_patterns

pub record AbandonedWorktreeRecord : Type 0 where
  pub worktree_path : String
  pub branch : String
  pub repo_root : String
  pub reason : String
  pub detected_at : String
  pub task_description : Option String

-- A marker file: a record, or a text that is not JSON or does not fit the record.
pub data Marker : Type 0 where
  marker : AbandonedWorktreeRecord → Marker
  unreadable : Marker

abbrev pub Markers : Type 0
Markers = Dict String Marker

abbrev pub marker_record : (now reason : String) → Worktree → AbandonedWorktreeRecord
marker_record now reason w = record {
  worktree_path = w.path;
  branch = w.branch;
  repo_root = w.repo_root;
  reason = reason;
  detected_at = now;
  task_description = w.task_description;
}

-- The files in the order of their names.
abbrev is_before : String → String → Bool
is_before a b = elim (Str.compare (concat a ".json") (concat b ".json")) [
  | Prim.Native.Nat.Ordering.gt ↦ false
  | _ ↦ true
]

unfoldable pub insert_marker : String × Marker → Markers → Markers
insert_marker f [] = f ∷ []
insert_marker f (g ∷ gs) =
    let rest = insert_marker f gs in if is_before f.0 g.0 then f ∷ g ∷ gs else g ∷ rest

-- `sorted(abandoned_dir.glob("*.json"))`
unfoldable pub sorted : Markers → Markers
sorted [] = []
sorted (f ∷ fs) = insert_marker f (sorted fs)

unfoldable pub read_markers : Markers → Option (List AbandonedWorktreeRecord)
read_markers [] = some []
read_markers ((name, unreadable) ∷ fs) = none
read_markers ((name, marker r) ∷ fs) = do rs ← read_markers fs; some (r ∷ rs)

-- `list_abandoned_worktrees`, where `none` is the exception of an unreadable marker
unfoldable pub list_abandoned_worktrees : Markers → Option (List AbandonedWorktreeRecord)
list_abandoned_worktrees markers = read_markers (sorted markers)

-- `name_of` is `Path.name`.
module _ (name_of : String → String) where
  unfoldable pub mark_worktree_abandoned : (now reason : String) → Worktree → Markers → Markers
  mark_worktree_abandoned now reason w markers =
      Dict.insert (name_of w.path) (marker (marker_record now reason w)) markers

  pub record QuotaDetectionOutcome : Type 0 where
    pub quota_exhausted : Bool
    pub abandoned_marker_path : Option String

  unfoldable pub handle_invocation_failure :
      (now : String) (classifier : ClaudeCodeFailureSignal → Bool)
      → ClaudeCodeFailureSignal
      → Option Worktree
      → Markers
      → QuotaDetectionOutcome × Markers
  handle_invocation_failure now classifier signal none markers =
      (record { quota_exhausted = classifier signal; abandoned_marker_path = none }, markers)
  handle_invocation_failure now classifier signal (some w) markers =
      if classifier signal
      then (
        record { quota_exhausted = true; abandoned_marker_path = some (name_of w.path) },
        mark_worktree_abandoned now abandon_reason_quota_exhaustion w markers,
      )
      else (record { quota_exhausted = false; abandoned_marker_path = none }, markers)

-- What `route_bounded_request` returns with its notice, or raises.
pub data Routed : Type 0 where
  routed : DelegateResult → Routed
  task_not_bounded : (task_type : String) → Routed
  chain_raised : Outcome → Routed

routed_of : Outcome → Routed
routed_of (served r) = routed r
routed_of raised = chain_raised raised

module _ (env : Env) (available_ram : Option ℕ) where
  unfoldable pub route_bounded_request :
      String → ChainsConfig → Registry → Session → Routed × Session
  unfolding routed_of
  route_bounded_request task_type config registry s =
      if not (contains delegable_task_types task_type)
      then (task_not_bounded task_type, s)
      else (let end = execute_chain env task_type available_ram config registry s in
          (routed_of end.0, end.1))
