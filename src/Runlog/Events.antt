-- ===== src/Runlog/Events.antt =====
-- src/josu/observability/runlog.py: what the events and the record hold.
use Prim.Native.String as Str
use Prim.Native.String.{count}
use Prim.Native.String.count.{cons}
use Prim.Native.Char.{Char}
use josu.Common.{
  ℕ, zero, suc, ◌+◌, ◌-◌, ◌≤◌, ◌<◌, String, Option, none, some, List, [], ◌∷◌, map, ◌≡◌, refl, ap,
  ◌∙◌, arith, All, All-append, inl, inr, Bool-cases, leb, subst, sym,
}
use josu.Config.Chains.{ChainsConfig, Registry, resolve_chain}
use josu.Delegate.Errors.{Exception}
use josu.Delegate.LocalModel.{DelegateResult}
use josu.Delegate.Chain.{Env, Session, SkipRecord, chain_exhausted, execute_chain}
use josu.Delegate.Chain.Walk.{names, skipped}
use josu.Delegate.Chain.Account.{execute_chain-exhausted}
use josu.Runlog.{
  take_chars, append, truncate, max_task_summary_chars, from_skip_record, RunRecord, from_result,
  from_chain_exhausted, from_timeout_error, record_graph_query, record_delegation,
  record_circuit_breaker_event, record_outcome,
}

count-cons : (c : Char) (s : String) → count (Str.◌∷◌ c s) ≡ suc (count s)
count-cons c s = λ i. cons c s i

count-append : (s t : String) → count (append s t) ≡ count s + count t
unfolding append
count-append Str.[] t = omega arith
count-append (Str.◌∷◌ c s) t =
    omega (arith, count-append s t, count-cons c s, count-cons c (append s t))

-- The text that `take_chars` leaves.
drop_chars : ℕ → String → String
drop_chars zero s = s
drop_chars (suc n) Str.[] = Str.[]
drop_chars (suc n) (Str.◌∷◌ c s) = drop_chars n s

append-take_chars : (n : ℕ) (s : String) → append (take_chars n s) (drop_chars n s) ≡ s
unfolding append take_chars drop_chars
append-take_chars zero s = refl
append-take_chars (suc n) Str.[] = refl
append-take_chars (suc n) (Str.◌∷◌ c s) = ap (Str.◌∷◌ c) (append-take_chars n s)

count-take_chars : (n : ℕ) (s : String) → n ≤ count s → count (take_chars n s) ≡ n
unfolding take_chars
count-take_chars zero s h = refl
count-take_chars (suc n) Str.[] h = omega arith
count-take_chars (suc n) (Str.◌∷◌ c s) h =
    omega
      (arith, count-cons c (take_chars n s), count-take_chars n s (omega (arith, count-cons c s)))

truncate-short : (limit : ℕ) (text : String) → count text ≤ limit → truncate limit text ≡ text
unfolding truncate
truncate-short limit text h = ground arith

truncate-long :
    (limit : ℕ) (text : String)
    → limit < count text
    → truncate limit text ≡ append (take_chars (limit - 1) text) "…"
unfolding truncate
truncate-long limit text h = ground arith

-- A truncated text is at most `limit` characters long, and is the text itself if that is; a longer
-- text keeps its first `limit - 1` characters, with an ellipsis for the rest.
pub truncate-bounds :
    (limit : ℕ) (text : String)
    → 1 ≤ limit
    → (count (truncate limit text) ≤ limit)
      × (count text ≤ limit → truncate limit text ≡ text)
      × (limit < count text
          → (kept : String) × ((rest : String) × ((append kept rest ≡ text)
                × ((truncate limit text ≡ append kept "…") × (count kept + 1 ≡ limit)))))
truncate-bounds limit text h =
    let ends : count text ≤ limit → count (truncate limit text) ≤ limit =
      λ short. subst (λ t. count t ≤ limit) (sym (truncate-short limit text short)) short in
    let cut : limit < count text → count (truncate limit text) ≤ limit = λ long.
      subst (λ t. count t ≤ limit) (sym (truncate-long limit text long))
        (omega (
          arith,
          count-append (take_chars (limit - 1) text) "…",
          count-take_chars (limit - 1) text (omega arith),
        )) in
    (
      (elim (Bool-cases (leb (count text) limit)) [
        | inl short ↦ ends (ground arith)
        | inr long ↦ cut (ground arith)
      ]),
      truncate-short limit text,
      (λ long. (
        take_chars (limit - 1) text,
        (
          drop_chars (limit - 1) text,
          (
            append-take_chars (limit - 1) text,
            (
              truncate-long limit text long,
              omega (arith, count-take_chars (limit - 1) text (omega arith)),
            ),
          ),
        ),
      )),
    )

-- An operation on a record, with what it is given.
pub data Op : Type 0 where
  graph_query : (timestamp operation query result_count : String) → Op
  served_by :
      (timestamp task_type task_summary : String) (result : DelegateResult)
      (candidate duration : String) (skipped : List SkipRecord) (cost : Option String)
      → Op
  exhausted :
      (timestamp task_type task_summary : String) (skip_records : List SkipRecord)
      (duration : String)
      → Op
  tripped : (timestamp timeout_seconds elapsed_seconds : String) → Op
  concluded :
      (outcome : String) (worktree_path : Option String) (diverged_paths : List String)
      (error_class error_message : Option String)
      → Op

unfoldable pub apply : Op → RunRecord → RunRecord
apply (graph_query t o q n) r = record_graph_query t o q n r
apply (served_by t k s d c u skips cost) r =
    record_delegation (from_result t k s d c u skips cost) r
apply (exhausted t k s skips u) r = record_delegation (from_chain_exhausted t k s skips u) r
apply (tripped t l e) r = record_circuit_breaker_event (from_timeout_error t l e) r
apply (concluded o w ds c m) r = record_outcome o w ds c m r

unfoldable pub apply_all : List Op → RunRecord → RunRecord
apply_all [] r = r
apply_all (op ∷ ops) r = apply_all ops (apply op r)

-- A new record.
abbrev pub fresh : (run_id started_at : String) (task_description : Option String) → RunRecord
fresh run_id started_at task_description = record {
  run_id = run_id;
  started_at = started_at;
  task_description = task_description;
  graph_queries = [];
  delegations = [];
  circuit_breaker_events = [];
  outcome = none;
  worktree_path = none;
  diverged_paths = [];
  error_class = none;
  error_message = none;
}

abbrev IsShort : String → Type 0
IsShort s = count s ≤ max_task_summary_chars

abbrev IsShortOption : Option String → Type 0
IsShortOption none = Unit
IsShortOption (some s) = IsShort s

-- Every query, task summary and error message that the record holds is within the limit.
abbrev pub IsBounded : RunRecord → Type 0
IsBounded r =
    All (λ q. IsShort q.query) r.graph_queries
    × (All (λ d. IsShort d.task_summary) r.delegations × IsShortOption r.error_message)

truncate-IsShort : (s : String) → IsShort (truncate max_task_summary_chars s)
truncate-IsShort s =
    let (short, same, long) = truncate-bounds max_task_summary_chars s (omega arith) in short

apply-IsBounded : (op : Op) (r : RunRecord) → IsBounded r → IsBounded (apply op r)
unfolding apply record_graph_query record_delegation record_circuit_breaker_event record_outcome
    from_result from_chain_exhausted
apply-IsBounded (graph_query t o q n) r (qs, (ds, m)) =
    (All-append (λ q. IsShort q.query) r.graph_queries _ qs (truncate-IsShort q, tt), (ds, m))
apply-IsBounded (served_by t k s d c u skips cost) r (qs, (ds, m)) =
    (qs, (All-append (λ d. IsShort d.task_summary) r.delegations _ ds (truncate-IsShort s, tt), m))
apply-IsBounded (exhausted t k s skips u) r (qs, (ds, m)) =
    (qs, (All-append (λ d. IsShort d.task_summary) r.delegations _ ds (truncate-IsShort s, tt), m))
apply-IsBounded (tripped t l e) r h = h
apply-IsBounded (concluded o w paths c none) r (qs, (ds, m)) = (qs, (ds, tt))
apply-IsBounded (concluded o w paths c (some text)) r (qs, (ds, m)) =
    (qs, (ds, truncate-IsShort text))

apply_all-IsBounded : (ops : List Op) (r : RunRecord) → IsBounded r → IsBounded (apply_all ops r)
unfolding apply_all
apply_all-IsBounded [] r h = h
apply_all-IsBounded (op ∷ ops) r h = apply_all-IsBounded ops (apply op r) (apply-IsBounded op r h)

-- Whatever a new record is told, in whatever order, every query, task summary and error message that
-- it holds is at most 500 characters long.
pub apply_all-fresh-IsBounded :
    (ops : List Op) (run_id started_at : String) (task_description : Option String)
    → IsBounded (apply_all ops (fresh run_id started_at task_description))
apply_all-fresh-IsBounded ops run_id started_at task_description =
    apply_all-IsBounded ops (fresh run_id started_at task_description) (tt, (tt, tt))

candidates-map :
    (skips : List SkipRecord) → map (λ s. s.candidate) (map from_skip_record skips) ≡ skipped skips
candidates-map [] = refl
candidates-map (r ∷ skips) = ap (λ ns. r.candidate ∷ ns) (candidates-map skips)

-- The event of an exhausted chain names, as skipped, just the candidates that its task type resolves
-- to, in their order.
pub from_chain_exhausted-names :
    (env : Env) (ram : Option ℕ) (config : ChainsConfig) (registry : Registry) (s : Session)
    (task_type t : String) (attempted : List String) (skips : List SkipRecord) (last : Exception)
    (timestamp task_summary duration : String)
    → (execute_chain env task_type ram config registry s).0 ≡ chain_exhausted t attempted skips last
    → map
        (λ s. s.candidate)
        (from_chain_exhausted timestamp task_type task_summary skips duration).skipped
      ≡ names (resolve_chain task_type config registry)
unfolding from_chain_exhausted
from_chain_exhausted-names env ram config registry s task_type t attempted skips last timestamp
      task_summary duration h =
    let (tried, named, some_candidate, same, more) =
      execute_chain-exhausted env task_type ram config registry s t attempted skips last h in
    candidates-map skips ∙ named
