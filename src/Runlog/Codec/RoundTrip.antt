-- ===== src/Runlog/Codec/RoundTrip.antt =====
-- A record is read back as it was written.
use josu.Common.{
  true, false, contains, Bool-cases, inl, inr, eq_string, eq_iff, ◌==◌, subst, String, Option, none,
  some, List, [], ◌∷◌, ◌≡◌, refl, sym,
}
use josu.Delegate.Json.{Json, object, number, field, str, Fields, get}
use josu.Runlog.{GraphQueryEvent, SkipEntry, DelegationEvent, CircuitBreakerEvent, RunRecord}
use josu.Runlog.Codec.{
  items_of, list_of, declared, graph_query_dict, skip_dict, delegation_dict, circuit_breaker_dict,
  to_fields, to_dict, graph_query_of, skip_of, delegation_of, circuit_breaker_of, from_dict,
  optional, text, text_or_none, numeral_or_none,
}

-- A list is read back where each element is.
list_of-items_of {ℓ} :
    {A : Type ℓ} (write : A → Json) (read : Json → Option A)
    → ((a : A) → read (write a) ≡ some a)
    → (xs : List A) → list_of read (items_of write xs) ≡ some xs
unfolding list_of items_of
list_of-items_of write read h [] = refl
list_of-items_of write read h (x ∷ xs) = rw (h x, list_of-items_of write read h xs) refl

module _ (now : String) where
  graph_query_of-dict : (e : GraphQueryEvent) → graph_query_of now (graph_query_dict e) ≡ some e
  unfolding graph_query_of graph_query_dict declared get
  graph_query_of-dict e = refl

  text_or_none-optional : (o : Option String) → text_or_none (optional str o) ≡ some o
  text_or_none-optional none = refl
  text_or_none-optional (some s) = refl

  numeral_or_none-optional : (o : Option String) → numeral_or_none (optional number o) ≡ some o
  numeral_or_none-optional none = refl
  numeral_or_none-optional (some n) = refl

  skip_of-dict : (e : SkipEntry) → skip_of now (skip_dict e) ≡ some e
  unfolding skip_of skip_dict declared get
  skip_of-dict e = rw (text_or_none-optional e.retry_after) refl

  circuit_breaker_of-dict :
      (e : CircuitBreakerEvent) → circuit_breaker_of now (circuit_breaker_dict e) ≡ some e
  unfolding circuit_breaker_of circuit_breaker_dict declared get
  circuit_breaker_of-dict e = refl

  delegation_of-dict : (e : DelegationEvent) → delegation_of now (delegation_dict e) ≡ some e
  unfolding delegation_of delegation_dict declared get
  delegation_of-dict e =
      rw
        (
          text_or_none-optional e.candidate,
          text_or_none-optional e.caveats,
          numeral_or_none-optional e.cost,
          list_of-items_of skip_dict (skip_of now) skip_of-dict e.skipped,
        )
        refl

  text-str : (xs : List String) → list_of text (items_of str xs) ≡ some xs
  text-str = list_of-items_of str text (λ s. refl)

  -- A record is read back from its dict as it was, whatever the clock says.
  pub from_dict-to_dict : (r : RunRecord) → from_dict now (to_dict r) ≡ some r
  unfolding from_dict to_fields get
  from_dict-to_dict r =
      rw
        (
          list_of-items_of delegation_dict (delegation_of now) delegation_of-dict r.delegations,
          text_or_none-optional r.task_description,
          list_of-items_of graph_query_dict (graph_query_of now) graph_query_of-dict
              r.graph_queries,
          list_of-items_of circuit_breaker_dict (circuit_breaker_of now) circuit_breaker_of-dict
              r.circuit_breaker_events,
          text_or_none-optional r.outcome,
          text_or_none-optional r.worktree_path,
          text-str r.diverged_paths,
          text_or_none-optional r.error_class,
          text_or_none-optional r.error_message,
        )
        refl

-- The keys that `from_dict` reads.
abbrev pub record_keys : List String
record_keys =
    "run_id" ∷ "started_at" ∷ "task_description" ∷ "graph_queries" ∷ "delegations"
    ∷ "circuit_breaker_events" ∷ "outcome" ∷ "worktree_path" ∷ "diverged_paths" ∷ "error_class"
    ∷ "error_message" ∷ []

get_other :
    (key name : String) (value : Json) (fs : Fields)
    → contains record_keys key ≡ false
    → contains record_keys name ≡ true
    → get name (field key value fs) ≡ get name fs
unfolding get
get_other key name value fs unknown known = elim (Bool-cases (key == name)) [
  | inr differs ↦ rw differs refl
  | inl same ↦
      cc (subst (λ n. contains record_keys n ≡ true) (sym ((eq_iff key name).0 same)) known)
]

-- A top-level key that the record does not have changes nothing of what is read, nor whether it can
-- be read.
pub from_dict_ignores :
    (now key : String) (value : Json) (fs : Fields)
    → contains record_keys key ≡ false
    → from_dict now (object (field key value fs)) ≡ from_dict now (object fs)
unfolding from_dict
from_dict_ignores now key value fs unknown =
    rw
      (
        get_other key "delegations" value fs unknown refl,
        get_other key "run_id" value fs unknown refl,
        get_other key "started_at" value fs unknown refl,
        get_other key "task_description" value fs unknown refl,
        get_other key "graph_queries" value fs unknown refl,
        get_other key "circuit_breaker_events" value fs unknown refl,
        get_other key "outcome" value fs unknown refl,
        get_other key "worktree_path" value fs unknown refl,
        get_other key "diverged_paths" value fs unknown refl,
        get_other key "error_class" value fs unknown refl,
        get_other key "error_message" value fs unknown refl,
      )
      refl
