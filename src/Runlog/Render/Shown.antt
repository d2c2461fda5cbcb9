-- ===== src/Runlog/Render/Shown.antt =====
-- What a rendering shows of a record.
use josu.Common.{
  ℕ, Bool, true, false, ◌&&◌, String, List, [], ◌∷◌, ◌++◌, ◌≡◌, refl, sym, subst, arith, All,
  All-imp, contains, length, ==_refl, eq_string, Bool-cases, inl, inr,
}
use josu.Runlog.{RunRecord, DelegationEvent, GraphQueryEvent, CircuitBreakerEvent}
use josu.Runlog.Render.{
  concat_map, graph_query_line, delegation_lines, circuit_breaker_line, render_run, section,
  header_lines, is_nil, text_of,
}

-- Each of the lines stands among those shown.
abbrev pub Shows : List String → List String → Type 0
Shows shown = All (λ line. contains shown line ≡ true)

Shows-right : (xs ys zs : List String) → Shows ys zs → Shows (xs ++ ys) zs
Shows-right [] ys zs h = h
Shows-right (x ∷ xs) ys zs h =
    All-imp (λ line. contains (xs ++ ys) line ≡ true)
      (λ line. contains (x ∷ (xs ++ ys)) line ≡ true) (λ line k. ground arith) zs
      (Shows-right xs ys zs h)

contains-left :
    (xs ys : List String) (line : String)
    → contains xs line ≡ true
    → contains (xs ++ ys) line ≡ true
contains-left [] ys line h = cc
contains-left (x ∷ xs) ys line h = ground (arith, contains-left xs ys line)

Shows-left : (xs ys zs : List String) → Shows xs zs → Shows (xs ++ ys) zs
Shows-left xs ys zs =
    All-imp (λ line. contains xs line ≡ true) (λ line. contains (xs ++ ys) line ≡ true)
      (contains-left xs ys) zs

Shows-self : (xs : List String) → Shows xs xs
Shows-self [] = tt
Shows-self (x ∷ xs) = (ground (arith, ==_refl x), Shows-right (x ∷ []) xs xs (Shows-self xs))

module _ {A : Type 0} (lines : A → List String) where
  concat_map-Shows : (xs : List A) → All (λ x. Shows (concat_map lines xs) (lines x)) xs
  unfolding concat_map
  concat_map-Shows [] = tt
  concat_map-Shows (x ∷ xs) = (
    Shows-left (lines x) (concat_map lines xs) (lines x) (Shows-self (lines x)),
    All-imp (λ y. Shows (concat_map lines xs) (lines y))
        (λ y. Shows (lines x ++ concat_map lines xs) (lines y))
        (λ y. Shows-right (lines x) (concat_map lines xs) (lines y)) xs (concat_map-Shows xs),
  )

All-nil {ℓ κ} : {A : Type ℓ} (P : A → Type κ) (xs : List A) → is_nil xs ≡ true → All P xs
All-nil P [] h = tt
All-nil P (x ∷ xs) h = cc

module _ (repr seconds : String → String) (decimal : ℕ → String) where
  section-Shows :
      {A : Type 0} (title : String) (lines : A → List String) (xs : List A)
      → All (λ x. Shows (section repr seconds decimal title lines xs) (lines x)) xs
  unfolding section concat_map
  section-Shows title lines [] = tt
  section-Shows title lines (x ∷ xs) =
      All-imp (λ y. Shows (concat_map lines (x ∷ xs)) (lines y))
        (λ y. Shows (section repr seconds decimal title lines (x ∷ xs)) (lines y))
        (λ y.
          Shows-right (text_of ("  " ∷ title ∷ " (" ∷ decimal (length (x ∷ xs)) ∷ "):" ∷ []) ∷ [])
            (concat_map lines (x ∷ xs)) (lines y))
        (x ∷ xs) (concat_map-Shows lines (x ∷ xs))

  -- The lines of an event.
  abbrev pub query : GraphQueryEvent → List String
  query q = graph_query_line repr seconds q ∷ []

  abbrev pub delegation : DelegationEvent → List String
  delegation d = delegation_lines repr seconds d

  abbrev pub breaker : CircuitBreakerEvent → List String
  breaker c = circuit_breaker_line repr seconds c ∷ []

  abbrev queries_part : RunRecord → List String
  queries_part r = section repr seconds decimal "graph queries" query r.graph_queries

  abbrev delegations_part : RunRecord → List String
  delegations_part r = section repr seconds decimal "delegations" delegation r.delegations

  abbrev breaker_part : RunRecord → List String
  breaker_part r =
      section repr seconds decimal "circuit-breaker events" breaker r.circuit_breaker_events

  abbrev is_quiet : RunRecord → Bool
  is_quiet r = is_nil r.graph_queries && is_nil r.delegations && is_nil r.circuit_breaker_events

  render_run_loud :
      (r : RunRecord)
      → is_quiet r ≡ false
      → render_run repr seconds decimal r
        ≡ header_lines repr seconds r ++ (queries_part r ++ (delegations_part r ++ breaker_part r))
  unfolding render_run
  render_run_loud r h = rw (h, render_run) refl

  -- What the body of a rendering shows, the rendering shows.
  render_run-body :
      (r : RunRecord) (lines : List String)
      → is_quiet r ≡ false
      → Shows (queries_part r ++ (delegations_part r ++ breaker_part r)) lines
      → Shows (render_run repr seconds decimal r) lines
  render_run-body r lines loud h =
      subst (λ out. Shows out lines) (sym (render_run_loud r loud))
        (Shows-right (header_lines repr seconds r)
          (queries_part r ++ (delegations_part r ++ breaker_part r)) lines h)

  -- What `Told` takes apart.
  pub render_run-Shows :
      (r : RunRecord)
      → All (λ q. Shows (render_run repr seconds decimal r) (query q)) r.graph_queries
        × All (λ d. Shows (render_run repr seconds decimal r) (delegation d)) r.delegations
        × All (λ c. Shows (render_run repr seconds decimal r) (breaker c)) r.circuit_breaker_events
  render_run-Shows r = elim (Bool-cases (is_quiet r)) [
    | inl quiet ↦ (
      All-nil (λ q. Shows (render_run repr seconds decimal r) (query q)) r.graph_queries
          (ground arith),
      All-nil (λ d. Shows (render_run repr seconds decimal r) (delegation d)) r.delegations
          (ground arith),
      All-nil (λ c. Shows (render_run repr seconds decimal r) (breaker c)) r.circuit_breaker_events
          (ground arith),
    )
    | inr loud ↦
        let rest = delegations_part r ++ breaker_part r in
        (
          All-imp (λ q. Shows (queries_part r) (query q))
              (λ q. Shows (render_run repr seconds decimal r) (query q))
              (λ q h.
                render_run-body r (query q) loud (Shows-left (queries_part r) rest (query q) h))
              r.graph_queries (section-Shows "graph queries" query r.graph_queries),
          All-imp (λ d. Shows (delegations_part r) (delegation d))
              (λ d. Shows (render_run repr seconds decimal r) (delegation d))
              (λ d h. render_run-body r (delegation d) loud (
                Shows-right (queries_part r) rest (delegation d)
                  (Shows-left (delegations_part r) (breaker_part r) (delegation d) h)))
              r.delegations (section-Shows "delegations" delegation r.delegations),
          All-imp (λ c. Shows (breaker_part r) (breaker c))
              (λ c. Shows (render_run repr seconds decimal r) (breaker c))
              (λ c h. render_run-body r (breaker c) loud (
                Shows-right (queries_part r) rest (breaker c)
                  (Shows-right (delegations_part r) (breaker_part r) (breaker c) h)))
              r.circuit_breaker_events
              (section-Shows "circuit-breaker events" breaker r.circuit_breaker_events),
        )
  ]
