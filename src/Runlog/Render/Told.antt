-- ===== src/Runlog/Render/Told.antt =====
-- What a rendering tells of a record.
use josu.Common.{
  ℕ, true, false, String, some, map, List, [], ◌∷◌, ◌++◌, ◌≡◌, subst, arith, All, All-imp, contains,
  eq_string,
}
use Prim.Native.String as Str
use josu.Common.Text.{concat}
use josu.Common.Latin.{is_empty}
use josu.Proactive.Hook.{contains_text}
use josu.Proactive.Hook.Kept.{contains_text-here}
use josu.Runlog.{SkipEntry, RunRecord, DelegationEvent, GraphQueryEvent, CircuitBreakerEvent}
use josu.Runlog.Render.{
  graph_query_line, delegation_lines, circuit_breaker_line, skip_line, retry_label, caveats_lines,
  cost_lines, delegation_line, outcome_label, render_run, text_of,
}
use josu.Runlog.Render.Shown.{Shows, query, delegation, breaker, render_run-Shows}

All-left {ℓ κ} : {A : Type ℓ} (P : A → Type κ) (xs ys : List A) → All P (xs ++ ys) → All P xs
All-left P [] ys h = tt
All-left P (x ∷ xs) ys (here, h) = (here, All-left P xs ys h)

All-right {ℓ κ} : {A : Type ℓ} (P : A → Type κ) (xs ys : List A) → All P (xs ++ ys) → All P ys
All-right P [] ys h = h
All-right P (x ∷ xs) ys (here, h) = All-right P xs ys h

-- One of the lines shown has all of the parts.
abbrev pub Tells : List String → List String → Type 0
Tells shown parts =
    (line : String) × ((contains shown line ≡ true)
      × All (λ part. contains_text part line ≡ true) parts)

contains_text-concat_right :
    (a p s : String) → contains_text p s ≡ true → contains_text p (concat a s) ≡ true
unfolding contains_text concat
contains_text-concat_right Str.[] p s h = h
contains_text-concat_right (Str.◌∷◌ c a) p s h = ground (arith, contains_text-concat_right a p s h)

-- A text that is made of parts has each of them.
contains_text-text_of : (ps : List String) → All (λ p. contains_text p (text_of ps) ≡ true) ps
contains_text-text_of [] = tt
contains_text-text_of (p ∷ ps) = (
  contains_text-here p (text_of ps),
  All-imp (λ q. contains_text q (text_of ps) ≡ true)
      (λ q. contains_text q (text_of (p ∷ ps)) ≡ true)
      (λ q. contains_text-concat_right p q (text_of ps)) ps (contains_text-text_of ps),
)

module _ (repr seconds : String → String) (decimal : ℕ → String) where
  abbrev queries : GraphQueryEvent → List String
  queries = query repr seconds decimal

  abbrev delegated : DelegationEvent → List String
  delegated = delegation repr seconds decimal

  abbrev breakers : CircuitBreakerEvent → List String
  breakers = breaker repr seconds decimal

  query-Tells :
      (q : GraphQueryEvent) (shown : List String)
      → Shows shown (queries q)
      → Tells shown (q.timestamp ∷ q.operation ∷ repr q.query ∷ q.result_count ∷ [])
  query-Tells q shown (here, none_left) =
      let (p0, (timestamp, (p2, (operation, (p4, (query, (p6, (count, rest)))))))) =
        contains_text-text_of (
          "    - ["
          ∷ q.timestamp
          ∷ "] "
          ∷ q.operation
          ∷ "("
          ∷ repr q.query
          ∷ ") -> "
          ∷ q.result_count
          ∷ " result(s)"
          ∷ []) in
      (graph_query_line repr seconds q, (here, (timestamp, (operation, (query, (count, tt))))))

  breaker-Tells :
      (c : CircuitBreakerEvent) (shown : List String)
      → Shows shown (breakers c)
      → Tells shown
          (c.timestamp ∷ c.kind ∷ seconds c.elapsed_seconds ∷ seconds c.timeout_seconds ∷ [])
  breaker-Tells c shown (here, none_left) =
      let (p0, (timestamp, (p2, (kind, (p4, (elapsed, (p6, (limit, rest)))))))) =
        contains_text-text_of (
          "    - ["
          ∷ c.timestamp
          ∷ "] "
          ∷ c.kind
          ∷ " tripped: "
          ∷ seconds c.elapsed_seconds
          ∷ "s elapsed > "
          ∷ seconds c.timeout_seconds
          ∷ "s limit"
          ∷ []) in
      (circuit_breaker_line repr seconds c, (here, (timestamp, (kind, (elapsed, (limit, tt))))))

  skips-Tell :
      (skips : List SkipEntry) (shown : List String)
      → Shows shown (map (skip_line repr seconds) skips)
      → All (λ s. Tells shown (s.candidate ∷ s.error_class ∷ [])) skips
  skips-Tell [] shown h = tt
  skips-Tell (s ∷ skips) shown (here, h) =
      let (p0, (candidate, (p2, (class, rest)))) = contains_text-text_of (
        "        skipped: "
        ∷ s.candidate
        ∷ " ("
        ∷ s.error_class
        ∷ retry_label repr seconds s.retry_after
        ∷ ")"
        ∷ []) in
      ((skip_line repr seconds s, (here, (candidate, (class, tt)))), skips-Tell skips shown h)

  caveats-Tells :
      (caveats : String) (shown : List String)
      → is_empty caveats ≡ false
      → Shows shown (caveats_lines repr seconds (some caveats))
      → Tells shown ("        caveats: " ∷ caveats ∷ [])
  caveats-Tells Str.[] shown given h = cc
  caveats-Tells (Str.◌∷◌ c s) shown given (here, none_left) =
      let parts = "        caveats: " ∷ Str.◌∷◌ c s ∷ [] in
      (text_of parts, (here, contains_text-text_of parts))

  -- What a delegation's lines tell: of itself, its caveats, its cost, and each skipped candidate.
  abbrev pub TellsDelegation : List String → DelegationEvent → Type 0
  TellsDelegation shown = λ d.
      Tells shown
        (d.timestamp ∷ d.task_type ∷ repr d.task_summary ∷ seconds d.duration_seconds ∷ [])
      × (((caveats : String)
            → d.caveats ≡ some caveats
            → is_empty caveats ≡ false
            → Tells shown ("        caveats: " ∷ caveats ∷ []))
          × (((cost : String) → d.cost ≡ some cost → Tells shown ("        cost: " ∷ cost ∷ []))
              × All (λ s. Tells shown (s.candidate ∷ s.error_class ∷ [])) d.skipped))

  delegation-Tells :
      (d : DelegationEvent) (shown : List String)
      → Shows shown (delegated d)
      → TellsDelegation shown d
  unfolding delegation_lines
  delegation-Tells d shown (here, h) =
      let (
        p0,
        (timestamp, (p2, (task_type, (p4, (summary, (p6, (label, (p8, (duration, rest))))))))),
      ) =
        contains_text-text_of (
          "    - ["
          ∷ d.timestamp
          ∷ "] "
          ∷ d.task_type
          ∷ ": "
          ∷ repr d.task_summary
          ∷ " -- "
          ∷ outcome_label repr seconds d
          ∷ " ("
          ∷ seconds d.duration_seconds
          ∷ "s)"
          ∷ []) in
      let told =
        All-left (λ line. contains shown line ≡ true) (caveats_lines repr seconds d.caveats) _ h in
      let later =
        All-right (λ line. contains shown line ≡ true) (caveats_lines repr seconds d.caveats) _ h in
      let priced =
        All-left (λ line. contains shown line ≡ true) (cost_lines repr seconds d.cost) _ later in
      let skipped =
        All-right (λ line. contains shown line ≡ true) (cost_lines repr seconds d.cost) _ later in
      (
        (
          delegation_line repr seconds d,
          (here, (timestamp, (task_type, (summary, (duration, tt))))),
        ),
        (
          (λ caveats e given.
              caveats-Tells caveats shown given
                (subst (λ c. Shows shown (caveats_lines repr seconds c)) e told)),
          (
            (λ cost e.
                let line = subst (λ c. Shows shown (cost_lines repr seconds c)) e priced in
                let parts = "        cost: " ∷ cost ∷ [] in
                (text_of parts, (line.0, contains_text-text_of parts))),
            skips-Tell d.skipped shown skipped,
          ),
        ),
      )

  -- A rendering tells of every event of the record. For a graph query, a line has its time, its
  -- operation, its query and its number of results; for a breaker that tripped, its time, its kind,
  -- the seconds and the limit. For a delegation, a line has its time, its task type, its summary and
  -- its seconds, one its caveats and one its cost, if it has any, and each candidate that was skipped
  -- is named by a line with the class of its error.
  pub render_run-Tells :
      (r : RunRecord)
      → All
          (λ q.
            Tells
              (render_run repr seconds decimal r)
              (q.timestamp ∷ q.operation ∷ repr q.query ∷ q.result_count ∷ []))
          r.graph_queries
        × All (TellsDelegation (render_run repr seconds decimal r)) r.delegations
        × All
            (λ c.
              Tells
                (render_run repr seconds decimal r)
                (c.timestamp ∷ c.kind ∷ seconds c.elapsed_seconds ∷ seconds c.timeout_seconds ∷ []))
            r.circuit_breaker_events
  render_run-Tells r =
      let shown = render_run repr seconds decimal r in
      let (searched, delegations, tripped) = render_run-Shows repr seconds decimal r in
      (
        All-imp (λ q. Shows shown (queries q))
            (λ q. Tells shown (q.timestamp ∷ q.operation ∷ repr q.query ∷ q.result_count ∷ []))
            (λ q. query-Tells q shown) r.graph_queries searched,
        All-imp (λ d. Shows shown (delegated d)) (TellsDelegation shown)
            (λ d. delegation-Tells d shown) r.delegations delegations,
        All-imp (λ c. Shows shown (breakers c))
            (λ c.
              Tells shown
                (c.timestamp ∷ c.kind ∷ seconds c.elapsed_seconds ∷ seconds c.timeout_seconds ∷ []))
            (λ c. breaker-Tells c shown) r.circuit_breaker_events tripped,
      )
