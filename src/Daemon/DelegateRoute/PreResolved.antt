-- ===== src/Daemon/DelegateRoute/PreResolved.antt =====
-- A request that names its candidates runs over the registry's own local ones.
use josu.Common.{
  true, String, Option, none, some, List, [], ◌∷◌, ◌≡◌, refl, sym, ◌∙◌, arith, ap, subst, eq_string,
  All, All-filter, All-filter_of, filter, filter-All, All-imp, All-and, contains, get_or_else, inl,
  inr, Option-cases, eq_iff,
}
use josu.Common.Dict
use josu.Common.Int.{Float}
use josu.Config.Delegate.{DelegateCandidate}
use josu.Config.Chains.{
  ChainsConfig, Registry, is_local, find_chain, lookup_candidates, resolve_chain,
}
use josu.Config.Chains.Resolve.{resolve_chain-eq-candidates_of}
use josu.Delegate.Errors.{Exception, ok, raise, Result-cases}
use josu.Delegate.Chain.{Env, Session, execute_chain, run_candidates}
use josu.Delegate.Chain.Calls.{execute_chain-calls}
use josu.Proactive.{by_name}
use josu.Proactive.Projection.{
  IsKeyed, Finds, lookup_candidates-Finds, by_name-Finds, lookup_candidates-names_of,
}
use josu.Daemon.DelegateRoute.{
  DelegateInternalRequest, local_candidates, pre_resolved_config, pre_resolved_chain_key, resolved,
  scope_root, reply, Reply, raised, respond,
}

local_candidates-eq :
    (names : List String) (registry : Registry)
    → local_candidates names registry ≡ filter is_local (lookup_candidates names registry)
unfolding local_candidates lookup_candidates
local_candidates-eq [] registry = refl
local_candidates-eq (name ∷ names) registry = ground (arith, local_candidates-eq names registry)

local_candidates-Finds :
    (names : List String) (registry : Registry)
    → IsKeyed registry
    → Finds registry (local_candidates names registry)
local_candidates-Finds names registry keyed = rw (local_candidates-eq names registry) (
    All-filter_of (λ c. Dict.lookup c.name registry ≡ some c) is_local
      (lookup_candidates names registry) (lookup_candidates-Finds names registry keyed))

local_candidates-local :
    (names : List String) (registry : Registry)
    → All (λ c. c.local ≡ true) (local_candidates names registry)
local_candidates-local names registry =
    rw (local_candidates-eq names registry) (All-filter is_local (lookup_candidates names registry))

resolve_chain-pre_resolved :
    (cs : List DelegateCandidate) (registry : Registry)
    → Finds registry cs
    → All (λ c. c.local ≡ true) cs
    → resolve_chain pre_resolved_chain_key (pre_resolved_config cs) registry ≡ cs
unfolding find_chain
resolve_chain-pre_resolved cs registry found local =
    resolve_chain-eq-candidates_of pre_resolved_chain_key (pre_resolved_config cs) registry
    ∙ ground (arith, lookup_candidates-names_of registry cs found, filter-All is_local cs local)

-- A candidate that a request may have called: a local one that the registry keeps under one of the
-- names.
abbrev pub IsNamedLocal : List String → Registry → DelegateCandidate → Type 0
IsNamedLocal names registry = λ c.
    (contains names c.name ≡ true) × ((Dict.lookup c.name registry ≡ some c) × (c.local ≡ true))

abbrev IsKnown : Registry → DelegateCandidate → Type 0
IsKnown registry = λ c. Dict.lookup c.name registry ≡ some c

lookup_candidates-contains :
    (names : List String) (registry : Registry)
    → IsKeyed registry
    → All (λ c. contains names c.name ≡ true) (lookup_candidates names registry)
unfolding lookup_candidates
lookup_candidates-contains [] registry keyed = tt
lookup_candidates-contains (name ∷ names) registry keyed =
    let rest =
      All-imp (λ c. contains names c.name ≡ true) (λ c. contains (name ∷ names) c.name ≡ true)
        (λ c h. ground arith) (lookup_candidates names registry)
        (lookup_candidates-contains names registry keyed) in
    elim (Option-cases (Dict.lookup name registry)) [
      | inl absent ↦ rw (absent, lookup_candidates) rest
      | inr (c, found) ↦
          rw (found, lookup_candidates)
            (ground (arith, eq_iff c.name name, keyed name c found), rest)
    ]

named_locals :
    (names : List String) (registry : Registry)
    → IsKeyed registry
    → All (IsNamedLocal names registry) (filter is_local (lookup_candidates names registry))
named_locals names registry keyed =
    let found = lookup_candidates names registry in
    let locals = filter is_local found in
    All-and (λ c. contains names c.name ≡ true)
      (λ c. (Dict.lookup c.name registry ≡ some c) × (c.local ≡ true)) locals
      (All-filter_of (λ c. contains names c.name ≡ true) is_local found
        (lookup_candidates-contains names registry keyed))
      (All-and (IsKnown registry) (λ c. c.local ≡ true) locals
        (All-filter_of (IsKnown registry) is_local found
          (lookup_candidates-Finds names registry keyed))
        (All-filter is_local found))

resolve_chain-named :
    (names : List String) (registry : Registry)
    → IsKeyed registry
    → let cs = local_candidates names registry in
      resolve_chain pre_resolved_chain_key (pre_resolved_config cs) (by_name [] cs)
      ≡ filter is_local (lookup_candidates names registry)
resolve_chain-named names registry keyed =
    let cs = local_candidates names registry in
    resolve_chain-pre_resolved cs (by_name [] cs)
      (by_name-Finds registry [] cs (local_candidates-Finds names registry keyed))
      (local_candidates-local names registry)
    ∙ local_candidates-eq names registry

-- The session with which `execute_chain` begins.
abbrev pub fresh : Session → Session
fresh s = record s { attempted = []; skip_records = [] }

module _ (env : Float → Option String → Env) (timeout : Float) (config : ChainsConfig)
    (registry : Registry) where
  -- The chain over given candidates, and the answer after it.
  abbrev pub answer :
      DelegateInternalRequest → Option String → List DelegateCandidate → Session → Reply × Session
  answer payload root cs s =
      let end =
        run_candidates (env (get_or_else payload.timeout timeout) root) pre_resolved_chain_key none
          cs (fresh s) in
      (reply end.0, end.1)

  resolved_named :
      (payload : DelegateInternalRequest) (name : String) (names : List String)
      → payload.candidates ≡ some (name ∷ names)
      → let cs = local_candidates (name ∷ names) registry in
        resolved payload config registry
        ≡ (pre_resolved_chain_key, (pre_resolved_config cs, by_name [] cs))
  unfolding resolved
  resolved_named payload name names named = rw named refl

  respond_runs :
      (payload : DelegateInternalRequest) (name : String) (names : List String)
      (root : Option String) (s : Session)
      → payload.candidates ≡ some (name ∷ names)
      → scope_root payload.scope ≡ ok root
      → let cs = local_candidates (name ∷ names) registry in
        let end =
          execute_chain
            (env (get_or_else payload.timeout timeout) root)
            pre_resolved_chain_key
            none
            (pre_resolved_config cs)
            (by_name [] cs)
            s in
        respond env timeout config registry payload s ≡ (reply end.0, end.1)
  unfolding respond
  respond_runs payload name names root s named rooted =
      rw (rooted, respond)
        (ap
          (λ r.
            let end =
              execute_chain (env (get_or_else payload.timeout timeout) root) r.0 none r.1.0 r.1.1
                s in
            (reply end.0, end.1))
          (resolved_named payload name names named))

  -- Where the registry keeps each candidate under its name, a request that names candidates, and
  -- whose scope has no path or a text as its path, runs the chain over just those of them that the
  -- registry knows and holds to be local, in the order of the request, and never over the
  -- configured chains.
  pub respond-eq-answer :
      (payload : DelegateInternalRequest) (name : String) (names : List String)
      (root : Option String) (s : Session)
      → IsKeyed registry
      → payload.candidates ≡ some (name ∷ names)
      → scope_root payload.scope ≡ ok root
      → respond env timeout config registry payload s
        ≡ answer payload root (filter is_local (lookup_candidates (name ∷ names) registry)) s
  unfolding execute_chain
  respond-eq-answer payload name names root s keyed named rooted =
      respond_runs payload name names root s named rooted
      ∙ ap (λ ds. answer payload root ds s) (resolve_chain-named (name ∷ names) registry keyed)

  respond_raises :
      (payload : DelegateInternalRequest) (e : Exception) (s : Session)
      → scope_root payload.scope ≡ raise e
      → respond env timeout config registry payload s ≡ (raised e, s)
  unfolding respond
  respond_raises payload e s bad = rw (bad, respond) refl

  -- With such a registry, a request that names candidates calls only candidates that it names, as
  -- the registry keeps them, and that are local there, whatever chains are configured and whether
  -- or not they allow remote candidates.
  pub respond-calls :
      (payload : DelegateInternalRequest) (name : String) (names : List String) (s : Session)
      → IsKeyed registry
      → payload.candidates ≡ some (name ∷ names)
      → s.calls ≡ []
      → All
          (IsNamedLocal (name ∷ names) registry)
          (respond env timeout config registry payload s).1.calls
  respond-calls payload name names s keyed named quiet =
      let before = subst (All (IsNamedLocal (name ∷ names) registry)) (sym quiet) tt in
      elim (Result-cases (scope_root payload.scope)) [
        | inl (e, bad) ↦
            subst (λ out. All (IsNamedLocal (name ∷ names) registry) out.1.calls)
              (sym (respond_raises payload e s bad)) before
        | inr (root, rooted) ↦
            let cs = local_candidates (name ∷ names) registry in
            subst (λ out. All (IsNamedLocal (name ∷ names) registry) out.1.calls)
              (sym (respond_runs payload name names root s named rooted))
              (execute_chain-calls (IsNamedLocal (name ∷ names) registry)
                (env (get_or_else payload.timeout timeout) root) pre_resolved_chain_key none
                (pre_resolved_config cs) (by_name [] cs) s
                (subst (All (IsNamedLocal (name ∷ names) registry))
                  (sym (resolve_chain-named (name ∷ names) registry keyed))
                  (named_locals (name ∷ names) registry keyed))
                before)
      ]
