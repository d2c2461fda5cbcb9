-- ===== src/Delegate/Chain/Walk.antt =====
-- The loop of a chain, attempt by attempt, and what it adds to the two lists of its session.
use josu.Common.{
  ℕ, ◌+◌, true, false, String, Option, List, [], ◌∷◌, ◌++◌, ◌≡◌, ap, sym, refl, arith, map, ◌∙◌,
  map-append, append_assoc, append-nil, inl, inr, Bool-cases, length,
}
use josu.Config.Delegate.{DelegateCandidate}
use josu.Delegate.Errors.{
  Exception, Result, ok, raise, Result-cases, delegate_error, in_cooldown, unreachable,
}
use josu.Delegate.Queue.{try_each}
use josu.Delegate.LocalModel.{DelegateResult, delegate}
use josu.Delegate.Cooldown.{is_in_cooldown}
use josu.Delegate.Chain.{
  Env, SkipRecord, skip_record, Session, advance_on, attempt, settle, Ending, await_inner,
  await_outer,
}

abbrev pub names : List DelegateCandidate → List String
names = map (λ c. c.name)

abbrev pub skipped : List SkipRecord → List String
skipped = map (λ r. r.candidate)

module _ (env : Env) (task_type : String) (ram : Option ℕ) where
  attempted-attempt :
      (c : DelegateCandidate) (s : Session)
      → (attempt env task_type ram c s).1.attempted ≡ s.attempted ++ c.name ∷ []
  unfolding attempt
  attempted-attempt c s = ground arith

  -- A result leaves the skip records alone; an exception that advances the chain adds its own.
  skip_records-attempt_ok :
      (c : DelegateCandidate) (s : Session) (r : DelegateResult)
      → (attempt env task_type ram c s).0 ≡ ok r
      → (attempt env task_type ram c s).1.skip_records ≡ s.skip_records
  unfolding attempt
  skip_records-attempt_ok c s r e = ground arith

  skipped-snoc :
      (c : DelegateCandidate) (e : Exception) (rs : List SkipRecord)
      → skipped (rs ++ skip_record c e ∷ []) ≡ skipped rs ++ c.name ∷ []
  skipped-snoc c e rs = rw map-append

  skip_records-settle :
      (c : DelegateCandidate) (end : Ending) (r : Result DelegateResult) (s : Session)
      (e : Exception)
      → await_outer end (settle env task_type ram c r s).0 ≡ raise e
      → advance_on e ≡ true
      → skipped (settle env task_type ram c r s).1.skip_records
        ≡ skipped s.skip_records ++ c.name ∷ []
  unfolding settle
  skip_records-settle c end (ok r) s e p q = ground arith
  skip_records-settle c end (raise x) s e p q = ground (arith, skipped-snoc c x s.skip_records)

  skip_records-attempt_raise :
      (c : DelegateCandidate) (s : Session) (e : Exception)
      → (attempt env task_type ram c s).0 ≡ raise e
      → advance_on e ≡ true
      → skipped (attempt env task_type ram c s).1.skip_records
        ≡ skipped s.skip_records ++ c.name ∷ []
  unfolding attempt
  skip_records-attempt_raise c s e p q =
      let n = length s.calls in
      let (cooling, store) = is_in_cooldown (env.clock s.ticks) (task_type, c.name) s.store in
      ground (
        arith,
        skipped-snoc c (delegate_error (in_cooldown c.name)) s.skip_records,
        skipped-snoc c (delegate_error (unreachable c.name)) s.skip_records,
        skip_records-settle c (env.ending n)
            (await_inner (env.ending n) (delegate env.decoders c.name c.model (env.exchanges n)))
            (record s {
              attempted = s.attempted ++ c.name ∷ [];
              ticks = s.ticks + 1;
              store = store;
              calls = s.calls ++ c ∷ [];
            })
            e,
      )

-- The candidate that served stands behind those that were skipped.
pub record ServedBy (cs : List DelegateCandidate) (s s' : Session) : Type 0 where
  pub before : List DelegateCandidate
  pub server : DelegateCandidate
  pub after : List DelegateCandidate
  pub split : cs ≡ before ++ server ∷ after
  pub attempted : s'.attempted ≡ s.attempted ++ names (before ++ server ∷ [])
  pub skips : skipped s'.skip_records ≡ skipped s.skip_records ++ names before

pub record AllSkipped (cs : List DelegateCandidate) (s s' : Session) : Type 0 where
  pub attempted : s'.attempted ≡ s.attempted ++ names cs
  pub skips : skipped s'.skip_records ≡ skipped s.skip_records ++ names cs

module _ (env : Env) (task_type : String) (ram : Option ℕ) where
  abbrev pub step : DelegateCandidate → Session → Result DelegateResult × Session
  step = attempt env task_type ram

  abbrev pub walk : Exception → List DelegateCandidate → Session → Result DelegateResult × Session
  walk last cs = try_each advance_on last (map step cs)

  -- The three ways on from an attempt.
  walk-ok :
      (last : Exception) (c : DelegateCandidate) (cs : List DelegateCandidate) (s : Session)
      (d : DelegateResult)
      → (step c s).0 ≡ ok d
      → walk last (c ∷ cs) s ≡ (ok d, (step c s).1)
  unfolding try_each
  walk-ok last c cs s d p = ground arith

  pub walk-advance :
      (last : Exception) (c : DelegateCandidate) (cs : List DelegateCandidate) (s : Session)
      (x : Exception)
      → (step c s).0 ≡ raise x
      → advance_on x ≡ true
      → walk last (c ∷ cs) s ≡ walk x cs (step c s).1
  unfolding try_each
  walk-advance last c cs s x p q = rw (p, q, try_each)

  pub walk-stop :
      (last : Exception) (c : DelegateCandidate) (cs : List DelegateCandidate) (s : Session)
      (x : Exception)
      → (step c s).0 ≡ raise x
      → advance_on x ≡ false
      → walk last (c ∷ cs) s ≡ (raise x, (step c s).1)
  unfolding try_each
  walk-stop last c cs s x p q = rw (p, q, try_each)

  -- What follows a skipped candidate stands behind its own entries.
  attempted_extends :
      (c : DelegateCandidate) (s : Session) (attempted added : List String)
      → attempted ≡ (step c s).1.attempted ++ added
      → attempted ≡ s.attempted ++ c.name ∷ added
  attempted_extends c s attempted added a =
      a
      ∙ ap (λ l. l ++ added) (attempted-attempt env task_type ram c s)
      ∙ append_assoc s.attempted (c.name ∷ []) added

  skips_extend :
      (c : DelegateCandidate) (s : Session) (x : Exception) (skips added : List String)
      → (step c s).0 ≡ raise x
      → advance_on x ≡ true
      → skips ≡ skipped (step c s).1.skip_records ++ added
      → skips ≡ skipped s.skip_records ++ c.name ∷ added
  skips_extend c s x skips added p q b =
      b
      ∙ ap (λ l. l ++ added) (skip_records-attempt_raise env task_type ram c s x p q)
      ∙ append_assoc (skipped s.skip_records) (c.name ∷ []) added

  ServedBy-cons :
      (c : DelegateCandidate) (cs : List DelegateCandidate) (s s' : Session) (x : Exception)
      → (step c s).0 ≡ raise x
      → advance_on x ≡ true
      → ServedBy cs (step c s).1 s'
      → ServedBy (c ∷ cs) s s'
  ServedBy-cons c cs s s' x p q h = record {
    before = c ∷ h.before;
    server = h.server;
    after = h.after;
    split = ap (λ l. c ∷ l) h.split;
    attempted = attempted_extends c s s'.attempted (names (h.before ++ h.server ∷ [])) h.attempted;
    skips = skips_extend c s x (skipped s'.skip_records) (names h.before) p q h.skips;
  }

  pub walk-ServedBy :
      (last : Exception) (cs : List DelegateCandidate) (s : Session) (r : DelegateResult)
      → (walk last cs s).0 ≡ ok r
      → ServedBy cs s (walk last cs s).1
  unfolding try_each
  walk-ServedBy last [] s r e = cc
  walk-ServedBy last (c ∷ cs) s r e = elim (Result-cases (step c s).0) [
    | inr (d, p) ↦ rw (walk-ok last c cs s d p) (record {
      before = [];
      server = c;
      after = cs;
      split = refl;
      attempted = attempted-attempt env task_type ram c s;
      skips = ap skipped (skip_records-attempt_ok env task_type ram c s d p) ∙ sym (append-nil _);
    })
    | inl (x, p) ↦ elim (Bool-cases (advance_on x)) [
      | inl more ↦
          let on = walk-advance last c cs s x p more in
          rw on (
            ServedBy-cons c cs s (walk x cs (step c s).1).1 x p more
              (walk-ServedBy x cs (step c s).1 r (rw on at e)))
      | inr stop ↦ cc (walk-stop last c cs s x p stop)
    ]
  ]

  pub walk-AllSkipped :
      (last : Exception) (cs : List DelegateCandidate) (s : Session) (e : Exception)
      → (walk last cs s).0 ≡ raise e
      → advance_on e ≡ true
      → AllSkipped cs s (walk last cs s).1
  unfolding try_each
  walk-AllSkipped last [] s e h q = record {
    attempted = sym (append-nil _);
    skips = sym (append-nil _);
  }
  walk-AllSkipped last (c ∷ cs) s e h q = elim (Result-cases (step c s).0) [
    | inr (d, p) ↦ cc (walk-ok last c cs s d p)
    | inl (x, p) ↦ elim (Bool-cases (advance_on x)) [
      | inl more ↦
          let on = walk-advance last c cs s x p more in
          let rest = walk-AllSkipped x cs (step c s).1 e (rw on at h) q in
          rw on (record {
            attempted = attempted_extends c s _ (names cs) rest.attempted;
            skips = skips_extend c s x _ (names cs) p more rest.skips;
          })
      | inr stop ↦ cc (walk-stop last c cs s x p stop)
    ]
  ]
