-- ===== src/Daemon/Auth/Entry.antt =====
-- Which requests reach the app.
use josu.Common.{
  Bool, true, false, not, ◌&&◌, String, Option, none, some, ◌≡◌, ◌↔◌, ◌⊎◌, inl, inr, arith, ◌==◌,
  eq_string, eq_iff, Bool-cases, subst, sym, ◌∙◌,
}
use josu.Common.Latin.{is_ascii}
use josu.Daemon.Auth.{
  Scope, invoked, middleware_call, is_session_scoped, supplied_token, check_token, compare_digest,
}

-- The request needs a token: it is an HTTP request to a path that no session id protects.
abbrev pub needs_token : Scope → Bool
needs_token scope = scope.type == "http" && not (is_session_scoped scope.path)

check_token-invoked :
    (token : String) (supplied : Option String)
    → is_ascii token ≡ true
    → (check_token token supplied ≡ invoked) ↔ (supplied ≡ some token)
unfolding check_token compare_digest
check_token-invoked token none ascii = ((λ h. cc), (λ h. cc))
check_token-invoked token (some supplied) ascii = (
  (λ h. ground (arith, eq_iff supplied token)),
  (λ same.
      subst (λ t. check_token token t ≡ invoked) (sym same) (ground (arith, eq_iff token token))),
)

middleware_call_unneeded :
    (token : String) (scope : Scope)
    → needs_token scope ≡ false
    → middleware_call token scope ≡ invoked
unfolding middleware_call
middleware_call_unneeded token scope h = ground arith

middleware_call_needed :
    (token : String) (scope : Scope)
    → needs_token scope ≡ true
    → middleware_call token scope ≡ check_token token (supplied_token scope)
unfolding middleware_call
middleware_call_needed token scope h = ground arith

-- With an ASCII token, the app is invoked for exactly the requests that need no token and those that
-- supply just this token: in the query, or, without one there, in the header.
pub middleware_call-invoked_iff :
    (token : String) (scope : Scope)
    → is_ascii token ≡ true
    → (middleware_call token scope ≡ invoked)
      ↔ ((needs_token scope ≡ false) ⊎ (supplied_token scope ≡ some token))
middleware_call-invoked_iff token scope ascii = elim (Bool-cases (needs_token scope)) [
  | inr free ↦ ((λ h. inl free), (λ h. middleware_call_unneeded token scope free))
  | inl needed ↦
      let (reads, admits) = check_token-invoked token (supplied_token scope) ascii in
      (
        (λ h. inr (reads (sym (middleware_call_needed token scope needed) ∙ h))),
        (λ h. elim h [
          | inl free ↦ middleware_call_unneeded token scope free
          | inr same ↦ middleware_call_needed token scope needed ∙ admits same
        ]),
      )
]
