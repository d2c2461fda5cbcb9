-- ===== src/Daemon/Auth/Token.antt =====
-- The token file is made once, and read from then on.
use josu.Common.{
  true, false, String, Option, none, some, ◌≡◌, refl, ◌≢◌, ◌∙◌, arith, ap, subst, Option-cases,
  Bool-cases, inl, inr,
}
use josu.Common.Latin.{strip}
use josu.Daemon.Auth.{Meets, load_or_create_daemon_token}

abbrev Load : Type 0
Load = Option String × Option String

raced_load :
    (meets : Meets) (text : String)
    → meets.raced ≡ some text
    → ◌≡◌ {A = Load} (some (strip text), some text) (load_or_create_daemon_token meets none)
unfolding load_or_create_daemon_token
raced_load meets text raced = ground arith

created_load :
    (meets : Meets)
    → meets.raced ≡ none
    → meets.write_succeeds ≡ true
    → ◌≡◌ {A = Load}
        (some meets.generated, some meets.generated)
        (load_or_create_daemon_token meets none)
unfolding load_or_create_daemon_token
created_load meets alone written = ground arith

torn_load :
    (meets : Meets)
    → meets.raced ≡ none
    → meets.write_succeeds ≡ false
    → (token : String) → (load_or_create_daemon_token meets none).0 ≢ some token
unfolding load_or_create_daemon_token
torn_load meets alone torn token h = ground arith

-- Where the generated text has no white space around it, and a first load returns a token, every
-- later load, whatever it meets, returns the same token and leaves the file as the first one left it.
pub load_or_create_daemon_token-again :
    (meets later : Meets) (file left : Option String) (token : String)
    → strip meets.generated ≡ meets.generated
    → load_or_create_daemon_token meets file ≡ (some token, left)
    → load_or_create_daemon_token later left ≡ (some token, left)
unfolding load_or_create_daemon_token
load_or_create_daemon_token-again meets later (some text) left token plain h =
    subst (λ r. load_or_create_daemon_token later r.1 ≡ r) h refl
load_or_create_daemon_token-again meets later none left token plain h =
    elim (Option-cases meets.raced) [
      | inr (text, raced) ↦
          subst (λ r. load_or_create_daemon_token later r.1 ≡ r) (raced_load meets text raced ∙ h)
            refl
      | inl alone ↦ elim (Bool-cases meets.write_succeeds) [
        | inl written ↦
            subst (λ r. load_or_create_daemon_token later r.1 ≡ r)
              (created_load meets alone written ∙ h) (rw plain refl)
        | inr torn ↦ absurd (torn_load meets alone torn token (ap (λ r. r.0) h))
      ]
    ]
