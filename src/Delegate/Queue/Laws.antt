-- ===== src/Delegate/Queue/Laws.antt =====
-- Proof rules for `run_chain`.
use josu.Common.{Bool, List, [], ◌∷◌, All, map, inl, inr, Bool-cases}
use josu.Delegate.Errors.{Exception, value_error, Result-cases}
use josu.Delegate.Queue.{Action, try_each, run_chain}

module _ {ℓ κ} {S A : Type ℓ} (advance_on : Exception → Bool) (P : S → Type κ) where
  -- The action keeps the property, whether it returns or raises.
  abbrev pub Keeps : Action S A → Type (ℓ ⊔ κ)
  Keeps attempt = (s : S) → P s → P (attempt s).1

  try_each-Keeps :
      (last_exc : Exception) (attempts : List (Action S A))
      → All Keeps attempts
      → Keeps (try_each advance_on last_exc attempts)
  unfolding try_each
  try_each-Keeps last_exc [] k s p = p
  try_each-Keeps last_exc (attempt ∷ attempts) k s p = elim (Result-cases (attempt s).0) [
    | inr (a, e) ↦ rw (e, try_each) (k.0 s p)
    | inl (x, e) ↦ elim (Bool-cases (advance_on x)) [
      | inl more ↦ rw (e, more, try_each) (try_each-Keeps x attempts k.1 (attempt s).1 (k.0 s p))
      | inr stop ↦ rw (e, stop, try_each) (k.0 s p)
    ]
  ]

  pub run_chain-Keeps :
      (attempts : List (Action S A)) → All Keeps attempts → Keeps (run_chain advance_on attempts)
  unfolding run_chain
  run_chain-Keeps attempts k = try_each-Keeps value_error attempts k

-- The attempts made for a list of items.
pub All-map {ℓ μ κ} :
    {I : Type μ} {B : Type ℓ} (Q : I → Type κ) (R : B → Type κ) (f : I → B) (items : List I)
    → ((i : I) → Q i → R (f i))
    → All Q items
    → All R (map f items)
All-map Q R f [] h q = tt
All-map Q R f (i ∷ items) h q = (h i q.0, All-map Q R f items h q.1)

pub All-map_each {ℓ μ κ} :
    {I : Type μ} {B : Type ℓ} (R : B → Type κ) (f : I → B) (items : List I)
    → ((i : I) → R (f i))
    → All R (map f items)
All-map_each R f [] h = tt
All-map_each R f (i ∷ items) h = (h i, All-map_each R f items h)
