-- ===== src/Config/Chains/Order.antt =====
-- Free-local-first ordering.
use josu.Common.{
  true, false, List, [], ◌∷◌, ◌++◌, ◌≡◌, refl, arith, filter, All, All-filter, filter-All,
  filter-append, append-nil, Bool-cases, inl, inr,
}
use josu.Config.Delegate.{DelegateCandidate}
use josu.Config.Chains.{key, insert_sorted, default_chain_order, is_local}

-- A local candidate goes to the front, a remote one behind the local ones.
insert_sorted-local :
    (c : DelegateCandidate) (ds : List DelegateCandidate)
    → c.local ≡ true
    → insert_sorted c ds ≡ c ∷ ds
unfolding insert_sorted
insert_sorted-local c [] h = refl
insert_sorted-local c (d ∷ ds) h = ground arith

insert_sorted-remote :
    (c : DelegateCandidate) (locals remotes : List DelegateCandidate)
    → c.local ≡ false
    → All (λ d. d.local ≡ true) locals
    → All (λ d. d.local ≡ false) remotes
    → insert_sorted c (locals ++ remotes) ≡ locals ++ c ∷ remotes
unfolding insert_sorted
insert_sorted-remote c [] [] h l r = refl
insert_sorted-remote c [] (d ∷ ds) h l r = ground arith
insert_sorted-remote c (d ∷ ds) rs h l r = ground (arith, insert_sorted-remote c ds rs h l.1 r)

All-remote : (cs : List DelegateCandidate) → All (λ d. d.local ≡ false) (filter key cs)
All-remote [] = tt
All-remote (c ∷ cs) = ground (arith, All-remote cs)

-- The default order is the local candidates followed by the remote ones, each group in the order in
-- which it was given.
pub default_chain_order-eq-partition :
    (cs : List DelegateCandidate) → default_chain_order cs ≡ filter is_local cs ++ filter key cs
unfolding default_chain_order
default_chain_order-eq-partition [] = refl
default_chain_order-eq-partition (c ∷ cs) =
    rw (default_chain_order-eq-partition cs) (elim (Bool-cases c.local) [
      | inl l ↦ rw (insert_sorted-local c (filter is_local cs ++ filter key cs) l) (ground arith)
      | inr r ↦ ground (
        arith,
        insert_sorted-remote c (filter is_local cs) (filter key cs) r (All-filter is_local cs)
            (All-remote cs),
      )
    ])

-- Where nothing is remote, the order stays as it was.
pub default_chain_order-local :
    (cs : List DelegateCandidate) → All (λ c. c.local ≡ true) cs → default_chain_order cs ≡ cs
unfolding default_chain_order
default_chain_order-local [] h = refl
default_chain_order-local (c ∷ cs) h =
    rw (default_chain_order-local cs h.1) (insert_sorted-local c cs h.0)

filter-is_local-key : (cs : List DelegateCandidate) → filter is_local (filter key cs) ≡ []
filter-is_local-key [] = refl
filter-is_local-key (c ∷ cs) = ground (arith, filter-is_local-key cs)

-- Dropping the remote candidates makes the order irrelevant.
pub filter-default_chain_order :
    (cs : List DelegateCandidate) → filter is_local (default_chain_order cs) ≡ filter is_local cs
filter-default_chain_order cs =
    rw
      (
        default_chain_order-eq-partition cs,
        filter-append is_local (filter is_local cs) (filter key cs),
        filter-is_local-key cs,
        append-nil,
      )
      (filter-All is_local (filter is_local cs) (All-filter is_local cs))
