-- ===== src/Orchestrator/Merge/Divergence.antt =====
-- What `find_diverged_paths` finds.
use josu.Common.{
  Bool, true, false, ◌&&◌, not, String, List, [], ◌∷◌, eq_string, contains, ◌≡◌, refl, arith,
  if◌then◌else◌, inl, inr, Bool-cases, eq_iff, sym, ◌∙◌, subst,
}
use josu.Delegate.Errors.{Result, ok, raise, Result-cases}
use josu.Orchestrator.Merge.{
  Git, RepoSnapshot, Files, Change, touched, same_content, content_at_snapshot, content_now,
  diverged_from, find_diverged_paths,
}

-- No path stands in a list twice.
abbrev pub IsDistinct : List String → Type 0
IsDistinct [] = Unit
IsDistinct (p ∷ ps) = (contains ps p ≡ false) × IsDistinct ps

module _ (git : Git) (snapshot : RepoSnapshot) (files : Files) where
  -- The content of a path was another one when the snapshot was taken.
  unfoldable pub differs : String → Bool
  differs path = elim (content_at_snapshot git snapshot files path) [
    | raise e ↦ false
    | ok before ↦ elim (content_now git snapshot files path) [
      | raise e ↦ false
      | ok now ↦ not (same_content before now)
    ]
  ]

  diverged_from_seen :
      (path : String) (paths seen : List String)
      → contains seen path ≡ true
      → diverged_from git snapshot files seen (path ∷ paths)
        ≡ diverged_from git snapshot files seen paths
  unfolding diverged_from
  diverged_from_seen path paths seen h = rw h refl

  diverged_from_new :
      (path : String) (paths seen diverged : List String)
      → contains seen path ≡ false
      → diverged_from git snapshot files seen (path ∷ paths) ≡ ok diverged
      → (rest : List String) × (diverged_from git snapshot files (path ∷ seen) paths ≡ ok rest)
        × (diverged ≡ (if differs path then path ∷ rest else rest))
  unfolding diverged_from differs
  diverged_from_new path paths seen diverged fresh h =
      elim (Result-cases (diverged_from git snapshot files (path ∷ seen) paths)) [
        | inl (e, failed) ↦ ground (arith)
        | inr (rest, read) ↦ (rest, read, ground arith)
      ]

  contains-diverged_from :
      (paths seen diverged : List String)
      → diverged_from git snapshot files seen paths ≡ ok diverged
      → (p : String)
      → contains diverged p ≡ (contains paths p && not (contains seen p) && differs p)
  unfolding diverged_from
  contains-diverged_from [] seen diverged h p = ground arith
  contains-diverged_from (path ∷ paths) seen diverged h p = elim (Bool-cases (contains seen path)) [
    | inl old ↦
        let ih =
          contains-diverged_from paths seen diverged
            (sym (diverged_from_seen path paths seen old) ∙ h) p in
        ground (arith, eq_iff p path)
    | inr new ↦
        let (rest, read, made) = diverged_from_new path paths seen diverged new h in
        let ih = contains-diverged_from paths (path ∷ seen) rest read p in
        ground (arith, eq_iff p path)
  ]

  empty_list :
      (diverged : List String)
      → ◌≡◌ {A = Result (List String)} (ok []) (ok diverged)
      → [] ≡ diverged
  empty_list diverged h = cc

  IsDistinct-diverged_from :
      (paths seen diverged : List String)
      → diverged_from git snapshot files seen paths ≡ ok diverged
      → IsDistinct diverged
  unfolding diverged_from
  IsDistinct-diverged_from [] seen diverged h = subst IsDistinct (empty_list diverged h) tt
  IsDistinct-diverged_from (path ∷ paths) seen diverged h = elim (Bool-cases (contains seen path)) [
    | inl old ↦
        IsDistinct-diverged_from paths seen diverged
          (sym (diverged_from_seen path paths seen old) ∙ h)
    | inr new ↦
        let (rest, read, made) = diverged_from_new path paths seen diverged new h in
        let ih = IsDistinct-diverged_from paths (path ∷ seen) rest read in
        let fresh = contains-diverged_from paths (path ∷ seen) rest read path in
        subst IsDistinct (sym made)
          (IsDistinct-if (differs path) path rest (ground (arith, eq_iff path path)) ih)
  ]
    where
      IsDistinct-if :
          (b : Bool) (p : String) (ps : List String)
          → contains ps p ≡ false
          → IsDistinct ps
          → IsDistinct (if b then p ∷ ps else ps)
      IsDistinct-if true p ps new h = (new, h)
      IsDistinct-if false p ps new h = h

  -- Where every content can be read, the check reports just the paths that the changes touch and
  -- whose content differs from the one at the snapshot, each of them once.
  pub find_diverged_paths-exact :
      (changes : List Change) (diverged : List String)
      → find_diverged_paths git snapshot files changes ≡ ok diverged
      → IsDistinct diverged
        × ((p : String) → contains diverged p ≡ (contains (touched changes) p && differs p))
  unfolding find_diverged_paths
  find_diverged_paths-exact changes diverged h = (
    IsDistinct-diverged_from (touched changes) [] diverged h,
    λ p. ground (arith, contains-diverged_from (touched changes) [] diverged h p),
  )
