-- ===== src/Cleanup/Scan.antt =====
-- What a scan finds, marks and keeps.
pub mod Again
pub mod Kept
use josu.Common.{
  Bool, true, false, not, ◌&&◌, ◌||◌, String, Option, none, some, List, [], ◌∷◌, map, filter,
  contains, ◌>>=◌, ◌≡◌, refl, sym, ◌∙◌, ap, subst, arith, All, All-imp, if◌then◌else◌, ◌==◌,
  eq_string, eq_iff, inl, inr, Bool-cases, Option-cases,
}
use josu.Common.Dict
use josu.Common.Dict.{lookup-insert}
use josu.Fallback.{
  AbandonedWorktreeRecord, Marker, marker, unreadable, Markers, marker_record, insert_marker,
  sorted, read_markers, list_abandoned_worktrees, mark_worktree_abandoned,
  abandon_reason_crash_orphaned,
}
use josu.Orchestrator.Worktree.{Worktree, find_orphaned_worktrees, list_managed_worktrees}
use josu.Cleanup.{mark_all, known_names, collected, scan_and_collect}

-- The names under which there are markers.
abbrev pub stems : Markers → List String
stems = map (λ f. f.0)

module _ (name_of : String → String) where
  -- A marker that can be read, under the name of its worktree, as `mark_worktree_abandoned` writes it.
  abbrev pub IsOwnUnder : String → Marker → Type 0
  IsOwnUnder stem unreadable = ⊥
  IsOwnUnder stem (marker r) = name_of r.worktree_path ≡ stem

  abbrev pub IsOwn : String × Marker → Type 0
  IsOwn = λ f. IsOwnUnder f.0 f.1

  abbrev pub AllOwn : Markers → Type 0
  AllOwn = All IsOwn

  insert_marker-AllOwn :
      (f : String × Marker) (fs : Markers) → IsOwn f → AllOwn fs → AllOwn (insert_marker f fs)
  unfolding insert_marker
  insert_marker-AllOwn f [] h k = (h, tt)
  insert_marker-AllOwn f (g ∷ gs) h k = ground (arith, insert_marker-AllOwn f gs h k.1)

  sorted-AllOwn : (fs : Markers) → AllOwn fs → AllOwn (sorted fs)
  unfolding sorted
  sorted-AllOwn [] h = tt
  sorted-AllOwn (f ∷ fs) h = insert_marker-AllOwn f (sorted fs) h.0 (sorted-AllOwn fs h.1)

  contains-insert_marker :
      (f : String × Marker) (fs : Markers) (n : String)
      → contains (stems (insert_marker f fs)) n ≡ (n == f.0 || contains (stems fs) n)
  unfolding insert_marker
  contains-insert_marker f [] n = refl
  contains-insert_marker f (g ∷ gs) n = ground (arith, contains-insert_marker f gs n)

  contains-sorted :
      (fs : Markers) (n : String) → contains (stems (sorted fs)) n ≡ contains (stems fs) n
  unfolding sorted
  contains-sorted [] n = refl
  contains-sorted (f ∷ fs) n =
      ground (arith, contains-insert_marker f (sorted fs) n, contains-sorted fs n)

  -- Own markers can all be read, and their records have the names that the markers have.
  read_markers-AllOwn :
      (fs : Markers)
      → AllOwn fs
      → (rs : List AbandonedWorktreeRecord) × ((read_markers fs ≡ some rs)
          × (map (λ r. name_of r.worktree_path) rs ≡ stems fs))
  unfolding read_markers
  read_markers-AllOwn [] h = ([], (refl, refl))
  read_markers-AllOwn ((stem, unreadable) ∷ fs) (h, k) = absurd h
  read_markers-AllOwn ((stem, marker r) ∷ fs) (h, k) =
      let (rs, (read, names)) = read_markers-AllOwn fs k in
      (
        r ∷ rs,
        (
          rw read refl,
          ap (λ n. n ∷ map (λ q. name_of q.worktree_path) rs) h ∙ ap (λ ns. stem ∷ ns) names,
        ),
      )

  -- What is known of own markers: their names.
  list-AllOwn :
      (fs : Markers)
      → AllOwn fs
      → (rs : List AbandonedWorktreeRecord) × ((list_abandoned_worktrees fs ≡ some rs)
          × ((n : String)
              → contains (map (λ r. name_of r.worktree_path) rs) n ≡ contains (stems fs) n))
  unfolding list_abandoned_worktrees
  list-AllOwn fs h =
      let (rs, (read, names)) = read_markers-AllOwn (sorted fs) (sorted-AllOwn fs h) in
      (rs, (read, (λ n. ap (λ ns. contains ns n) names ∙ contains-sorted fs n)))

  contains-insert :
      (k n : String) (m : Marker) (fs : Markers)
      → contains (stems (Dict.insert k m fs)) n ≡ (n == k || contains (stems fs) n)
  unfolding Dict.insert
  contains-insert k n m [] = refl
  contains-insert k n m ((j, old) ∷ fs) =
      ground (arith, contains-insert k n m fs, eq_iff j k, eq_iff n j, eq_iff n k)

  insert-AllOwn :
      (k : String) (m : Marker) (fs : Markers)
      → IsOwnUnder k m
      → AllOwn fs
      → AllOwn (Dict.insert k m fs)
  unfolding Dict.insert
  insert-AllOwn k m [] h hs = (h, tt)
  insert-AllOwn k m ((j, old) ∷ fs) h (here, hs) = elim (Bool-cases (j == k)) [
    | inl same ↦ rw same (subst (λ i. IsOwnUnder i m) (sym ((eq_iff j k).0 same)) h, hs)
    | inr differs ↦ rw differs (here, insert-AllOwn k m fs h hs)
  ]
