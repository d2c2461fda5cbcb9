-- ===== src/Cleanup/Scan/Again.antt =====
-- A scan keeps the markers that are there, and a second one finds nothing.
use josu.Common.{
  Bool, true, false, not, ◌&&◌, ◌||◌, String, Option, some, List, [], ◌∷◌, map, filter, contains,
  ◌≡◌, refl, sym, ◌∙◌, ap, subst, arith, All, All-imp, All-filter, ==_refl, eq_string, eq_iff, inl,
  inr, Bool-cases,
}
use josu.Common.Dict
use josu.Common.Dict.{lookup-insert}
use josu.Fallback.{
  AbandonedWorktreeRecord, Markers, marker, marker_record, list_abandoned_worktrees,
  mark_worktree_abandoned, abandon_reason_crash_orphaned,
}
use josu.Orchestrator.Worktree.{Worktree, find_orphaned_worktrees, list_managed_worktrees}
use josu.Cleanup.{mark_all, known_names, collected, scan_and_collect}
use josu.Cleanup.Scan.{stems, AllOwn, list-AllOwn, contains-insert, insert-AllOwn}

module _ (is_under : String → Bool) (name_of : String → String) (repo_root now : String) where
  abbrev marks : List Worktree → Markers → Markers
  marks = mark_all is_under name_of repo_root now

  abbrev names : List Worktree → List String
  names = map (λ w. name_of w.path)

  mark_all-AllOwn :
      (ws : List Worktree) (fs : Markers) → AllOwn name_of fs → AllOwn name_of (marks ws fs)
  unfolding mark_all mark_worktree_abandoned
  mark_all-AllOwn [] fs h = h
  mark_all-AllOwn (w ∷ ws) fs h =
      mark_all-AllOwn ws (mark_worktree_abandoned name_of now abandon_reason_crash_orphaned w fs) (
        insert-AllOwn name_of (name_of w.path)
          (marker (marker_record now abandon_reason_crash_orphaned w)) fs refl h)

  contains-mark_all :
      (ws : List Worktree) (fs : Markers) (n : String)
      → contains (stems (marks ws fs)) n ≡ (contains (names ws) n || contains (stems fs) n)
  unfolding mark_all mark_worktree_abandoned
  contains-mark_all [] fs n = refl
  contains-mark_all (w ∷ ws) fs n =
      let made = marker (marker_record now abandon_reason_crash_orphaned w) in
      ground (
        arith,
        contains-mark_all ws (Dict.insert (name_of w.path) made fs) n,
        contains-insert name_of (name_of w.path) n made fs,
      )

  lookup-mark_all :
      (ws : List Worktree) (fs : Markers) (n : String)
      → contains (names ws) n ≡ false
      → Dict.lookup n (marks ws fs) ≡ Dict.lookup n fs
  unfolding mark_all mark_worktree_abandoned
  lookup-mark_all [] fs n h = refl
  lookup-mark_all (w ∷ ws) fs n h =
      let made = marker (marker_record now abandon_reason_crash_orphaned w) in
      ground (
        arith,
        lookup-mark_all ws (Dict.insert (name_of w.path) made fs) n,
        lookup-insert (name_of w.path) n made fs,
        eq_iff (name_of w.path) n,
        eq_iff n (name_of w.path),
      )

  -- A worktree whose name is not among those that are known.
  abbrev is_new : List String → Worktree → Bool
  is_new known w = not (contains known (name_of w.path))

  new-unknown :
      (known : List String) (ws : List Worktree) (n : String)
      → All (λ w. is_new known w ≡ true) ws
      → contains known n ≡ true
      → contains (names ws) n ≡ false
  new-unknown known [] n h k = refl
  new-unknown known (w ∷ ws) n (here, h) k =
      ground (arith, new-unknown known ws n h k, eq_iff n (name_of w.path))

  -- With the new ones among those known, none is new.
  abbrev is_covered : List String → List String → Worktree → Bool
  is_covered known marked w = contains marked (name_of w.path) || contains known (name_of w.path)

  filter-covered :
      (known : List String) (ws : List Worktree)
      → All (λ w. is_covered known (names (filter (is_new known) ws)) w ≡ true) ws
  filter-covered known [] = tt
  filter-covered known (w ∷ ws) =
      let found = filter (is_new known) ws in
      elim (Bool-cases (contains known (name_of w.path))) [
        | inl old ↦
            let same : filter (is_new known) (w ∷ ws) ≡ found = rw old refl in
            subst (λ vs. All (λ v. is_covered known (names vs) v ≡ true) (w ∷ ws)) (sym same)
              (ground arith, filter-covered known ws)
        | inr new ↦
            let same : filter (is_new known) (w ∷ ws) ≡ w ∷ found = rw new refl in
            subst (λ vs. All (λ v. is_covered known (names vs) v ≡ true) (w ∷ ws)) (sym same)
              (
                ground (arith, ==_refl (name_of w.path)),
                All-imp (λ v. is_covered known (names found) v ≡ true)
                    (λ v. is_covered known (names (w ∷ found)) v ≡ true) (λ v h. ground arith) ws
                    (filter-covered known ws),
              )
      ]

  filter_none :
      (p : Worktree → Bool) (ws : List Worktree) → All (λ w. p w ≡ false) ws → filter p ws ≡ []
  filter_none p [] h = refl
  filter_none p (w ∷ ws) h = ground (arith, filter_none p ws h.1)

  collected-eq :
      (ws : List Worktree) (existing records : List AbandonedWorktreeRecord) (fs : Markers)
      → list_abandoned_worktrees fs ≡ some records
      → (ws ≡ [] → existing ≡ records)
      → collected is_under name_of repo_root now ws existing fs ≡ some (names ws, records)
  unfolding collected
  collected-eq [] existing records fs read same = ap (λ rs. some ([], rs)) (same refl)
  collected-eq (w ∷ ws) existing records fs read same = rw read refl

  abbrev scans :
      List String → Markers → Option (List String × List AbandonedWorktreeRecord) × Markers
  scans = scan_and_collect is_under name_of repo_root now

  abbrev orphans_of : List String → List AbandonedWorktreeRecord → List Worktree
  orphans_of lines existing =
      find_orphaned_worktrees is_under name_of repo_root
        (known_names is_under name_of repo_root now existing) lines

  scan_read :
      (lines : List String) (fs : Markers) (existing : List AbandonedWorktreeRecord)
      → list_abandoned_worktrees fs ≡ some existing
      → scans lines fs ≡ (
        collected is_under name_of repo_root now
            (orphans_of lines existing)
            existing
            (marks (orphans_of lines existing) fs),
        marks (orphans_of lines existing) fs,
      )
  unfolding scan_and_collect
  scan_read lines fs existing read = rw (read, scan_and_collect) refl

  scan_quiet :
      (lines : List String) (fs : Markers) (records : List AbandonedWorktreeRecord)
      → list_abandoned_worktrees fs ≡ some records
      → orphans_of lines records ≡ []
      → scans lines fs ≡ (some ([], records), fs)
  unfolding collected mark_all
  scan_quiet lines fs records read none_new =
      scan_read lines fs records read
      ∙ ap (λ ws. (collected is_under name_of repo_root now ws records (marks ws fs), marks ws fs))
          none_new

  -- The names of records are those of markers.
  abbrev Names : List AbandonedWorktreeRecord → Markers → Type 0
  Names records fs =
      (n : String) → contains (map (λ r. name_of r.worktree_path) records) n ≡ contains (stems fs) n

  none_left :
      (lines : List String) (fs : Markers) (existing records : List AbandonedWorktreeRecord)
      → Names existing fs
      → Names records (marks (orphans_of lines existing) fs)
      → orphans_of lines records ≡ []
  unfolding find_orphaned_worktrees
  none_left lines fs existing records known all_known =
      let managed = list_managed_worktrees is_under name_of repo_root lines in
      let names_known = map (λ r. name_of r.worktree_path) existing in
      filter_none (is_new (map (λ r. name_of r.worktree_path) records)) managed (
        All-imp (λ w. is_covered names_known (names (filter (is_new names_known) managed)) w ≡ true)
          (λ w. is_new (map (λ r. name_of r.worktree_path) records) w ≡ false)
          (λ w h. ground (
            arith,
            known (name_of w.path),
            all_known (name_of w.path),
            contains-mark_all (orphans_of lines existing) fs (name_of w.path),
          ))
          managed (filter-covered names_known managed))

  orphans-new :
      (lines : List String) (existing : List AbandonedWorktreeRecord)
      → All
          (λ w. is_new (map (λ r. name_of r.worktree_path) existing) w ≡ true)
          (orphans_of lines existing)
  unfolding find_orphaned_worktrees
  orphans-new lines existing =
      All-filter (is_new (map (λ r. name_of r.worktree_path) existing))
        (list_managed_worktrees is_under name_of repo_root lines)

  same_records :
      (ws : List Worktree) (fs : Markers) (existing records : List AbandonedWorktreeRecord)
      → list_abandoned_worktrees fs ≡ some existing
      → list_abandoned_worktrees (marks ws fs) ≡ some records
      → ws ≡ []
      → existing ≡ records
  unfolding mark_all
  same_records [] fs existing records read again e = cc
  same_records (w ∷ ws) fs existing records read again e = cc

  found-names :
      (ws : List Worktree) (fs : Markers) (existing : List AbandonedWorktreeRecord)
      → Names existing fs
      → All (λ w. is_new (map (λ r. name_of r.worktree_path) existing) w ≡ true) ws
      → (n : String)
      → contains (names ws) n ≡ (contains (stems (marks ws fs)) n && not (contains (stems fs) n))
  found-names ws fs existing known new n = elim (Bool-cases (contains (stems fs) n)) [
    | inl there ↦
        let old =
          new-unknown (map (λ r. name_of r.worktree_path) existing) ws n new (known n ∙ there) in
        ground arith
    | inr absent ↦ ground (arith, contains-mark_all ws fs n)
  ]

  -- What a scan that ends with `out` has done.
  abbrev pub Scanned :
      List String → Markers → Option (List String × List AbandonedWorktreeRecord) × Markers → Type 0
  Scanned lines fs = λ out.
      (found : List String) × ((records : List AbandonedWorktreeRecord) × ((out.0
            ≡ some (found, records))
          × (((n : String)
                → contains found n ≡ (contains (stems out.1) n && not (contains (stems fs) n)))
              × ((scans lines out.1 ≡ (some ([], records), out.1))
                  × ((n : String)
                      → contains (stems fs) n ≡ true
                      → Dict.lookup n out.1 ≡ Dict.lookup n fs)))))

  pub scan_and_collect-again :
      (lines : List String) (fs : Markers) → AllOwn name_of fs → Scanned lines fs (scans lines fs)
  scan_and_collect-again lines fs own =
      let (existing, (read, known)) = list-AllOwn name_of fs own in
      let orphans = orphans_of lines existing in
      let marked = marks orphans fs in
      let first = scan_read lines fs existing read in
      let (records, (again, all_known)) =
        list-AllOwn name_of marked (mark_all-AllOwn orphans fs own) in
      subst (Scanned lines fs) (sym first) (
        names orphans,
        (
          records,
          (
            collected-eq orphans existing records marked again
                (same_records orphans fs existing records read again),
            (
              found-names orphans fs existing known (orphans-new lines existing),
              (
                scan_quiet lines marked records again
                    (none_left lines fs existing records known all_known),
                (λ n there. lookup-mark_all orphans fs n (
                    new-unknown (map (λ r. name_of r.worktree_path) existing) orphans n
                      (orphans-new lines existing) (known n ∙ there))),
              ),
            ),
          ),
        ),
      )
