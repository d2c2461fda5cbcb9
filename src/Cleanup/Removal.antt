-- ===== src/Cleanup/Removal.antt =====
-- What `josu cleanup` removes.
use josu.Common.{
  ℕ, Bool, true, false, ◌&&◌, ◌||◌, String, Option, none, some, List, [], ◌∷◌, map, contains, ◌≡◌,
  refl, ◌∙◌, ap, arith, if◌then◌else◌, ◌==◌, eq_string, eq_iff, inl, inr, Bool-cases, Option-cases,
}
use josu.Common.Dict
use josu.Common.Dict.{lookup-erase}
use josu.Fallback.{AbandonedWorktreeRecord, Markers}
use josu.Cleanup.{
  insert_name, sorted_set, find_record, remove_abandoned_worktree, remove_each, cmd_cleanup,
}

contains-insert_name :
    (n m : String) (ns : List String) → contains (insert_name n ns) m ≡ (m == n || contains ns m)
unfolding insert_name
contains-insert_name n m [] = refl
contains-insert_name n m (k ∷ ks) =
    ground (arith, contains-insert_name n m ks, eq_iff n k, eq_iff m k, eq_iff m n)

contains-sorted_set : (ns : List String) (m : String) → contains (sorted_set ns) m ≡ contains ns m
unfolding sorted_set
contains-sorted_set [] m = refl
contains-sorted_set (n ∷ ns) m =
    contains-insert_name n m (sorted_set ns) ∙ ap (λ b. m == n || b) (contains-sorted_set ns m)

abbrev pub is_nil {ℓ} : {A : Type ℓ} → List A → Bool
is_nil [] = true
is_nil (x ∷ xs) = false

module _ (name_of : String → String) (removes : AbandonedWorktreeRecord → Bool) where
  -- There is a listed record of the name, and git removes its worktree.
  abbrev pub is_removed : List AbandonedWorktreeRecord → String → Bool
  is_removed records name = elim (find_record name_of removes name records) [
    | none ↦ false
    | some r ↦ removes r
  ]

  abbrev pub all_removed : List AbandonedWorktreeRecord → List String → Bool
  all_removed records [] = true
  all_removed records (name ∷ names) = is_removed records name && all_removed records names

  find_record-name :
      (name : String) (rs : List AbandonedWorktreeRecord) (r : AbandonedWorktreeRecord)
      → find_record name_of removes name rs ≡ some r
      → name_of r.worktree_path ≡ name
  unfolding find_record
  find_record-name name [] r h = cc
  find_record-name name (q ∷ rs) r h = elim (Bool-cases (name_of q.worktree_path == name)) [
    | inl same ↦ ground (arith, eq_iff (name_of q.worktree_path) name)
    | inr differs ↦ find_record-name name rs r (ground arith)
  ]

  remove_each-eq :
      (records : List AbandonedWorktreeRecord) (names : List String) (code : ℕ) (markers : Markers)
      (n : String)
      → ((remove_each name_of removes records names code markers).0
          ≡ (if all_removed records names then code else 1))
        × (Dict.lookup n (remove_each name_of removes records names code markers).1
            ≡ (if contains names n && is_removed records n then none else Dict.lookup n markers))
  unfolding remove_each remove_abandoned_worktree
  remove_each-eq records [] code markers n = (refl, refl)
  remove_each-eq records (name ∷ names) code markers n =
      elim (Option-cases (find_record name_of removes name records)) [
        | inl absent ↦ ground (
          arith,
          eq_iff n name,
          (remove_each-eq records names 1 markers n).0,
          (remove_each-eq records names 1 markers n).1,
        )
        | inr (r, found) ↦ elim (Bool-cases (removes r)) [
          | inl gone ↦
              let left = Dict.erase (name_of r.worktree_path) markers in
              ground (
                arith,
                eq_iff n name,
                eq_iff name n,
                find_record-name name records r found,
                lookup-erase (name_of r.worktree_path) n markers,
                (remove_each-eq records names code left n).0,
                (remove_each-eq records names code left n).1,
              )
          | inr kept ↦ ground (
            arith,
            eq_iff n name,
            (remove_each-eq records names 1 markers n).0,
            (remove_each-eq records names 1 markers n).1,
          )
        ]
      ]

  all_removed-insert_name :
      (records : List AbandonedWorktreeRecord) (n : String) (ns : List String)
      → all_removed records (insert_name n ns) ≡ (is_removed records n && all_removed records ns)
  unfolding insert_name
  all_removed-insert_name records n [] = refl
  all_removed-insert_name records n (m ∷ ms) =
      ground (arith, all_removed-insert_name records n ms, eq_iff n m)

  all_removed-sorted_set :
      (records : List AbandonedWorktreeRecord) (ns : List String)
      → all_removed records (sorted_set ns) ≡ all_removed records ns
  unfolding sorted_set
  all_removed-sorted_set records [] = refl
  all_removed-sorted_set records (n ∷ ns) =
      all_removed-insert_name records n (sorted_set ns)
      ∙ ap (λ b. is_removed records n && b) (all_removed-sorted_set records ns)

  -- The names that the developer asks for.
  abbrev pub asked : List String → Bool → List AbandonedWorktreeRecord → List String
  asked remove remove_all records =
      if remove_all then map (λ r. name_of r.worktree_path) records else remove

  no_records : {A : Type 0} (asks : Bool) (o : Option A) → o ≡ (if asks && false then none else o)
  no_records true o = refl
  no_records false o = refl

  -- With records to report, a cleanup ends with 0 if each name asked for is that of a record whose
  -- worktree git removes, and with 1 otherwise; with none, with 0. It deletes the
  -- marker of each name asked for whose worktree git removes, and leaves every other marker as it
  -- was.
  pub cmd_cleanup-eq :
      (remove : List String) (remove_all : Bool) (records : List AbandonedWorktreeRecord)
      (markers : Markers) (n : String)
      → let end = cmd_cleanup name_of removes remove remove_all records markers in
        let names = asked remove remove_all records in
        (end.0 ≡ (if is_nil records || all_removed records names then 0 else 1))
        × (Dict.lookup n end.1
            ≡ (if contains names n && is_removed records n then none else Dict.lookup n markers))
  unfolding cmd_cleanup find_record
  cmd_cleanup-eq remove remove_all [] markers n =
      (refl, no_records (contains (asked remove remove_all []) n) (Dict.lookup n markers))
  cmd_cleanup-eq remove remove_all (r ∷ rs) markers n =
      let names = asked remove remove_all (r ∷ rs) in
      let (code, left) = remove_each-eq (r ∷ rs) (sorted_set names) 0 markers n in
      (
        code ∙ ap (λ b. if b then 0 else 1) (all_removed-sorted_set (r ∷ rs) names),
        left
            ∙ ap (λ b. if b && is_removed (r ∷ rs) n then none else Dict.lookup n markers)
                (contains-sorted_set names n),
      )
