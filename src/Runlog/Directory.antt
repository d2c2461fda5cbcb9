-- ===== src/Runlog/Directory.antt =====
-- src/josu/observability/runlog.py: saving, loading and finding records. A directory is its files in
-- the order of `glob`, or nothing before the first run; `json.dumps`, `json.loads` and the times of
-- modification are parameters.
use josu.Common.{
  ℕ, ◌<◌, String, Option, none, some, List, [], ◌∷◌, ◌≡◌, refl, ◌∙◌, ap, arith, All, map, ltb,
  if◌then◌else◌, ◌==◌, eq_string, eq_iff, get_or_else, inl, inr, Bool-cases,
}
use josu.Common.Dict
use josu.Common.Dict.{Dict, lookup-insert}
use josu.Delegate.Json.{Json, Decoded, decoded}
use josu.Runlog.{RunRecord}
use josu.Runlog.Codec.{to_dict, from_dict}
use josu.Runlog.Codec.RoundTrip.{from_dict-to_dict}

pub record File : Type 0 where
  pub text : String
  pub mtime : ℕ

abbrev pub Files : Type 0
Files = Dict String File

abbrev pub Directory : Type 0
Directory = Option Files

-- `_run_paths`
abbrev pub files_of : Directory → Files
files_of d = get_or_else d []

-- What `load_run` returns: `unreadable` is an exception of `json.loads` or of `from_dict`.
pub data Loaded : Type 0 where
  loaded : RunRecord → Loaded
  not_found unreadable : Loaded

-- `max(paths, key=mtime)`, from the path that is the best so far: the first of the latest ones
unfoldable pub latest_of : String × File → Files → String × File
latest_of best [] = best
latest_of best (file ∷ files) =
    if ltb best.1.mtime file.1.mtime then latest_of file files else latest_of best files

-- `_latest_run_path`
unfoldable pub latest_run_path : Directory → Option (String × File)
latest_run_path none = none
latest_run_path (some []) = none
latest_run_path (some (file ∷ files)) = some (latest_of file files)

-- `list_runs`
unfoldable pub list_runs : Directory → List String
list_runs d = map (λ file. file.0) (files_of d)

module _ (dumps : Json → String) where
  -- `save_run`, at a time
  unfoldable pub save_run : (time : ℕ) → RunRecord → Directory → Directory
  save_run time r d =
      some (Dict.insert r.run_id (record { text = dumps (to_dict r); mtime = time }) (files_of d))

module _ (loads : String → Decoded) (now : String) where
  parsed : Option RunRecord → Loaded
  parsed none = unreadable
  parsed (some r) = loaded r

  read_decoded : Decoded → Loaded
  unfolding parsed
  read_decoded (decoded v) = parsed (from_dict now v)
  read_decoded _ = unreadable

  -- `RunRecord.from_dict(json.loads(text))`
  read : String → Loaded
  unfolding read_decoded
  read text = read_decoded (loads text)

  load_found : Option File → Loaded
  unfolding read
  load_found none = not_found
  load_found (some file) = read file.text

  unfoldable pub load_run : String → Directory → Loaded
  unfolding load_found
  load_run run_id d = load_found (Dict.lookup run_id (files_of d))

  read_latest : Option (String × File) → Option (String × Loaded)
  unfolding read
  read_latest none = none
  read_latest (some (run_id, file)) = some (run_id, read file.text)

  unfoldable pub latest_run : Directory → Option (String × Loaded)
  unfolding read_latest
  latest_run d = read_latest (latest_run_path d)

-- The file that a save writes.
abbrev written : (Json → String) → ℕ → RunRecord → File
written dumps time r = record { text = dumps (to_dict r); mtime = time }

-- `json.loads` reads back the text that `json.dumps` makes of the record's dict.
abbrev pub ReadsBack : (Json → String) → (String → Decoded) → RunRecord → Type 0
ReadsBack dumps loads r = loads (dumps (to_dict r)) ≡ decoded (to_dict r)

module _ (dumps : Json → String) (loads : String → Decoded) (now : String) where
  read-written :
      (time : ℕ) (r : RunRecord)
      → ReadsBack dumps loads r
      → read loads now (written dumps time r).text ≡ loaded r
  unfolding read read_decoded parsed
  read-written time r reads =
      ap (read_decoded loads now) reads ∙ ap (parsed loads now) (from_dict-to_dict now r)

  -- Where `json.loads` reads back what `json.dumps` writes of the record, a load after a save returns the saved
  -- record under its id, and under every other id what it returned before.
  pub load_run-save_run :
      (time : ℕ) (r : RunRecord) (run_id : String) (d : Directory)
      → ReadsBack dumps loads r
      → load_run loads now run_id (save_run dumps time r d)
        ≡ (if r.run_id == run_id then loaded r else load_run loads now run_id d)
  unfolding load_run save_run load_found
  load_run-save_run time r run_id d reads =
      rw (lookup-insert r.run_id run_id (written dumps time r) (files_of d))
        (elim (Bool-cases (r.run_id == run_id)) [
          | inl same ↦ rw same (read-written time r reads)
          | inr differs ↦ rw differs refl
        ])

-- All files were modified before a time.
abbrev pub Before : ℕ → Files → Type 0
Before time = All (λ file. file.1.mtime < time)

latest_of-first :
    (file : String × File) (files : Files) → Before file.1.mtime files → latest_of file files ≡ file
unfolding latest_of
latest_of-first file [] h = refl
latest_of-first file (other ∷ files) h = ground (arith, latest_of-first file files h.1)

latest_of-insert :
    (best : String × File) (run_id : String) (file : File) (files : Files)
    → best.1.mtime < file.mtime
    → Before file.mtime files
    → latest_of best (Dict.insert run_id file files) ≡ (run_id, file)
unfolding latest_of Dict.insert
latest_of-insert best run_id file [] h k = ground arith
latest_of-insert best run_id file ((j, old) ∷ files) h k = ground (
  arith,
  eq_iff j run_id,
  latest_of-first (j, file) files k.1,
  latest_of-insert best run_id file files h k.1,
  latest_of-insert (j, old) run_id file files k.0 k.1,
)

latest_run_path-insert :
    (run_id : String) (file : File) (d : Directory)
    → Before file.mtime (files_of d)
    → latest_run_path (some (Dict.insert run_id file (files_of d))) ≡ some (run_id, file)
unfolding latest_run_path latest_of Dict.insert
latest_run_path-insert run_id file none h = refl
latest_run_path-insert run_id file (some []) h = refl
latest_run_path-insert run_id file (some ((j, old) ∷ files)) h = ground (
  arith,
  eq_iff j run_id,
  latest_of-first (j, file) files h.1,
  latest_of-insert (j, old) run_id file files h.0 h.1,
)

module _ (dumps : Json → String) (loads : String → Decoded) (now : String) where
  -- Where `json.loads` reads back what `json.dumps` writes of the record, and all files are older than a save, the
  -- record that it saves is the latest run, whether it was saved before or not.
  pub latest_run-save_run :
      (time : ℕ) (r : RunRecord) (d : Directory)
      → ReadsBack dumps loads r
      → Before time (files_of d)
      → latest_run loads now (save_run dumps time r d) ≡ some (r.run_id, loaded r)
  unfolding latest_run read_latest save_run
  latest_run-save_run time r d reads h =
      ap (read_latest loads now) (latest_run_path-insert r.run_id (written dumps time r) d h)
      ∙ ap (λ found. some (r.run_id, found)) (read-written dumps loads now time r reads)
