-- ===== src/Runs/Store.antt =====
-- backend/control/run_store.py: `JsonRunStore` over its directory. A file of a run holds the text of a
-- record, or text that does not validate. The name of a run's files is the digest of its identifier, a
-- parameter. The order in which a directory lists its files is not used: the readers sort.
use mathlib.Core.List.{◌++◌}
use ai_control_center.Base.{
  ℕ, String, Bool, true, false, not, Option, none, some, List, [], ◌∷◌, leb, ◌==◌, any, same_number,
  if◌then◌else◌,
}
use ai_control_center.Base.Keyed.{Keyed, contains, lookup, insert}
use ai_control_center.Runs.{RunRecord, same_identity, same_intent, same_history}

pub data Stored : Type 0 where
  intact : RunRecord → Stored
  damaged : Stored

-- The directory: the current files, the versions kept by their time, and the temporary files that a
-- process left when it was killed.
pub record RunFiles : Type 0 where
  pub current : Keyed Stored
  pub history : Keyed (List (ℕ × Stored))
  pub temporary : List String

abbrev pub empty_files : RunFiles
empty_files = record { current = []; history = []; temporary = [] }

pub data StoreError : Type 0 where
  invalid_record file_exists file_not_found id_mismatch intent_immutable stale_update : StoreError
  time_not_advanced history_not_appended write_failed history_without_current : StoreError
  version_intent_mismatch : StoreError

pub data Read {ℓ} (A : Type ℓ) : Type ℓ where
  found : A → Read A
  unreadable : StoreError → Read A

-- A method that writes returns, or raises, with the directory that it leaves.
pub data Written : Type 0 where
  written : RunFiles → Written
  refused : StoreError → RunFiles → Written

abbrev pub files_after : Written → RunFiles
files_after (written s) = s
files_after (refused error s) = s

-- Where a write of `update` fails: not at all, at the version, at the temporary file or its renaming; or
-- the process is killed while the temporary file is there.
pub data WriteFault : Type 0 where
  no_fault version_fault temporary_fault killed : WriteFault

-- The checks of `update` against the current record.
unfoldable pub update_error : RunRecord → RunRecord → ℕ → Option StoreError
update_error current checked expected_updated_at =
    if not (same_intent current.intent checked.intent)
    then some intent_immutable
    else if not (same_number current.control.updated_at expected_updated_at)
    then some stale_update
    else if leb checked.control.updated_at current.control.updated_at
    then some time_not_advanced
    else if not (
        same_history checked.control.state_history
          (current.control.state_history ++ current.control.current_state ∷ []))
    then some history_not_appended
    else none

abbrev pub or_no_versions : Option (List (ℕ × Stored)) → List (ℕ × Stored)
or_no_versions none = []
or_no_versions (some versions) = versions

-- The files of a run's history directory.
abbrev pub versions_at : String → RunFiles → List (ℕ × Stored)
versions_at name s = or_no_versions (lookup name s.history)

abbrev pub is_version_of : ℕ → ℕ × Stored → Bool
is_version_of at (time, stored) = same_number at time

abbrev pub keep_version : String → ℕ → Stored → RunFiles → RunFiles
keep_version name at stored s = record s {
  history = insert name ((at, stored) ∷ versions_at name s) s.history;
}

abbrev pub replace_current : String → RunRecord → RunFiles → RunFiles
replace_current name run s = record s { current = insert name (intact run) s.current }

abbrev pub remove_name : String → List String → List String
remove_name name [] = []
remove_name name (other ∷ names) =
    let rest = remove_name name names in if other == name then rest else other ∷ rest

abbrev pub unlink_temporary : String → RunFiles → RunFiles
unlink_temporary name s = record s { temporary = remove_name name s.temporary }

abbrev pub has_file : Option Stored → Bool
has_file none = false
has_file (some stored) = true

abbrev pub finish_write : String → RunRecord → WriteFault → RunFiles → Written
finish_write name run killed s = refused write_failed (record s { temporary = name ∷ s.temporary })
finish_write name run temporary_fault s = refused write_failed s
finish_write name run fault s = written (replace_current name run s)

-- `update` from the temporary file on. Where that file is there, `open` raises and the file is removed.
unfoldable pub write_current : String → RunRecord → WriteFault → RunFiles → Written
write_current name run fault s =
    if contains s.temporary name
    then refused file_exists (unlink_temporary name s)
    else finish_write name run fault s

-- `update` from the version on.
unfoldable pub write_version : String → RunRecord → RunRecord → WriteFault → RunFiles → Written
write_version name current run version_fault s =
    if any (is_version_of current.control.updated_at) (versions_at name s)
    then refused file_exists s
    else refused write_failed (keep_version name current.control.updated_at damaged s)
write_version name current run fault s =
    if any (is_version_of current.control.updated_at) (versions_at name s)
    then refused file_exists s
    else write_current name run fault
        (keep_version name current.control.updated_at (intact current) s)

-- `sorted(…, key=lambda item: item.control.updated_at)`, which keeps the order of equal keys.
unfoldable pub insert_version : RunRecord → List RunRecord → List RunRecord
insert_version run [] = run ∷ []
insert_version run (other ∷ runs) =
    if leb run.control.updated_at other.control.updated_at
    then run ∷ other ∷ runs
    else other ∷ insert_version run runs

unfoldable pub sort_versions : List RunRecord → List RunRecord
sort_versions [] = []
sort_versions (run ∷ runs) = insert_version run (sort_versions runs)

-- One version of `versions`: the first error of the list is raised.
abbrev pub add_version : RunRecord → Read (List RunRecord) → Read (List RunRecord)
add_version run (found runs) = found (run ∷ runs)
add_version run (unreadable error) = unreadable error

unfoldable pub read_versions : String → RunRecord → List (ℕ × Stored) → Read (List RunRecord)
read_versions run_id current [] = found (current ∷ [])
read_versions run_id current ((at, damaged) ∷ files) = unreadable invalid_record
read_versions run_id current ((at, intact run) ∷ files) =
    let rest = read_versions run_id current files in
    if not (run.intent.run_id == run_id)
    then unreadable id_mismatch
    else if not (same_intent run.intent current.intent)
    then unreadable version_intent_mismatch
    else add_version run rest

abbrev pub sort_read : Read (List RunRecord) → Read (List RunRecord)
sort_read (found runs) = found (sort_versions runs)
sort_read (unreadable error) = unreadable error

unfoldable pub versions_from :
    String → List (ℕ × Stored) → Read (Option RunRecord) → Read (List RunRecord)
versions_from run_id files (unreadable error) = unreadable error
versions_from run_id [] (found none) = found []
versions_from run_id (file ∷ files) (found none) = unreadable history_without_current
versions_from run_id files (found (some current)) = sort_read (read_versions run_id current files)

-- What a client of the store does.
pub data StoreCall : Type 0 where
  create_run : RunRecord → Bool → StoreCall
  update_run : RunRecord → ℕ → WriteFault → StoreCall

module _ (digest : String → String) where
  -- `get`
  unfoldable pub read_stored : String → Option Stored → Read (Option RunRecord)
  read_stored run_id none = found none
  read_stored run_id (some damaged) = unreadable invalid_record
  read_stored run_id (some (intact run)) =
      if run.intent.run_id == run_id then found (some run) else unreadable id_mismatch

  unfoldable pub get : String → RunFiles → Read (Option RunRecord)
  get run_id s = read_stored run_id (lookup (digest run_id) s.current)

  -- `create`; a write that fails leaves a partial file.
  unfoldable pub create : RunRecord → Bool → RunFiles → Written
  create run writes s =
      let name = digest run.intent.run_id in
      if not (same_identity run)
      then refused invalid_record s
      else if has_file (lookup name s.current)
      then refused file_exists s
      else if writes
      then written (replace_current name run s)
      else refused write_failed (record s { current = insert name damaged s.current })

  unfoldable pub update_checked :
      RunRecord → RunRecord → WriteFault → Option StoreError → RunFiles → Written
  update_checked current run fault (some error) s = refused error s
  update_checked current run fault none s =
      write_version (digest run.intent.run_id) current run fault s

  unfoldable pub update_from :
      RunRecord → ℕ → WriteFault → Read (Option RunRecord) → RunFiles → Written
  update_from run expected fault (unreadable error) s = refused error s
  update_from run expected fault (found none) s = refused file_not_found s
  update_from run expected fault (found (some current)) s =
      update_checked current run fault (update_error current run expected) s

  -- `update`
  unfoldable pub update : RunRecord → ℕ → WriteFault → RunFiles → Written
  update run expected fault s =
      if same_identity run
      then update_from run expected fault (get run.intent.run_id s) s
      else refused invalid_record s

  -- `versions`
  unfoldable pub versions : String → RunFiles → Read (List RunRecord)
  versions run_id s = versions_from run_id (versions_at (digest run_id) s) (get run_id s)

  unfoldable pub store : StoreCall → RunFiles → Written
  store (create_run run writes) s = create run writes s
  store (update_run run expected fault) s = update run expected fault s

  unfoldable pub store_all : List StoreCall → RunFiles → RunFiles
  store_all [] s = s
  store_all (c ∷ calls) s = store_all calls (files_after (store c s))
