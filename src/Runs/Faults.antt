-- ===== src/Runs/Faults.antt =====
-- What a write that fails in `update` of backend/control/run_store.py does to the later updates of the run.
use mathlib.Core.Path.{subst}
use ai_control_center.Base.{
  ℕ, ◌≡◌, refl, sym, String, true, none, some, List, arith, any, Bool-cases, Option-cases, inl, inr,
}
use ai_control_center.Base.Keyed.{lookup-insert_self}
use ai_control_center.Runs.{RunRecord, same_identity}
use ai_control_center.Runs.Store.{
  intact, RunFiles, StoreError, invalid_record, file_exists, write_failed, found, refused,
  files_after, WriteFault, no_fault, version_fault, temporary_fault, killed, update_error,
  versions_at, is_version_of, keep_version, get, write_current, write_version, update_checked,
  update_from, update,
}
use ai_control_center.Runs.Log.{Holds, get-Holds, unversioned}

module _ (digest : String → String) where
  -- The version file of the current record is there already.
  pub record IsBlocked (s : RunFiles) (run_id : String) (current : RunRecord) : Type 0 where
    pub readable : get digest run_id s ≡ found (some current)
    pub versioned :
        any (is_version_of current.control.updated_at) (versions_at (digest run_id) s) ≡ true

  write_version_blocked :
      (s : RunFiles) (name : String) (current new : RunRecord) (fault : WriteFault)
      → any (is_version_of current.control.updated_at) (versions_at name s) ≡ true
      → write_version name current new fault s ≡ refused file_exists s
  unfolding write_version
  write_version_blocked s name current new no_fault h = rw h refl
  write_version_blocked s name current new version_fault h = rw h refl
  write_version_blocked s name current new temporary_fault h = rw h refl
  write_version_blocked s name current new killed h = rw h refl

  update_blocked :
      (s : RunFiles) (current new : RunRecord) (expected : ℕ) (fault : WriteFault)
      → IsBlocked s new.intent.run_id current
      → (error : StoreError) × (update digest new expected fault s ≡ refused error s)
  unfolding update update_from update_checked
  update_blocked s current new expected fault h = elim (Bool-cases (same_identity new)) [
    | inr invalid ↦ (invalid_record, rw invalid refl)
    | inl valid ↦ elim (Option-cases (update_error current new expected)) [
      | inl passes ↦ (
        file_exists,
        rw valid (
            rw h.readable (
              rw passes (
                write_version_blocked s (digest new.intent.run_id) current new fault h.versioned))),
      )
      | inr (error, fails) ↦ (error, rw valid (rw h.readable (rw fails refl)))
    ]
  ]

  -- The directory that an update leaves whose temporary file could not be written.
  abbrev pub after_failure : RunRecord → ℕ → RunFiles → RunFiles
  after_failure new expected s = files_after (update digest new expected temporary_fault s)

  failed_update :
      (s : RunFiles) (current new : RunRecord) (older : List RunRecord) (expected : ℕ)
      → Holds digest s new.intent.run_id current older
      → same_identity new ≡ true
      → update_error current new expected ≡ none
      → update digest new expected temporary_fault s
        ≡ refused write_failed
            (keep_version (digest new.intent.run_id) current.control.updated_at (intact current) s)
  unfolding update update_from update_checked write_version write_current
  failed_update s current new older expected h valid passes = rw valid (
      rw (get-Holds digest s new.intent.run_id current older h)
        (rw passes (rw (unversioned digest s new.intent.run_id current older h) (rw h.clean refl))))

  kept-IsBlocked :
      (s : RunFiles) (run_id : String) (current : RunRecord) (older : List RunRecord)
      → Holds digest s run_id current older
      → IsBlocked
          (keep_version (digest run_id) current.control.updated_at (intact current) s)
          run_id
          current
  unfolding get
  kept-IsBlocked s run_id current older h = record {
    readable = get-Holds digest s run_id current older h;
    versioned = rw (lookup-insert_self (digest run_id) _ s.history) (ground arith);
  }

  -- After one update that passed every check but whose temporary file could not be written, the run can
  -- never be updated again: any later update of it, also a retry of the same one, is refused and leaves the
  -- directory as it is.
  pub failed_write_blocks :
      (s : RunFiles) (current new : RunRecord) (older : List RunRecord) (expected : ℕ)
      (retry : RunRecord) (expected' : ℕ) (fault : WriteFault)
      → Holds digest s new.intent.run_id current older
      → same_identity new ≡ true
      → update_error current new expected ≡ none
      → retry.intent.run_id ≡ new.intent.run_id
      → (error : StoreError) × (update digest retry expected' fault (after_failure new expected s)
          ≡ refused error (after_failure new expected s))
  failed_write_blocks s current new older expected retry expected' fault h valid passes same =
      rw (failed_update s current new older expected h valid passes) (
        update_blocked
          (keep_version (digest new.intent.run_id) current.control.updated_at (intact current) s)
          current retry expected' fault
          (subst
            (λ id.
              IsBlocked
                (keep_version (digest new.intent.run_id) current.control.updated_at (intact current)
                  s)
                id current)
            (sym same) (kept-IsBlocked s new.intent.run_id current older h)))
