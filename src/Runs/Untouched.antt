-- ===== src/Runs/Untouched.antt =====
-- What a call of backend/control/run_store.py leaves alone: the files of every other name, and the files of
-- a name that belongs to another run.
use ai_control_center.Base.{
  ℕ, ◌≡◌, refl, ◌∙◌, String, Bool, true, false, not, Option, none, some, List, [], ◌∷◌, arith, any,
  ◌==◌, eq_iff, Bool-cases, inl, inr, if◌then◌else◌,
}
use ai_control_center.Base.Keyed.{contains, lookup, lookup-insert_ne}
use ai_control_center.Runs.{RunRecord, same_identity}
use ai_control_center.Runs.Store.{
  Stored, intact, damaged, RunFiles, StoreError, id_mismatch, Read, found, unreadable, Written,
  files_after, WriteFault, no_fault, version_fault, temporary_fault, killed, update_error,
  versions_at, is_version_of, keep_version, remove_name, has_file, finish_write, read_stored, get,
  create, write_current, write_version, update_checked, update_from, update,
}

pub record Untouched (name : String) (s s' : RunFiles) : Type 0 where
  pub now : lookup name s'.current ≡ lookup name s.current
  pub past : lookup name s'.history ≡ lookup name s.history
  pub clean : contains s'.temporary name ≡ contains s.temporary name

Untouched-refl : (name : String) (s : RunFiles) → Untouched name s s
Untouched-refl name s = record { now = refl; past = refl; clean = refl }

Untouched-trans :
    (name : String) (s t u : RunFiles)
    → Untouched name s t
    → Untouched name t u
    → Untouched name s u
Untouched-trans name s t u h k = record {
  now = k.now ∙ h.now;
  past = k.past ∙ h.past;
  clean = k.clean ∙ h.clean;
}

written-if :
    (P : Written → Type 0) (b : Bool) (v w : Written)
    → (b ≡ true → P v)
    → (b ≡ false → P w)
    → P (if b then v else w)
written-if P true v w hv hw = hv refl
written-if P false v w hv hw = hw refl

-- The result of a call leaves the files of a name alone.
abbrev UntouchedBy : String → RunFiles → Written → Type 0
UntouchedBy name s w = Untouched name s (files_after w)

contains-remove_name :
    (name other : String) (names : List String)
    → other == name ≡ false
    → contains (remove_name other names) name ≡ contains names name
contains-remove_name name other [] h = refl
contains-remove_name name other (n ∷ names) h =
    ground (
      arith,
      eq_iff n other,
      eq_iff n name,
      eq_iff other name,
      contains-remove_name name other names,
    )

module _ (name other : String) (differs : other == name ≡ false) where
  Untouched-finish_write :
      (new : RunRecord) (fault : WriteFault) (s : RunFiles)
      → UntouchedBy name s (finish_write other new fault s)
  Untouched-finish_write new killed s = record { now = refl; past = refl; clean = rw differs refl }
  Untouched-finish_write new temporary_fault s = Untouched-refl name s
  Untouched-finish_write new no_fault s = record {
    now = lookup-insert_ne other name _ s.current differs;
    past = refl;
    clean = refl;
  }
  Untouched-finish_write new version_fault s = record {
    now = lookup-insert_ne other name _ s.current differs;
    past = refl;
    clean = refl;
  }

  Untouched-write_current :
      (new : RunRecord) (fault : WriteFault) (s : RunFiles)
      → UntouchedBy name s (write_current other new fault s)
  unfolding write_current
  Untouched-write_current new fault s =
      written-if (UntouchedBy name s) (contains s.temporary other) _ _
        (λ e. record {
          now = refl;
          past = refl;
          clean = contains-remove_name name other s.temporary differs;
        })
        (λ e. Untouched-finish_write new fault s)

  Untouched-keep_version :
      (at : ℕ) (stored : Stored) (s : RunFiles) → Untouched name s (keep_version other at stored s)
  Untouched-keep_version at stored s = record {
    now = refl;
    past = lookup-insert_ne other name _ s.history differs;
    clean = refl;
  }

  Untouched-write_version :
      (current new : RunRecord) (fault : WriteFault) (s : RunFiles)
      → UntouchedBy name s (write_version other current new fault s)
  unfolding write_version
  Untouched-write_version current new version_fault s =
      written-if (UntouchedBy name s)
        (any (is_version_of current.control.updated_at) (versions_at other s)) _ _
        (λ e. Untouched-refl name s)
        (λ e. Untouched-keep_version current.control.updated_at damaged s)
  Untouched-write_version current new fault s =
      written-if (UntouchedBy name s)
        (any (is_version_of current.control.updated_at) (versions_at other s)) _ _
        (λ e. Untouched-refl name s)
        (λ e.
          Untouched-trans name s (keep_version other current.control.updated_at (intact current) s)
            _ (Untouched-keep_version current.control.updated_at (intact current) s)
            (Untouched-write_current new fault
              (keep_version other current.control.updated_at (intact current) s)))

module _ (digest : String → String) where
  Untouched-update_checked :
      (name : String) (current new : RunRecord) (fault : WriteFault) (error : Option StoreError)
      (s : RunFiles)
      → digest new.intent.run_id == name ≡ false
      → UntouchedBy name s (update_checked digest current new fault error s)
  unfolding update_checked
  Untouched-update_checked name current new fault (some error) s d = Untouched-refl name s
  Untouched-update_checked name current new fault none s d =
      Untouched-write_version name (digest new.intent.run_id) d current new fault s

  Untouched-update_from :
      (name : String) (new : RunRecord) (expected : ℕ) (fault : WriteFault)
      (r : Read (Option RunRecord)) (s : RunFiles)
      → digest new.intent.run_id == name ≡ false
      → UntouchedBy name s (update_from digest new expected fault r s)
  unfolding update_from
  Untouched-update_from name new expected fault (unreadable error) s d = Untouched-refl name s
  Untouched-update_from name new expected fault (found none) s d = Untouched-refl name s
  Untouched-update_from name new expected fault (found (some current)) s d =
      Untouched-update_checked name current new fault (update_error current new expected) s d

  get_foreign :
      (run_id : String) (s : RunFiles) (current : RunRecord)
      → lookup (digest run_id) s.current ≡ some (intact current)
      → current.intent.run_id == run_id ≡ false
      → get digest run_id s ≡ unreadable id_mismatch
  unfolding get read_stored
  get_foreign run_id s current e d = rw e (rw d refl)

  -- An update of another run leaves the files of a run alone, also if both have the same digest.
  pub Untouched-update :
      (s : RunFiles) (new current : RunRecord) (expected : ℕ) (fault : WriteFault)
      → lookup (digest current.intent.run_id) s.current ≡ some (intact current)
      → current.intent.run_id == new.intent.run_id ≡ false
      → Untouched
          (digest current.intent.run_id)
          s
          (files_after (update digest new expected fault s))
  unfolding update
  Untouched-update s new current expected fault e d =
      let name = digest current.intent.run_id in
      written-if (UntouchedBy name s) (same_identity new) _ _
        (λ valid. elim (Bool-cases (digest new.intent.run_id == name)) [
          | inr differs ↦
              Untouched-update_from name new expected fault (get digest new.intent.run_id s) s
                differs
          | inl same ↦
              let path : digest new.intent.run_id ≡ name = (eq_iff _ _).0 same in
              rw (get_foreign new.intent.run_id s current (rw path e) d)
                (unfold update_from in Untouched-refl name s)
        ])
        (λ invalid. Untouched-refl name s)

  -- A run that is there is left alone by every creation.
  pub Untouched-create :
      (s : RunFiles) (new : RunRecord) (writes : Bool) (name : String) (stored : Stored)
      → lookup name s.current ≡ some stored
      → Untouched name s (files_after (create digest new writes s))
  unfolding create
  Untouched-create s new writes name stored e =
      let other = digest new.intent.run_id in
      written-if (UntouchedBy name s) (not (same_identity new)) _ _
        (λ invalid. Untouched-refl name s)
        (λ valid.
          written-if (UntouchedBy name s) (has_file (lookup other s.current)) _ _
            (λ there. Untouched-refl name s)
            (λ free.
              let differs : other == name ≡ false = ground (arith, eq_iff other name) in
              written-if (UntouchedBy name s) writes _ _
                (λ whole. record {
                  now = lookup-insert_ne other name _ s.current differs;
                  past = refl;
                  clean = refl;
                })
                (λ partial. record {
                  now = lookup-insert_ne other name _ s.current differs;
                  past = refl;
                  clean = refl;
                })))
