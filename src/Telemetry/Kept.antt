-- ===== src/Telemetry/Kept.antt =====
-- Stored telemetry is kept (backend/control/run_telemetry_store.py).
use mathlib.Core.Path.{subst}
use ai_control_center.Base.{
  ◌≡◌, refl, ◌∙◌, String, Bool, true, false, some, List, [], ◌∷◌, ◌==◌, eq_iff, Bool-cases, inl,
  inr, if-cases,
}
use ai_control_center.Base.Keyed.{lookup, insert, lookup-insert_self, lookup-insert_ne}
use ai_control_center.Telemetry.{RunTelemetry, telemetry_error, is_given}
use ai_control_center.Telemetry.Store.{
  StoredTelemetry, intact, damaged, TelemetryFiles, written, written_files, found, create_telemetry,
  get_telemetry, create_all,
}

-- A file that is there is not written to.
insert-kept :
    (name other : String) (stored old : StoredTelemetry) (s : TelemetryFiles)
    → lookup name s ≡ some old
    → is_given (lookup other s) ≡ false
    → lookup name (insert other stored s) ≡ some old
insert-kept name other stored old s h free = elim (Bool-cases (other == name)) [
  | inl same ↦ absurd (
      let moved = subst (λ k. is_given (lookup k s) ≡ false) ((eq_iff other name).0 same) free in
      cc)
  | inr differs ↦ lookup-insert_ne other name stored s differs ∙ h
]

create_telemetry-kept :
    (digest : String → String) (name : String) (old : StoredTelemetry) (t : RunTelemetry)
    (writes : Bool) (s : TelemetryFiles)
    → lookup name s ≡ some old
    → lookup name (written_files (create_telemetry digest t writes s)) ≡ some old
unfolding create_telemetry
create_telemetry-kept digest name old t writes s h =
    if-cases (λ r. lookup name (written_files r) ≡ some old) (is_given (telemetry_error t)) _ _
      (λ invalid. h)
      (λ valid.
        if-cases (λ r. lookup name (written_files r) ≡ some old)
          (is_given (lookup (digest t.run_id) s)) _ _ (λ there. h)
          (λ free.
            if-cases (λ r. lookup name (written_files r) ≡ some old) writes _ _
              (λ yes. insert-kept name (digest t.run_id) (intact t) old s h free)
              (λ no. insert-kept name (digest t.run_id) damaged old s h free)))

create_all-kept :
    (digest : String → String) (name : String) (old : StoredTelemetry)
    (calls : List (RunTelemetry × Bool)) (s : TelemetryFiles)
    → lookup name s ≡ some old
    → lookup name (create_all digest calls s) ≡ some old
unfolding create_all
create_all-kept digest name old [] s h = h
create_all-kept digest name old ((t, writes) ∷ calls) s h =
    create_all-kept digest name old calls (written_files (create_telemetry digest t writes s))
      (create_telemetry-kept digest name old t writes s h)

created-lookup :
    (digest : String → String) (t : RunTelemetry) (s s' : TelemetryFiles)
    → create_telemetry digest t true s ≡ written s'
    → lookup (digest t.run_id) s' ≡ some (intact t)
unfolding create_telemetry
created-lookup digest t s s' e =
    if-cases (λ r. r ≡ written s' → lookup (digest t.run_id) s' ≡ some (intact t))
      (is_given (telemetry_error t)) _ _ (λ invalid wrong. absurd (cc))
      (λ valid.
        if-cases (λ r. r ≡ written s' → lookup (digest t.run_id) s' ≡ some (intact t))
          (is_given (lookup (digest t.run_id) s)) _ _ (λ there wrong. absurd (cc))
          (λ free right.
            let same : insert (digest t.run_id) (intact t) s ≡ s' = cc in
            subst (λ files. lookup (digest t.run_id) files ≡ some (intact t)) same
              (lookup-insert_self (digest t.run_id) (intact t) s)))
      e

-- Once a telemetry is created, it is what is read of its run, whatever is created afterwards, for the
-- same run included, and whichever of those writes fail.
pub created-get_telemetry :
    (digest : String → String) (t : RunTelemetry) (s s' : TelemetryFiles)
    (calls : List (RunTelemetry × Bool))
    → create_telemetry digest t true s ≡ written s'
    → get_telemetry digest t.run_id (create_all digest calls s') ≡ found (some t)
unfolding get_telemetry
created-get_telemetry digest t s s' calls e =
    rw
      (create_all-kept digest (digest t.run_id) (intact t) calls s'
        (created-lookup digest t s s' e))
      (rw ((eq_iff t.run_id t.run_id).1 refl) refl)
