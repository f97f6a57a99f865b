-- ===== src/Telemetry/Store.antt =====
-- backend/control/run_telemetry_store.py: `JsonRunTelemetryStore` over its directory. The name of a file is
-- the digest of the run's identifier, a parameter; a file holds the text of a telemetry, or text that does not
-- validate, which a write that fails leaves.
use ai_control_center.Base.{String, Bool, Option, none, some, List, [], ◌∷◌, ◌==◌, if◌then◌else◌}
use ai_control_center.Base.Keyed.{Keyed, lookup, insert}
use ai_control_center.Telemetry.{RunTelemetry, telemetry_error, is_given}

pub data StoredTelemetry : Type 0 where
  intact : RunTelemetry → StoredTelemetry
  damaged : StoredTelemetry

abbrev pub TelemetryFiles : Type 0
TelemetryFiles = Keyed StoredTelemetry

pub data TelemetryFault : Type 0 where
  invalid_telemetry file_exists id_mismatch write_failed : TelemetryFault

pub data TelemetryWrite : Type 0 where
  written : TelemetryFiles → TelemetryWrite
  refused : TelemetryFault → TelemetryFiles → TelemetryWrite

abbrev pub written_files : TelemetryWrite → TelemetryFiles
written_files (written s) = s
written_files (refused fault s) = s

pub data TelemetryRead : Type 0 where
  found : Option RunTelemetry → TelemetryRead
  unreadable : TelemetryFault → TelemetryRead

module _ (digest : String → String) where
  -- `create`, where the write may fail.
  unfoldable pub create_telemetry : RunTelemetry → Bool → TelemetryFiles → TelemetryWrite
  create_telemetry t writes s =
      if is_given (telemetry_error t)
      then refused invalid_telemetry s
      else if is_given (lookup (digest t.run_id) s)
      then refused file_exists s
      else if writes
      then written (insert (digest t.run_id) (intact t) s)
      else refused write_failed (insert (digest t.run_id) damaged s)

  abbrev pub read_telemetry : String → Option StoredTelemetry → TelemetryRead
  read_telemetry run_id none = found none
  read_telemetry run_id (some damaged) = unreadable invalid_telemetry
  read_telemetry run_id (some (intact t)) =
      if t.run_id == run_id then found (some t) else unreadable id_mismatch

  -- `get`
  unfoldable pub get_telemetry : String → TelemetryFiles → TelemetryRead
  get_telemetry run_id s = read_telemetry run_id (lookup (digest run_id) s)

  -- A sequence of calls of `create`.
  unfoldable pub create_all : List (RunTelemetry × Bool) → TelemetryFiles → TelemetryFiles
  create_all [] s = s
  create_all ((t, writes) ∷ calls) s =
      create_all calls (written_files (create_telemetry t writes s))
