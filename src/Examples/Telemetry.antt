-- ===== src/Examples/Telemetry.antt =====
-- The theorems on the telemetry of a run, on a concrete run.
use ai_control_center.Base.{ℕ, ◌≡◌, refl, String, true, false, none, some, [], ◌∷◌}
use ai_control_center.Base.Keyed.{lookup, insert}
use ai_control_center.Telemetry.{
  whole, TelemetryMetric, manual_relay, second_version, RunTelemetry, interventions_error,
  telemetry_error,
}
use ai_control_center.Telemetry.Store.{
  intact, written, found, create_telemetry, get_telemetry, create_all,
}
use ai_control_center.Telemetry.Consistent.{IsConsistent, valid-IsConsistent}
use ai_control_center.Telemetry.Kept.{created-get_telemetry}

abbrev known : ℕ → TelemetryMetric
known n = record {
  value = some (whole n);
  unit = "count";
  source = some "runner";
  observed_at = 5;
  unknown_reason = none;
}

-- A run with one manual relay, and 70 of its 100 input tokens cached.
abbrev measured : RunTelemetry
measured = record {
  schema_version = second_version;
  run_id = "RUN-1";
  manual_relay_count = known 1;
  interventions =
      (record {
        intervention_id = "I-1";
        run_id = "RUN-1";
        intervention_type = manual_relay;
        reason = "Relayed the report";
        actor = "Owner";
        source = "chat";
        occurred_at = 4;
      })
      ∷ [];
  attempt_count = known 1;
  attempt_limit = known 2;
  input_tokens = known 100;
  cached_input_tokens = some (known 70);
  uncached_input_tokens = some (known 30);
  output_tokens = known 20;
  budget_decision = some (record {
    value = some "ALLOWED";
    source = some "budget";
    observed_at = 5;
    unknown_reason = none;
  });
  cost = known 0;
  captured_at = 6;
}

measured-valid : telemetry_error measured ≡ none
unfolding telemetry_error interventions_error
measured-valid = refl

valid-IsConsistent_example : IsConsistent measured
valid-IsConsistent_example = valid-IsConsistent measured measured-valid

abbrev digest : String → String
digest run_id = run_id

measured-created :
    create_telemetry digest measured true [] ≡ written (("RUN-1", intact measured) ∷ [])
unfolding create_telemetry telemetry_error interventions_error lookup insert
measured-created = refl

created-get_telemetry_example :
    get_telemetry digest "RUN-1" (
      create_all digest
        ((measured, false) ∷ (measured, true) ∷ [])
        (("RUN-1", intact measured) ∷ []))
    ≡ found (some measured)
created-get_telemetry_example =
    created-get_telemetry digest measured [] (("RUN-1", intact measured) ∷ [])
      ((measured, false) ∷ (measured, true) ∷ []) measured-created
