-- ===== src/Examples/Evidence.antt =====
-- The theorems on completion evidence, on a concrete criterion.
use ai_control_center.Base.{◌≡◌, refl, String, true, Option, none, some, List, [], ◌∷◌, All}
use ai_control_center.Base.Int.{ℤ}
use ai_control_center.Base.Keyed.{lookup, insert}
use ai_control_center.Base.Words.{is_worded}
use ai_control_center.Runs.{RunIntent}
use ai_control_center.Evidence.{integer, text, array, dictionary, no_item, item, no_field, field}
use ai_control_center.Evidence.Registry.{definitions, satisfies, validate_by, validate}
use ai_control_center.Evidence.Completion.{
  find_criterion, adapt_reason, collect, is_satisfied, adapt, collect_all, evaluate_found,
  evaluate_criterion,
}
use ai_control_center.Evidence.Records.{DayCriterion, DayContract, EvidenceResult}
use ai_control_center.Evidence.Proven.{
  HasEvidence, is_complete, evaluate_criterion-is_complete, satisfied-HasEvidence,
}
use ai_control_center.Examples.Runs.{intent}

abbrev criterion : DayCriterion
criterion = record { criterion_id = "TESTS"; required_evidence = "deterministic_tests" ∷ [] }

abbrev contract : DayContract
contract = record { day = 3; version = "v1"; completion_criteria = criterion ∷ [] }

abbrev digest : RunIntent → DayCriterion → EvidenceResult → String
digest run c result = result.source_fingerprint

abbrev tested : EvidenceResult
tested = record {
  run_id = "RUN-1";
  criterion_id = "TESTS";
  evidence_type = "deterministic_tests";
  provider_id = "pytest";
  provider_version = "8";
  source_fingerprint = "SOURCE-1";
  configuration_fingerprint = "CONFIG";
  value = dictionary (
      field "exit_code" (integer (ℤ.pos 0)) (
        field "commands" (array (item (text "pytest") no_item))
          (field "passed" (integer (ℤ.pos 12)) (field "failed" (integer (ℤ.pos 0)) no_field))));
  source_paths = [];
  source_revision = none;
  source_hashes = [];
  retained_artifact_reference = none;
}

-- The first result does not validate.
abbrev results : List (Option EvidenceResult)
results = none ∷ some tested ∷ []

evaluate_criterion-is_complete_example :
    (evaluate_criterion digest 0 intent contract "TESTS" results).criterion_satisfied
    ≡ is_complete intent contract results (find_criterion "TESTS" contract.completion_criteria)
evaluate_criterion-is_complete_example =
    evaluate_criterion-is_complete digest 0 intent contract "TESTS" results

tested-satisfies :
    (evaluate_criterion digest 0 intent contract "TESTS" results).criterion_satisfied ≡ true
unfolding evaluate_criterion evaluate_found find_criterion collect_all adapt collect adapt_reason
    is_satisfied validate validate_by satisfies definitions is_worded lookup insert
tested-satisfies = refl

satisfied-HasEvidence_example :
    (c : DayCriterion) × (find_criterion "TESTS" contract.completion_criteria ≡ some c)
    × (3 ≡ contract.day)
    × All (HasEvidence intent c results) c.required_evidence
satisfied-HasEvidence_example =
    satisfied-HasEvidence digest 0 intent contract "TESTS" results tested-satisfies
