-- ===== src/Evidence/Completion.antt =====
-- backend/control/evidence_completion.py: `CompletionEvidenceEvaluator`, with the values of
-- backend/models/local_llm_day.py that it reads and writes. The digest that names a record and the time of
-- collection are parameters. A provider's result that does not validate is `none`.
use ai_control_center.Base.{
  ℕ, String, is_empty_list, Bool, true, false, ◌&&◌, ◌||◌, not, Option, none, some, List, [], ◌∷◌,
  ◌++◌, ◌==◌, all, select_items, same_number, if◌then◌else◌,
}
use ai_control_center.Base.Keyed.{Keyed, contains, insert}
use ai_control_center.Runs.{RunIntent}
use ai_control_center.Base.Texts.{sort_set}
use ai_control_center.Base.Words.{append_text}
use ai_control_center.Evidence.{Json, truth, text, dictionary, no_field, field}
use ai_control_center.Evidence.Registry.{validate}
use ai_control_center.Evidence.Records.{
  DayCriterion, DayContract, EvidenceResult, EvidenceRecord, Adapted, turned_down, validated,
  CriterionReport, Collected, nothing_collected, criterion_complete, incomplete, input_blocked,
}

unfoldable pub find_criterion : String → List DayCriterion → Option DayCriterion
find_criterion criterion_id [] = none
find_criterion criterion_id (criterion ∷ criteria) =
    if criterion.criterion_id == criterion_id
    then some criterion
    else find_criterion criterion_id criteria

-- `_blocked`
unfoldable pub blocked : String → String → List (Option EvidenceResult) → CriterionReport
blocked criterion_id reason results = record {
  run_id = none;
  criterion_id = criterion_id;
  status = input_blocked;
  criterion_satisfied = false;
  evidence_record_ids = [];
  evidence_records = [];
  missing_evidence_types = [];
  adapter_outcomes = if is_empty_list results then [] else turned_down reason none ∷ [];
}

-- The dictionary that the registry validates.
abbrev pub envelope : EvidenceResult → Json
envelope result = dictionary (
    field "evidence_type" (text result.evidence_type) (
      field "value" result.value (
        field "source" (text result.provider_id) (
          field "verified" (truth true)
            (field "validation" (dictionary (field "passed" (truth true) no_field)) no_field)))))

-- The checks of `_adapt`
unfoldable pub adapt_reason : RunIntent → DayCriterion → EvidenceResult → Option String
adapt_reason intent criterion result =
    if not (result.run_id == intent.run_id)
    then some "RUN_ID_MISMATCH"
    else if not (result.criterion_id == criterion.criterion_id)
    then some "CRITERION_ID_MISMATCH"
    else if not (contains criterion.required_evidence result.evidence_type)
    then some "EVIDENCE_TYPE_NOT_REQUIRED"
    else if not (result.configuration_fingerprint == intent.config_fingerprint)
    then some "CONFIGURATION_FINGERPRINT_MISMATCH"
    else if validate result.evidence_type (envelope result)
    then none
    else some "EVIDENCE_VALIDATION_FAILED"

abbrev pub has_key {ℓ} : {V : Type ℓ} → String → Keyed V → Bool
has_key k [] = false
has_key k ((j, v) ∷ d) = (j == k) || has_key k d

-- `required == set(accepted_types)`, for a set that is not empty.
unfoldable pub is_satisfied : List String → Keyed String → Bool
is_satisfied required accepted =
    not (is_empty_list required)
    && all (λ t. has_key t accepted) required
    && all (λ (entry : String × String). contains required entry.0) accepted

-- One round of the loop: the first record of a type is kept.
unfoldable pub collect : Adapted → Collected → Collected
collect (turned_down reason type) c = record c {
  outcomes = c.outcomes ++ turned_down reason type ∷ [];
}
collect (validated r) c =
    if has_key r.evidence_type c.accepted_types
    then record c { outcomes = c.outcomes ++ validated r ∷ [] }
    else record {
      records = insert r.record_id r c.records;
      accepted_types = insert r.evidence_type r.record_id c.accepted_types;
      outcomes = c.outcomes ++ validated r ∷ [];
    }

module _ (digest : RunIntent → DayCriterion → EvidenceResult → String) (now : ℕ) where
  abbrev pub record_of : RunIntent → DayContract → DayCriterion → EvidenceResult → EvidenceRecord
  record_of intent contract criterion result = record {
    record_id = digest intent criterion result;
    run_id = intent.run_id;
    criterion_id = criterion.criterion_id;
    project_id = "local_llm_lab";
    day = contract.day;
    contract_version = contract.version;
    evidence_type = result.evidence_type;
    provider_id = result.provider_id;
    provider_version = result.provider_version;
    validator_id = append_text "evidence-registry:" result.evidence_type;
    validator_version = "v1";
    source_paths = result.source_paths;
    source_revision = result.source_revision;
    source_fingerprint = result.source_fingerprint;
    configuration_fingerprint = result.configuration_fingerprint;
    collected_at = now;
    value = result.value;
    status = "VALID";
    validator_result = true;
    compatibility_result = true;
    retained_artifact_reference = result.retained_artifact_reference;
    source_hashes = result.source_hashes;
    observation_fingerprint = result.source_fingerprint;
  }

  abbrev pub adapt_result :
      RunIntent → DayContract → DayCriterion → EvidenceResult → Option String → Adapted
  adapt_result intent contract criterion result (some reason) =
      turned_down reason (some result.evidence_type)
  adapt_result intent contract criterion result none =
      validated (record_of intent contract criterion result)

  -- `_adapt`
  unfoldable pub adapt : RunIntent → DayContract → DayCriterion → Option EvidenceResult → Adapted
  adapt intent contract criterion none = turned_down "MALFORMED_RESULT" none
  adapt intent contract criterion (some result) =
      adapt_result intent contract criterion result (adapt_reason intent criterion result)

  unfoldable pub collect_all :
      RunIntent → DayContract → DayCriterion → List (Option EvidenceResult) → Collected → Collected
  collect_all intent contract criterion [] c = c
  collect_all intent contract criterion (result ∷ results) c =
      collect_all intent contract criterion results
        (collect (adapt intent contract criterion result) c)

  abbrev pub report_of : RunIntent → DayCriterion → Collected → CriterionReport
  report_of intent criterion c =
      let satisfied = is_satisfied criterion.required_evidence c.accepted_types in
      record {
        run_id = some intent.run_id;
        criterion_id = criterion.criterion_id;
        status = if satisfied then criterion_complete else incomplete;
        criterion_satisfied = satisfied;
        evidence_record_ids = c.accepted_types;
        evidence_records = c.records;
        missing_evidence_types =
            sort_set
              (select_items (λ t. not (has_key t c.accepted_types)) criterion.required_evidence);
        adapter_outcomes = c.outcomes;
      }

  unfoldable pub evaluate_found :
      RunIntent
      → DayContract
      → String
      → List (Option EvidenceResult)
      → Option DayCriterion
      → CriterionReport
  evaluate_found intent contract criterion_id results none =
      blocked criterion_id "CRITERION_NOT_FOUND" results
  evaluate_found intent contract criterion_id results (some criterion) =
      if same_number intent.selected_day contract.day
      then report_of intent criterion
          (collect_all intent contract criterion results nothing_collected)
      else blocked criterion_id "DAY_IDENTITY_MISMATCH" results

  -- `evaluate_criterion`
  unfoldable pub evaluate_criterion :
      RunIntent → DayContract → String → List (Option EvidenceResult) → CriterionReport
  evaluate_criterion intent contract criterion_id results =
      evaluate_found intent contract criterion_id results
        (find_criterion criterion_id contract.completion_criteria)
