-- ===== src/Evidence/Records.antt =====
-- The values of backend/models/local_llm_day.py that backend/control/evidence_completion.py reads and writes.
use ai_control_center.Base.{ℕ, String, Bool, Option, List, []}
use ai_control_center.Base.Keyed.{Keyed}
use ai_control_center.Evidence.{Json}

pub record DayCriterion : Type 0 where
  pub criterion_id : String
  pub required_evidence : List String

pub record DayContract : Type 0 where
  pub day : ℕ
  pub version : String
  pub completion_criteria : List DayCriterion

pub record EvidenceResult : Type 0 where
  pub run_id : String
  pub criterion_id : String
  pub evidence_type : String
  pub provider_id : String
  pub provider_version : String
  pub source_fingerprint : String
  pub configuration_fingerprint : String
  pub value : Json
  pub source_paths : List String
  pub source_revision : Option String
  pub source_hashes : Keyed String
  pub retained_artifact_reference : Option String

pub record EvidenceRecord : Type 0 where
  pub record_id : String
  pub run_id : String
  pub criterion_id : String
  pub project_id : String
  pub day : ℕ
  pub contract_version : String
  pub evidence_type : String
  pub provider_id : String
  pub provider_version : String
  pub validator_id : String
  pub validator_version : String
  pub source_paths : List String
  pub source_revision : Option String
  pub source_fingerprint : String
  pub configuration_fingerprint : String
  pub collected_at : ℕ
  pub value : Json
  pub status : String
  pub validator_result : Bool
  pub compatibility_result : Bool
  pub retained_artifact_reference : Option String
  pub source_hashes : Keyed String
  pub observation_fingerprint : String

-- What `_adapt` makes of a result: the reason why it is turned down, with its type where it has one, or
-- the record that it becomes.
pub data Adapted : Type 0 where
  turned_down : String → Option String → Adapted
  validated : EvidenceRecord → Adapted

pub data CriterionStatus : Type 0 where
  criterion_complete incomplete input_blocked : CriterionStatus

pub record CriterionReport : Type 0 where
  pub run_id : Option String
  pub criterion_id : String
  pub status : CriterionStatus
  pub criterion_satisfied : Bool
  pub evidence_record_ids : Keyed String
  pub evidence_records : Keyed EvidenceRecord
  pub missing_evidence_types : List String
  pub adapter_outcomes : List Adapted

-- The variables of the loop over the results.
pub record Collected : Type 0 where
  pub records : Keyed EvidenceRecord
  pub accepted_types : Keyed String
  pub outcomes : List Adapted

abbrev pub nothing_collected : Collected
nothing_collected = record { records = []; accepted_types = []; outcomes = [] }
