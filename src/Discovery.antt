-- ===== src/Discovery.antt =====
-- backend/control/task_discovery.py: the search for a failing case that code can fix. What the prechecks
-- answer, what `json.loads` reads and how pathlib joins a path are arguments.
pub mod First
use Prim.Native.String.{String}
use ai_control_center.Base.{
  Bool, true, false, ◌&&◌, ◌||◌, not, Option, none, some, List, [], ◌∷◌, ◌++◌, map, ◌==◌,
  if◌then◌else◌,
}
use ai_control_center.Base.Int.{ℤ}
use ai_control_center.Base.Keyed.{contains}
use ai_control_center.Evidence.{Json, dictionary, get_field}
use ai_control_center.Base.Words.{is_empty_text, split_lines, upper}

pub record DiscoveryDefinition : Type 0 where
  pub discovery_id : String
  pub project_id : String
  pub working_directory : String
  pub candidate_case_ids : List String
  pub precheck : List String
  pub code_fix_error_codes : List String

pub data CaseStatus : Type 0 where
  passed_case failed_case infrastructure_error : CaseStatus

pub data CaseClassification : Type 0 where
  code_fix data_issue environment configuration unknown no_failure : CaseClassification

pub record CommandRun : Type 0 where
  pub exit_code : Option ℤ
  pub passed : Bool
  pub stdout : Option String
  pub error_code : Option String

pub record DiscoveryCase : Type 0 where
  pub case_id : String
  pub status : CaseStatus
  pub classification : CaseClassification
  pub command : CommandRun

pub data FinalResult : Type 0 where
  code_fix_selected human_review_required : FinalResult

pub record DiscoveryResult : Type 0 where
  pub discovery_id : String
  pub project_id : String
  pub cases : List DiscoveryCase
  pub selected_case_id : Option String
  pub final_result : FinalResult
  pub human_review_reason : Option String

-- `value.upper() if isinstance(value, str) else None`
abbrev pub code_text : Option Json → Option String
code_text (some (Json.text value)) = some (upper value)
code_text _ = none

-- `.get("code")`, which raises for what is no object; that is caught.
abbrev pub error_text : Option Json → Option String
error_text (some (dictionary fields)) = code_text (get_field "code" fields)
error_text _ = none

abbrev pub payload_code : Option Json → Option String
payload_code (some (dictionary fields)) = error_text (get_field "error" fields)
payload_code _ = none

abbrev pub last_of : List String → Option String
last_of [] = none
last_of (line ∷ lines) = elim (last_of lines) [ none ↦ some line | some last ↦ some last ]

abbrev pub is_given : Option String → Bool
is_given none = false
is_given (some text) = not (is_empty_text text)

abbrev pub is_in : Option String → List String → Bool
is_in none codes = false
is_in (some code) codes = contains codes code

module _ (loads : String → Option Json) where
  abbrev pub code_of_line : Option String → Option String
  code_of_line none = none
  code_of_line (some line) = payload_code (loads line)

  abbrev pub code_of_output : Option String → Option String
  code_of_output none = none
  code_of_output (some output) = code_of_line (last_of (split_lines output))

  -- `_reported_error_code`
  unfoldable pub reported_error_code : CommandRun → Option String
  reported_error_code execution =
      if is_given execution.error_code
      then execution.error_code
      else if is_given execution.stdout
      then code_of_output execution.stdout
      else none

  -- What `_classify` writes to the execution.
  unfoldable pub report_error : CommandRun → CommandRun
  report_error execution =
      let reported = reported_error_code execution in
      if is_given reported then record execution { error_code = reported } else execution

-- The order of the tests of `_classify`, once the reported error is written.
unfoldable pub classify : List String → CommandRun → CaseStatus × CaseClassification
classify code_fix_error_codes execution =
    if execution.passed
    then (passed_case, no_failure)
    else if is_in execution.error_code ("COMMAND_NOT_FOUND" ∷ "COMMAND_TIMEOUT" ∷ [])
    then (infrastructure_error, environment)
    else if is_in execution.error_code ("OUTPUT_ERROR" ∷ "LOCAL_IO" ∷ [])
    then (infrastructure_error, environment)
    else if is_in execution.error_code ("INVALID_CASE" ∷ "CONFIGURATION" ∷ [])
    then (failed_case, configuration)
    else if is_in execution.error_code code_fix_error_codes
    then (failed_case, code_fix)
    else (failed_case, unknown)

abbrev pub is_code_fix : CaseClassification → Bool
is_code_fix code_fix = true
is_code_fix _ = false

-- What a precheck answers with its arguments, its working directory and the directory of its artifacts,
-- after the cases before.
abbrev pub RunCommand : Type 0
RunCommand = List DiscoveryCase → List String → String → String → CommandRun

abbrev pub fill_argument : String → String → String → String
fill_argument artifacts case_id value =
    if value == "{artifact_root}"
    then artifacts
    else if value == "{case_id}"
    then case_id
    else value

module _ (loads : String → Option Json) (join_path : String → String → String)
    (run_command : RunCommand) (definition : DiscoveryDefinition)
    (working_directory artifact_root : String) where
  -- The case of an id after others.
  unfoldable pub check_case : List DiscoveryCase → String → DiscoveryCase
  check_case cases case_id =
      let artifacts = join_path artifact_root case_id in
      let execution = report_error loads (
        run_command cases (map (fill_argument artifacts case_id) definition.precheck)
          working_directory artifacts) in
      let (status, classification) = classify definition.code_fix_error_codes execution in
      record {
        case_id = case_id;
        status = status;
        classification = classification;
        command = execution;
      }

  abbrev pub result_with : List DiscoveryCase → Option String → DiscoveryResult
  result_with cases (some case_id) = record {
    discovery_id = definition.discovery_id;
    project_id = definition.project_id;
    cases = cases;
    selected_case_id = some case_id;
    final_result = code_fix_selected;
    human_review_reason = none;
  }
  result_with cases none = record {
    discovery_id = definition.discovery_id;
    project_id = definition.project_id;
    cases = cases;
    selected_case_id = none;
    final_result = human_review_required;
    human_review_reason = some "no configured candidate produced an eligible CODE_FIX failure";
  }

  -- The loop of `discover`
  unfoldable pub discover_from : List String → List DiscoveryCase → DiscoveryResult
  discover_from [] cases = result_with cases none
  discover_from (case_id ∷ case_ids) cases =
      let found = check_case cases case_id in
      let rest = discover_from case_ids (cases ++ found ∷ []) in
      if is_code_fix found.classification
      then result_with (cases ++ found ∷ []) (some case_id)
      else rest

  -- `discover`
  unfoldable pub discover : DiscoveryResult
  discover = discover_from definition.candidate_case_ids []
