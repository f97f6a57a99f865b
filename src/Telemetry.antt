-- ===== src/Telemetry.antt =====
-- The telemetry of a run: `RunTelemetry` and its parts, of backend/models/local_llm_day.py, with the checks
-- of their validators. A number that is not an integer is its text, and a time a number of microseconds.
pub mod Store
pub mod Consistent
pub mod Kept
use ai_control_center.Base.{
  ℕ, ◌+◌, String, Bool, true, false, ◌&&◌, ◌||◌, not, Option, none, some, List, [], ◌∷◌, ◌==◌, any,
  count_items, same_number, if◌then◌else◌,
}
use ai_control_center.Base.Keyed.{contains}

pub data Number : Type 0 where
  whole : ℕ → Number
  fractional : String → Number

pub record TelemetryMetric : Type 0 where
  pub value : Option Number
  pub unit : String
  pub source : Option String
  pub observed_at : ℕ
  pub unknown_reason : Option String

pub record TelemetryDecision : Type 0 where
  pub value : Option String
  pub source : Option String
  pub observed_at : ℕ
  pub unknown_reason : Option String

pub data RunInterventionType : Type 0 where
  manual_relay human_intervention external_intervention : RunInterventionType

pub record RunIntervention : Type 0 where
  pub intervention_id : String
  pub run_id : String
  pub intervention_type : RunInterventionType
  pub reason : String
  pub actor : String
  pub source : String
  pub occurred_at : ℕ

pub data SchemaVersion : Type 0 where
  first_version second_version : SchemaVersion

pub record RunTelemetry : Type 0 where
  pub schema_version : SchemaVersion
  pub run_id : String
  pub manual_relay_count : TelemetryMetric
  pub interventions : List RunIntervention
  pub attempt_count : TelemetryMetric
  pub attempt_limit : TelemetryMetric
  pub input_tokens : TelemetryMetric
  pub cached_input_tokens : Option TelemetryMetric
  pub uncached_input_tokens : Option TelemetryMetric
  pub output_tokens : TelemetryMetric
  pub budget_decision : Option TelemetryDecision
  pub cost : TelemetryMetric
  pub captured_at : ℕ

-- What a validator raises.
pub data TelemetryError : Type 0 where
  unknown_without_reason known_without_source known_with_reason : TelemetryError
  intervention_run_mismatch duplicate_intervention not_integer relay_count_mismatch : TelemetryError
  extension_in_first_version extension_missing split_mismatch : TelemetryError

abbrev pub is_absent : Option String → Bool
is_absent none = true
is_absent (some words) = words == ""

abbrev pub is_given {ℓ} : {A : Type ℓ} → Option A → Bool
is_given none = false
is_given (some a) = true

-- `known_or_unknown`
abbrev pub known_or_unknown : Bool → Option String → Option String → Option TelemetryError
known_or_unknown false source unknown_reason =
    if is_absent unknown_reason then some unknown_without_reason else none
known_or_unknown true source unknown_reason =
    if is_absent source
    then some known_without_source
    else if is_given unknown_reason
    then some known_with_reason
    else none

abbrev pub metric_error : TelemetryMetric → Option TelemetryError
metric_error m = known_or_unknown (is_given m.value) m.source m.unknown_reason

abbrev pub optional_metric_error : Option TelemetryMetric → Option TelemetryError
optional_metric_error none = none
optional_metric_error (some m) = metric_error m

abbrev pub decision_error : Option TelemetryDecision → Option TelemetryError
decision_error none = none
decision_error (some d) = known_or_unknown (is_given d.value) d.source d.unknown_reason

-- The loop over the interventions, with the identifiers that it has seen.
unfoldable pub interventions_error :
    String → List String → List RunIntervention → Option TelemetryError
interventions_error run_id ids [] = none
interventions_error run_id ids (i ∷ interventions) =
    let rest = interventions_error run_id (i.intervention_id ∷ ids) interventions in
    if not (i.run_id == run_id)
    then some intervention_run_mismatch
    else if contains ids i.intervention_id
    then some duplicate_intervention
    else rest

abbrev pub is_fractional : Option Number → Bool
is_fractional (some (fractional words)) = true
is_fractional _ = false

abbrev pub is_fractional_metric : Option TelemetryMetric → Bool
is_fractional_metric none = false
is_fractional_metric (some m) = is_fractional m.value

abbrev pub integers_error : RunTelemetry → Option TelemetryError
integers_error t =
    if is_fractional t.manual_relay_count.value
      || is_fractional t.attempt_count.value
      || is_fractional t.attempt_limit.value
      || is_fractional t.input_tokens.value
      || is_fractional t.output_tokens.value
      || is_fractional_metric t.cached_input_tokens
      || is_fractional_metric t.uncached_input_tokens
    then some not_integer
    else none

abbrev pub is_relay : RunIntervention → Bool
is_relay i = elim i.intervention_type [ manual_relay ↦ true | _ ↦ false ]

abbrev pub relays_error : Option Number → ℕ → Option TelemetryError
relays_error (some (whole n)) count =
    if same_number n count then none else some relay_count_mismatch
relays_error _ count = none

abbrev pub extension_error : SchemaVersion → Bool → Bool → Bool → Option TelemetryError
extension_error first_version cached uncached decided =
    if cached || uncached || decided then some extension_in_first_version else none
extension_error second_version cached uncached decided =
    if cached && uncached && decided then none else some extension_missing

abbrev pub value_of : Option TelemetryMetric → Option Number
value_of none = none
value_of (some m) = m.value

-- The numbers that reach this check are integers.
abbrev pub split_error :
    SchemaVersion → Option Number → Option Number → Option Number → Option TelemetryError
split_error second_version (some (whole input)) (some (whole cached)) (some (whole uncached)) =
    if same_number input (cached + uncached) then none else some split_mismatch
split_error _ input cached uncached = none

-- The checks are made in order, and the first that fails raises.
abbrev pub first_error : List (Option TelemetryError) → Option TelemetryError
first_error [] = none
first_error (none ∷ checks) = first_error checks
first_error (some error ∷ checks) = some error

-- The validators of the parts, then `validate_run_and_metric_contract`.
abbrev pub checks : RunTelemetry → List (Option TelemetryError)
checks t =
    metric_error t.manual_relay_count
    ∷ metric_error t.attempt_count
    ∷ metric_error t.attempt_limit
    ∷ metric_error t.input_tokens
    ∷ optional_metric_error t.cached_input_tokens
    ∷ optional_metric_error t.uncached_input_tokens
    ∷ metric_error t.output_tokens
    ∷ decision_error t.budget_decision
    ∷ metric_error t.cost
    ∷ interventions_error t.run_id [] t.interventions
    ∷ integers_error t
    ∷ relays_error t.manual_relay_count.value (count_items is_relay t.interventions)
    ∷ extension_error t.schema_version (is_given t.cached_input_tokens)
        (is_given t.uncached_input_tokens) (is_given t.budget_decision)
    ∷ split_error t.schema_version t.input_tokens.value (value_of t.cached_input_tokens)
        (value_of t.uncached_input_tokens)
    ∷ []

unfoldable pub telemetry_error : RunTelemetry → Option TelemetryError
telemetry_error t = first_error (checks t)
