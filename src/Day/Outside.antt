-- ===== src/Day/Outside.antt =====
-- What backend/orchestrator/day_runner.py is constructed with, and what it asks of it. The architect,
-- the evaluator and the task executor are called through interfaces whose answers it does not
-- control: each call is given the number of calls made so far, so one of these functions stands for
-- any sequence of answers. The executor calls the runner back for a profile, which makes it a tree.
use ai_control_center.Base.{
  ℕ, String, Bool, Option, none, some, List, [], ◌∷◌, map, select_items, ◌==◌, if◌then◌else◌,
}
use ai_control_center.Base.Int.{ℤ, sub_ℕ}
use ai_control_center.Base.Keyed.{Keyed, contains, lookup}
use ai_control_center.Routing.{ModelProfile, RoutingDecision, ProviderExecutionConfig}
use ai_control_center.Day.{
  Diagnostics, ArchitectDecision, SemanticEvaluation, DayPlan, QueueTaskState, QueuedTask,
  ProviderBudget, ConfiguredTask, DayRunSnapshot, EscalationCategory, is_successful, is_eligible,
}

-- An exception that leaves the runner.
pub data Fault : Type 0 where
  assertion_error attribute_error key_error value_error outside_error : Fault

-- A `RuntimeError` of a provider: its type's name and the attributes that the runner reads.
pub record ProviderError : Type 0 where
  pub type_name : String
  pub code : Option String
  pub safe_message : Option String
  pub diagnostics : Option Diagnostics

pub data Reply {ℓ} (A : Type ℓ) : Type ℓ where
  answered : A → Reply A
  runtime_error : ProviderError → Reply A
  other_error : Reply A

-- What the runner reads of the dictionary that the task engine returns.
pub record TaskResult : Type 0 where
  pub run_id : Option String
  pub final_result : Option String
  pub codex_invoked : Bool
  pub codex_attempts : ℕ  -- the length of the list
  pub gross_input_tokens : ℕ
  pub cached_input_tokens : ℕ
  pub output_tokens : ℕ
  pub duration_ms : ℤ
  pub precheck_result : Option String
  pub postcheck_result : Option String
  pub scope_guard_result : Option String
  pub changed_files : List String
  pub human_review_reason : Option String
  pub error_code : Option String

-- One call of `execute_task`: it ends with a result or an exception, or asks `codex_routing_selector`
-- for a profile, with a context size and a retry number, and goes on by the answer.
pub data Session : Type 0 where
  finish : TaskResult → Session
  crash : Session
  ask : ℕ → ℕ → (Option RoutingDecision → Session) → Session

pub record EligibleTask : Type 0 where
  pub task_id : String
  pub title : String
  pub task_type : String

pub record QueueEntry : Type 0 where
  pub id : String
  pub state : QueueTaskState

pub record PriorResult : Type 0 where
  pub id : String
  pub result : Option String

pub record ArchitectRequest : Type 0 where
  pub plan : String
  pub validation_day : ℕ
  pub eligible_tasks : List EligibleTask
  pub queue : List QueueEntry
  pub prior_results : List PriorResult
  pub remaining_architect : ℤ
  pub remaining_builder : ℤ
  pub remaining_evaluator : ℤ
  pub limit_tasks : ℕ
  pub limit_failed : ℕ
  pub day_progress : ℕ
  pub overall_progress : ℕ

pub record EvaluatorRequest : Type 0 where
  pub task : ConfiguredTask
  pub result : TaskResult
  pub repair_attempt : ℕ
  pub routing : RoutingDecision

pub record ProviderBudgets : Type 0 where
  pub architect : ProviderBudget
  pub evaluator : ProviderBudget
  pub codex : ProviderBudget

pub record Outside : Type 0 where
  pub plans : Keyed DayPlan
  pub tasks : Keyed ConfiguredTask
  pub architects : Keyed (ℕ → ArchitectRequest → ProviderExecutionConfig → Reply ArchitectDecision)
  pub evaluators : Keyed (ℕ → EvaluatorRequest → ProviderExecutionConfig → Reply SemanticEvaluation)
  pub provider_budgets : ProviderBudgets
  pub model_router : Option (Keyed ModelProfile)
  pub execute_task : ℕ → String → ℤ → Option String → Session
  -- The lengths of the serialised request and result, which the runner only reports.
  pub request_size : ArchitectRequest → ℕ
  pub result_size : TaskResult → ℕ

abbrev add_task : Option ConfiguredTask → Option (List EligibleTask) → Option (List EligibleTask)
add_task (some task) (some rest) =
    some (record { task_id = task.task_id; title = task.title; task_type = task.task_type } ∷ rest)
add_task _ _ = none

-- `none` stands for the `AttributeError` of an eligible item whose task is not configured.
eligible_tasks : Keyed ConfiguredTask → List QueuedTask → Option (List EligibleTask)
eligible_tasks tasks [] = some []
eligible_tasks tasks (item ∷ items) =
    let rest = eligible_tasks tasks items in
    if is_eligible item.state then add_task (lookup item.task_id tasks) rest else rest

-- `_architect_request`
unfoldable pub architect_request :
    Keyed ConfiguredTask → DayPlan → DayRunSnapshot → Option ArchitectRequest
unfolding eligible_tasks
architect_request tasks plan s = elim (eligible_tasks tasks s.queue) [
  | none ↦ none
  | some eligible ↦ some (record {
    plan = plan.plan_id;
    validation_day = plan.validation_day;
    eligible_tasks = eligible;
    queue = map (λ item. record { id = item.task_id; state = item.state }) s.queue;
    prior_results =
        map (λ item. record { id = item.task_id; result = item.final_result })
          (select_items (λ item. is_successful item.state) s.queue);
    remaining_architect = sub_ℕ plan.max_architect_calls s.architect_calls;
    remaining_builder = sub_ℕ plan.max_codex_calls s.codex_calls;
    remaining_evaluator = sub_ℕ plan.max_evaluator_calls s.evaluator_calls;
    limit_tasks = plan.max_tasks_per_run;
    limit_failed = plan.max_failed_tasks;
    day_progress = s.day_progress;
    overall_progress = s.overall_progress;
  })
]

-- `value if isinstance(value, str) and value else other`
abbrev pub or_text : Option String → String → String
or_text none other = other
or_text (some value) other = if value == "" then other else value

abbrev pub provider_error_code : ProviderError → String
provider_error_code e = or_text e.code e.type_name

abbrev pub provider_error_message : ProviderError → String
provider_error_message e = or_text e.safe_message (provider_error_code e)

abbrev retryable_codes : List String
retryable_codes =
    "CODEX_TIMEOUT" ∷ "CODEX_TURN_FAILED" ∷ "CODEX_ROLE_FAILED" ∷ "CODEX_OUTPUT_INVALID"
    ∷ "OPENAI_TIMEOUT" ∷ []

abbrev external_codes : List String
external_codes =
    "CODEX_NOT_FOUND" ∷ "CODEX_HOME_NOT_FOUND" ∷ "CODEX_SQLITE_HOME_NOT_FOUND"
    ∷ "OPENAI_CREDENTIALS_MISSING" ∷ []

unfoldable pub provider_escalation : String → EscalationCategory
provider_escalation code =
    if contains retryable_codes code
    then EscalationCategory.retryable
    else if contains external_codes code
    then EscalationCategory.external_action_required
    else EscalationCategory.human_decision_required
