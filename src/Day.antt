-- ===== src/Day.antt =====
-- backend/models/day.py, with the parts of backend/control/tasks.py and backend/models/orchestration.py
-- that the day runner reads. Left out: the fields that the runner never reads (titles of plans, metrics
-- and priorities), generated identifiers and the time stamps `created_at` and `updated_at`.
pub mod Outside
pub mod Runner
pub mod Review
pub mod Account
pub mod Profile
pub mod Item
pub mod Evaluate
pub mod Execute
pub mod Advance
pub mod Control
pub mod Step
pub mod Sane
pub mod Reachable
pub mod Ends
use ai_control_center.Base.{ℕ, String, Bool, true, false, Option, none, some, List}
use ai_control_center.Base.Int.{ℤ}
use ai_control_center.Base.Keyed.{Keyed}
use ai_control_center.Usage.{TokenUsage}
use ai_control_center.Routing.{TaskComplexity, RoutingDecision, ProfileTokenUsage}

pub data DayRunState : Type 0 where
  idle running paused stopped complete human_review failed : DayRunState

pub data DayExecutionMode : Type 0 where
  single_step continuous : DayExecutionMode

pub data EscalationCategory : Type 0 where
  auto_resolvable retryable replan_required : EscalationCategory
  external_action_required human_decision_required : EscalationCategory

pub data QueueTaskState : Type 0 where
  pending ready running pass complete_no_change : QueueTaskState
  repair_pending human_review failed stopped skipped : QueueTaskState

pub data ArchitectChoice : Type 0 where
  run_task skip_task human_review stop_day day_complete : ArchitectChoice

pub data EvaluationChoice : Type 0 where
  pass repair human_review not_required : EvaluationChoice

-- A provider's diagnostics: the duration, which the runner adds up, and the rest as one text.
pub record Diagnostics : Type 0 where
  pub duration_ms : ℤ
  pub detail : String

pub record ArchitectDecision : Type 0 where
  pub decision : ArchitectChoice
  pub task_id : Option String
  pub reason : String
  pub task_complexity : Option TaskComplexity
  pub token_usage : TokenUsage
  pub diagnostics : Diagnostics

pub record SemanticEvaluation : Type 0 where
  pub decision : EvaluationChoice
  pub reason : String
  pub repair_instruction : Option String
  pub token_usage : TokenUsage
  pub diagnostics : Diagnostics

pub record DayPlan : Type 0 where
  pub plan_id : String
  pub task_ids : List String
  pub architect_provider : String
  pub evaluator_provider : String
  pub continuous_mode_supported : Bool
  pub validation_day : ℕ
  pub max_tasks_per_run : ℕ
  pub max_codex_calls : ℕ
  pub max_architect_calls : ℕ
  pub max_evaluator_calls : ℕ
  pub max_repair_loops_per_task : ℕ
  pub max_failed_tasks : ℕ
  pub allowed_profile_ids : List String
  pub allow_profile_budget_downgrade : Bool
  pub max_profile_escalation_level : ℕ
  pub max_auto_provider_retries : ℕ
  pub max_auto_replans : ℕ

pub record QueuedTask : Type 0 where
  pub task_id : String
  pub state : QueueTaskState
  pub attempts : ℕ
  pub repair_loops : ℕ
  pub final_result : Option String
  pub last_error : Option String
  pub evaluator_invoked : Bool

-- `QueuedTask(task_id=task_id)`
abbrev pub new_item : String → QueuedTask
new_item task_id = record {
  task_id = task_id;
  state = QueueTaskState.pending;
  attempts = 0;
  repair_loops = 0;
  final_result = none;
  last_error = none;
  evaluator_invoked = false;
}

pub record HumanReviewItem : Type 0 where
  pub plan_id : Option String
  pub task_id : String
  pub reason : String
  pub summary : Option String
  pub changed_files : List String
  pub result_reference : Option String
  pub routing_profile_id : Option String
  pub failure_type : Option String
  pub provider_diagnostics : Option Diagnostics
  pub escalation_category : EscalationCategory

pub record EscalationEvent : Type 0 where
  pub category : EscalationCategory
  pub reason : String
  pub action : String

-- The dictionary of usages by role, whose keys the source fixes.
pub record RoleUsage : Type 0 where
  pub architect : TokenUsage
  pub codex : TokenUsage
  pub evaluator : TokenUsage

pub record DayRunSnapshot : Type 0 where
  pub plan_id : Option String
  pub state : DayRunState
  pub mode : DayExecutionMode
  pub queue : List QueuedTask
  pub human_review_queue : List HumanReviewItem
  pub stop_reason : Option String
  pub architect_calls : ℕ
  pub evaluator_calls : ℕ
  pub codex_calls : ℕ
  pub failed_tasks : ℕ
  pub tasks_processed_this_run : ℕ
  pub day_progress : ℕ  -- hundredths of a percent
  pub overall_progress : ℕ
  pub budget_warnings : List String
  pub token_usage : RoleUsage
  pub profile_token_usage : Keyed ProfileTokenUsage
  pub model_routing_decisions : List RoutingDecision
  pub deterministic_zero_usage_task_ids : List String
  pub auto_provider_retries : ℕ
  pub auto_replans : ℕ
  pub escalation_events : List EscalationEvent

-- backend/models/orchestration.py
pub record ProviderBudget : Type 0 where
  pub daily_input_tokens : ℕ
  pub daily_output_tokens : ℕ
  pub max_calls : ℕ

-- backend/control/tasks.py: what the runner reads of a configured task.
pub record ConfiguredTask : Type 0 where
  pub task_id : String
  pub title : String
  pub task_type : String
  pub requires_codex : Bool
  pub independent_evaluator_required : Bool
  pub evaluation_metrics : List String
  pub postcheck_argv : List String

-- `item.state in {PASS, COMPLETE_NO_CHANGE, SKIPPED}`
abbrev pub is_successful : QueueTaskState → Bool
is_successful QueueTaskState.pass = true
is_successful QueueTaskState.complete_no_change = true
is_successful QueueTaskState.skipped = true
is_successful _ = false

-- `item.state in {PENDING, READY, REPAIR_PENDING}`
abbrev pub is_eligible : QueueTaskState → Bool
is_eligible QueueTaskState.pending = true
is_eligible QueueTaskState.ready = true
is_eligible QueueTaskState.repair_pending = true
is_eligible _ = false
