-- ===== src/Examples/Day.antt =====
-- The day runner's theorems on a concrete plan of two tasks.
use ai_control_center.Base.{
  ℕ, zero, suc, ◌≡◌, refl, String, Bool, true, false, none, some, List, [], ◌∷◌,
}
use ai_control_center.Base.Int.{pos}
use ai_control_center.Usage.{no_usage}
use ai_control_center.Routing.{simple}
use ai_control_center.Day.{
  DayRunState, DayExecutionMode, ArchitectChoice, ArchitectDecision, EvaluationChoice,
  SemanticEvaluation, Diagnostics, DayPlan, ConfiguredTask, ProviderBudget,
}
use ai_control_center.Day.Outside.{Outside, Reply, answered, TaskResult, finish, ArchitectRequest}
use ai_control_center.Day.Runner.{DayRunner, save, audit}
use ai_control_center.Day.Review.{plain_detail, human_review}
use ai_control_center.Day.Control.{
  Operation, start_day, resume_day, stop_requested, perform_all, new_runner, start, resume,
}
use ai_control_center.Day.Reachable.{reachable-IsSane}
use ai_control_center.Day.Sane.{IsSane}
use ai_control_center.Day.Ends.{Ended, start-Ended, resume-Ended, review_absorbs}

abbrev plan : DayPlan
plan = record {
  plan_id = "day-1";
  task_ids = "lint" ∷ "docs" ∷ [];
  architect_provider = "mock";
  evaluator_provider = "mock";
  continuous_mode_supported = true;
  validation_day = 1;
  max_tasks_per_run = 4;
  max_codex_calls = 4;
  max_architect_calls = 6;
  max_evaluator_calls = 4;
  max_repair_loops_per_task = 1;
  max_failed_tasks = 1;
  allowed_profile_ids = "economical" ∷ [];
  allow_profile_budget_downgrade = false;
  max_profile_escalation_level = 0;
  max_auto_provider_retries = 1;
  max_auto_replans = 1;
}

abbrev configured : String → Bool → ConfiguredTask
configured name evaluated = record {
  task_id = name;
  title = name;
  task_type = "maintenance";
  requires_codex = false;
  independent_evaluator_required = evaluated;
  evaluation_metrics = [];
  postcheck_argv = [];
}

abbrev diagnostics : Diagnostics
diagnostics = record { duration_ms = pos 1; detail = "" }

abbrev complete_result : TaskResult
complete_result = record {
  run_id = some "run";
  final_result = some "COMPLETE";
  codex_invoked = false;
  codex_attempts = 0;
  gross_input_tokens = 0;
  cached_input_tokens = 0;
  output_tokens = 0;
  duration_ms = pos 1;
  precheck_result = some "FAIL";
  postcheck_result = some "PASS";
  scope_guard_result = some "PASS";
  changed_files = [];
  human_review_reason = none;
  error_code = none;
}

abbrev run_decision : String → ArchitectDecision
run_decision task_id = record {
  decision = ArchitectChoice.run_task;
  task_id = some task_id;
  reason = "next";
  task_complexity = some simple;
  token_usage = no_usage;
  diagnostics = diagnostics;
}

-- The first task that is asked about is run.
abbrev architect_answer : ℕ → ArchitectRequest → Reply ArchitectDecision
architect_answer zero request = answered (run_decision "lint")
architect_answer (suc n) request = answered (run_decision "docs")

-- The first evaluation asks for a repair, the later ones pass.
abbrev evaluation : EvaluationChoice → SemanticEvaluation
evaluation choice = record {
  decision = choice;
  reason = "checked";
  repair_instruction = some "again";
  token_usage = no_usage;
  diagnostics = diagnostics;
}

abbrev evaluator_answer : ℕ → Reply SemanticEvaluation
evaluator_answer (suc (suc (suc (suc zero)))) = answered (evaluation EvaluationChoice.repair)
evaluator_answer _ = answered (evaluation EvaluationChoice.pass)

abbrev budget : ProviderBudget
budget = record { daily_input_tokens = 1000; daily_output_tokens = 1000; max_calls = 10 }

abbrev outside : Outside
outside = record {
  plans = ("day-1", plan) ∷ [];
  tasks = ("lint", configured "lint" false) ∷ ("docs", configured "docs" true) ∷ [];
  architects = ("mock", λ n request config. architect_answer n request) ∷ [];
  evaluators = ("mock", λ n request config. evaluator_answer n) ∷ [];
  provider_budgets = record { architect = budget; evaluator = budget; codex = budget };
  model_router = none;
  execute_task = λ n task_id remaining instruction. finish complete_result;
  request_size = λ request. 1;
  result_size = λ result. 1;
}

abbrev operations : List Operation
operations =
    start_day "day-1" DayExecutionMode.single_step
    ∷ stop_requested
    ∷ resume_day (some DayExecutionMode.continuous)
    ∷ []

reachable-IsSane_example : IsSane outside (perform_all outside operations (new_runner outside))
reachable-IsSane_example = reachable-IsSane outside operations

start-Ended_example :
    Ended
      (new_runner outside)
      (start outside "day-1" DayExecutionMode.continuous (new_runner outside))
start-Ended_example = start-Ended outside "day-1" DayExecutionMode.continuous (new_runner outside)

resume-Ended_example :
    Ended
      (perform_all outside operations (new_runner outside))
      (resume outside none (perform_all outside operations (new_runner outside)))
resume-Ended_example = resume-Ended outside operations none

abbrev waiting : DayRunner
waiting =
    human_review "lint" "TASK_REQUIRES_REVIEW" (plain_detail none none "task_execution")
      (new_runner outside)

waiting_state : waiting.snapshot.state ≡ DayRunState.human_review
unfolding human_review save audit
waiting_state = refl

review_absorbs_example : perform_all outside operations waiting ≡ waiting
review_absorbs_example = review_absorbs outside operations waiting waiting_state
