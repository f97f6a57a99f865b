-- ===== src/Day/Item.antt =====
-- backend/orchestrator/day_runner.py: what `_execute_one` and `_evaluate_semantic` write to an item and count,
-- and what a round ends with.
use mathlib.Core.List.{◌++◌ as append}
use ai_control_center.Base.{
  ℕ, zero, suc, ◌+◌, ◌-◌, String, Bool, true, false, ◌||◌, Option, none, some, List, [], ◌∷◌, ◌==◌,
}
use ai_control_center.Base.Int.{ℤ, pos, negsuc}
use ai_control_center.Usage.{TokenUsage, token_usage}
use ai_control_center.Routing.{
  codex, TaskComplexity, normal, FailureType, reasoning, RoutingDecision,
}
use ai_control_center.Day.{QueueTaskState, SemanticEvaluation, QueuedTask, ConfiguredTask}
use ai_control_center.Day.Outside.{Fault, TaskResult, or_text}
use ai_control_center.Day.Runner.{DayRunner, Outcome, change_item, item_at}
use ai_control_center.Day.Review.{plain_detail, human_review}
use ai_control_center.Day.Account.{add_role_usage}
use ai_control_center.Day.Profile.{ProfileRequest, Routed, routed, refused, invalid}

-- What a round ends with: an outcome, or a repair to run with an instruction.
pub data Verdict : Type 0 where
  settled : Outcome → Verdict
  repair : Option String → DayRunner → Verdict

-- What `_execute_one` is given beside the plan and the item.
pub record Attempt : Type 0 where
  pub repair_instruction : Option String
  pub task_complexity : TaskComplexity
  pub previous_failure_type : Option FailureType

pub data Executed : Type 0 where
  executed : TaskResult → List RoutingDecision → DayRunner → Executed
  execution_raised : Fault → DayRunner → Executed

abbrev pub is_text : String → Option String → Bool
is_text text none = false
is_text text (some value) = value == text

-- `remaining_codex <= 0`
abbrev pub is_nonpositive : ℤ → Bool
is_nonpositive (pos zero) = true
is_nonpositive (pos (suc n)) = false
is_nonpositive (negsuc n) = true

abbrev pub count_call : DayRunner → DayRunner
count_call r = record r { calls = r.calls + 1 }

abbrev pub begin_item : QueuedTask → QueuedTask
begin_item item = record item { state = QueueTaskState.running; attempts = item.attempts + 1 }

abbrev pub count_repair : QueuedTask → QueuedTask
count_repair item = record item {
  state = QueueTaskState.repair_pending;
  repair_loops = item.repair_loops + 1;
}

abbrev pub mark_evaluated : QueuedTask → QueuedTask
mark_evaluated item = record item { evaluator_invoked = true }

abbrev pub count_evaluator : DayRunner → DayRunner
count_evaluator r = record r {
  snapshot = record r.snapshot { evaluator_calls = r.snapshot.evaluator_calls + 1 };
}

abbrev pub count_evaluation : ℕ → DayRunner → DayRunner
count_evaluation i r = change_item mark_evaluated i (count_evaluator r)

abbrev pub mark_failed : TaskResult → QueuedTask → QueuedTask
mark_failed result item = record item {
  state = QueueTaskState.failed;
  final_result = some (or_text result.final_result "FAILED");
  last_error = result.error_code;
}

abbrev pub count_failed : DayRunner → DayRunner
count_failed r = record r {
  snapshot = record r.snapshot { failed_tasks = r.snapshot.failed_tasks + 1 };
}

abbrev pub fail_item : ℕ → TaskResult → DayRunner → DayRunner
fail_item i result r = change_item (mark_failed result) i (count_failed r)

abbrev pub codex_usage : TaskResult → TokenUsage
codex_usage result =
    token_usage result.gross_input_tokens result.cached_input_tokens result.output_tokens
      result.codex_invoked

abbrev pub count_codex : TaskResult → DayRunner → DayRunner
count_codex result r = record r {
  snapshot = record r.snapshot { codex_calls = r.snapshot.codex_calls + result.codex_attempts };
}

abbrev pub add_codex_usage : TaskResult → DayRunner → DayRunner
add_codex_usage result r = add_role_usage codex (codex_usage result) (count_codex result r)

unfoldable pub review_evaluation :
    String → TaskResult → RoutingDecision → SemanticEvaluation → DayRunner → DayRunner
review_evaluation task_id result routing evaluation r =
    human_review task_id (or_text (some evaluation.reason) "SEMANTIC_EVALUATION_REQUIRES_REVIEW")
      (plain_detail (some result) (some routing) "semantic_evaluation") r

-- What `select_codex_profile` asks `_select_profile`.
unfoldable pub codex_request : ℕ → ConfiguredTask → Attempt → ℕ → ℕ → DayRunner → ProfileRequest
codex_request i task attempt context_size retry_number r = record {
  role = codex;
  task_type = task.task_type;
  complexity = attempt.task_complexity;
  previous_attempt_count = ((item_at i r).attempts - 1) + retry_number;
  previous_failure_type = attempt.previous_failure_type;
  context_size = context_size;
  execution_provider = "codex";
}

-- `select_codex_profile`: a selected profile is kept, and the session goes on with the answer.
unfoldable pub answer_session :
    (Option RoutingDecision → List RoutingDecision → DayRunner → Executed)
    → List RoutingDecision
    → Routed
    → Executed
answer_session go routes (routed decision r) = go (some decision) (append routes (decision ∷ [])) r
answer_session go routes (refused r) = go none routes r
answer_session go routes (invalid fault r) = execution_raised fault r

-- The call of `_execute_one` in `_evaluate_semantic`.
abbrev pub repair_attempt : Option String → Attempt
repair_attempt instruction = record {
  repair_instruction = instruction;
  task_complexity = normal;
  previous_failure_type = some reasoning;
}

unfoldable pub next_round : (Attempt → DayRunner → Outcome) → Verdict → Outcome
next_round go (settled outcome) = outcome
next_round go (repair instruction r) = go (repair_attempt instruction) r

abbrev pub failed_check : TaskResult → Bool
failed_check result =
    is_text "FAIL" result.postcheck_result || is_text "FAIL" result.scope_guard_result
