-- ===== src/Day/Evaluate.antt =====
-- backend/orchestrator/day_runner.py: `_evaluate_semantic`.
use Prim.Native.String.{◌++◌}
use ai_control_center.Base.{ℕ, String, Option, none, some, ltb, leb, if◌then◌else◌}
use ai_control_center.Base.Keyed.{lookup}
use ai_control_center.Routing.{evaluator, normal, RoutingDecision, ProviderExecutionConfig}
use ai_control_center.Routing.Router.{from_routing_decision}
use ai_control_center.Day.{
  QueueTaskState, EvaluationChoice, EscalationCategory, SemanticEvaluation, DayPlan, QueuedTask,
  ConfiguredTask,
}
use ai_control_center.Day.Outside.{
  value_error, outside_error, Reply, answered, runtime_error, other_error, TaskResult,
  EvaluatorRequest, Outside, provider_error_code, provider_error_message,
}
use ai_control_center.Day.Runner.{
  DayRunner, returned, raised, save, audit, stop_day, day_evaluation_result, change_item, item_at,
  settle_task,
}
use ai_control_center.Day.Review.{plain_detail, human_review}
use ai_control_center.Day.Account.{add_role_usage, add_profile_usage}
use ai_control_center.Day.Profile.{
  Routed, routed, refused, invalid, select_profile, provider_precheck, provider_overage,
}
use ai_control_center.Day.Item.{
  Verdict, settled, repair, count_call, count_repair, count_evaluation, review_evaluation,
  failed_check,
}

module _ (o : Outside) (plan : DayPlan) (i : ℕ) where
  abbrev pub finish_item : QueueTaskState → Option String → QueuedTask → QueuedTask
  finish_item state final item = record item { state = state; final_result = final }

  unfoldable pub settle_item : QueueTaskState → Option String → DayRunner → Verdict
  settle_item state final r =
      settled (returned (settle_task plan (change_item (finish_item state final) i r)))

  -- The last branch of `_evaluate_semantic`, by the evaluator's decision.
  unfoldable pub weigh_decision :
      String
      → TaskResult
      → RoutingDecision
      → SemanticEvaluation
      → EvaluationChoice
      → DayRunner
      → Verdict
  weigh_decision task_id result routing evaluation EvaluationChoice.pass r =
      settle_item QueueTaskState.pass (some "COMPLETE") r
  weigh_decision task_id result routing evaluation EvaluationChoice.not_required r =
      settle_item QueueTaskState.pass (some "COMPLETE") r
  weigh_decision task_id result routing evaluation EvaluationChoice.repair r =
      if ltb (item_at i r).repair_loops plan.max_repair_loops_per_task
      then repair evaluation.repair_instruction (save (change_item count_repair i r))
      else settled (returned (review_evaluation task_id result routing evaluation r))
  weigh_decision task_id result routing evaluation EvaluationChoice.human_review r =
      settled (returned (review_evaluation task_id result routing evaluation r))

  -- `_evaluate_semantic` after the evaluator's answer.
  unfoldable pub weigh :
      String → TaskResult → RoutingDecision → SemanticEvaluation → DayRunner → Verdict
  weigh task_id result routing evaluation r =
      weigh_decision task_id result routing evaluation evaluation.decision (
        audit (day_evaluation_result task_id evaluation routing) (
          provider_overage o.provider_budgets evaluator (
            add_profile_usage routing evaluation.token_usage evaluation.diagnostics.duration_ms
              (add_role_usage evaluator evaluation.token_usage r))))

  unfoldable pub heed :
      String → TaskResult → RoutingDecision → Reply SemanticEvaluation → DayRunner → Verdict
  heed task_id result routing (answered evaluation) r = weigh task_id result routing evaluation r
  heed task_id result routing (runtime_error e) r = settled (
      returned (
        human_review task_id ("EVALUATOR_PROVIDER_ERROR:" ++ provider_error_code e)
          (record {
            result = some result;
            message = some (provider_error_message e);
            routing = some routing;
            failure_type = "provider_error";
            provider_diagnostics = e.diagnostics;
            escalation_category = EscalationCategory.human_decision_required;
          })
          r))
  heed task_id result routing other_error r = settled (raised outside_error r)

  -- The call of the evaluator, with the transport settings of the routing decision.
  unfoldable pub call_evaluator :
      String
      → ConfiguredTask
      → TaskResult
      → RoutingDecision
      → (ℕ → EvaluatorRequest → ProviderExecutionConfig → Reply SemanticEvaluation)
      → Option ProviderExecutionConfig
      → DayRunner
      → Verdict
  call_evaluator task_id task result routing evaluate none r = settled (raised value_error r)
  call_evaluator task_id task result routing evaluate (some config) r =
      heed task_id result routing
        (evaluate r.calls
          (record {
            task = task;
            result = result;
            repair_attempt = (item_at i r).repair_loops;
            routing = routing;
          })
          config)
        (count_call r)

  -- `_evaluate_semantic` from the choice of the evaluator on.
  unfoldable pub consult_evaluator :
      String
      → ConfiguredTask
      → TaskResult
      → RoutingDecision
      → Option (ℕ → EvaluatorRequest → ProviderExecutionConfig → Reply SemanticEvaluation)
      → DayRunner
      → Verdict
  consult_evaluator task_id task result routing none r = settled (
      returned (
        human_review task_id "EVALUATOR_PROVIDER_NOT_CONFIGURED"
          (plain_detail (some result) (some routing) "provider_configuration") r))
  consult_evaluator task_id task result routing (some evaluate) r =
      call_evaluator task_id task result routing evaluate (from_routing_decision routing)
        (count_evaluation i r)

  unfoldable pub evaluator_routed : String → ConfiguredTask → TaskResult → Routed → Verdict
  evaluator_routed task_id task result (routed routing r) =
      consult_evaluator task_id task result routing (lookup plan.evaluator_provider o.evaluators) r
  evaluator_routed task_id task result (refused r) = settled (returned r)
  evaluator_routed task_id task result (invalid fault r) = settled (raised fault r)

  -- `_evaluate_semantic` from the choice of the profile on, unless the budget guard stopped the day.
  unfoldable pub route_evaluator :
      String → ConfiguredTask → TaskResult → DayRunner → Option DayRunner → Verdict
  route_evaluator task_id task result r (some stopped) = settled (returned stopped)
  route_evaluator task_id task result r none = evaluator_routed task_id task result (
      select_profile o plan
        (record {
          role = evaluator;
          task_type = task.task_type;
          complexity = normal;
          previous_attempt_count = (item_at i r).repair_loops;
          previous_failure_type = none;
          context_size = o.result_size result;
          execution_provider = plan.evaluator_provider;
        })
        r)

  -- `_evaluate_semantic`
  unfoldable pub evaluate_semantic : String → ConfiguredTask → TaskResult → DayRunner → Verdict
  evaluate_semantic task_id task result r =
      if failed_check result
      then settled (
          returned (
            human_review task_id "DETERMINISTIC_SAFETY_FAILURE"
              (plain_detail (some result) none "deterministic_safety") r))
      else if leb plan.max_evaluator_calls r.snapshot.evaluator_calls
      then settled (returned (stop_day "MAX_EVALUATOR_CALLS_REACHED" r))
      else route_evaluator task_id task result r
          (provider_precheck o.provider_budgets evaluator r.snapshot.evaluator_calls r)
