-- ===== src/Day/Execute.antt =====
-- backend/orchestrator/day_runner.py: `_execute_one`. It and `_evaluate_semantic` call one another; here each
-- round of the first returns a verdict, and a repair verdict asks for a round more.
use ai_control_center.Base.{
  ℕ, zero, suc, ◌+◌, String, ◌&&◌, Option, none, some, List, [], get_last?, if◌then◌else◌,
}
use ai_control_center.Base.Int.{sub_ℕ}
use ai_control_center.Base.Keyed.{lookup}
use ai_control_center.Routing.{RoutingDecision}
use ai_control_center.Day.{QueueTaskState, DayPlan, ConfiguredTask}
use ai_control_center.Day.Outside.{
  assertion_error, outside_error, TaskResult, Session, finish, crash, ask, Outside, or_text,
}
use ai_control_center.Day.Runner.{
  DayRunner, Outcome, returned, raised, out_of_rounds, save, audit, stop_day, day_task_result,
  change_item, item_at, settle_task,
}
use ai_control_center.Day.Review.{plain_detail, human_review}
use ai_control_center.Day.Account.{add_profile_usage, record_zero_usage}
use ai_control_center.Day.Profile.{select_profile}
use ai_control_center.Day.Item.{
  Verdict, settled, Attempt, Executed, executed, execution_raised, is_text, is_nonpositive,
  count_call, begin_item, fail_item, codex_usage, add_codex_usage, codex_request, answer_session,
  next_round,
}
use ai_control_center.Day.Evaluate.{settle_item, evaluate_semantic}

module _ (o : Outside) (plan : DayPlan) (i : ℕ) where
  -- `execute_task`, with its calls of `select_codex_profile`.
  unfoldable pub run_session :
      ConfiguredTask → Attempt → Session → List RoutingDecision → DayRunner → Executed
  run_session task attempt (finish result) routes r = executed result routes r
  run_session task attempt crash routes r = execution_raised outside_error r
  run_session task attempt (ask context_size retry_number next) routes r =
      answer_session (λ answer. run_session task attempt (next answer)) routes
        (select_profile o plan (codex_request i task attempt context_size retry_number r) r)

  -- `_execute_one` by the final result of the task.
  unfoldable pub classify :
      String → ConfiguredTask → TaskResult → Option RoutingDecision → DayRunner → Verdict
  classify task_id task result routing r =
      let final = result.final_result in
      if is_text "COMPLETE_NO_CHANGE" final
      then settle_item o plan i QueueTaskState.complete_no_change final r
      else if is_text "COMPLETE" final
      then if task.independent_evaluator_required
        then evaluate_semantic o plan i task_id task result r
        else settle_item o plan i QueueTaskState.pass final r
      else if is_text "HUMAN_REVIEW" final
      then settled (
          returned (
            human_review task_id
              (or_text result.human_review_reason
                (or_text result.error_code "TASK_REQUIRES_REVIEW"))
              (plain_detail (some result) routing (or_text result.error_code "task_execution")) r))
      else settled (returned (settle_task plan (fail_item i result r)))

  -- `_execute_one` after the session, for a result of Codex and for one without.
  unfoldable pub account_codex :
      String → ConfiguredTask → TaskResult → Option RoutingDecision → DayRunner → Verdict
  account_codex task_id task result none r = settled (
      returned (
        human_review task_id "CODEX_ROUTING_DECISION_MISSING"
          (plain_detail (some result) none "routing_contract") r))
  account_codex task_id task result (some last) r = classify task_id task result (some last) (
      audit (day_task_result task_id result (some last))
        (add_profile_usage last (codex_usage result) result.duration_ms r))

  unfoldable pub account_result :
      String → ConfiguredTask → TaskResult → Option RoutingDecision → DayRunner → Verdict
  account_result task_id task result routing r =
      if result.codex_invoked
      then account_codex task_id task result routing (add_codex_usage result r)
      else classify task_id task result routing (
          audit (day_task_result task_id result routing)
            (record_zero_usage task_id (add_codex_usage result r)))

  unfoldable pub after_session : String → ConfiguredTask → Executed → Verdict
  after_session task_id task (executed result routes r) =
      account_result task_id task result (get_last? routes) r
  after_session task_id task (execution_raised fault r) = settled (raised fault r)

  unfoldable pub run_task : Attempt → Option ConfiguredTask → DayRunner → Verdict
  run_task attempt none r = settled (raised assertion_error r)
  run_task attempt (some task) r =
      let task_id = (item_at i r).task_id in
      let remaining = sub_ℕ plan.max_codex_calls r.snapshot.codex_calls in
      if task.requires_codex && is_nonpositive remaining
      then settled (returned (stop_day "MAX_CODEX_CALLS_REACHED" r))
      else after_session task_id task (
          run_session task attempt
            (o.execute_task r.calls task_id remaining attempt.repair_instruction) []
            (count_call (save (change_item begin_item i r))))

  -- One round of `_execute_one`.
  unfoldable pub run_round : Attempt → DayRunner → Verdict
  run_round attempt r = run_task attempt (lookup (item_at i r).task_id o.tasks) r

  -- The rounds of `_execute_one`, with a bound on their number.
  unfoldable pub execute_rounds : ℕ → Attempt → DayRunner → Outcome
  execute_rounds zero attempt r = out_of_rounds r
  execute_rounds (suc n) attempt r = next_round (execute_rounds n) (run_round attempt r)

  -- `_execute_one`: a repair needs a count of repairs below the plan's limit and raises the count.
  unfoldable pub execute_one : Attempt → DayRunner → Outcome
  execute_one attempt r = execute_rounds (plan.max_repair_loops_per_task + 1) attempt r
