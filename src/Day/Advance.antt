-- ===== src/Day/Advance.antt =====
-- backend/orchestrator/day_runner.py: the public methods of `DayRunner`, its loop, and one step of it.
use Prim.Native.String.{◌++◌}
use ai_control_center.Base.{
  ℕ, zero, suc, ◌+◌, String, Bool, true, false, ◌&&◌, Option, none, some, ltb, leb, if◌then◌else◌,
}
use ai_control_center.Base.Keyed.{lookup}
use ai_control_center.Routing.{
  architect, TaskComplexity, normal, RoutingDecision, ProviderExecutionConfig,
}
use ai_control_center.Routing.Router.{from_routing_decision}
use ai_control_center.Day.{
  DayRunState, DayExecutionMode, EscalationCategory, QueueTaskState, ArchitectChoice,
  ArchitectDecision, DayPlan, QueuedTask,
}
use ai_control_center.Day.Outside.{
  attribute_error, value_error, outside_error, ProviderError, Reply, answered, runtime_error,
  other_error, ArchitectRequest, Outside, architect_request, provider_error_code,
  provider_error_message, provider_escalation,
}
use ai_control_center.Day.Runner.{
  DayRunner, Outcome, returned, raised, out_of_rounds, save, audit, stop_day, complete_day,
  all_successful, with_state, day_architect_decision, day_task_skipped, change_item, eligible_item,
  item_at, update_progress, after_task,
}
use ai_control_center.Day.Review.{plain_detail, human_review, escalation, request_replan}
use ai_control_center.Day.Account.{add_role_usage, add_profile_usage}
use ai_control_center.Day.Profile.{
  Routed, routed, refused, invalid, select_profile, provider_precheck, provider_overage,
}
use ai_control_center.Day.Execute.{execute_one}
use ai_control_center.Day.Item.{Attempt, count_call}

abbrev pub count_architect : DayRunner → DayRunner
count_architect r = record r {
  snapshot = record r.snapshot { architect_calls = r.snapshot.architect_calls + 1 };
}

abbrev pub count_retry : DayRunner → DayRunner
count_retry r = record r {
  snapshot = record r.snapshot { auto_provider_retries = r.snapshot.auto_provider_retries + 1 };
}

abbrev pub count_processed : DayRunner → DayRunner
count_processed r = record r {
  snapshot = record r.snapshot {
    tasks_processed_this_run = r.snapshot.tasks_processed_this_run + 1;
  };
}

abbrev pub skip_item : QueuedTask → QueuedTask
skip_item item = record item { state = QueueTaskState.skipped; final_result = some "SKIPPED" }

abbrev pub is_retryable : EscalationCategory → Bool
is_retryable EscalationCategory.retryable = true
is_retryable _ = false

abbrev pub or_normal : Option TaskComplexity → TaskComplexity
or_normal none = normal
or_normal (some complexity) = complexity

abbrev pub is_running : DayRunState → Bool
is_running DayRunState.running = true
is_running _ = false

abbrev pub is_single : DayExecutionMode → Bool
is_single DayExecutionMode.single_step = true
is_single DayExecutionMode.continuous = false

abbrev pub first_attempt : Option TaskComplexity → Attempt
first_attempt complexity = record {
  repair_instruction = none;
  task_complexity = or_normal complexity;
  previous_failure_type = none;
}

module _ (o : Outside) (plan : DayPlan) where
  -- The `except` branch of `_process_one`.
  unfoldable pub architect_failed : RoutingDecision → ProviderError → DayRunner → DayRunner
  architect_failed routing e r =
      let code = provider_error_code e in
      let category = provider_escalation code in
      if is_retryable category
        && ltb r.snapshot.auto_provider_retries plan.max_auto_provider_retries
      then save (escalation "SYSTEM" category code "RETRY_ARCHITECT" (count_retry r))
      else human_review "SYSTEM" ("ARCHITECT_PROVIDER_ERROR:" ++ code)
          (record {
            result = none;
            message = some (provider_error_message e);
            routing = some routing;
            failure_type = "provider_error";
            provider_diagnostics = e.diagnostics;
            escalation_category = category;
          })
          r

  unfoldable pub skip_task : ℕ → String → DayRunner → DayRunner
  skip_task i reason r = after_task plan (
      audit (day_task_skipped (item_at i r).task_id reason)
        (update_progress (count_processed (change_item skip_item i r))))

  -- `_process_one` for an eligible item, by the architect's decision.
  unfoldable pub follow_item :
      ArchitectDecision → RoutingDecision → ℕ → ArchitectChoice → DayRunner → Outcome
  follow_item decision routing i ArchitectChoice.human_review r = returned (
      human_review (item_at i r).task_id decision.reason
        (plain_detail none (some routing) "architect_decision") r)
  follow_item decision routing i ArchitectChoice.skip_task r =
      returned (skip_task i decision.reason r)
  follow_item decision routing i _ r =
      execute_one o plan i (first_attempt decision.task_complexity) r

  unfoldable pub follow_named : ArchitectDecision → RoutingDecision → DayRunner → Option ℕ → Outcome
  follow_named decision routing r none =
      returned (request_replan plan "ARCHITECT_INVALID_TASK" routing r)
  follow_named decision routing r (some i) = follow_item decision routing i decision.decision r

  -- `_process_one` by the architect's decision.
  unfoldable pub follow :
      ArchitectDecision → RoutingDecision → ArchitectChoice → DayRunner → Outcome
  follow decision routing ArchitectChoice.stop_day r = returned (stop_day "ARCHITECT_STOP_DAY" r)
  follow decision routing ArchitectChoice.day_complete r =
      if all_successful r.snapshot
      then returned (complete_day r)
      else returned (request_replan plan "ARCHITECT_PREMATURE_DAY_COMPLETE" routing r)
  follow decision routing _ r =
      follow_named decision routing r (eligible_item decision.task_id r.snapshot)

  -- `_process_one` after the architect's answer.
  unfoldable pub heed_architect : RoutingDecision → Reply ArchitectDecision → DayRunner → Outcome
  heed_architect routing (answered decision) r = follow decision routing decision.decision (
      audit (day_architect_decision decision routing) (
        provider_overage o.provider_budgets architect (
          add_profile_usage routing decision.token_usage decision.diagnostics.duration_ms
            (add_role_usage architect decision.token_usage r))))
  heed_architect routing (runtime_error e) r = returned (architect_failed routing e r)
  heed_architect routing other_error r = raised outside_error r

  -- The call of the architect, with the transport settings of the routing decision.
  unfoldable pub call_architect :
      ArchitectRequest
      → RoutingDecision
      → (ℕ → ArchitectRequest → ProviderExecutionConfig → Reply ArchitectDecision)
      → Option ProviderExecutionConfig
      → DayRunner
      → Outcome
  call_architect request routing choose none r = raised value_error r
  call_architect request routing choose (some config) r =
      heed_architect routing (choose r.calls request config) (count_call r)

  -- `_process_one` from the choice of the architect on.
  unfoldable pub consult_architect :
      ArchitectRequest
      → RoutingDecision
      → Option (ℕ → ArchitectRequest → ProviderExecutionConfig → Reply ArchitectDecision)
      → DayRunner
      → Outcome
  consult_architect request routing none r = returned (
      human_review "SYSTEM" "ARCHITECT_PROVIDER_NOT_CONFIGURED"
        (plain_detail none (some routing) "provider_configuration") r)
  consult_architect request routing (some choose) r =
      call_architect request routing choose (from_routing_decision routing) (count_architect r)

  unfoldable pub architect_routed : ArchitectRequest → Routed → Outcome
  architect_routed request (routed routing r) =
      consult_architect request routing (lookup plan.architect_provider o.architects) r
  architect_routed request (refused r) = returned r
  architect_routed request (invalid fault r) = raised fault r

  -- `_process_one` from the architect's request on.
  unfoldable pub route_architect : Option ArchitectRequest → DayRunner → Outcome
  route_architect none r = raised attribute_error r
  route_architect (some request) r = architect_routed request (
      select_profile o plan
        (record {
          role = architect;
          task_type = "day_planning";
          complexity = normal;
          previous_attempt_count = 0;
          previous_failure_type = none;
          context_size = o.request_size request;
          execution_provider = plan.architect_provider;
        })
        r)

  unfoldable pub after_precheck : DayRunner → Option DayRunner → Outcome
  after_precheck r (some stopped) = returned stopped
  after_precheck r none = route_architect (architect_request o.tasks plan r.snapshot) r

  -- `_process_one`
  unfoldable pub process_one : DayRunner → Outcome
  process_one r =
      if leb plan.max_architect_calls r.snapshot.architect_calls
      then returned (stop_day "MAX_ARCHITECT_CALLS_REACHED" r)
      else after_precheck r
          (provider_precheck o.provider_budgets architect r.snapshot.architect_calls r)

  -- The end of the loop's body in single-step mode, while the day still runs.
  unfoldable pub end_step : DayRunner → DayRunner
  end_step r =
      if all_successful r.snapshot
      then complete_day r
      else save (with_state DayRunState.paused "SINGLE_STEP_COMPLETE" r)

  -- The end of the loop's body: the loop goes on, but for a day that runs in single-step mode.
  unfoldable pub end_round : (DayRunner → Outcome) → Outcome → Outcome
  end_round go (raised fault r) = raised fault r
  end_round go (out_of_rounds r) = out_of_rounds r
  end_round go (returned r) =
      if is_single r.snapshot.mode && is_running r.snapshot.state
      then returned (end_step r)
      else go r

  -- `_advance`, with a bound on the rounds of its loop.
  unfoldable pub advance_rounds : ℕ → DayRunner → Outcome
  advance_rounds zero r = out_of_rounds r
  advance_rounds (suc n) r =
      if is_running r.snapshot.state
      then if leb plan.max_tasks_per_run r.snapshot.tasks_processed_this_run
        then returned (stop_day "MAX_TASKS_PER_RUN_REACHED" r)
        else end_round (advance_rounds n) (process_one r)
      else returned r

  -- `_advance`: each round that leaves the day running has called the architect once more.
  unfoldable pub advance : DayRunner → Outcome
  advance r = advance_rounds (plan.max_architect_calls + 2) r
