-- ===== src/Day/Step/Round.antt =====
-- One round of `_execute_one` of backend/orchestrator/day_runner.py, and the rounds together: they end, and
-- what they leave is `Done`.
use ai_control_center.Base.{
  ℕ, ◌≡◌, refl, inl, inr, String, true, false, Option, none, some, List, [], get_elem?, ◌&&◌, Bool,
  Bool-cases, if◌then◌else◌,
}
use ai_control_center.Base.Int.{sub_ℕ}
use ai_control_center.Routing.{codex, RoutingDecision}
use ai_control_center.Day.{DayPlan, ConfiguredTask, DayRunSnapshot}
use ai_control_center.Day.Outside.{TaskResult, Outside}
use ai_control_center.Day.Runner.{DayRunner, save, change_item}
use ai_control_center.Day.Execute.{
  classify, account_codex, account_result, after_session, run_task, run_round,
}
use ai_control_center.Day.Item.{
  Verdict, Attempt, Executed, executed, execution_raised, is_text, is_nonpositive, count_failed,
  count_codex, codex_usage, begin_item, count_call, add_codex_usage, fail_item, mark_failed,
}
use ai_control_center.Day.Step.{Live, Live-Done}
use ai_control_center.Day.Step.Writes.{
  Live-change_item, Live-save, Live-audit, Live-stop_day, Live-human_review, Done-settle_task,
}
use ai_control_center.Day.Step.Session.{
  after_execution, Live-add_role_usage, Live-add_profile_usage, Live-record_zero_usage,
  Live-run_session,
}
use ai_control_center.Day.Step.Evaluation.{RoundAt, RoundAt-settle_item, RoundAt-evaluate_semantic}

module _ (o : Outside) (plan : DayPlan) (i : ℕ) (s₀ : DayRunSnapshot) (repairs : List ℕ) (k : ℕ)
    (place : get_elem? repairs i ≡ some k) where
  RoundAt-if :
      (b : Bool) (v w : Verdict)
      → RoundAt o plan i s₀ repairs k place v
      → RoundAt o plan i s₀ repairs k place w
      → RoundAt o plan i s₀ repairs k place (if b then v else w)
  RoundAt-if true v w hv hw = hv
  RoundAt-if false v w hv hw = hw

  Live-fail_item :
      (result : TaskResult) (r : DayRunner)
      → Live plan s₀ repairs r.snapshot
      → Live plan s₀ repairs (fail_item i result r).snapshot
  Live-fail_item result r h =
      Live-change_item plan s₀ repairs (mark_failed result) i (count_failed r)
        (record { name = λ item. refl; repairs = λ item. refl })
        (record {
          counts = h.counts;
          limits = h.limits;
          same = h.same;
          processed = h.processed;
          unfinished = h.unfinished;
        })

  RoundAt-classify :
      (task_id : String) (task : ConfiguredTask) (result : TaskResult)
      (routing : Option RoutingDecision) (r : DayRunner)
      → Live plan s₀ repairs r.snapshot
      → RoundAt o plan i s₀ repairs k place (classify o plan i task_id task result routing r)
  unfolding classify
  RoundAt-classify task_id task result routing r h =
      RoundAt-if (is_text "COMPLETE_NO_CHANGE" result.final_result) _ _
        (RoundAt-settle_item o plan i s₀ repairs k place _ _ r h)
        (RoundAt-if (is_text "COMPLETE" result.final_result) _ _
          (RoundAt-if task.independent_evaluator_required _ _
            (RoundAt-evaluate_semantic o plan i s₀ repairs k place task_id task result r h)
            (RoundAt-settle_item o plan i s₀ repairs k place _ _ r h))
          (RoundAt-if (is_text "HUMAN_REVIEW" result.final_result) _ _
            (Live-Done plan s₀ _ (Live-human_review plan s₀ repairs task_id _ _ r h))
            (Done-settle_task plan s₀ _ (Live-fail_item result r h))))

  RoundAt-account_codex :
      (task_id : String) (task : ConfiguredTask) (result : TaskResult)
      (routing : Option RoutingDecision) (r : DayRunner)
      → Live plan s₀ repairs r.snapshot
      → RoundAt o plan i s₀ repairs k place (account_codex o plan i task_id task result routing r)
  unfolding account_codex
  RoundAt-account_codex task_id task result none r h =
      Live-Done plan s₀ _ (Live-human_review plan s₀ repairs task_id _ _ r h)
  RoundAt-account_codex task_id task result (some last) r h =
      RoundAt-classify task_id task result (some last) _
        (Live-audit plan s₀ repairs _ _ (Live-add_profile_usage plan s₀ repairs _ _ _ r h))

  Live-add_codex_usage :
      (result : TaskResult) (r : DayRunner)
      → Live plan s₀ repairs r.snapshot
      → Live plan s₀ repairs (add_codex_usage result r).snapshot
  Live-add_codex_usage result r h =
      Live-add_role_usage plan s₀ repairs codex (codex_usage result) (count_codex result r)
        (record {
          counts = h.counts;
          limits = h.limits;
          same = h.same;
          processed = h.processed;
          unfinished = h.unfinished;
        })

  RoundAt-account_result :
      (task_id : String) (task : ConfiguredTask) (result : TaskResult)
      (routing : Option RoutingDecision) (r : DayRunner)
      → Live plan s₀ repairs r.snapshot
      → RoundAt o plan i s₀ repairs k place (account_result o plan i task_id task result routing r)
  unfolding account_result
  RoundAt-account_result task_id task result routing r h =
      let counted = Live-add_codex_usage result r h in
      RoundAt-if result.codex_invoked _ _
        (RoundAt-account_codex task_id task result routing (add_codex_usage result r) counted)
        (RoundAt-classify task_id task result routing _ (
          Live-audit plan s₀ repairs _ _
            (Live-record_zero_usage plan s₀ repairs task_id (add_codex_usage result r) counted)))

  RoundAt-after_session :
      (task_id : String) (task : ConfiguredTask) (x : Executed)
      → Live plan s₀ repairs (after_execution x).snapshot
      → RoundAt o plan i s₀ repairs k place (after_session o plan i task_id task x)
  unfolding after_session
  RoundAt-after_session task_id task (executed result routes r) h =
      RoundAt-account_result task_id task result _ r h
  RoundAt-after_session task_id task (execution_raised fault r) h = Live-Done plan s₀ _ h

  RoundAt-run_task :
      (attempt : Attempt) (found : Option ConfiguredTask) (r : DayRunner)
      → Live plan s₀ repairs r.snapshot
      → RoundAt o plan i s₀ repairs k place (run_task o plan i attempt found r)
  unfolding run_task
  RoundAt-run_task attempt none r h = Live-Done plan s₀ _ h
  RoundAt-run_task attempt (some task) r h =
      elim (Bool-cases (
        task.requires_codex
        && is_nonpositive (sub_ℕ plan.max_codex_calls r.snapshot.codex_calls))) [
          | inl spent ↦ rw spent (Live-Done plan s₀ _ (Live-stop_day plan s₀ repairs _ r h))
          | inr left ↦ rw left (
              RoundAt-after_session _ task _ (
                Live-run_session plan s₀ repairs o i task attempt _ []
                  (count_call (save (change_item begin_item i r)))
                  (Live-save plan s₀ repairs (change_item begin_item i r) (
                    Live-change_item plan s₀ repairs begin_item i r
                      (record { name = λ item. refl; repairs = λ item. refl }) h))))
        ]

  pub RoundAt-run_round :
      (attempt : Attempt) (r : DayRunner)
      → Live plan s₀ repairs r.snapshot
      → RoundAt o plan i s₀ repairs k place (run_round o plan i attempt r)
  unfolding run_round
  RoundAt-run_round attempt r h = RoundAt-run_task attempt _ r h
