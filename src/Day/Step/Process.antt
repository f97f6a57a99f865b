-- ===== src/Day/Step/Process.antt =====
-- One step of the loop of backend/orchestrator/day_runner.py, `_process_one`: what it keeps of the day, and
-- that a step after which the day still runs has called the architect once more.
use ai_control_center.Base.{
  ℕ, zero, suc, ◌<◌, ◌≡◌, refl, String, Bool, true, false, ◌&&◌, Option, none, some, List, [], ◌∷◌,
  if◌then◌else◌, arith, ltb, get_elem?, find_index_sound, Bool-cases, inl, inr,
}
use ai_control_center.Routing.{RoutingDecision, ProviderExecutionConfig}
use ai_control_center.Day.{ArchitectChoice, ArchitectDecision, DayPlan, DayRunSnapshot, QueuedTask}
use ai_control_center.Day.Outside.{
  ProviderError, Reply, answered, runtime_error, other_error, ArchitectRequest, Outside,
  provider_error_code, provider_escalation,
}
use ai_control_center.Day.Runner.{
  DayRunner, Outcome, save, audit, all_successful, eligible_item, eligible_named, update_progress,
}
use ai_control_center.Day.Review.{escalation}
use ai_control_center.Day.Item.{count_call}
use ai_control_center.Day.Advance.{
  architect_failed, skip_task, skip_item, count_retry, is_retryable, follow_item, follow_named,
  follow, heed_architect, call_architect,
}
use ai_control_center.Day.Step.{repair_counts, Live, Done, Live-Done, DoneAt}
use ai_control_center.Day.Step.Writes.{
  Live-change_item, Live-audit, Live-stop_day, Live-human_review, Live-request_replan,
  Done-complete_day, Done-after_task,
}
use ai_control_center.Day.Step.Session.{
  Live-add_role_usage, Live-add_profile_usage, Live-provider_overage,
}
use ai_control_center.Day.Step.Rounds.{DoneAt-execute_one}

repair_counts-place :
    (queue : List QueuedTask) (i : ℕ) (item : QueuedTask)
    → get_elem? queue i ≡ some item
    → get_elem? (repair_counts queue) i ≡ some item.repair_loops
repair_counts-place [] i item e = absurd (cc)
repair_counts-place (x ∷ queue) zero item e = ground arith
repair_counts-place (x ∷ queue) (suc i) item e = repair_counts-place queue i item e

module _ (o : Outside) (plan : DayPlan) (s₀ : DayRunSnapshot) (repairs : List ℕ) where
  DoneAt-if :
      (b : Bool) (v w : Outcome)
      → (b ≡ true → DoneAt plan s₀ v)
      → DoneAt plan s₀ w
      → DoneAt plan s₀ (if b then v else w)
  DoneAt-if true v w hv hw = hv refl
  DoneAt-if false v w hv hw = hw

  Live-retry :
      (e : ProviderError) (r : DayRunner)
      → r.snapshot.auto_provider_retries < plan.max_auto_provider_retries
      → Live plan s₀ repairs r.snapshot
      → Live plan s₀ repairs
          (save (
            escalation "SYSTEM"
              (provider_escalation (provider_error_code e))
              (provider_error_code e)
              "RETRY_ARCHITECT"
              (count_retry r))).snapshot
  unfolding save escalation audit
  Live-retry e r l h = record {
    counts = h.counts;
    limits = record {
      evaluator = h.limits.evaluator;
      retried = omega arith;
      replanned = h.limits.replanned;
      repairs = h.limits.repairs;
    };
    same = h.same;
    processed = h.processed;
    unfinished = h.unfinished;
  }

  Live-architect_failed :
      (routing : RoutingDecision) (e : ProviderError) (r : DayRunner)
      → Live plan s₀ repairs r.snapshot
      → Live plan s₀ repairs (architect_failed o plan routing e r).snapshot
  unfolding architect_failed
  Live-architect_failed routing e r h =
      elim (Bool-cases (
        is_retryable (provider_escalation (provider_error_code e))
        && ltb r.snapshot.auto_provider_retries plan.max_auto_provider_retries)) [
          | inl again ↦ rw again (Live-retry e r (ground arith) h)
          | inr over ↦ rw over (Live-human_review plan s₀ repairs "SYSTEM" _ _ r h)
        ]

  Done-skip_task :
      (i : ℕ) (reason : String) (r : DayRunner)
      → Live plan s₀ repairs r.snapshot
      → Done plan s₀ (skip_task o plan i reason r).snapshot
  unfolding skip_task update_progress save audit
  Done-skip_task i reason r h =
      let skipped =
        Live-change_item plan s₀ repairs skip_item i r
          (record { name = λ item. refl; repairs = λ item. refl }) h in
      Done-after_task plan s₀ _ (record {
        limits = skipped.limits;
        same = skipped.same;
        processed = omega (arith, skipped.processed);
        finished = λ e. absurd (skipped.unfinished e);
      })

  DoneAt-follow_item :
      (decision : ArchitectDecision) (routing : RoutingDecision) (i : ℕ) (choice : ArchitectChoice)
      (k : ℕ) (r : DayRunner)
      → get_elem? repairs i ≡ some k
      → Live plan s₀ repairs r.snapshot
      → DoneAt plan s₀ (follow_item o plan decision routing i choice r)
  unfolding follow_item
  DoneAt-follow_item decision routing i ArchitectChoice.human_review k r e h =
      Live-Done plan s₀ _ (Live-human_review plan s₀ repairs _ _ _ r h)
  DoneAt-follow_item decision routing i ArchitectChoice.skip_task k r e h =
      Done-skip_task i decision.reason r h
  DoneAt-follow_item decision routing i _ k r e h = DoneAt-execute_one o plan i s₀ _ r repairs k e h

  DoneAt-follow_named :
      (decision : ArchitectDecision) (routing : RoutingDecision) (task_id : Option String)
      (r : DayRunner) (found : Option ℕ)
      → eligible_item task_id r.snapshot ≡ found
      → Live plan s₀ repairs r.snapshot
      → DoneAt plan s₀ (follow_named o plan decision routing r found)
  unfolding follow_named
  DoneAt-follow_named decision routing task_id r none e h =
      Live-Done plan s₀ _ (Live-request_replan plan s₀ repairs _ routing r h)
  DoneAt-follow_named decision routing none r (some i) e h = absurd (cc)
  DoneAt-follow_named decision routing (some task_id) r (some i) e h =
      let (item, there, named) = find_index_sound (eligible_named task_id) r.snapshot.queue i e in
      DoneAt-follow_item decision routing i decision.decision item.repair_loops r
        (rw (← h.counts) (repair_counts-place r.snapshot.queue i item there)) h

  DoneAt-follow :
      (decision : ArchitectDecision) (routing : RoutingDecision) (choice : ArchitectChoice)
      (r : DayRunner)
      → Live plan s₀ repairs r.snapshot
      → DoneAt plan s₀ (follow o plan decision routing choice r)
  unfolding follow
  DoneAt-follow decision routing ArchitectChoice.stop_day r h =
      Live-Done plan s₀ _ (Live-stop_day plan s₀ repairs _ r h)
  DoneAt-follow decision routing ArchitectChoice.day_complete r h =
      DoneAt-if (all_successful r.snapshot) _ _
        (Done-complete_day plan s₀ r (Live-Done plan s₀ _ h))
        (Live-Done plan s₀ _ (Live-request_replan plan s₀ repairs _ routing r h))
  DoneAt-follow decision routing _ r h =
      DoneAt-follow_named decision routing decision.task_id r _ refl h

  DoneAt-heed_architect :
      (routing : RoutingDecision) (reply : Reply ArchitectDecision) (r : DayRunner)
      → Live plan s₀ repairs r.snapshot
      → DoneAt plan s₀ (heed_architect o plan routing reply r)
  unfolding heed_architect
  DoneAt-heed_architect routing (answered decision) r h =
      DoneAt-follow decision routing decision.decision _ (
        Live-audit plan s₀ repairs _ _ (
          Live-provider_overage plan s₀ repairs _ _ _ (
            Live-add_profile_usage plan s₀ repairs _ _ _ _
              (Live-add_role_usage plan s₀ repairs _ _ r h))))
  DoneAt-heed_architect routing (runtime_error e) r h =
      Live-Done plan s₀ _ (Live-architect_failed routing e r h)
  DoneAt-heed_architect routing other_error r h = Live-Done plan s₀ _ h

  pub DoneAt-call_architect :
      (request : ArchitectRequest) (routing : RoutingDecision)
      (choose : ℕ → ArchitectRequest → ProviderExecutionConfig → Reply ArchitectDecision)
      (config : Option ProviderExecutionConfig) (r : DayRunner)
      → Live plan s₀ repairs r.snapshot
      → DoneAt plan s₀ (call_architect o plan request routing choose config r)
  unfolding call_architect
  DoneAt-call_architect request routing choose none r h = Live-Done plan s₀ _ h
  DoneAt-call_architect request routing choose (some config) r h =
      DoneAt-heed_architect routing _ (count_call r) h
