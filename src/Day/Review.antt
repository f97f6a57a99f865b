-- ===== src/Day/Review.antt =====
-- backend/orchestrator/day_runner.py: how `DayRunner` hands a day to a human, and how it asks the
-- architect again.
use mathlib.Core.List.{◌++◌}
use ai_control_center.Base.{
  ℕ, ◌+◌, String, Option, none, some, List, [], ◌∷◌, ltb, ◌==◌, modify, find_index, if◌then◌else◌,
}
use ai_control_center.Routing.{RoutingDecision}
use ai_control_center.Day.{
  DayRunState, EscalationCategory, QueueTaskState, Diagnostics, DayPlan, QueuedTask,
  HumanReviewItem, EscalationEvent,
}
use ai_control_center.Day.Outside.{TaskResult}
use ai_control_center.Day.Runner.{DayRunner, save, audit, day_human_review, day_escalation}

abbrev pub to_review : String → QueuedTask → QueuedTask
to_review reason item = record item {
  state = QueueTaskState.human_review;
  last_error = some reason;
}

abbrev pub mark_at : String → Option ℕ → List QueuedTask → List QueuedTask
mark_at reason none queue = queue
mark_at reason (some i) queue = modify (to_review reason) queue i

-- The first item of that name, whichever item the caller works on.
abbrev pub mark_for_review : String → String → List QueuedTask → List QueuedTask
mark_for_review task_id reason queue =
    mark_at reason (find_index (λ item. item.task_id == task_id) queue) queue

-- What a caller of `_human_review` passes beside the task and the reason.
pub record ReviewDetail : Type 0 where
  pub result : Option TaskResult
  pub message : Option String  -- the `human_review_reason` that replaces the result's
  pub routing : Option RoutingDecision
  pub failure_type : String
  pub provider_diagnostics : Option Diagnostics
  pub escalation_category : EscalationCategory

abbrev pub plain_detail : Option TaskResult → Option RoutingDecision → String → ReviewDetail
plain_detail result routing failure_type = record {
  result = result;
  message = none;
  routing = routing;
  failure_type = failure_type;
  provider_diagnostics = none;
  escalation_category = EscalationCategory.human_decision_required;
}

abbrev pub summary_of : Option String → Option TaskResult → Option String
summary_of (some message) result = some message
summary_of none none = none
summary_of none (some result) = result.human_review_reason

abbrev pub files_of : Option TaskResult → List String
files_of none = []
files_of (some result) = result.changed_files

abbrev pub reference_of : Option TaskResult → Option String
reference_of none = none
reference_of (some result) = result.run_id

abbrev pub profile_of : Option RoutingDecision → Option String
profile_of none = none
profile_of (some routing) = routing.profile_id

unfoldable pub review_item : Option String → String → String → ReviewDetail → HumanReviewItem
review_item plan_id task_id reason detail = record {
  plan_id = plan_id;
  task_id = task_id;
  reason = reason;
  summary = summary_of detail.message detail.result;
  changed_files = files_of detail.result;
  result_reference = reference_of detail.result;
  routing_profile_id = profile_of detail.routing;
  failure_type = some detail.failure_type;
  provider_diagnostics = detail.provider_diagnostics;
  escalation_category = detail.escalation_category;
}

-- `_human_review`
unfoldable pub human_review : String → String → ReviewDetail → DayRunner → DayRunner
human_review task_id reason detail r =
    let item = review_item r.snapshot.plan_id task_id reason detail in
    save (
      audit (day_human_review item) (record r {
        snapshot = record r.snapshot {
          queue = mark_for_review task_id reason r.snapshot.queue;
          human_review_queue = r.snapshot.human_review_queue ++ item ∷ [];
          state = DayRunState.human_review;
          stop_reason = some reason;
        };
      }))

-- `_escalation`
unfoldable pub escalation : String → EscalationCategory → String → String → DayRunner → DayRunner
escalation task_id category reason action r =
    let event : EscalationEvent = record {
      category = category;
      reason = reason;
      action = action;
    } in
    audit (day_escalation task_id event) (record r {
      snapshot = record r.snapshot {
        escalation_events = r.snapshot.escalation_events ++ event ∷ [];
      };
    })

-- `_request_replan`
unfoldable pub request_replan : DayPlan → String → RoutingDecision → DayRunner → DayRunner
request_replan plan reason routing r =
    if ltb r.snapshot.auto_replans plan.max_auto_replans
    then save (
        escalation "SYSTEM" EscalationCategory.replan_required reason "REPLAN_ARCHITECT" (record r {
          snapshot = record r.snapshot { auto_replans = r.snapshot.auto_replans + 1 };
        }))
    else human_review "SYSTEM" reason (plain_detail none (some routing) "architect_decision") r
