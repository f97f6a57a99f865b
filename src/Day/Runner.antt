-- ===== src/Day/Runner.antt =====
-- backend/orchestrator/day_runner.py: the state of `DayRunner` and the operations that its methods are
-- made of. An item of the queue, which the source passes by reference, is its place in the queue.
-- `persist` and `audit` are given, as the engine gives them: the runner keeps the last snapshot that
-- it persisted and the events that it audited.
use mathlib.Core.List.{◌++◌}
use ai_control_center.Base.{
  ℕ, ◌+◌, ◌*◌, ◌/◌, ◌%◌, String, Bool, true, false, ◌&&◌, Option, none, some, List, [], ◌∷◌, ltb,
  leb, ◌==◌, length, get_elem?, modify, all, count_items, find_index, if◌then◌else◌,
}
use ai_control_center.Routing.{RoutingDecision}
use ai_control_center.Day.{
  DayRunState, DayExecutionMode, ArchitectDecision, SemanticEvaluation, DayPlan, QueuedTask,
  HumanReviewItem, EscalationEvent, DayRunSnapshot, is_successful, is_eligible, new_item,
}
use ai_control_center.Day.Outside.{Fault, TaskResult}

pub data AuditEvent : Type 0 where
  day_plan_started : String → DayExecutionMode → List String → AuditEvent
  day_architect_decision : ArchitectDecision → RoutingDecision → AuditEvent
  day_task_skipped : String → String → AuditEvent
  day_task_result : String → TaskResult → Option RoutingDecision → AuditEvent
  day_evaluation_result : String → SemanticEvaluation → RoutingDecision → AuditEvent
  day_model_routing : RoutingDecision → AuditEvent
  day_deterministic_no_ai : String → AuditEvent
  day_complete : Option String → ℕ → AuditEvent
  day_stopped : String → AuditEvent
  day_human_review : HumanReviewItem → AuditEvent
  day_escalation : String → EscalationEvent → AuditEvent

pub record DayRunner : Type 0 where
  pub snapshot : DayRunSnapshot
  pub persisted : Option DayRunSnapshot
  pub audited : List AuditEvent
  pub calls : ℕ  -- the calls made to the outside

-- A method returns, or raises with what was written before.
pub data Outcome : Type 0 where
  returned : DayRunner → Outcome
  raised : Fault → DayRunner → Outcome
  -- No outcome of the source: a loop of the model that was given too few rounds.
  out_of_rounds : DayRunner → Outcome

abbrev pub final : Outcome → DayRunner
final (returned r) = r
final (raised f r) = r
final (out_of_rounds r) = r

-- `_save`
unfoldable pub save : DayRunner → DayRunner
save r = record r { persisted = some r.snapshot }

-- `_audit`
unfoldable pub audit : AuditEvent → DayRunner → DayRunner
audit event r = record r { audited = r.audited ++ event ∷ [] }

abbrev pub with_state : DayRunState → String → DayRunner → DayRunner
with_state state reason r = record r {
  snapshot = record r.snapshot { state = state; stop_reason = some reason };
}

-- `_stop`
unfoldable pub stop_day : String → DayRunner → DayRunner
stop_day reason r = save (audit (day_stopped reason) (with_state DayRunState.stopped reason r))

-- `round(complete / total * 100, 2)` in hundredths, ties to the even neighbour. It is exact for the
-- rational quotient. A tie has a denominator that is a multiple of 32, and up to a total of 159 such
-- quotients are floating point numbers, so the source's rounding agrees.
unfoldable pub percentage : ℕ → ℕ → ℕ
percentage complete total =
    let quotient = 10000 * complete / total in
    let twice = 2 * (10000 * complete % total) in
    if leb total 0
    then 0
    else if ltb twice total
    then quotient
    else if ltb total twice
    then quotient + 1
    else quotient + quotient % 2

abbrev pub successful_item : QueuedTask → Bool
successful_item item = is_successful item.state

-- `_update_progress`
unfoldable pub update_progress : DayRunner → DayRunner
update_progress r =
    let queue = r.snapshot.queue in
    let progress = percentage (count_items successful_item queue) (length queue) in
    save (record r {
      snapshot = record r.snapshot { day_progress = progress; overall_progress = progress };
    })

abbrev pub is_nonempty {ℓ} : {A : Type ℓ} → List A → Bool
is_nonempty [] = false
is_nonempty (x ∷ xs) = true

-- `_all_successful`
abbrev pub all_successful : DayRunSnapshot → Bool
all_successful s = is_nonempty s.queue && all successful_item s.queue

-- `_complete`
unfoldable pub complete_day : DayRunner → DayRunner
complete_day r =
    let done = update_progress (with_state DayRunState.complete "ALL_TASKS_TERMINAL" r) in
    save (audit (day_complete done.snapshot.plan_id done.snapshot.day_progress) done)

abbrev pub change_item : (QueuedTask → QueuedTask) → ℕ → DayRunner → DayRunner
change_item change i r = record r {
  snapshot = record r.snapshot { queue = modify change r.snapshot.queue i };
}

-- `_eligible_item`, as a place in the queue
abbrev pub eligible_named : String → QueuedTask → Bool
eligible_named task_id item = (item.task_id == task_id) && is_eligible item.state

abbrev pub eligible_item : Option String → DayRunSnapshot → Option ℕ
eligible_item none s = none
eligible_item (some task_id) s = find_index (eligible_named task_id) s.queue

abbrev pub or_new : Option QueuedTask → QueuedTask
or_new none = new_item ""
or_new (some item) = item

-- The item at a place that `_eligible_item` found; such a place is in the queue.
abbrev pub item_at : ℕ → DayRunner → QueuedTask
item_at i r = or_new (get_elem? r.snapshot.queue i)

-- `elif self.snapshot.mode == CONTINUOUS: self._save()`
unfoldable pub save_continuous : DayExecutionMode → DayRunner → DayRunner
save_continuous DayExecutionMode.continuous r = save r
save_continuous DayExecutionMode.single_step r = r

-- `_after_task`
unfoldable pub after_task : DayPlan → DayRunner → DayRunner
after_task plan r =
    if ltb plan.max_failed_tasks r.snapshot.failed_tasks
    then stop_day "MAX_FAILED_TASKS_REACHED" r
    else if all_successful r.snapshot
    then complete_day r
    else save_continuous r.snapshot.mode r

-- The common end of a task: one more task processed, progress, `_after_task`.
unfoldable pub settle_task : DayPlan → DayRunner → DayRunner
settle_task plan r = after_task plan (
    update_progress (record r {
      snapshot = record r.snapshot {
        tasks_processed_this_run = r.snapshot.tasks_processed_this_run + 1;
      };
    }))
