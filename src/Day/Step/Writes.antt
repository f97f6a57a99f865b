-- ===== src/Day/Step/Writes.antt =====
-- Each write of backend/orchestrator/day_runner.py that a step is made of keeps `Live`, and each that
-- ends a step gives `Done`.
use ai_control_center.Base.{
  ℕ, zero, suc, ◌+◌, ◌<◌, ◌≡◌, refl, ap, ◌∙◌, inl, inr, String, true, Option, none, some, List, [],
  ◌∷◌, arith, ltb, ltb→lt, modify, All, Bool-cases,
}
use ai_control_center.Routing.{RoutingDecision}
use ai_control_center.Day.{
  DayExecutionMode, EscalationCategory, DayPlan, QueuedTask, DayRunSnapshot,
}
use ai_control_center.Day.Runner.{
  DayRunner, AuditEvent, save, audit, stop_day, complete_day, update_progress, all_successful,
  change_item, settle_task, after_task, save_continuous,
}
use ai_control_center.Day.Review.{
  ReviewDetail, human_review, to_review, mark_at, escalation, request_replan,
}
use ai_control_center.Day.Step.{ids, RepairsWithin, repair_counts, Limits, SameDay, Live, Done}

-- A change of an item that keeps its name and its number of repairs.
pub record KeepsItem (change : QueuedTask → QueuedTask) : Type 0 where
  pub name : (item : QueuedTask) → (change item).task_id ≡ item.task_id
  pub repairs : (item : QueuedTask) → (change item).repair_loops ≡ item.repair_loops

pub ids-modify :
    (change : QueuedTask → QueuedTask) (queue : List QueuedTask) (i : ℕ)
    → ((item : QueuedTask) → (change item).task_id ≡ item.task_id)
    → ids (modify change queue i) ≡ ids queue
ids-modify change [] i h = refl
ids-modify change (item ∷ queue) zero h = ap (λ name. name ∷ ids queue) (h item)
ids-modify change (item ∷ queue) (suc i) h =
    ap (λ names. item.task_id ∷ names) (ids-modify change queue i h)

repairs-modify :
    (plan : DayPlan) (change : QueuedTask → QueuedTask) (queue : List QueuedTask) (i : ℕ)
    → ((item : QueuedTask) → (change item).repair_loops ≡ item.repair_loops)
    → All (RepairsWithin plan) queue
    → All (RepairsWithin plan) (modify change queue i)
repairs-modify plan change [] i h a = tt
repairs-modify plan change (item ∷ queue) zero h a = (omega (arith, h item), a.1)
repairs-modify plan change (item ∷ queue) (suc i) h a =
    (a.0, repairs-modify plan change queue i h a.1)

counts-modify :
    (change : QueuedTask → QueuedTask) (queue : List QueuedTask) (i : ℕ)
    → ((item : QueuedTask) → (change item).repair_loops ≡ item.repair_loops)
    → repair_counts (modify change queue i) ≡ repair_counts queue
counts-modify change [] i h = refl
counts-modify change (item ∷ queue) zero h = ap (λ n. n ∷ repair_counts queue) (h item)
counts-modify change (item ∷ queue) (suc i) h =
    ap (λ counts. item.repair_loops ∷ counts) (counts-modify change queue i h)

Limits-modify :
    (plan : DayPlan) (change : QueuedTask → QueuedTask) (i : ℕ) (s : DayRunSnapshot)
    → KeepsItem change
    → Limits plan s
    → Limits plan (record s { queue = modify change s.queue i })
Limits-modify plan change i s k h = record {
  evaluator = h.evaluator;
  retried = h.retried;
  replanned = h.replanned;
  repairs = repairs-modify plan change s.queue i k.repairs h.repairs;
}

pub same-modify :
    (s₀ : DayRunSnapshot) (change : QueuedTask → QueuedTask) (i : ℕ) (s : DayRunSnapshot)
    → ((item : QueuedTask) → (change item).task_id ≡ item.task_id)
    → SameDay s₀ s
    → SameDay s₀ (record s { queue = modify change s.queue i })
same-modify s₀ change i s k h = record {
  plan_id = h.plan_id;
  mode = h.mode;
  tasks = ids-modify change s.queue i k ∙ h.tasks;
  architect = h.architect;
}

to_review-KeepsItem : (reason : String) → KeepsItem (to_review reason)
to_review-KeepsItem reason = record { name = λ item. refl; repairs = λ item. refl }

module _ (plan : DayPlan) (s₀ : DayRunSnapshot) (repairs : List ℕ) where
  pub Live-change_item :
      (change : QueuedTask → QueuedTask) (i : ℕ) (r : DayRunner)
      → KeepsItem change
      → Live plan s₀ repairs r.snapshot
      → Live plan s₀ repairs (change_item change i r).snapshot
  Live-change_item change i r k h = record {
    limits = Limits-modify plan change i r.snapshot k h.limits;
    same = same-modify s₀ change i r.snapshot k.name h.same;
    processed = h.processed;
    counts = counts-modify change r.snapshot.queue i k.repairs ∙ h.counts;
    unfinished = h.unfinished;
  }

  pub Live-save :
      (r : DayRunner) → Live plan s₀ repairs r.snapshot → Live plan s₀ repairs (save r).snapshot
  unfolding save
  Live-save r h = h

  pub Live-audit :
      (event : AuditEvent) (r : DayRunner)
      → Live plan s₀ repairs r.snapshot
      → Live plan s₀ repairs (audit event r).snapshot
  unfolding audit
  Live-audit event r h = h

  pub Live-stop_day :
      (reason : String) (r : DayRunner)
      → Live plan s₀ repairs r.snapshot
      → Live plan s₀ repairs (stop_day reason r).snapshot
  unfolding stop_day save audit
  Live-stop_day reason r h = record {
    limits = h.limits;
    same = h.same;
    processed = h.processed;
    counts = h.counts;
    unfinished = λ e. cc;
  }

  marked-Live :
      (reason : String) (o : Option ℕ) (s : DayRunSnapshot)
      → Live plan s₀ repairs s
      → Limits plan (record s { queue = mark_at reason o s.queue })
        × SameDay s₀ (record s { queue = mark_at reason o s.queue })
        × (repair_counts (mark_at reason o s.queue) ≡ repairs)
  marked-Live reason none s h = (h.limits, h.same, h.counts)
  marked-Live reason (some i) s h = (
    Limits-modify plan (to_review reason) i s (to_review-KeepsItem reason) h.limits,
    same-modify s₀ (to_review reason) i s (λ item. refl) h.same,
    counts-modify (to_review reason) s.queue i (λ item. refl) ∙ h.counts,
  )

  pub Live-human_review :
      (task_id reason : String) (detail : ReviewDetail) (r : DayRunner)
      → Live plan s₀ repairs r.snapshot
      → Live plan s₀ repairs (human_review task_id reason detail r).snapshot
  unfolding human_review save audit
  Live-human_review task_id reason detail r h =
      let marked = marked-Live reason _ r.snapshot h in
      record {
        limits = marked.0;
        same = marked.1;
        processed = h.processed;
        counts = marked.2;
        unfinished = λ e. cc;
      }

  Live-replan :
      (reason : String) (r : DayRunner)
      → r.snapshot.auto_replans < plan.max_auto_replans
      → Live plan s₀ repairs r.snapshot
      → Live plan s₀ repairs
          (save (
            escalation "SYSTEM" EscalationCategory.replan_required reason "REPLAN_ARCHITECT"
              (record r {
                snapshot = record r.snapshot { auto_replans = r.snapshot.auto_replans + 1 };
              }))).snapshot
  unfolding save escalation audit
  Live-replan reason r l h = record {
    limits = record {
      evaluator = h.limits.evaluator;
      retried = h.limits.retried;
      replanned = omega arith;
      repairs = h.limits.repairs;
    };
    same = h.same;
    processed = h.processed;
    counts = h.counts;
    unfinished = h.unfinished;
  }

  pub Live-request_replan :
      (reason : String) (routing : RoutingDecision) (r : DayRunner)
      → Live plan s₀ repairs r.snapshot
      → Live plan s₀ repairs (request_replan plan reason routing r).snapshot
  unfolding request_replan
  Live-request_replan reason routing r h =
      elim (Bool-cases (ltb r.snapshot.auto_replans plan.max_auto_replans)) [
        | inl more ↦ rw more (Live-replan reason r (ltb→lt _ _ more) h)
        | inr spent ↦ rw spent (Live-human_review "SYSTEM" reason _ r h)
      ]

module _ (plan : DayPlan) (s₀ : DayRunSnapshot) where
  pub Done-stop_day :
      (reason : String) (r : DayRunner)
      → Done plan s₀ r.snapshot
      → Done plan s₀ (stop_day reason r).snapshot
  unfolding stop_day save audit
  Done-stop_day reason r h = record {
    limits = h.limits;
    same = h.same;
    processed = h.processed;
    finished = λ e. cc;
  }

  pub Done-complete_day :
      (r : DayRunner)
      → Done plan s₀ r.snapshot
      → all_successful r.snapshot ≡ true
      → Done plan s₀ (complete_day r).snapshot
  unfolding complete_day update_progress save audit
  Done-complete_day r h a = record {
    limits = h.limits;
    same = h.same;
    processed = h.processed;
    finished = λ e. a;
  }

  Done-save_continuous :
      (mode : DayExecutionMode) (r : DayRunner)
      → Done plan s₀ r.snapshot
      → Done plan s₀ (save_continuous mode r).snapshot
  unfolding save_continuous save
  Done-save_continuous DayExecutionMode.continuous r h = h
  Done-save_continuous DayExecutionMode.single_step r h = h

  pub Done-after_task :
      (r : DayRunner) → Done plan s₀ r.snapshot → Done plan s₀ (after_task plan r).snapshot
  unfolding after_task
  Done-after_task r h = elim (Bool-cases (ltb plan.max_failed_tasks r.snapshot.failed_tasks)) [
    | inl many ↦ rw many (Done-stop_day "MAX_FAILED_TASKS_REACHED" r h)
    | inr few ↦ rw few (elim (Bool-cases (all_successful r.snapshot)) [
      | inl yes_all ↦ rw yes_all (Done-complete_day r h yes_all)
      | inr open_items ↦ rw open_items (Done-save_continuous r.snapshot.mode r h)
    ])
  ]

  pub Done-settle_task :
      {repairs : List ℕ} (r : DayRunner)
      → Live plan s₀ repairs r.snapshot
      → Done plan s₀ (settle_task plan r).snapshot
  unfolding settle_task update_progress save
  Done-settle_task r h = Done-after_task _ (record {
    limits = h.limits;
    same = h.same;
    processed = omega arith;
    finished = λ e. absurd (h.unfinished e);
  })
