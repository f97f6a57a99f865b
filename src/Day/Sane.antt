-- ===== src/Day/Sane.antt =====
-- What a snapshot of a day keeps under its plan, and where the loop of the runner starts from
-- (backend/orchestrator/day_runner.py).
use ai_control_center.Base.{
  ◌≤◌, ◌≡◌, refl, ap, ◌∙◌, String, true, some, List, [], ◌∷◌, arith, map, All,
}
use ai_control_center.Day.{DayRunState, DayPlan, DayRunSnapshot, new_item}
use ai_control_center.Day.Outside.{Outside}
use ai_control_center.Day.Runner.{
  DayRunner, Outcome, returned, raised, out_of_rounds, final, all_successful,
}
use ai_control_center.Day.Advance.{is_running, advance}
use ai_control_center.Day.Control.{plan_of}
use ai_control_center.Day.Step.{ids, RepairsWithin, Limits}
use ai_control_center.Day.Step.Loop.{Advanced, AdvanceAt, AdvanceAt-advance}

-- What holds of a snapshot of a day under its plan.
pub record Sane (plan : DayPlan) (s : DayRunSnapshot) : Type 0 where
  pub limits : Limits plan s
  pub architect : s.architect_calls ≤ plan.max_architect_calls
  pub processed : s.tasks_processed_this_run ≤ plan.max_tasks_per_run
  pub tasks : ids s.queue ≡ plan.task_ids
  pub finished : s.state ≡ DayRunState.complete → all_successful s ≡ true

-- The snapshot is sane under whichever plan it names.
abbrev pub IsSane : Outside → DayRunner → Type 0
IsSane o r =
    (plan : DayPlan) → plan_of o.plans r.snapshot.plan_id ≡ some plan → Sane plan r.snapshot

pub Sane-Advanced :
    (plan : DayPlan) (s₀ s : DayRunSnapshot)
    → s₀.architect_calls ≤ plan.max_architect_calls
    → ids s₀.queue ≡ plan.task_ids
    → Advanced plan s₀ s
    → Sane plan s
Sane-Advanced plan s₀ s a t h = record {
  limits = h.limits;
  architect = h.bounded a;
  processed = h.processed;
  tasks = h.tasks ∙ t;
  finished = h.finished;
}

-- Where the loop starts from, and that it keeps a runner sane.
pub record Starts (plan : DayPlan) (s : DayRunSnapshot) : Type 0 where
  pub limits : Limits plan s
  pub architect : s.architect_calls ≤ plan.max_architect_calls
  pub fresh_run : s.tasks_processed_this_run ≡ 0
  pub tasks : ids s.queue ≡ plan.task_ids
  pub runs : is_running s.state ≡ true

pub Advanced-Starts : (plan : DayPlan) (s : DayRunSnapshot) → Starts plan s → Advanced plan s s
Advanced-Starts plan s h = record {
  limits = h.limits;
  plan_id = refl;
  mode = refl;
  tasks = refl;
  processed = omega (arith, h.fresh_run);
  finished = λ e. absurd (ground (arith, h.runs));
  bounded = λ b. b;
}

pub final-Advanced :
    (plan : DayPlan) (s₀ : DayRunSnapshot) (v : Outcome)
    → AdvanceAt plan s₀ v
    → Advanced plan s₀ (final v).snapshot
final-Advanced plan s₀ (returned r) h = h.0
final-Advanced plan s₀ (raised fault r) h = h
final-Advanced plan s₀ (out_of_rounds r) h = absurd h

pub IsSane-advance :
    (o : Outside) (plan : DayPlan) (r : DayRunner)
    → ((other : DayPlan) → plan_of o.plans r.snapshot.plan_id ≡ some other → other ≡ plan)
    → Starts plan r.snapshot
    → IsSane o (final (advance o plan r))
IsSane-advance o plan r same h other e =
    let advanced =
      final-Advanced plan r.snapshot _
        (AdvanceAt-advance o plan r.snapshot r (Advanced-Starts plan r.snapshot h)) in
    let named : plan_of o.plans r.snapshot.plan_id ≡ some other = rw (← advanced.plan_id) e in
    rw (same other named) (Sane-Advanced plan r.snapshot _ h.architect h.tasks advanced)

pub ids-new_item : (names : List String) → ids (map new_item names) ≡ names
ids-new_item [] = refl
ids-new_item (name ∷ names) = ap (λ rest. name ∷ rest) (ids-new_item names)

pub repairs-new_item :
    (plan : DayPlan) (names : List String) → All (RepairsWithin plan) (map new_item names)
repairs-new_item plan [] = tt
repairs-new_item plan (name ∷ names) = (omega arith, repairs-new_item plan names)
