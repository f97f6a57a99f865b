-- ===== src/Day/Step.antt =====
-- What one step of the day runner keeps, relative to the snapshot at its start: `Live` until the step
-- ends, and `Done` after its last write.
pub mod Writes
pub mod Session
pub mod Evaluation
pub mod Round
pub mod Rounds
pub mod Process
pub mod Once
pub mod Loop
use ai_control_center.Base.{ℕ, ◌+◌, ◌≤◌, ◌≡◌, ◌≢◌, true, String, Option, List, map, arith, All}
use ai_control_center.Day.{DayRunState, DayExecutionMode, DayPlan, QueuedTask, DayRunSnapshot}
use ai_control_center.Day.Runner.{Outcome, returned, raised, out_of_rounds, all_successful}

abbrev pub ids : List QueuedTask → List String
ids queue = map (λ item. item.task_id) queue

abbrev pub RepairsWithin : DayPlan → QueuedTask → Type 0
RepairsWithin plan item = item.repair_loops ≤ plan.max_repair_loops_per_task

-- The limits of the plan that hold between any two writes, of the four fields that they read.
pub record LimitsOf (plan : DayPlan) (evaluator_calls retries replans : ℕ) (queue : List QueuedTask)
    : Type 0 where
  pub evaluator : evaluator_calls ≤ plan.max_evaluator_calls
  pub retried : retries ≤ plan.max_auto_provider_retries
  pub replanned : replans ≤ plan.max_auto_replans
  pub repairs : All (RepairsWithin plan) queue

abbrev pub Limits : DayPlan → DayRunSnapshot → Type 0
Limits plan s = LimitsOf plan s.evaluator_calls s.auto_provider_retries s.auto_replans s.queue

-- What no write of a step changes.
pub record SameDayOf (s₀ : DayRunSnapshot) (id : Option String) (day_mode : DayExecutionMode)
    (queue : List QueuedTask) (architect_calls : ℕ) : Type 0 where
  pub plan_id : id ≡ s₀.plan_id
  pub mode : day_mode ≡ s₀.mode
  pub tasks : ids queue ≡ ids s₀.queue
  pub architect : architect_calls ≡ s₀.architect_calls

abbrev pub SameDay : DayRunSnapshot → DayRunSnapshot → Type 0
SameDay s₀ s = SameDayOf s₀ s.plan_id s.mode s.queue s.architect_calls

-- The numbers of repairs of the items, which only a repair round changes.
abbrev pub repair_counts : List QueuedTask → List ℕ
repair_counts queue = map (λ item. item.repair_loops) queue

pub record Live (plan : DayPlan) (s₀ : DayRunSnapshot) (repairs : List ℕ) (s : DayRunSnapshot)
    : Type 0 where
  pub counts : repair_counts s.queue ≡ repairs
  pub limits : Limits plan s
  pub same : SameDay s₀ s
  pub processed : s.tasks_processed_this_run ≡ s₀.tasks_processed_this_run
  pub unfinished : s.state ≢ DayRunState.complete

pub record Done (plan : DayPlan) (s₀ s : DayRunSnapshot) : Type 0 where
  pub limits : Limits plan s
  pub same : SameDay s₀ s
  pub processed : s.tasks_processed_this_run ≤ s₀.tasks_processed_this_run + 1
  pub finished : s.state ≡ DayRunState.complete → all_successful s ≡ true

-- A step may end wherever it is live.
pub Live-Done :
    (plan : DayPlan) (s₀ : DayRunSnapshot) {repairs : List ℕ} (s : DayRunSnapshot)
    → Live plan s₀ repairs s
    → Done plan s₀ s
Live-Done plan s₀ s h = record {
  limits = h.limits;
  same = h.same;
  processed = omega arith;
  finished = λ e. absurd (h.unfinished e);
}

-- How a step ends: `Done` whether it returns or raises, and never for want of rounds.
abbrev pub DoneAt : DayPlan → DayRunSnapshot → Outcome → Type 0
DoneAt plan s₀ (returned r) = Done plan s₀ r.snapshot
DoneAt plan s₀ (raised fault r) = Done plan s₀ r.snapshot
DoneAt plan s₀ (out_of_rounds r) = ⊥
