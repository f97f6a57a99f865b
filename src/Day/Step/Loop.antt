-- ===== src/Day/Step/Loop.antt =====
-- `_advance` of backend/orchestrator/day_runner.py: the loop ends, and the day does not run any more.
use ai_control_center.Base.{
  ℕ, zero, suc, ◌+◌, ◌≤◌, ◌<◌, ◌≡◌, refl, ◌∙◌, String, true, false, ◌&&◌, arith, leb, leb-false,
  Bool-cases, inl, inr,
}
use ai_control_center.Day.{DayRunState, DayPlan, DayRunSnapshot}
use ai_control_center.Day.Outside.{Outside}
use ai_control_center.Day.Runner.{
  DayRunner, Outcome, returned, raised, out_of_rounds, save, audit, all_successful, stop_day,
  complete_day, update_progress,
}
use ai_control_center.Day.Advance.{
  is_running, is_single, end_step, end_round, advance_rounds, advance,
}
use ai_control_center.Day.Step.{ids, Limits}
use ai_control_center.Day.Step.Once.{Stepped, StepAt, StepAt-process_one}

-- What the loop keeps of the day that it starts from.
pub record Advanced (plan : DayPlan) (s₀ s : DayRunSnapshot) : Type 0 where
  pub limits : Limits plan s
  pub plan_id : s.plan_id ≡ s₀.plan_id
  pub mode : s.mode ≡ s₀.mode
  pub tasks : ids s.queue ≡ ids s₀.queue
  pub processed : s.tasks_processed_this_run ≤ plan.max_tasks_per_run
  pub finished : s.state ≡ DayRunState.complete → all_successful s ≡ true
  pub bounded :
      s₀.architect_calls ≤ plan.max_architect_calls → s.architect_calls ≤ plan.max_architect_calls

-- How the loop ends: it returns a day that does not run, or it raises.
abbrev pub AdvanceAt : DayPlan → DayRunSnapshot → Outcome → Type 0
AdvanceAt plan s₀ (returned r) = Advanced plan s₀ r.snapshot × (is_running r.snapshot.state ≡ false)
AdvanceAt plan s₀ (raised fault r) = Advanced plan s₀ r.snapshot
AdvanceAt plan s₀ (out_of_rounds r) = ⊥

-- The rounds that a day needs.
record Enough (plan : DayPlan) (s : DayRunSnapshot) (n : ℕ) : Type 0 where
  some_left : 0 < n
  running_left :
      is_running s.state ≡ true → (plan.max_architect_calls + 2 ≤ n + s.architect_calls) × (2 ≤ n)

module _ (o : Outside) (plan : DayPlan) (s₀ : DayRunSnapshot) where
  Advanced-stop_day :
      (reason : String) (r : DayRunner)
      → Advanced plan s₀ r.snapshot
      → Advanced plan s₀ (stop_day reason r).snapshot
  unfolding stop_day save audit
  Advanced-stop_day reason r h = record {
    limits = h.limits;
    plan_id = h.plan_id;
    mode = h.mode;
    tasks = h.tasks;
    processed = h.processed;
    finished = λ e. cc;
    bounded = h.bounded;
  }

  AdvanceAt-end_step :
      (r : DayRunner)
      → Advanced plan s₀ r.snapshot
      → AdvanceAt plan s₀ (returned (end_step o plan r))
  unfolding end_step complete_day update_progress save audit
  AdvanceAt-end_step r h = elim (Bool-cases (all_successful r.snapshot)) [
    | inl done ↦ rw done (
      record {
        limits = h.limits;
        plan_id = h.plan_id;
        mode = h.mode;
        tasks = h.tasks;
        processed = h.processed;
        finished = λ e. done;
        bounded = h.bounded;
      },
      refl,
    )
    | inr more ↦ rw more (
      record {
        limits = h.limits;
        plan_id = h.plan_id;
        mode = h.mode;
        tasks = h.tasks;
        processed = h.processed;
        finished = λ e. cc;
        bounded = h.bounded;
      },
      refl,
    )
  ]

  Advanced-Stepped :
      (s s' : DayRunSnapshot)
      → Advanced plan s₀ s
      → s.tasks_processed_this_run < plan.max_tasks_per_run
      → Stepped plan s s'
      → Advanced plan s₀ s'
  Advanced-Stepped s s' h l k = record {
    limits = k.limits;
    plan_id = k.plan_id ∙ h.plan_id;
    mode = k.mode ∙ h.mode;
    tasks = k.tasks ∙ h.tasks;
    processed = omega (arith, k.processed);
    finished = k.finished;
    bounded = λ b. k.bounded (h.bounded b);
  }

  AdvanceAt-end_round :
      (n : ℕ) (s : DayRunSnapshot) (go : DayRunner → Outcome) (v : Outcome)
      → ((r : DayRunner)
          → Advanced plan s₀ r.snapshot
          → Enough plan r.snapshot n
          → AdvanceAt plan s₀ (go r))
      → Advanced plan s₀ s
      → s.tasks_processed_this_run < plan.max_tasks_per_run
      → plan.max_architect_calls + 2 ≤ suc n + s.architect_calls
      → 0 < n
      → StepAt plan s v
      → AdvanceAt plan s₀ (end_round o plan go v)
  unfolding end_round
  AdvanceAt-end_round n s go (raised fault r) more h l enough pos k =
      Advanced-Stepped s r.snapshot h l k
  AdvanceAt-end_round n s go (out_of_rounds r) more h l enough pos k = k
  AdvanceAt-end_round n s go (returned r) more h l enough pos k =
      let advanced = Advanced-Stepped s r.snapshot h l k.0 in
      elim (Bool-cases (is_single r.snapshot.mode && is_running r.snapshot.state)) [
        | inl paused ↦ rw paused (AdvanceAt-end_step r advanced)
        | inr on ↦ rw on (
            more r advanced (record {
              some_left = pos;
              running_left = λ runs. let (fewer, once) = k.1 runs in (omega arith, omega arith);
            }))
      ]

  AdvanceAt-rounds :
      (n : ℕ) (r : DayRunner)
      → Advanced plan s₀ r.snapshot
      → Enough plan r.snapshot n
      → AdvanceAt plan s₀ (advance_rounds o plan n r)
  unfolding advance_rounds
  AdvanceAt-rounds zero r h enough = absurd (omega (arith, enough.some_left))
  AdvanceAt-rounds (suc n) r h enough = elim (Bool-cases (is_running r.snapshot.state)) [
    | inr halted ↦ rw halted (h, halted)
    | inl runs ↦
        rw runs
          (elim (Bool-cases (leb plan.max_tasks_per_run r.snapshot.tasks_processed_this_run)) [
            | inl full ↦ rw full (Advanced-stop_day _ r h, unfold stop_day save audit in refl)
            | inr room ↦ rw room (
                AdvanceAt-end_round n r.snapshot (advance_rounds o plan n) _ (AdvanceAt-rounds n) h
                  (leb-false _ _ room) (enough.running_left runs).0
                  (omega (arith, (enough.running_left runs).1))
                  (StepAt-process_one o plan r h.limits runs))
          ])
  ]

  -- `_advance` ends, and for no want of rounds.
  pub AdvanceAt-advance :
      (r : DayRunner) → Advanced plan s₀ r.snapshot → AdvanceAt plan s₀ (advance o plan r)
  unfolding advance
  AdvanceAt-advance r h =
      AdvanceAt-rounds (plan.max_architect_calls + 2) r h
        (record { some_left = omega arith; running_left = λ runs. (omega arith, omega arith) })
