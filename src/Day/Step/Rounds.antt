-- ===== src/Day/Step/Rounds.antt =====
-- The rounds of `_execute_one` of backend/orchestrator/day_runner.py end: a round more is asked for only
-- below the plan's limit of repairs, and counts one repair more.
use ai_control_center.Base.{
  ℕ, zero, suc, ◌+◌, ◌≤◌, ◌<◌, ◌≡◌, some, List, [], ◌∷◌, arith, modify, get_elem?, All,
}
use ai_control_center.Day.{DayPlan, DayRunSnapshot, QueuedTask}
use ai_control_center.Day.Outside.{Outside}
use ai_control_center.Day.Runner.{DayRunner, Outcome}
use ai_control_center.Day.Execute.{execute_rounds, execute_one}
use ai_control_center.Day.Item.{Verdict, settled, repair, Attempt, repair_attempt, next_round}
use ai_control_center.Day.Step.{RepairsWithin, repair_counts, Live, DoneAt}
use ai_control_center.Day.Step.Round.{RoundAt-run_round}
use ai_control_center.Day.Step.Evaluation.{RoundAt}

get_elem?-modify-suc :
    (counts : List ℕ) (i k : ℕ)
    → get_elem? counts i ≡ some k
    → get_elem? (modify suc counts i) i ≡ some (suc k)
get_elem?-modify-suc [] i k e = absurd (cc)
get_elem?-modify-suc (n ∷ counts) zero k e = cc
get_elem?-modify-suc (n ∷ counts) (suc i) k e = get_elem?-modify-suc counts i k e

repairs-at :
    (plan : DayPlan) (queue : List QueuedTask) (i k : ℕ)
    → All (RepairsWithin plan) queue
    → get_elem? (repair_counts queue) i ≡ some k
    → k ≤ plan.max_repair_loops_per_task
repairs-at plan [] i k a e = absurd (cc)
repairs-at plan (item ∷ queue) zero k a e = ground arith
repairs-at plan (item ∷ queue) (suc i) k a e = repairs-at plan queue i k a.1 e

module _ (o : Outside) (plan : DayPlan) (i : ℕ) (s₀ : DayRunSnapshot) where
  DoneAt-next_round :
      (repairs : List ℕ) (k : ℕ) (place : get_elem? repairs i ≡ some k)
      (go : Attempt → DayRunner → Outcome) (v : Verdict)
      → ((attempt : Attempt) (r : DayRunner)
          → Live plan s₀ (modify suc repairs i) r.snapshot
          → k < plan.max_repair_loops_per_task
          → DoneAt plan s₀ (go attempt r))
      → RoundAt o plan i s₀ repairs k place v
      → DoneAt plan s₀ (next_round go v)
  unfolding next_round
  DoneAt-next_round repairs k place go (settled outcome) more h = h
  DoneAt-next_round repairs k place go (repair instruction r) more h =
      more (repair_attempt instruction) r h.0 h.1

  DoneAt-execute_rounds :
      (n : ℕ) (attempt : Attempt) (r : DayRunner) (repairs : List ℕ) (k : ℕ)
      → get_elem? repairs i ≡ some k
      → k ≤ plan.max_repair_loops_per_task
      → plan.max_repair_loops_per_task < n + k
      → Live plan s₀ repairs r.snapshot
      → DoneAt plan s₀ (execute_rounds o plan i n attempt r)
  unfolding execute_rounds
  DoneAt-execute_rounds zero attempt r repairs k place within enough h = absurd (omega arith)
  DoneAt-execute_rounds (suc n) attempt r repairs k place within enough h =
      DoneAt-next_round repairs k place (execute_rounds o plan i n) _
        (λ attempt' r' h' fewer.
          DoneAt-execute_rounds n attempt' r' (modify suc repairs i) (suc k)
            (get_elem?-modify-suc repairs i k place) fewer (omega arith) h')
        (RoundAt-run_round o plan i s₀ repairs k place attempt r h)

  -- `_execute_one` on an item of the queue ends its step, and never for want of rounds.
  pub DoneAt-execute_one :
      (attempt : Attempt) (r : DayRunner) (repairs : List ℕ) (k : ℕ)
      → get_elem? repairs i ≡ some k
      → Live plan s₀ repairs r.snapshot
      → DoneAt plan s₀ (execute_one o plan i attempt r)
  unfolding execute_one
  DoneAt-execute_one attempt r repairs k place h =
      let within = repairs-at plan r.snapshot.queue i k h.limits.repairs (rw h.counts place) in
      DoneAt-execute_rounds _ attempt r repairs k place within (omega arith) h
