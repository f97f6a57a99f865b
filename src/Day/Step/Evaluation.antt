-- ===== src/Day/Step/Evaluation.antt =====
-- What `_evaluate_semantic` of backend/orchestrator/day_runner.py leaves.
use ai_control_center.Base.{
  ℕ, zero, suc, ◌<◌, ◌≡◌, refl, ap, ◌∙◌, inl, inr, String, Option, none, some, List, [], ◌∷◌, arith,
  ltb, ltb→lt, leb, leb-false, modify, get_elem?, All, Bool-cases,
}
use ai_control_center.Routing.{RoutingDecision, ProviderExecutionConfig}
use ai_control_center.Day.{
  DayPlan, ConfiguredTask, DayRunSnapshot, QueuedTask, QueueTaskState, EvaluationChoice,
  SemanticEvaluation,
}
use ai_control_center.Day.Outside.{
  Reply, answered, runtime_error, other_error, TaskResult, EvaluatorRequest, Outside,
}
use ai_control_center.Day.Runner.{DayRunner, returned, save, change_item, or_new, item_at}
use ai_control_center.Day.Profile.{Routed, routed, refused, invalid}
use ai_control_center.Day.Evaluate.{
  settle_item, weigh_decision, weigh, heed, call_evaluator, consult_evaluator, evaluator_routed,
  route_evaluator, evaluate_semantic, finish_item,
}
use ai_control_center.Day.Item.{
  Verdict, settled, repair, count_repair, review_evaluation, failed_check, count_evaluation,
  count_evaluator, mark_evaluated, count_call,
}
use ai_control_center.Day.Step.{RepairsWithin, repair_counts, Live, Live-Done, DoneAt}
use ai_control_center.Day.Step.Writes.{
  same-modify, Live-change_item, Live-audit, Live-stop_day, Live-human_review, Done-settle_task,
}
use ai_control_center.Day.Step.Session.{
  after_routing, Live-add_role_usage, Live-add_profile_usage, Live-provider_overage,
  Live-select_profile, StoppedLive, Live-provider_precheck, evaluator_calls-select_profile,
}

pub repair_counts-modify :
    (queue : List QueuedTask) (i : ℕ)
    → repair_counts (modify count_repair queue i) ≡ modify suc (repair_counts queue) i
repair_counts-modify [] i = refl
repair_counts-modify (item ∷ queue) zero = ground arith
repair_counts-modify (item ∷ queue) (suc i) =
    ap (λ counts. item.repair_loops ∷ counts) (repair_counts-modify queue i)

pub repairs-count_repair :
    (plan : DayPlan) (queue : List QueuedTask) (i k : ℕ)
    → get_elem? (repair_counts queue) i ≡ some k
    → k < plan.max_repair_loops_per_task
    → All (RepairsWithin plan) queue
    → All (RepairsWithin plan) (modify count_repair queue i)
repairs-count_repair plan [] i k e l a = tt
repairs-count_repair plan (item ∷ queue) zero k e l a = (ground arith, a.1)
repairs-count_repair plan (item ∷ queue) (suc i) k e l a =
    (a.0, repairs-count_repair plan queue i k e l a.1)

-- The item at a place of the queue, by its number of repairs.
pub item_at-repairs :
    (r : DayRunner) (i k : ℕ)
    → get_elem? (repair_counts r.snapshot.queue) i ≡ some k
    → (item_at i r).repair_loops ≡ k
item_at-repairs r i k e = go r.snapshot.queue i e
  where
    go :
        (queue : List QueuedTask) (i : ℕ)
        → get_elem? (repair_counts queue) i ≡ some k
        → (or_new (get_elem? queue i)).repair_loops ≡ k
    go [] i e = absurd (cc)
    go (item ∷ queue) zero e = cc
    go (item ∷ queue) (suc i) e = go queue i e

module _ (o : Outside) (plan : DayPlan) (i : ℕ) (s₀ : DayRunSnapshot) (repairs : List ℕ) (k : ℕ)
    (place : get_elem? repairs i ≡ some k) where
  -- What a round leaves: a step's end, or a live runner that counts one repair more.
  abbrev pub RoundAt : Verdict → Type 0
  RoundAt (settled outcome) = DoneAt plan s₀ outcome
  RoundAt (repair instruction r) =
      Live plan s₀ (modify suc repairs i) r.snapshot × (k < plan.max_repair_loops_per_task)

  pub RoundAt-settle_item :
      (state : QueueTaskState) (final : Option String) (r : DayRunner)
      → Live plan s₀ repairs r.snapshot
      → RoundAt (settle_item o plan i state final r)
  unfolding settle_item
  RoundAt-settle_item state final r h = Done-settle_task plan s₀ _ (
      Live-change_item plan s₀ repairs (finish_item o plan i state final) i r
        (record { name = λ item. refl; repairs = λ item. refl }) h)

  pub RoundAt-review :
      (task_id : String) (result : TaskResult) (routing : RoutingDecision)
      (evaluation : SemanticEvaluation) (r : DayRunner)
      → Live plan s₀ repairs r.snapshot
      → RoundAt (settled (returned (review_evaluation task_id result routing evaluation r)))
  unfolding review_evaluation
  RoundAt-review task_id result routing evaluation r h =
      Live-Done plan s₀ _ (Live-human_review plan s₀ repairs task_id _ _ r h)

  pub RoundAt-repair :
      (instruction : Option String) (r : DayRunner)
      → Live plan s₀ repairs r.snapshot
      → (item_at i r).repair_loops < plan.max_repair_loops_per_task
      → RoundAt (repair instruction (save (change_item count_repair i r)))
  unfolding save
  RoundAt-repair instruction r h l =
      let here : get_elem? (repair_counts r.snapshot.queue) i ≡ some k = rw h.counts place in
      let fewer : k < plan.max_repair_loops_per_task = omega (arith, item_at-repairs r i k here) in
      (
        record {
          counts =
              repair_counts-modify r.snapshot.queue i ∙ ap (λ counts. modify suc counts i) h.counts;
          limits = record {
            evaluator = h.limits.evaluator;
            retried = h.limits.retried;
            replanned = h.limits.replanned;
            repairs = repairs-count_repair plan r.snapshot.queue i k here fewer h.limits.repairs;
          };
          same = same-modify s₀ count_repair i r.snapshot (λ item. refl) h.same;
          processed = h.processed;
          unfinished = h.unfinished;
        },
        fewer,
      )

  pub RoundAt-weigh_decision :
      (task_id : String) (result : TaskResult) (routing : RoutingDecision)
      (evaluation : SemanticEvaluation) (choice : EvaluationChoice) (r : DayRunner)
      → Live plan s₀ repairs r.snapshot
      → RoundAt (weigh_decision o plan i task_id result routing evaluation choice r)
  unfolding weigh_decision
  RoundAt-weigh_decision task_id result routing evaluation EvaluationChoice.pass r h =
      RoundAt-settle_item _ _ r h
  RoundAt-weigh_decision task_id result routing evaluation EvaluationChoice.not_required r h =
      RoundAt-settle_item _ _ r h
  RoundAt-weigh_decision task_id result routing evaluation EvaluationChoice.human_review r h =
      RoundAt-review task_id result routing evaluation r h
  RoundAt-weigh_decision task_id result routing evaluation EvaluationChoice.repair r h =
      elim (Bool-cases (ltb (item_at i r).repair_loops plan.max_repair_loops_per_task)) [
        | inl more ↦ rw more (RoundAt-repair evaluation.repair_instruction r h (ltb→lt _ _ more))
        | inr spent ↦ rw spent (RoundAt-review task_id result routing evaluation r h)
      ]

  pub RoundAt-weigh :
      (task_id : String) (result : TaskResult) (routing : RoutingDecision)
      (evaluation : SemanticEvaluation) (r : DayRunner)
      → Live plan s₀ repairs r.snapshot
      → RoundAt (weigh o plan i task_id result routing evaluation r)
  unfolding weigh
  RoundAt-weigh task_id result routing evaluation r h =
      RoundAt-weigh_decision task_id result routing evaluation evaluation.decision _ (
        Live-audit plan s₀ repairs _ _ (
          Live-provider_overage plan s₀ repairs _ _ _ (
            Live-add_profile_usage plan s₀ repairs _ _ _ _
              (Live-add_role_usage plan s₀ repairs _ _ r h))))

  pub RoundAt-heed :
      (task_id : String) (result : TaskResult) (routing : RoutingDecision)
      (reply : Reply SemanticEvaluation) (r : DayRunner)
      → Live plan s₀ repairs r.snapshot
      → RoundAt (heed o plan i task_id result routing reply r)
  unfolding heed
  RoundAt-heed task_id result routing (answered evaluation) r h =
      RoundAt-weigh task_id result routing evaluation r h
  RoundAt-heed task_id result routing (runtime_error e) r h =
      Live-Done plan s₀ _ (Live-human_review plan s₀ repairs task_id _ _ r h)
  RoundAt-heed task_id result routing other_error r h = Live-Done plan s₀ _ h

  pub Live-count_evaluation :
      (r : DayRunner)
      → r.snapshot.evaluator_calls < plan.max_evaluator_calls
      → Live plan s₀ repairs r.snapshot
      → Live plan s₀ repairs (count_evaluation i r).snapshot
  Live-count_evaluation r l h =
      Live-change_item plan s₀ repairs mark_evaluated i (count_evaluator r)
        (record { name = λ item. refl; repairs = λ item. refl })
        (record {
          counts = h.counts;
          limits = record {
            evaluator = omega arith;
            retried = h.limits.retried;
            replanned = h.limits.replanned;
            repairs = h.limits.repairs;
          };
          same = h.same;
          processed = h.processed;
          unfinished = h.unfinished;
        })

  pub RoundAt-call_evaluator :
      (task_id : String) (task : ConfiguredTask) (result : TaskResult) (routing : RoutingDecision)
      (evaluate : ℕ → EvaluatorRequest → ProviderExecutionConfig → Reply SemanticEvaluation)
      (config : Option ProviderExecutionConfig) (r : DayRunner)
      → Live plan s₀ repairs r.snapshot
      → RoundAt (call_evaluator o plan i task_id task result routing evaluate config r)
  unfolding call_evaluator
  RoundAt-call_evaluator task_id task result routing evaluate none r h = Live-Done plan s₀ _ h
  RoundAt-call_evaluator task_id task result routing evaluate (some config) r h =
      RoundAt-heed task_id result routing _ (count_call r) h

  pub RoundAt-consult_evaluator :
      (task_id : String) (task : ConfiguredTask) (result : TaskResult) (routing : RoutingDecision)
      (found : Option (ℕ → EvaluatorRequest → ProviderExecutionConfig → Reply SemanticEvaluation))
      (r : DayRunner)
      → r.snapshot.evaluator_calls < plan.max_evaluator_calls
      → Live plan s₀ repairs r.snapshot
      → RoundAt (consult_evaluator o plan i task_id task result routing found r)
  unfolding consult_evaluator
  RoundAt-consult_evaluator task_id task result routing none r l h =
      Live-Done plan s₀ _ (Live-human_review plan s₀ repairs task_id _ _ r h)
  RoundAt-consult_evaluator task_id task result routing (some evaluate) r l h =
      RoundAt-call_evaluator task_id task result routing evaluate _ _ (Live-count_evaluation r l h)

  pub RoundAt-evaluator_routed :
      (task_id : String) (task : ConfiguredTask) (result : TaskResult) (v : Routed)
      → (after_routing v).snapshot.evaluator_calls < plan.max_evaluator_calls
      → Live plan s₀ repairs (after_routing v).snapshot
      → RoundAt (evaluator_routed o plan i task_id task result v)
  unfolding evaluator_routed
  RoundAt-evaluator_routed task_id task result (routed routing r) l h =
      RoundAt-consult_evaluator task_id task result routing _ r l h
  RoundAt-evaluator_routed task_id task result (refused r) l h = Live-Done plan s₀ _ h
  RoundAt-evaluator_routed task_id task result (invalid fault r) l h = Live-Done plan s₀ _ h

  pub RoundAt-route_evaluator :
      (task_id : String) (task : ConfiguredTask) (result : TaskResult) (r : DayRunner)
      (guarded : Option DayRunner)
      → StoppedLive plan s₀ repairs guarded
      → r.snapshot.evaluator_calls < plan.max_evaluator_calls
      → Live plan s₀ repairs r.snapshot
      → RoundAt (route_evaluator o plan i task_id task result r guarded)
  unfolding route_evaluator
  RoundAt-route_evaluator task_id task result r (some stopped) e l h = Live-Done plan s₀ _ e
  RoundAt-route_evaluator task_id task result r none e l h =
      RoundAt-evaluator_routed task_id task result _
        (omega (arith, evaluator_calls-select_profile o plan _ r))
        (Live-select_profile plan s₀ repairs o _ r h)

  pub RoundAt-evaluate_semantic :
      (task_id : String) (task : ConfiguredTask) (result : TaskResult) (r : DayRunner)
      → Live plan s₀ repairs r.snapshot
      → RoundAt (evaluate_semantic o plan i task_id task result r)
  unfolding evaluate_semantic
  RoundAt-evaluate_semantic task_id task result r h = elim (Bool-cases (failed_check result)) [
    | inl bad ↦ rw bad (Live-Done plan s₀ _ (Live-human_review plan s₀ repairs task_id _ _ r h))
    | inr good ↦
        rw good (elim (Bool-cases (leb plan.max_evaluator_calls r.snapshot.evaluator_calls)) [
          | inl used ↦ rw used (Live-Done plan s₀ _ (Live-stop_day plan s₀ repairs _ r h))
          | inr left ↦ rw left (
              RoundAt-route_evaluator task_id task result r _
                (Live-provider_precheck plan s₀ repairs _ _ _ r h) (leb-false _ _ left) h)
        ])
  ]
