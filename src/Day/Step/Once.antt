-- ===== src/Day/Step/Once.antt =====
-- `_process_one` of backend/orchestrator/day_runner.py as a whole.
use ai_control_center.Base.{
  ℕ, ◌+◌, ◌≤◌, ◌<◌, ◌≡◌, refl, true, false, Option, none, some, List, arith, leb, leb-false, ◌==◌,
  Bool-cases, inl, inr,
}
use ai_control_center.Base.Keyed.{Keyed}
use ai_control_center.Routing.{
  RoutingRole, RoutingDecision, RoutingOutcome, ProviderExecutionConfig, ModelProfile,
}
use ai_control_center.Day.{DayRunState, ArchitectDecision, DayPlan, DayRunSnapshot}
use ai_control_center.Day.Outside.{Reply, ArchitectRequest, Outside, ProviderBudgets}
use ai_control_center.Day.Runner.{
  DayRunner, Outcome, returned, raised, out_of_rounds, save, audit, all_successful, stop_day,
}
use ai_control_center.Day.Review.{human_review}
use ai_control_center.Day.Account.{usage_of}
use ai_control_center.Day.Profile.{
  Routed, routed, refused, invalid, route_decision, select_routed, record_routing, select_with,
  select_profile, provider_precheck, budget_reached, budget_of, ProfileRequest,
}
use ai_control_center.Day.Advance.{
  count_architect, is_running, consult_architect, architect_routed, route_architect, after_precheck,
  process_one,
}
use ai_control_center.Day.Step.{ids, repair_counts, Limits, Live, Done, Live-Done, DoneAt}
use ai_control_center.Day.Step.Writes.{Live-stop_day, Live-human_review}
use ai_control_center.Day.Step.Session.{
  after_routing, Live-select_profile, StoppedLive, Live-provider_precheck,
}
use ai_control_center.Day.Step.Process.{DoneAt-call_architect}

-- What a step keeps of the day that it starts from.
pub record Stepped (plan : DayPlan) (s₀ s : DayRunSnapshot) : Type 0 where
  pub limits : Limits plan s
  pub plan_id : s.plan_id ≡ s₀.plan_id
  pub mode : s.mode ≡ s₀.mode
  pub tasks : ids s.queue ≡ ids s₀.queue
  pub processed : s.tasks_processed_this_run ≤ s₀.tasks_processed_this_run + 1
  pub finished : s.state ≡ DayRunState.complete → all_successful s ≡ true
  pub bounded :
      s₀.architect_calls ≤ plan.max_architect_calls → s.architect_calls ≤ plan.max_architect_calls

abbrev pub StepAt : DayPlan → DayRunSnapshot → Outcome → Type 0
StepAt plan s₀ (returned r) =
    Stepped plan s₀ r.snapshot
    × (is_running r.snapshot.state ≡ true
        → (s₀.architect_calls < plan.max_architect_calls)
          × (r.snapshot.architect_calls ≡ s₀.architect_calls + 1))
StepAt plan s₀ (raised fault r) = Stepped plan s₀ r.snapshot
StepAt plan s₀ (out_of_rounds r) = ⊥

abbrev counted : DayRunSnapshot → DayRunSnapshot
counted s₀ = record s₀ { architect_calls = s₀.architect_calls + 1 }

early-Stepped : (plan : DayPlan) (s₀ s : DayRunSnapshot) → Done plan s₀ s → Stepped plan s₀ s
early-Stepped plan s₀ s h = record {
  limits = h.limits;
  plan_id = h.same.plan_id;
  mode = h.same.mode;
  tasks = h.same.tasks;
  processed = h.processed;
  finished = h.finished;
  bounded = λ b. omega (arith, h.same.architect);
}

late-Stepped :
    (plan : DayPlan) (s₀ s : DayRunSnapshot)
    → s₀.architect_calls < plan.max_architect_calls
    → Done plan (counted s₀) s
    → Stepped plan s₀ s
late-Stepped plan s₀ s l h = record {
  limits = h.limits;
  plan_id = h.same.plan_id;
  mode = h.same.mode;
  tasks = h.same.tasks;
  processed = h.processed;
  finished = h.finished;
  bounded = λ b. omega (arith, h.same.architect);
}

-- A day that was stopped, or handed to a human, does not run.
abbrev StoppedHalts : Option DayRunner → Type 0
StoppedHalts none = Unit
StoppedHalts (some stopped) = is_running stopped.snapshot.state ≡ false

abbrev RefusedHalts : Routed → Type 0
RefusedHalts (refused r) = is_running r.snapshot.state ≡ false
RefusedHalts _ = Unit

halts-provider_precheck :
    (budgets : ProviderBudgets) (role : RoutingRole) (calls : ℕ) (r : DayRunner)
    → StoppedHalts (provider_precheck budgets role calls r)
unfolding provider_precheck stop_day save audit
halts-provider_precheck budgets role calls r =
    elim (Bool-cases
      (budget_reached (budget_of role budgets) (usage_of role r.snapshot.token_usage) calls)) [
        | inl reached ↦ rw reached refl
        | inr open_budget ↦ rw open_budget tt
      ]

halts-route_decision :
    (outcome : RoutingOutcome) (decision : RoutingDecision) (r : DayRunner)
    → RefusedHalts (route_decision outcome decision r)
unfolding route_decision human_review save audit
halts-route_decision RoutingOutcome.selected decision r = tt
halts-route_decision RoutingOutcome.human_review decision r = refl

halts-select_routed :
    (found : Option RoutingDecision) (r : DayRunner) → RefusedHalts (select_routed found r)
unfolding select_routed record_routing
halts-select_routed none r = tt
halts-select_routed (some decision) r = halts-route_decision decision.outcome decision _

halts-select_with :
    (router : Option (Keyed ModelProfile)) (o : Outside) (plan : DayPlan) (request : ProfileRequest)
    (r : DayRunner)
    → RefusedHalts (select_with router o plan request r)
unfolding select_with
halts-select_with none o plan request r = tt
halts-select_with (some profiles) o plan request r =
    elim (Bool-cases (request.execution_provider == "")) [
      | inl blank ↦ rw blank tt
      | inr named ↦ rw named (halts-select_routed _ r)
    ]

module _ (o : Outside) (plan : DayPlan) (s₀ : DayRunSnapshot) (repairs : List ℕ)
    (left : s₀.architect_calls < plan.max_architect_calls) where
  late-StepAt : (v : Outcome) → DoneAt plan (counted s₀) v → StepAt plan s₀ v
  late-StepAt (returned r) h =
      (late-Stepped plan s₀ r.snapshot left h, λ runs. (left, h.same.architect))
  late-StepAt (raised fault r) h = late-Stepped plan s₀ r.snapshot left h
  late-StepAt (out_of_rounds r) h = h

  Live-count_architect :
      (r : DayRunner)
      → Live plan s₀ repairs r.snapshot
      → Live plan (counted s₀) repairs (count_architect r).snapshot
  Live-count_architect r h = record {
    counts = h.counts;
    limits = h.limits;
    same = record {
      plan_id = h.same.plan_id;
      mode = h.same.mode;
      tasks = h.same.tasks;
      architect = omega (arith, h.same.architect);
    };
    processed = h.processed;
    unfinished = h.unfinished;
  }

  StepAt-consult_architect :
      (request : ArchitectRequest) (routing : RoutingDecision)
      (found : Option (ℕ → ArchitectRequest → ProviderExecutionConfig → Reply ArchitectDecision))
      (r : DayRunner)
      → Live plan s₀ repairs r.snapshot
      → StepAt plan s₀ (consult_architect o plan request routing found r)
  unfolding consult_architect human_review save audit
  StepAt-consult_architect request routing none r h = (
    early-Stepped plan s₀ _
        (Live-Done plan s₀ _ (Live-human_review plan s₀ repairs "SYSTEM" _ _ r h)),
    λ runs. absurd (cc),
  )
  StepAt-consult_architect request routing (some choose) r h = late-StepAt _ (
      DoneAt-call_architect o plan (counted s₀) repairs request routing choose _ (count_architect r)
        (Live-count_architect r h))

  StepAt-architect_routed :
      (request : ArchitectRequest) (v : Routed)
      → RefusedHalts v
      → Live plan s₀ repairs (after_routing v).snapshot
      → StepAt plan s₀ (architect_routed o plan request v)
  unfolding architect_routed
  StepAt-architect_routed request (routed routing r) halts h =
      StepAt-consult_architect request routing _ r h
  StepAt-architect_routed request (refused r) halts h =
      (early-Stepped plan s₀ _ (Live-Done plan s₀ _ h), λ runs. absurd (cc))
  StepAt-architect_routed request (invalid fault r) halts h =
      early-Stepped plan s₀ _ (Live-Done plan s₀ _ h)

  StepAt-route_architect :
      (request : Option ArchitectRequest) (r : DayRunner)
      → Live plan s₀ repairs r.snapshot
      → StepAt plan s₀ (route_architect o plan request r)
  unfolding route_architect select_profile
  StepAt-route_architect none r h = early-Stepped plan s₀ _ (Live-Done plan s₀ _ h)
  StepAt-route_architect (some request) r h =
      StepAt-architect_routed request _ (halts-select_with o.model_router o plan _ r)
        (Live-select_profile plan s₀ repairs o _ r h)

  StepAt-after_precheck :
      (r : DayRunner) (guarded : Option DayRunner)
      → StoppedHalts guarded
      → StoppedLive plan s₀ repairs guarded
      → Live plan s₀ repairs r.snapshot
      → StepAt plan s₀ (after_precheck o plan r guarded)
  unfolding after_precheck
  StepAt-after_precheck r (some stopped) halts live h =
      (early-Stepped plan s₀ _ (Live-Done plan s₀ _ live), λ runs. absurd (cc))
  StepAt-after_precheck r none halts live h = StepAt-route_architect _ r h

start-Live :
    (plan : DayPlan) (s : DayRunSnapshot)
    → Limits plan s
    → is_running s.state ≡ true
    → Live plan s (repair_counts s.queue) s
start-Live plan s limits runs = record {
  counts = refl;
  limits = limits;
  same = record { plan_id = refl; mode = refl; tasks = refl; architect = refl };
  processed = refl;
  unfinished = λ e. ground arith;
}

-- A step of a running day.
pub StepAt-process_one :
    (o : Outside) (plan : DayPlan) (r : DayRunner)
    → Limits plan r.snapshot
    → is_running r.snapshot.state ≡ true
    → StepAt plan r.snapshot (process_one o plan r)
unfolding process_one stop_day save audit
StepAt-process_one o plan r limits runs =
    let s₀ = r.snapshot in
    let repairs = repair_counts s₀.queue in
    let live = start-Live plan s₀ limits runs in
    elim (Bool-cases (leb plan.max_architect_calls s₀.architect_calls)) [
      | inl used ↦ rw used (
        early-Stepped plan s₀ _ (Live-Done plan s₀ _ (Live-stop_day plan s₀ repairs _ r live)),
        λ e. absurd (cc),
      )
      | inr left ↦ rw left (
          StepAt-after_precheck o plan s₀ repairs (leb-false _ _ left) r _
            (halts-provider_precheck _ _ _ r) (Live-provider_precheck plan s₀ repairs _ _ _ r live)
            live)
    ]
