-- ===== src/Day/Step/Session.antt =====
-- The bookkeeping of backend/orchestrator/day_runner.py, its choice of a profile and its session with the
-- task engine keep `Live`, whatever the engine does.
use ai_control_center.Base.{
  ℕ, ◌≡◌, refl, inl, inr, String, Option, none, some, List, ◌==◌, Bool-cases,
}
use ai_control_center.Base.Int.{ℤ}
use ai_control_center.Base.Keyed.{Keyed, contains}
use ai_control_center.Usage.{TokenUsage}
use ai_control_center.Routing.{RoutingRole, RoutingOutcome, RoutingDecision, ModelProfile}
use ai_control_center.Day.{DayPlan, ConfiguredTask, DayRunSnapshot}
use ai_control_center.Day.Outside.{Session, finish, crash, ask, ProviderBudgets, Outside}
use ai_control_center.Day.Runner.{DayRunner, save, audit}
use ai_control_center.Day.Account.{add_role_usage, add_profile_usage, record_zero_usage, usage_of}
use ai_control_center.Day.Profile.{
  budget_of, budget_reached, over_budget, provider_precheck, provider_overage, Routed, routed,
  refused, invalid, ProfileRequest, record_routing, route_decision, select_routed, select_with,
  select_profile,
}
use ai_control_center.Day.Execute.{run_session}
use ai_control_center.Day.Item.{
  Attempt, Executed, executed, execution_raised, answer_session, codex_request,
}
use ai_control_center.Day.Review.{human_review}
use ai_control_center.Day.Step.{Live}
use ai_control_center.Day.Step.Writes.{Live-save, Live-audit, Live-human_review, Live-stop_day}

-- The runner that a choice of a profile, or a session, leaves.
abbrev pub after_routing : Routed → DayRunner
after_routing (routed decision r) = r
after_routing (refused r) = r
after_routing (invalid fault r) = r

abbrev pub after_execution : Executed → DayRunner
after_execution (executed result routes r) = r
after_execution (execution_raised fault r) = r

evaluator_calls-route_decision :
    (outcome : RoutingOutcome) (decision : RoutingDecision) (r : DayRunner)
    → (after_routing (route_decision outcome decision r)).snapshot.evaluator_calls
      ≡ r.snapshot.evaluator_calls
unfolding route_decision save human_review audit
evaluator_calls-route_decision RoutingOutcome.selected decision r = refl
evaluator_calls-route_decision RoutingOutcome.human_review decision r = refl

evaluator_calls-select_routed :
    (found : Option RoutingDecision) (r : DayRunner)
    → (after_routing (select_routed found r)).snapshot.evaluator_calls ≡ r.snapshot.evaluator_calls
unfolding select_routed record_routing audit
evaluator_calls-select_routed none r = refl
evaluator_calls-select_routed (some decision) r =
    evaluator_calls-route_decision decision.outcome decision _

evaluator_calls-select_with :
    (router : Option (Keyed ModelProfile)) (o : Outside) (plan : DayPlan) (request : ProfileRequest)
    (r : DayRunner)
    → (after_routing (select_with router o plan request r)).snapshot.evaluator_calls
      ≡ r.snapshot.evaluator_calls
unfolding select_with
evaluator_calls-select_with none o plan request r = refl
evaluator_calls-select_with (some profiles) o plan request r =
    elim (Bool-cases (request.execution_provider == "")) [
      | inl blank ↦ rw blank refl
      | inr named ↦ rw named (evaluator_calls-select_routed _ r)
    ]

pub evaluator_calls-select_profile :
    (o : Outside) (plan : DayPlan) (request : ProfileRequest) (r : DayRunner)
    → (after_routing (select_profile o plan request r)).snapshot.evaluator_calls
      ≡ r.snapshot.evaluator_calls
unfolding select_profile
evaluator_calls-select_profile o plan request r =
    evaluator_calls-select_with o.model_router o plan request r

module _ (plan : DayPlan) (s₀ : DayRunSnapshot) (repairs : List ℕ) where
  pub Live-add_role_usage :
      (role : RoutingRole) (usage : TokenUsage) (r : DayRunner)
      → Live plan s₀ repairs r.snapshot
      → Live plan s₀ repairs (add_role_usage role usage r).snapshot
  unfolding add_role_usage
  Live-add_role_usage role usage r h = record {
    limits = h.limits;
    same = h.same;
    processed = h.processed;
    counts = h.counts;
    unfinished = h.unfinished;
  }

  pub Live-add_profile_usage :
      (routing : RoutingDecision) (usage : TokenUsage) (duration : ℤ) (r : DayRunner)
      → Live plan s₀ repairs r.snapshot
      → Live plan s₀ repairs (add_profile_usage routing usage duration r).snapshot
  unfolding add_profile_usage
  Live-add_profile_usage routing usage duration r h = record {
    limits = h.limits;
    same = h.same;
    processed = h.processed;
    counts = h.counts;
    unfinished = h.unfinished;
  }

  pub Live-record_zero_usage :
      (task_id : String) (r : DayRunner)
      → Live plan s₀ repairs r.snapshot
      → Live plan s₀ repairs (record_zero_usage task_id r).snapshot
  unfolding record_zero_usage audit
  Live-record_zero_usage task_id r h =
      elim (Bool-cases (contains r.snapshot.deterministic_zero_usage_task_ids task_id)) [
        | inl old ↦ rw old h
        | inr new ↦ rw new (record {
          limits = h.limits;
          same = h.same;
          processed = h.processed;
          counts = h.counts;
          unfinished = h.unfinished;
        })
      ]

  pub Live-provider_overage :
      (budgets : ProviderBudgets) (role : RoutingRole) (r : DayRunner)
      → Live plan s₀ repairs r.snapshot
      → Live plan s₀ repairs (provider_overage budgets role r).snapshot
  unfolding provider_overage
  Live-provider_overage budgets role r h =
      elim (Bool-cases
        (over_budget (budget_of role budgets) (usage_of role r.snapshot.token_usage))) [
          | inr within ↦ rw within h
          | inl over ↦ rw over (record {
            limits = h.limits;
            same = h.same;
            processed = h.processed;
            counts = h.counts;
            unfinished = h.unfinished;
          })
        ]

  Live-route_decision :
      (outcome : RoutingOutcome) (decision : RoutingDecision) (r : DayRunner)
      → Live plan s₀ repairs r.snapshot
      → Live plan s₀ repairs (after_routing (route_decision outcome decision r)).snapshot
  unfolding route_decision
  Live-route_decision RoutingOutcome.selected decision r h = Live-save plan s₀ repairs r h
  Live-route_decision RoutingOutcome.human_review decision r h =
      Live-human_review plan s₀ repairs "SYSTEM" _ _ r h

  Live-record_routing :
      (decision : RoutingDecision) (r : DayRunner)
      → Live plan s₀ repairs r.snapshot
      → Live plan s₀ repairs (after_routing (record_routing decision r)).snapshot
  unfolding record_routing
  Live-record_routing decision r h = Live-route_decision decision.outcome decision _ (
      Live-audit plan s₀ repairs _ _ (record {
        limits = h.limits;
        same = h.same;
        processed = h.processed;
        counts = h.counts;
        unfinished = h.unfinished;
      }))

  Live-select_routed :
      (found : Option RoutingDecision) (r : DayRunner)
      → Live plan s₀ repairs r.snapshot
      → Live plan s₀ repairs (after_routing (select_routed found r)).snapshot
  unfolding select_routed
  Live-select_routed none r h = h
  Live-select_routed (some decision) r h = Live-record_routing decision r h

  Live-select_with :
      (router : Option (Keyed ModelProfile)) (o : Outside) (request : ProfileRequest)
      (r : DayRunner)
      → Live plan s₀ repairs r.snapshot
      → Live plan s₀ repairs (after_routing (select_with router o plan request r)).snapshot
  unfolding select_with
  Live-select_with none o request r h = h
  Live-select_with (some profiles) o request r h =
      elim (Bool-cases (request.execution_provider == "")) [
        | inl blank ↦ rw blank h
        | inr named ↦ rw named (Live-select_routed _ r h)
      ]

  pub Live-select_profile :
      (o : Outside) (request : ProfileRequest) (r : DayRunner)
      → Live plan s₀ repairs r.snapshot
      → Live plan s₀ repairs (after_routing (select_profile o plan request r)).snapshot
  unfolding select_profile
  Live-select_profile o request r h = Live-select_with o.model_router o request r h

  Live-answer_session :
      (go : Option RoutingDecision → List RoutingDecision → DayRunner → Executed)
      (routes : List RoutingDecision) (v : Routed)
      → ((answer : Option RoutingDecision) (routes : List RoutingDecision) (r : DayRunner)
          → Live plan s₀ repairs r.snapshot
          → Live plan s₀ repairs (after_execution (go answer routes r)).snapshot)
      → Live plan s₀ repairs (after_routing v).snapshot
      → Live plan s₀ repairs (after_execution (answer_session go routes v)).snapshot
  unfolding answer_session
  Live-answer_session go routes (routed decision r) k h = k (some decision) _ r h
  Live-answer_session go routes (refused r) k h = k none routes r h
  Live-answer_session go routes (invalid fault r) k h = h

  -- The runner that the budget guard stopped, if it did.
  abbrev pub StoppedLive : Option DayRunner → Type 0
  StoppedLive none = Unit
  StoppedLive (some stopped) = Live plan s₀ repairs stopped.snapshot

  pub Live-provider_precheck :
      (budgets : ProviderBudgets) (role : RoutingRole) (calls : ℕ) (r : DayRunner)
      → Live plan s₀ repairs r.snapshot
      → StoppedLive (provider_precheck budgets role calls r)
  unfolding provider_precheck
  Live-provider_precheck budgets role calls r h =
      elim (Bool-cases
        (budget_reached (budget_of role budgets) (usage_of role r.snapshot.token_usage) calls)) [
          | inl reached ↦ rw reached (Live-stop_day plan s₀ repairs _ r h)
          | inr open_budget ↦ rw open_budget tt
        ]

  -- A session may ask for profiles as often as it likes.
  pub Live-run_session :
      (o : Outside) (i : ℕ) (task : ConfiguredTask) (attempt : Attempt) (session : Session)
      (routes : List RoutingDecision) (r : DayRunner)
      → Live plan s₀ repairs r.snapshot
      → Live plan s₀ repairs
          (after_execution (run_session o plan i task attempt session routes r)).snapshot
  unfolding run_session
  Live-run_session o i task attempt (finish result) routes r h = h
  Live-run_session o i task attempt crash routes r h = h
  Live-run_session o i task attempt (ask size retry next) routes r h =
      Live-answer_session _ routes _ (λ answer. Live-run_session o i task attempt (next answer))
        (Live-select_profile o (codex_request i task attempt size retry r) r h)
