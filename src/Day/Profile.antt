-- ===== src/Day/Profile.antt =====
-- backend/orchestrator/day_runner.py: the provider budgets and the choice of a profile for a call.
use Prim.Native.String.{◌++◌}
use mathlib.Core.List.{◌++◌ as append}
use ai_control_center.Base.{
  ℕ, ◌+◌, ◌-◌, String, Bool, ◌||◌, Option, none, some, List, [], ◌∷◌, ltb, leb, ◌==◌, if◌then◌else◌,
}
use ai_control_center.Base.Keyed.{Keyed, contains}
use ai_control_center.Usage.{TokenUsage}
use ai_control_center.Routing.{
  RoutingRole, architect, evaluator, codex, TaskComplexity, FailureType, RoutingRequest,
  RoutingOutcome, selected, ModelProfile, RoutingDecision,
}
use ai_control_center.Routing.{human_review as refused_outcome}
use ai_control_center.Routing.Router.{select}
use ai_control_center.Day.{DayPlan, ProviderBudget, RoleUsage, DayRunSnapshot}
use ai_control_center.Day.Outside.{Fault, value_error, key_error, ProviderBudgets, Outside}
use ai_control_center.Day.Runner.{DayRunner, save, audit, stop_day, day_model_routing}
use ai_control_center.Day.Account.{usage_of}
use ai_control_center.Day.Review.{human_review, plain_detail}

abbrev pub budget_of : RoutingRole → ProviderBudgets → ProviderBudget
budget_of architect budgets = budgets.architect
budget_of codex budgets = budgets.codex
budget_of evaluator budgets = budgets.evaluator

-- `role.upper()`
abbrev pub role_upper : RoutingRole → String
role_upper architect = "ARCHITECT"
role_upper codex = "CODEX"
role_upper evaluator = "EVALUATOR"

abbrev pub budget_reached : ProviderBudget → TokenUsage → ℕ → Bool
budget_reached budget usage call_count =
    leb budget.max_calls call_count
    || leb budget.daily_input_tokens usage.input_tokens
    || leb budget.daily_output_tokens usage.output_tokens

-- `_provider_precheck`: `none` goes on, and `some` is the runner after the stop.
unfoldable pub provider_precheck : ProviderBudgets → RoutingRole → ℕ → DayRunner → Option DayRunner
provider_precheck budgets role call_count r =
    if budget_reached (budget_of role budgets) (usage_of role r.snapshot.token_usage) call_count
    then some (stop_day (role_upper role ++ "_BUDGET_GUARD") r)
    else none

abbrev pub add_once : String → List String → List String
add_once text texts = if contains texts text then texts else append texts (text ∷ [])

unfoldable pub over_budget : ProviderBudget → TokenUsage → Bool
over_budget budget usage =
    ltb budget.daily_input_tokens usage.input_tokens
    || ltb budget.daily_output_tokens usage.output_tokens

-- `_provider_overage`
unfoldable pub provider_overage : ProviderBudgets → RoutingRole → DayRunner → DayRunner
provider_overage budgets role r =
    let budget = budget_of role budgets in
    let usage = usage_of role r.snapshot.token_usage in
    let warning = role_upper role ++ "_POST_RUN_BUDGET_OVERAGE" in
    let warnings = r.snapshot.budget_warnings in
    if over_budget budget usage
    then record r { snapshot = record r.snapshot { budget_warnings = add_once warning warnings } }
    else r

-- What `_select_profile` is asked.
pub record ProfileRequest : Type 0 where
  pub role : RoutingRole
  pub task_type : String
  pub complexity : TaskComplexity
  pub previous_attempt_count : ℕ
  pub previous_failure_type : Option FailureType
  pub context_size : ℕ
  pub execution_provider : String

pub data Routed : Type 0 where
  routed : RoutingDecision → DayRunner → Routed
  refused : DayRunner → Routed
  invalid : Fault → DayRunner → Routed

abbrev pub day_input : RoleUsage → ℕ
day_input usage =
    usage.architect.input_tokens + usage.codex.input_tokens + usage.evaluator.input_tokens

abbrev pub day_output : RoleUsage → ℕ
day_output usage =
    usage.architect.output_tokens + usage.codex.output_tokens + usage.evaluator.output_tokens

abbrev pub input_budget : ProviderBudgets → ℕ
input_budget b =
    b.architect.daily_input_tokens + b.codex.daily_input_tokens + b.evaluator.daily_input_tokens

abbrev pub output_budget : ProviderBudgets → ℕ
output_budget b =
    b.architect.daily_output_tokens + b.codex.daily_output_tokens + b.evaluator.daily_output_tokens

-- Each `max(budget - usage, 0)` is a subtraction of natural numbers.
unfoldable pub routing_request :
    ProviderBudgets → DayPlan → ProfileRequest → DayRunSnapshot → RoutingRequest
routing_request budgets plan ask s = record {
  role = ask.role;
  execution_provider = ask.execution_provider;
  task_type = ask.task_type;
  task_complexity = ask.complexity;
  previous_attempt_count = ask.previous_attempt_count;
  previous_failure_type = ask.previous_failure_type;
  context_size = ask.context_size;
  remaining_role_input_tokens =
      (budget_of ask.role budgets).daily_input_tokens
      - (usage_of ask.role s.token_usage).input_tokens;
  remaining_role_output_tokens =
      (budget_of ask.role budgets).daily_output_tokens
      - (usage_of ask.role s.token_usage).output_tokens;
  remaining_day_input_tokens = input_budget budgets - day_input s.token_usage;
  remaining_day_output_tokens = output_budget budgets - day_output s.token_usage;
  plan_policy = record {
    allowed_profile_ids = plan.allowed_profile_ids;
    allow_budget_downgrade = plan.allow_profile_budget_downgrade;
    max_escalation_level = plan.max_profile_escalation_level;
  };
}

unfoldable pub route_decision : RoutingOutcome → RoutingDecision → DayRunner → Routed
route_decision selected decision r = routed decision (save r)
route_decision refused_outcome decision r = refused (
    human_review "SYSTEM" ("MODEL_ROUTER:" ++ decision.selection_reason)
      (plain_detail none (some decision) "model_routing") r)

-- `_select_profile` after the router's decision.
unfoldable pub record_routing : RoutingDecision → DayRunner → Routed
record_routing decision r = route_decision decision.outcome decision (
    audit (day_model_routing decision) (record r {
      snapshot = record r.snapshot {
        model_routing_decisions = append r.snapshot.model_routing_decisions (decision ∷ []);
      };
    }))

unfoldable pub select_routed : Option RoutingDecision → DayRunner → Routed
select_routed none r = invalid key_error r
select_routed (some decision) r = record_routing decision r

abbrev pub unrouted : ProfileRequest → RoutingDecision
unrouted ask = record {
  outcome = selected;
  role = ask.role;
  profile_id = none;
  provider = some ask.execution_provider;
  settings = none;
  selection_reason = "router not configured for direct test runner";
  escalation_level = 0;
  escalation_reason = none;
  context_size = ask.context_size;
}

unfoldable pub select_with :
    Option (Keyed ModelProfile) → Outside → DayPlan → ProfileRequest → DayRunner → Routed
select_with none o plan ask r = routed (unrouted ask) r
select_with (some profiles) o plan ask r =
    if ask.execution_provider == ""
    then invalid value_error r
    else select_routed (select profiles (routing_request o.provider_budgets plan ask r.snapshot)) r

-- `_select_profile`. `RoutingRequest` refuses an empty provider name.
unfoldable pub select_profile : Outside → DayPlan → ProfileRequest → DayRunner → Routed
select_profile o plan ask r = select_with o.model_router o plan ask r
