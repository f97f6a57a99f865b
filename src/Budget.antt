-- ===== src/Budget.antt =====
-- backend/control/token_budget.py: `TokenBudgetManager`. Of its configuration only the part for Codex is
-- read by the methods here. The percentage that `usage_view` reports is left out.
pub mod Accounted
use ai_control_center.Base.{
  ℕ, suc, ◌+◌, ◌≤◌, ◌≡◌, refl, ap, ◌∙◌, ◌||◌, List, [], ◌∷◌, arith, ltb, leb, if◌then◌else◌,
}
use ai_control_center.Usage.{TokenUsage, add_usage}

pub data BudgetDecision : Type 0 where
  allowed task_budget_exceeded daily_budget_exceeded retry_limit_exceeded : BudgetDecision

pub record CodexBudget : Type 0 where
  pub daily_input_tokens : ℕ
  pub daily_output_tokens : ℕ
  pub task_input_tokens : ℕ
  pub task_output_tokens : ℕ
  pub max_retry : ℕ

pub record TokenBudgetManager : Type 0 where
  pub budget : CodexBudget
  pub day_usage : TokenUsage

-- `check`
unfoldable pub check : TokenBudgetManager → TokenUsage → ℕ → BudgetDecision
check manager requested retry_count =
    let budget = manager.budget in
    let day = manager.day_usage in
    if leb budget.max_retry retry_count
    then retry_limit_exceeded
    else if ltb budget.task_input_tokens requested.input_tokens
        || ltb budget.task_output_tokens requested.output_tokens
    then task_budget_exceeded
    else if ltb budget.daily_input_tokens (day.input_tokens + requested.input_tokens)
        || ltb budget.daily_output_tokens (day.output_tokens + requested.output_tokens)
    then daily_budget_exceeded
    else allowed

-- `_add_usage`
abbrev pub spend : TokenUsage → TokenBudgetManager → TokenBudgetManager
spend usage manager = record manager { day_usage = add_usage manager.day_usage usage }

abbrev pub spend_if : BudgetDecision → TokenUsage → TokenBudgetManager → TokenBudgetManager
spend_if allowed usage manager = spend usage manager
spend_if _ usage manager = manager

-- `record`, for the decision that it returns and the manager that it leaves
unfoldable pub record_usage :
    TokenUsage → ℕ → TokenBudgetManager → BudgetDecision × TokenBudgetManager
record_usage usage retry_count manager =
    let decision = check manager usage retry_count in (decision, spend_if decision usage manager)

-- `record_actual`
unfoldable pub record_actual :
    TokenUsage → ℕ → TokenBudgetManager → BudgetDecision × TokenBudgetManager
record_actual usage retry_count manager = (check manager usage retry_count, spend usage manager)

-- The day's usage is inside the day's limits.
pub record IsWithin (manager : TokenBudgetManager) : Type 0 where
  pub input : manager.day_usage.input_tokens ≤ manager.budget.daily_input_tokens
  pub output : manager.day_usage.output_tokens ≤ manager.budget.daily_output_tokens

-- What `check` compares.
pub record Affordable (manager : TokenBudgetManager) (requested : TokenUsage) (retry_count : ℕ)
    : Type 0 where
  pub retries : suc retry_count ≤ manager.budget.max_retry
  pub task_input : requested.input_tokens ≤ manager.budget.task_input_tokens
  pub task_output : requested.output_tokens ≤ manager.budget.task_output_tokens
  pub after : IsWithin (spend requested manager)

-- A request is allowed only if a retry is left, it fits the limits of a task, and the day's usage together
-- with it fits the limits of the day.
pub check-Affordable :
    (manager : TokenBudgetManager) (requested : TokenUsage) (retry_count : ℕ)
    → check manager requested retry_count ≡ allowed
    → Affordable manager requested retry_count
unfolding check
check-Affordable manager requested retry_count e = record {
  retries = ground arith;
  task_input = ground arith;
  task_output = ground arith;
  after = record { input = ground arith; output = ground arith };
}

-- A request that fits is allowed: with a retry left, inside the limits of a task, and with the day's usage
-- together with it inside the limits of the day.
check_complete :
    (manager : TokenBudgetManager) (requested : TokenUsage) (retry_count : ℕ)
    → Affordable manager requested retry_count
    → check manager requested retry_count ≡ allowed
unfolding check
check_complete manager requested retry_count h =
    ground (arith, h.retries, h.task_input, h.task_output, h.after.input, h.after.output)
