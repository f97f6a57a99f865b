-- ===== src/Budget/Accounted.antt =====
-- What a day's usage is after any calls of `record` and `record_actual` (backend/control/token_budget.py).
use ai_control_center.Base.{ℕ, ◌+◌, ◌≤◌, ◌≡◌, refl, ap, ◌∙◌, List, [], ◌∷◌, arith}
use ai_control_center.Usage.{TokenUsage}
use ai_control_center.Budget.{
  BudgetDecision, allowed, task_budget_exceeded, daily_budget_exceeded, retry_limit_exceeded,
  TokenBudgetManager, check, spend, spend_if, record_usage, record_actual, IsWithin,
  check-Affordable,
}

-- The methods that add to the day's usage.
pub data UsageCall : Type 0 where
  recorded observed : TokenUsage → ℕ → UsageCall

abbrev pub call : UsageCall → TokenBudgetManager → TokenBudgetManager
call (recorded usage retry_count) manager = (record_usage usage retry_count manager).1
call (observed usage retry_count) manager = (record_actual usage retry_count manager).1

-- One after the other, for the manager that they leave.
unfoldable pub call_all : List UsageCall → TokenBudgetManager → TokenBudgetManager
call_all [] manager = manager
call_all (c ∷ calls) manager = call_all calls (call c manager)

-- What the calls answer.
abbrev pub decision_of : UsageCall → TokenBudgetManager → BudgetDecision
decision_of (recorded usage retry_count) manager = (record_usage usage retry_count manager).0
decision_of (observed usage retry_count) manager = (record_actual usage retry_count manager).0

unfoldable pub decisions : List UsageCall → TokenBudgetManager → List BudgetDecision
decisions [] manager = []
decisions (c ∷ calls) manager = decision_of c manager ∷ decisions calls (call c manager)

abbrev pub counted_if : BudgetDecision → ℕ → ℕ
counted_if allowed n = n
counted_if _ n = 0

-- What counts, by a field of the usage: what was observed, and what was recorded and answered with `allowed`.
unfoldable pub total_counted : (TokenUsage → ℕ) → List UsageCall → List BudgetDecision → ℕ
total_counted field (recorded usage retry_count ∷ calls) (decision ∷ answers) =
    counted_if decision (field usage) + total_counted field calls answers
total_counted field (observed usage retry_count ∷ calls) (decision ∷ answers) =
    field usage + total_counted field calls answers
total_counted field _ _ = 0

-- What the calls of `record_actual` observed, by a field of the usage.
unfoldable pub total_observed : (TokenUsage → ℕ) → List UsageCall → ℕ
total_observed field [] = 0
total_observed field (recorded usage retry_count ∷ calls) = total_observed field calls
total_observed field (observed usage retry_count ∷ calls) = field usage + total_observed field calls

-- A usage after some observed ones: nothing observed is lost, and only what was observed passes the limit.
abbrev IsBounded : ℕ → ℕ → ℕ → ℕ → Type 0
IsBounded before after seen limit = (before + seen ≤ after) × (after ≤ limit + seen)

-- The day's usage after some calls.
pub record IsAccounted (calls : List UsageCall) (before after : TokenBudgetManager) : Type 0 where
  pub budget : after.budget ≡ before.budget
  pub input_counted :
      after.day_usage.input_tokens
      ≡ before.day_usage.input_tokens
        + total_counted (λ usage. usage.input_tokens) calls (decisions calls before)
  pub output_counted :
      after.day_usage.output_tokens
      ≡ before.day_usage.output_tokens
        + total_counted (λ usage. usage.output_tokens) calls (decisions calls before)
  pub input :
      IsBounded before.day_usage.input_tokens after.day_usage.input_tokens
        (total_observed (λ usage. usage.input_tokens) calls)
        before.budget.daily_input_tokens
  pub output :
      IsBounded before.day_usage.output_tokens after.day_usage.output_tokens
        (total_observed (λ usage. usage.output_tokens) calls)
        before.budget.daily_output_tokens

-- The day's usage passes its limits by at most some input and some output tokens.
abbrev IsNear : ℕ → ℕ → TokenBudgetManager → Type 0
IsNear input output manager =
    (manager.day_usage.input_tokens ≤ manager.budget.daily_input_tokens + input)
    × (manager.day_usage.output_tokens ≤ manager.budget.daily_output_tokens + output)

IsWithin-IsNear :
    (input output : ℕ) (manager : TokenBudgetManager)
    → IsWithin manager
    → IsNear input output manager
IsWithin-IsNear input output manager h = ground (arith, h.input, h.output)

spend_if-IsNear :
    (decision : BudgetDecision) (usage : TokenUsage) (input output : ℕ)
    (manager : TokenBudgetManager)
    → (decision ≡ allowed → IsWithin (spend usage manager))
    → IsNear input output manager
    → IsNear input output (spend_if decision usage manager)
spend_if-IsNear allowed usage input output manager fits h =
    IsWithin-IsNear input output _ (fits refl)
spend_if-IsNear task_budget_exceeded usage input output manager fits h = h
spend_if-IsNear daily_budget_exceeded usage input output manager fits h = h
spend_if-IsNear retry_limit_exceeded usage input output manager fits h = h

call_all-IsNear :
    (calls : List UsageCall) (input output : ℕ) (manager : TokenBudgetManager)
    → IsNear input output manager
    → IsNear
        (total_observed (λ usage. usage.input_tokens) calls + input)
        (total_observed (λ usage. usage.output_tokens) calls + output)
        (call_all calls manager)
unfolding call_all total_observed record_usage record_actual
call_all-IsNear [] input output manager h = (omega (arith, h.0), omega (arith, h.1))
call_all-IsNear (recorded usage retry_count ∷ calls) input output manager h =
    call_all-IsNear calls input output _ (
      spend_if-IsNear (check manager usage retry_count) usage input output manager
        (λ e. (check-Affordable manager usage retry_count e).after) h)
call_all-IsNear (observed usage retry_count ∷ calls) input output manager h = ground (
  arith,
  call_all-IsNear calls (usage.input_tokens + input) (usage.output_tokens + output)
      (spend usage manager) (ground (arith, h)),
)

-- No tokens are taken back, and the limits stay.
abbrev Grows : ℕ → ℕ → TokenBudgetManager → TokenBudgetManager → Type 0
Grows input output before after =
    (after.budget ≡ before.budget)
    × (before.day_usage.input_tokens + input ≤ after.day_usage.input_tokens)
    × (before.day_usage.output_tokens + output ≤ after.day_usage.output_tokens)

spend_if-Grows :
    (decision : BudgetDecision) (usage : TokenUsage) (manager : TokenBudgetManager)
    → Grows 0 0 manager (spend_if decision usage manager)
spend_if-Grows allowed usage manager = (refl, omega arith, omega arith)
spend_if-Grows task_budget_exceeded usage manager = (refl, omega arith, omega arith)
spend_if-Grows daily_budget_exceeded usage manager = (refl, omega arith, omega arith)
spend_if-Grows retry_limit_exceeded usage manager = (refl, omega arith, omega arith)

call_all-Grows :
    (calls : List UsageCall) (manager : TokenBudgetManager)
    → Grows
        (total_observed (λ usage. usage.input_tokens) calls)
        (total_observed (λ usage. usage.output_tokens) calls)
        manager
        (call_all calls manager)
unfolding call_all total_observed record_usage record_actual
call_all-Grows [] manager = (refl, omega arith, omega arith)
call_all-Grows (recorded usage retry_count ∷ calls) manager =
    let (same, input, output) = spend_if-Grows (check manager usage retry_count) usage manager in
    let (rest, input', output') =
      call_all-Grows calls (call (recorded usage retry_count) manager) in
    (rest ∙ same, omega arith, omega arith)
call_all-Grows (observed usage retry_count ∷ calls) manager =
    let (rest, input, output) = call_all-Grows calls (spend usage manager) in
    (rest, omega arith, omega arith)

-- What is counted was added.
abbrev Adds : ℕ → ℕ → TokenBudgetManager → TokenBudgetManager → Type 0
Adds input output before after =
    (after.day_usage.input_tokens ≡ before.day_usage.input_tokens + input)
    × (after.day_usage.output_tokens ≡ before.day_usage.output_tokens + output)

spend_if-Adds :
    (decision : BudgetDecision) (usage : TokenUsage) (manager : TokenBudgetManager)
    → Adds
        (counted_if decision usage.input_tokens)
        (counted_if decision usage.output_tokens)
        manager
        (spend_if decision usage manager)
spend_if-Adds allowed usage manager = (refl, refl)
spend_if-Adds task_budget_exceeded usage manager = (omega arith, omega arith)
spend_if-Adds daily_budget_exceeded usage manager = (omega arith, omega arith)
spend_if-Adds retry_limit_exceeded usage manager = (omega arith, omega arith)

call_all-Adds :
    (calls : List UsageCall) (manager : TokenBudgetManager)
    → Adds
        (total_counted (λ usage. usage.input_tokens) calls (decisions calls manager))
        (total_counted (λ usage. usage.output_tokens) calls (decisions calls manager))
        manager
        (call_all calls manager)
unfolding call_all total_counted decisions record_usage record_actual
call_all-Adds [] manager = (omega arith, omega arith)
call_all-Adds (recorded usage retry_count ∷ calls) manager =
    let (input, output) = spend_if-Adds (check manager usage retry_count) usage manager in
    let (input', output') = call_all-Adds calls (call (recorded usage retry_count) manager) in
    (omega arith, omega arith)
call_all-Adds (observed usage retry_count ∷ calls) manager =
    let (input, output) = call_all-Adds calls (spend usage manager) in (omega arith, omega arith)

-- After any calls of `record` and `record_actual` on a day that starts inside its limits of input and output
-- tokens, the limits are the same, the day's tokens have grown by exactly what `record_actual` was given and
-- what `record` was given and allowed, and they pass a limit by no more than `record_actual` observed; so they
-- stay inside the limits when nothing was observed.
pub call_all-IsAccounted :
    (calls : List UsageCall) (manager : TokenBudgetManager)
    → IsWithin manager
    → IsAccounted calls manager (call_all calls manager)
call_all-IsAccounted calls manager h =
    let (same, input, output) = call_all-Grows calls manager in
    let near = call_all-IsNear calls 0 0 manager (IsWithin-IsNear 0 0 manager h) in
    let limit_input = ap (λ budget. budget.daily_input_tokens) same in
    let limit_output = ap (λ budget. budget.daily_output_tokens) same in
    record {
      budget = same;
      input_counted = (call_all-Adds calls manager).0;
      output_counted = (call_all-Adds calls manager).1;
      input = (input, omega (arith, near.0, limit_input));
      output = (output, omega (arith, near.1, limit_output));
    }
