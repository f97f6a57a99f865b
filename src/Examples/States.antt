-- ===== src/Examples/States.antt =====
-- The theorems on the token budget, the next action and the states of a run, on concrete inputs.
use ai_control_center.Base.{◌≡◌, refl, true, none, some, List, [], ◌∷◌, arith}
use ai_control_center.NextAction.{ExperimentRun, GitCandidate, recommend_next_action}
use ai_control_center.NextAction.Bounded.{IsBounded, recommend-IsBounded}
use ai_control_center.Usage.{TokenUsage, token_usage, no_usage}
use ai_control_center.Budget.{TokenBudgetManager, IsWithin, check, record_usage, record_actual}
use ai_control_center.Budget.Accounted.{
  UsageCall, recorded, observed, call_all, IsAccounted, call_all-IsAccounted,
}
use ai_control_center.Workflow.{
  RunState, Change, transition_to, retry_incremented, initial_run, is_untested, apply_all,
  apply_all_untested,
}
use ai_control_center.Workflow as Run

abbrev manager : TokenBudgetManager
manager = record {
  budget = record {
    daily_input_tokens = 100;
    daily_output_tokens = 50;
    task_input_tokens = 60;
    task_output_tokens = 30;
    max_retry = 2;
  };
  day_usage = no_usage;
}

abbrev usage : TokenUsage
usage = token_usage 60 10 20 true

manager-IsWithin : IsWithin manager
manager-IsWithin = record { input = omega arith; output = omega arith }

-- The second request would pass the day's limit of input tokens, and is not recorded; the third was observed.
abbrev usage_calls : List UsageCall
usage_calls = recorded usage 0 ∷ recorded usage 1 ∷ observed usage 1 ∷ []

call_all-IsAccounted_example : IsAccounted usage_calls manager (call_all usage_calls manager)
call_all-IsAccounted_example = call_all-IsAccounted usage_calls manager manager-IsWithin

call_all-past : (call_all usage_calls manager).day_usage.input_tokens ≡ 120
unfolding call_all record_usage record_actual check
call_all-past = refl

abbrev changes : List Change
changes =
    transition_to Run.planning none
    ∷ retry_incremented
    ∷ transition_to Run.complete none
    ∷ transition_to Run.precheck (some "ready")
    ∷ []

apply_all_untested_example : is_untested (apply_all changes initial_run).state ≡ true
apply_all_untested_example = apply_all_untested changes initial_run refl refl

abbrev timed_out : ExperimentRun
timed_out = record { outcome = some "TIMEOUT"; classification_reason = none }

abbrev no_candidates : List GitCandidate
no_candidates = []

recommend-IsBounded_example :
    IsBounded [] no_candidates
      (some timed_out)
      (recommend_next_action (timed_out ∷ []) [] no_candidates [])
recommend-IsBounded_example = recommend-IsBounded (timed_out ∷ []) [] no_candidates []
