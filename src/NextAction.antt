-- ===== src/NextAction.antt =====
-- backend/control/next_action.py: the next bounded action, with the values of
-- backend/models/next_action.py. Of each dictionary that `recommend_next_action` is given, the keys that it
-- reads are fields; a value that is missing or empty is `none`.
pub mod Bounded
use Prim.Native.String.{◌++◌}
use ai_control_center.Base.{
  ◌≡◌, refl, ◌≢◌, ◌⊎◌, inl, inr, String, Bool, true, false, Option, none, some, List, [], ◌∷◌,
  arith, ◌==◌, get_last?, eq_iff, Bool-cases, if◌then◌else◌,
}
use ai_control_center.Base.Keyed.{contains}

pub data NextActionType : Type 0 where
  no_further_action complete_verified_work run_trusted_experiment run_week1_day : NextActionType
  external_action_required human_decision_required : NextActionType

pub record NextAction : Type 0 where
  pub action_type : NextActionType
  pub target_id : Option String
  pub summary : String
  pub reason : String
  pub reasoning_required : Bool
  pub human_attention_required : Bool
  pub policy_result : String

pub record GitCandidate : Type 0 where
  pub run_id : String
  pub task_id : String

pub record ZeroTouchRun : Type 0 where
  pub status : Option String
  pub completion_reason : Option String

pub record ExperimentRun : Type 0 where
  pub outcome : Option String
  pub classification_reason : Option String

-- `TRUSTED_LOCAL_LLM_EXPERIMENT` of backend/control/goal_policy.py
abbrev pub trusted_experiment : String
trusted_experiment = "local_llm_process_consistency_smoke"

-- `EXTERNAL_OUTCOMES`, by the values of `ExperimentOutcome`
abbrev pub external_outcomes : List String
external_outcomes =
    "ENGINE_UNAVAILABLE" ∷ "MODEL_NOT_FOUND" ∷ "TIMEOUT" ∷ "CONFIGURATION_BLOCKED"
    ∷ "HARNESS_FAILURE" ∷ []

abbrev pub or_reason : Option String → String → String
or_reason none reason = reason
or_reason (some text) reason = text

abbrev pub complete_work : GitCandidate → NextAction
complete_work candidate = record {
  action_type = complete_verified_work;
  target_id = some candidate.run_id;
  summary = "Commit and push the verified agent-branch work, then prepare its pull request.";
  reason = candidate.task_id ++ " passed deterministic verification and scope validation.";
  reasoning_required = false;
  human_attention_required = false;
  policy_result = "VERIFIED_AGENT_BRANCH_ONLY";
}

abbrev pub finish_flow : ZeroTouchRun → NextAction
finish_flow run = record {
  action_type = no_further_action;
  target_id = none;
  summary = "The bounded Zero-Touch flow is complete.";
  reason = or_reason run.completion_reason "TRUSTED_FLOW_COMPLETE";
  reasoning_required = false;
  human_attention_required = false;
  policy_result = "TERMINAL_COMPLETION";
}

abbrev pub ask_external : String → ExperimentRun → NextAction
ask_external outcome run = record {
  action_type = external_action_required;
  target_id = none;
  summary = "External runtime action is required before continuing.";
  reason = or_reason run.classification_reason outcome;
  reasoning_required = false;
  human_attention_required = true;
  policy_result = "EXTERNAL_ACTION_REQUIRED";
}

abbrev pub continue_trusted : String → NextAction
continue_trusted reason = record {
  action_type = run_trusted_experiment;
  target_id = some trusted_experiment;
  summary = "Continue with the configured trusted LocalLLM process-consistency experiment.";
  reason = reason;
  reasoning_required = false;
  human_attention_required = false;
  policy_result = "TRUSTED_EXPERIMENT_ONLY";
}

abbrev pub ask_human : NextAction
ask_human = record {
  action_type = human_decision_required;
  target_id = none;
  summary = "No configured trusted continuation is available.";
  reason = "TRUSTED_EXPERIMENT_NOT_CONFIGURED";
  reasoning_required = false;
  human_attention_required = true;
  policy_result = "NO_SAFE_ACTION";
}

-- The last two branches.
unfoldable pub trusted_or_human : List String → String → NextAction
trusted_or_human configured reason =
    if contains configured trusted_experiment then continue_trusted reason else ask_human

abbrev pub quiet_reason : String
quiet_reason = "The prior trusted experiment completed without a runtime-blocking outcome."

unfoldable pub after_outcome : List String → ExperimentRun → Option String → NextAction
after_outcome configured run none = trusted_or_human configured quiet_reason
after_outcome configured run (some outcome) =
    if contains external_outcomes outcome
    then ask_external outcome run
    else trusted_or_human configured quiet_reason

unfoldable pub after_experiment : List String → Option ExperimentRun → NextAction
after_experiment configured none =
    trusted_or_human configured "No prior trusted experiment result is recorded."
after_experiment configured (some run) = after_outcome configured run run.outcome

abbrev pub is_complete : Option String → Bool
is_complete none = false
is_complete (some status) = status == "COMPLETE"

unfoldable pub after_zero_touch :
    List ExperimentRun → List String → Option ZeroTouchRun → NextAction
after_zero_touch runs configured none = after_experiment configured (get_last? runs)
after_zero_touch runs configured (some run) =
    if is_complete run.status then finish_flow run else after_experiment configured (get_last? runs)

-- `recommend_next_action`
unfoldable pub recommend_next_action :
    List ExperimentRun → List String → List GitCandidate → List ZeroTouchRun → NextAction
recommend_next_action runs configured (candidate ∷ candidates) flows = complete_work candidate
recommend_next_action runs configured [] flows = after_zero_touch runs configured (get_last? flows)
