-- ===== src/NextAction/Bounded.antt =====
-- What `recommend_next_action` of backend/control/next_action.py may recommend.
use ai_control_center.Base.{
  ◌≡◌, refl, ◌≢◌, inl, inr, String, Bool, true, false, Option, none, some, List, [], ◌∷◌, arith,
  ◌==◌, get_last?, eq_iff, Bool-cases,
}
use ai_control_center.Base.Keyed.{contains}
use ai_control_center.NextAction.{
  NextActionType, NextAction, GitCandidate, ZeroTouchRun, ExperimentRun, run_trusted_experiment,
  complete_verified_work, external_action_required, human_decision_required, run_week1_day,
  trusted_experiment, external_outcomes, finish_flow, quiet_reason, trusted_or_human, after_outcome,
  after_experiment, is_complete, after_zero_touch, recommend_next_action,
}

-- The two actions that a person has to take.
abbrev pub needs_person : NextActionType → Bool
needs_person external_action_required = true
needs_person human_decision_required = true
needs_person _ = false

abbrev pub is_first : List GitCandidate → Option String → Bool
is_first [] target = false
is_first (candidate ∷ candidates) none = false
is_first (candidate ∷ candidates) (some target) = candidate.run_id == target

abbrev pub is_external : Option ExperimentRun → Bool
is_external none = false
is_external (some run) = elim run.outcome [
  | none ↦ false
  | some outcome ↦ contains external_outcomes outcome
]

-- What an action may be, for what is configured, for the candidates and for the latest experiment.
pub record IsBounded (configured : List String) (candidates : List GitCandidate)
    (latest : Option ExperimentRun) (action : NextAction) : Type 0 where
  pub attention : action.human_attention_required ≡ needs_person action.action_type
  pub experiment :
      action.action_type ≡ run_trusted_experiment
      → (action.target_id ≡ some trusted_experiment)
        × ((contains configured trusted_experiment ≡ true) × (is_external latest ≡ false))
  pub verified :
      action.action_type ≡ complete_verified_work → is_first candidates action.target_id ≡ true
  pub external : action.action_type ≡ external_action_required → is_external latest ≡ true
  pub not_week1 : action.action_type ≢ run_week1_day

trusted-IsBounded :
    (configured : List String) (candidates : List GitCandidate) (latest : Option ExperimentRun)
    (reason : String)
    → is_external latest ≡ false
    → IsBounded configured candidates latest (trusted_or_human configured reason)
unfolding trusted_or_human
trusted-IsBounded configured candidates latest reason q =
    elim (Bool-cases (contains configured trusted_experiment)) [
      | inl on ↦ rw on (record {
        attention = refl;
        experiment = λ e. (refl, (on, q));
        verified = λ e. absurd (cc);
        external = λ e. absurd (cc);
        not_week1 = λ e. cc;
      })
      | inr off ↦ rw off (record {
        attention = refl;
        experiment = λ e. absurd (cc);
        verified = λ e. absurd (cc);
        external = λ e. absurd (cc);
        not_week1 = λ e. cc;
      })
    ]

outcome-IsBounded :
    (configured : List String) (candidates : List GitCandidate) (run : ExperimentRun)
    (outcome : Option String)
    → run.outcome ≡ outcome
    → IsBounded configured candidates (some run) (after_outcome configured run outcome)
unfolding after_outcome
outcome-IsBounded configured candidates run none o =
    trusted-IsBounded configured candidates (some run) quiet_reason (rw o refl)
outcome-IsBounded configured candidates run (some outcome) o =
    elim (Bool-cases (contains external_outcomes outcome)) [
      | inl blocked ↦ rw blocked (record {
        attention = refl;
        experiment = λ e. absurd (cc);
        verified = λ e. absurd (cc);
        external = λ e. ground (arith, o, blocked);
        not_week1 = λ e. cc;
      })
      | inr quiet ↦ rw quiet (
          trusted-IsBounded configured candidates (some run) quiet_reason
            (ground (arith, o, quiet)))
    ]

experiment-IsBounded :
    (configured : List String) (candidates : List GitCandidate) (latest : Option ExperimentRun)
    → IsBounded configured candidates latest (after_experiment configured latest)
unfolding after_experiment
experiment-IsBounded configured candidates none =
    trusted-IsBounded configured candidates none _ refl
experiment-IsBounded configured candidates (some run) =
    outcome-IsBounded configured candidates run run.outcome refl

finish-IsBounded :
    (configured : List String) (candidates : List GitCandidate) (latest : Option ExperimentRun)
    (flow : ZeroTouchRun)
    → IsBounded configured candidates latest (finish_flow flow)
finish-IsBounded configured candidates latest flow = record {
  attention = refl;
  experiment = λ e. absurd (cc);
  verified = λ e. absurd (cc);
  external = λ e. absurd (cc);
  not_week1 = λ e. cc;
}

flow-IsBounded :
    (runs : List ExperimentRun) (configured : List String) (candidates : List GitCandidate)
    (flow : Option ZeroTouchRun)
    → IsBounded configured candidates (get_last? runs) (after_zero_touch runs configured flow)
unfolding after_zero_touch
flow-IsBounded runs configured candidates none =
    experiment-IsBounded configured candidates (get_last? runs)
flow-IsBounded runs configured candidates (some flow) =
    elim (Bool-cases (is_complete flow.status)) [
      | inl done ↦ rw done (finish-IsBounded configured candidates (get_last? runs) flow)
      | inr more ↦ rw more (experiment-IsBounded configured candidates (get_last? runs))
    ]

-- Every recommended action is bounded: attention is asked for exactly with the two actions of a person; an
-- experiment is the trusted one, is configured, and does not follow an external outcome; verified work is
-- that of the first candidate; an external action follows an external outcome; and no day of week 1 runs.
pub recommend-IsBounded :
    (runs : List ExperimentRun) (configured : List String) (candidates : List GitCandidate)
    (flows : List ZeroTouchRun)
    → IsBounded configured candidates
        (get_last? runs)
        (recommend_next_action runs configured candidates flows)
unfolding recommend_next_action
recommend-IsBounded runs configured (candidate ∷ candidates) flows = record {
  attention = refl;
  experiment = λ e. absurd (cc);
  verified = λ e. ground (arith, eq_iff candidate.run_id candidate.run_id);
  external = λ e. absurd (cc);
  not_week1 = λ e. cc;
}
recommend-IsBounded runs configured [] flows = flow-IsBounded runs configured [] (get_last? flows)
