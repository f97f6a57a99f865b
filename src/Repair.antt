-- ===== src/Repair.antt =====
-- backend/control/repair_recovery.py: `RepairRecoveryController`. The identifier of a review request, a
-- digest of three values, and the time of each change are parameters.
pub mod Bounded
pub mod Stranded
pub mod Stored
use mathlib.Core.List.{◌++◌}
use ai_control_center.Base.{
  ℕ, is_empty_list, ◌≤◌, ◌≡◌, String, Bool, true, false, ◌&&◌, ◌||◌, not, Option, none, some, List,
  [], ◌∷◌, ltb, leb, ◌==◌, map, all, count_items, length, same_number, if◌then◌else◌,
}
use ai_control_center.Base.Keyed.{contains}
use ai_control_center.Base.Paths.{forward_slashes}
use ai_control_center.Contract.{
  LocalLlmDayState, preflight, diagnosing_gap, revalidating, human_action_required, same_phase,
}
use ai_control_center.Runs.{RunIntent, RunControl, RunRecord}

pub record RepairAttempt : Type 0 where
  pub run_id : String
  pub selected_day : ℕ
  pub failure_fingerprint : String
  pub action_fingerprint : String
  pub changed_paths : List String
  pub git_fingerprint : String
  pub active_work_seconds : ℕ
  pub verification_passed : Bool

pub data ReviewResult : Type 0 where
  recheck reject : ReviewResult

pub record RepairReview : Type 0 where
  pub request_id : String
  pub run_id : String
  pub selected_day : ℕ
  pub failure_fingerprint : String
  pub result : ReviewResult

pub record RepairController : Type 0 where
  pub run : RunRecord
  pub allowed_paths : List String
  pub attempts : List RepairAttempt  -- in the order they were made
  pub review_request_id : Option String
  pub repeated_failure_fingerprint : Option String

-- The constructor
abbrev pub new_controller : RunRecord → List String → RepairController
new_controller run allowed_paths = record {
  run = run;
  allowed_paths = map forward_slashes allowed_paths;
  attempts = [];
  review_request_id = none;
  repeated_failure_fingerprint = none;
}

-- The status and the reason of `_view`.
pub data RepairStatus : Type 0 where
  attempt_rejected now_revalidating now_human_action now_diagnosing : RepairStatus
  review_rejected now_preflight : RepairStatus

pub record RepairAnswer : Type 0 where
  pub status : RepairStatus
  pub reason_code : Option String
  pub controller : RepairController

-- A method answers, or raises for an input that does not validate.
pub data Repaired : Type 0 where
  answered : RepairAnswer → Repaired
  invalid_input : RepairController → Repaired

abbrev pub controller_after : Repaired → RepairController
controller_after (answered a) = a.controller
controller_after (invalid_input c) = c

abbrev pub answer : RepairStatus → Option String → RepairController → Repaired
answer status reason c = answered (record { status = status; reason_code = reason; controller = c })

-- `_set_control`
abbrev pub next_control :
    ℕ → LocalLlmDayState → String → Option String → Bool → RunControl → RunControl
next_control now state next_action blocker resume prior = record {
  run_id = prior.run_id;
  selected_day = prior.selected_day;
  contract_fingerprint = prior.contract_fingerprint;
  current_state = state;
  state_history = prior.state_history ++ prior.current_state ∷ [];
  next_action = next_action;
  blocker = blocker;
  resume_preflight = resume;
  updated_at = now;
}

abbrev pub set_control :
    ℕ → LocalLlmDayState → String → Option String → Bool → RepairController → RepairController
set_control now state next_action blocker resume c = record c {
  run = record c.run { control = next_control now state next_action blocker resume c.run.control };
}

-- The changed paths are some, and each is allowed.
abbrev pub in_scope : RepairController → List String → Bool
in_scope c paths =
    not (is_empty_list paths) && all (λ path. contains c.allowed_paths (forward_slashes path)) paths

-- `_guard_reason`
unfoldable pub guard_reason : RepairController → RepairAttempt → Option String
guard_reason c attempt =
    let intent = c.run.intent in
    if not (attempt.run_id == intent.run_id)
      || not (same_number attempt.selected_day intent.selected_day)
    then some "RUN_IDENTITY_MISMATCH"
    else if leb intent.requested_limits.max_attempts (length c.attempts)
    then some "ATTEMPT_LIMIT_EXHAUSTED"
    else if ltb intent.requested_limits.active_work_seconds attempt.active_work_seconds
    then some "ACTIVE_WORK_BUDGET_EXCEEDED"
    else if not (attempt.git_fingerprint == intent.git_fingerprint)
    then some "GIT_FINGERPRINT_MISMATCH"
    else if in_scope c attempt.changed_paths
    then none
    else some "REPAIR_SCOPE_REJECTED"

abbrev pub add_attempt : RepairAttempt → RepairController → RepairController
add_attempt attempt c = record c { attempts = c.attempts ++ attempt ∷ [] }

abbrev pub is_same_failure : String → RepairAttempt → Bool
is_same_failure fingerprint attempt = attempt.failure_fingerprint == fingerprint

-- The attempts with the same failure have used the limit up.
abbrev pub is_repeated : RepairAttempt → RepairController → Bool
is_repeated attempt c =
    leb c.run.intent.requested_limits.max_attempts
      (count_items (is_same_failure attempt.failure_fingerprint) c.attempts)

abbrev pub is_same_text : String → Option String → Bool
is_same_text text none = false
is_same_text text (some other) = text == other

-- `expected` of `apply_review`
unfoldable pub is_expected : RepairReview → RepairController → Bool
is_expected review c =
    same_phase c.run.control.current_state human_action_required
    && is_same_text review.request_id c.review_request_id
    && (review.run_id == c.run.intent.run_id)
    && same_number review.selected_day c.run.intent.selected_day
    && is_same_text review.failure_fingerprint c.repeated_failure_fingerprint

abbrev pub follow_review : ℕ → ReviewResult → RepairController → Repaired
follow_review now reject c = answer now_human_action (some "REVIEW_REJECTED_REPAIR") c
follow_review now recheck c = answer now_preflight none (
    set_control now preflight
      "Recheck contract, authority, Git, budget, attempt limit and Evidence for the same run." none
      false c)

-- `apply_review`
unfoldable pub apply_review : ℕ → Option RepairReview → RepairController → Repaired
apply_review now none c = invalid_input c
apply_review now (some review) c =
    if is_expected review c
    then follow_review now review.result c
    else answer review_rejected (some "REVIEW_CORRELATION_MISMATCH") c

-- The public methods, with the time at which each is called.
pub data RepairCall : Type 0 where
  attempt_made : ℕ → Option RepairAttempt → RepairCall
  review_made : ℕ → Option RepairReview → RepairCall

module _ (request_digest : String → ℕ → String → String) where
  abbrev pub ask_review : RepairAttempt → RepairController → RepairController
  ask_review attempt c = record c {
    repeated_failure_fingerprint = some attempt.failure_fingerprint;
    review_request_id =
        some (request_digest attempt.run_id attempt.selected_day attempt.failure_fingerprint);
  }

  -- `record_attempt` after the guard, for the controller that holds the attempt.
  unfoldable pub settle_attempt : ℕ → RepairAttempt → RepairController → Repaired
  settle_attempt now attempt c =
      if attempt.verification_passed
      then answer now_revalidating none (
          set_control now revalidating "Evaluate validator-owned Evidence for the same criterion."
            none false c)
      else if is_repeated attempt c
      then answer now_human_action (some "REPEATED_FAILURE_ATTEMPT_LIMIT") (
          set_control now human_action_required
            "Await a matching review, then re-enter same-run PREFLIGHT checks."
            (some "REPEATED_FAILURE_ATTEMPT_LIMIT") true (ask_review attempt c))
      else answer now_diagnosing (some "DETERMINISTIC_REVALIDATION_FAILED") (
          set_control now diagnosing_gap
            "One bounded repair attempt remains for this failure fingerprint." none false c)

  unfoldable pub guarded_attempt : ℕ → RepairAttempt → Option String → RepairController → Repaired
  guarded_attempt now attempt (some reason) c = answer attempt_rejected (some reason) c
  guarded_attempt now attempt none c = settle_attempt now attempt (add_attempt attempt c)

  -- `record_attempt`; `none` is an input that does not validate.
  unfoldable pub record_attempt : ℕ → Option RepairAttempt → RepairController → Repaired
  record_attempt now none c = invalid_input c
  record_attempt now (some attempt) c = guarded_attempt now attempt (guard_reason c attempt) c

  unfoldable pub repair : RepairCall → RepairController → Repaired
  repair (attempt_made now attempt) c = record_attempt now attempt c
  repair (review_made now review) c = apply_review now review c

  unfoldable pub repair_all : List RepairCall → RepairController → RepairController
  repair_all [] c = c
  repair_all (call ∷ calls) c = repair_all calls (controller_after (repair call c))
