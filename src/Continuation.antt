-- ===== src/Continuation.antt =====
-- backend/control/review_continuation.py: `ReviewContinuationControl`, which shows how far a response that
-- was received has been applied. A time is as in ReviewControl.
pub mod Observed
pub mod Moves
use Prim.Native.String.{String}
use ai_control_center.Base.{
  ℕ, zero, suc, Bool, true, false, ◌&&◌, ◌||◌, not, Option, none, some, List, [], ◌∷◌, ◌==◌,
  if◌then◌else◌,
}
use ai_control_center.Base.Int.{ℤ, pos}
use ai_control_center.Base.Words.{is_empty_text}
use ai_control_center.ReviewControl.{Moment, naive, aware}

pub data ContinuationState : Type 0 where
  received_pending_apply applying applied verified continuation_failed delivery_failed :
      ContinuationState

pub record ContinuationControl : Type 0 where
  pub report_id : String
  pub response_id : String
  pub comment_id : String
  pub state : ContinuationState
  pub received_at : ℕ
  pub applying_at : Option ℕ
  pub applied_at : Option ℕ
  pub verified_at : Option ℕ
  pub failed_at : Option ℕ
  pub current_action : String
  pub exit_code : Option ℤ
  pub envelope_valid : Option Bool
  pub envelope_validation_reason : Option String
  pub downstream_effect_id : Option String
  pub failure_reason : Option String
  pub execution_actor : Option String
  pub auth_available : Option Bool

abbrev pub pending_control : String → String → String → ℕ → ContinuationControl
pending_control report_id response_id comment_id received_at = record {
  report_id = report_id;
  response_id = response_id;
  comment_id = comment_id;
  state = received_pending_apply;
  received_at = received_at;
  applying_at = none;
  applied_at = none;
  verified_at = none;
  failed_at = none;
  current_action = "Await bounded continuation start.";
  exit_code = none;
  envelope_valid = none;
  envelope_validation_reason = none;
  downstream_effect_id = none;
  failure_reason = none;
  execution_actor = none;
  auth_available = none;
}

-- The constructor, which raises for a time without a zone.
unfoldable pub new_continuation : String → String → String → Moment → Option ContinuationControl
new_continuation report_id response_id comment_id naive = none
new_continuation report_id response_id comment_id (aware now) =
    some (pending_control report_id response_id comment_id now)

pub data ContinuationOutcome : Type 0 where
  accepted rejected failed : ContinuationOutcome

-- A method answers with an outcome, a reason and the fields of the control that it leaves, or raises.
pub data Replied : Type 0 where
  replied : ContinuationOutcome → Option String → ContinuationControl → Replied
  raised : ContinuationControl → Replied

abbrev pub continuation_after : Replied → ContinuationControl
continuation_after (replied outcome reason c) = c
continuation_after (raised c) = c

abbrev pub is_pending : ContinuationState → Bool
is_pending received_pending_apply = true
is_pending _ = false

abbrev pub is_applying : ContinuationState → Bool
is_applying applying = true
is_applying _ = false

abbrev pub is_applied : ContinuationState → Bool
is_applied applied = true
is_applied _ = false

abbrev pub is_zero : ℤ → Bool
is_zero (pos zero) = true
is_zero _ = false

-- `begin` from `self._aware(at)` on; the state is written before.
abbrev pub finish_begin : Moment → String → ContinuationControl → Replied
finish_begin naive actor c = raised c
finish_begin (aware now) actor c = replied accepted none (record c {
  applying_at = some now;
  current_action = "Validate the bounded continuation envelope.";
  execution_actor = some actor;
})

-- `begin`
unfoldable pub begin : String → String → Moment → String → ContinuationControl → Replied
begin report_id response_id at actor c =
    if not (is_pending c.state)
    then replied rejected (some "CONTINUATION_NOT_PENDING") c
    else if not (report_id == c.report_id) || not (response_id == c.response_id)
    then replied rejected (some "CONTINUATION_IDENTITY_MISMATCH") c
    else finish_begin at actor (record c { state = applying })

-- `_continuation_fail`
abbrev pub continuation_fail : String → Moment → ContinuationControl → Replied
continuation_fail reason naive c =
    raised (record c { state = continuation_failed; failure_reason = some reason })
continuation_fail reason (aware now) c = replied failed (some reason) (record c {
  state = continuation_failed;
  failure_reason = some reason;
  failed_at = some now;
  current_action = "Preserve evidence and diagnose before any retry.";
})

-- `finish` with an effect: it is written before the time is checked.
abbrev pub record_effect : Option String → Moment → ContinuationControl → Replied
record_effect effect naive c = raised (record c { downstream_effect_id = effect })
record_effect effect (aware now) c = replied accepted none (record c {
  downstream_effect_id = effect;
  applied_at = some now;
  state = applied;
  current_action = "Read back the recorded downstream effect before verification.";
})

abbrev pub is_missing : Option String → Bool
is_missing none = true
is_missing (some text) = is_empty_text text

-- `finish` for a control that is applying.
unfoldable pub finish_applying :
    ℤ → Bool → String → Option String → Moment → ContinuationControl → Replied
finish_applying exit_code envelope_valid reason effect at c =
    let c' = record c {
      exit_code = some exit_code;
      envelope_valid = some envelope_valid;
      envelope_validation_reason = some reason;
    } in
    if not (is_zero exit_code)
    then continuation_fail "CONTINUATION_PROCESS_FAILED" at c'
    else if not envelope_valid
    then continuation_fail "INVALID_CONTINUATION_ENVELOPE" at c'
    else if is_missing effect
    then continuation_fail "DOWNSTREAM_EFFECT_NOT_OBSERVED" at c'
    else record_effect effect at c'

-- `finish`
unfoldable pub finish : ℤ → Bool → String → Option String → Moment → ContinuationControl → Replied
finish exit_code envelope_valid reason effect at c =
    if is_applying c.state
    then finish_applying exit_code envelope_valid reason effect at c
    else replied rejected (some "CONTINUATION_NOT_APPLYING") c

abbrev pub is_effect : String → Option String → Bool
is_effect observed none = false
is_effect observed (some effect) = observed == effect

-- `verify` writes the state before the time is checked.
abbrev pub finish_verify : Moment → ContinuationControl → Replied
finish_verify naive c = raised c
finish_verify (aware now) c = replied accepted none (record c {
  verified_at = some now;
  current_action = "Continuation and downstream effect are verified.";
})

-- `verify`
unfoldable pub verify : String → Moment → ContinuationControl → Replied
verify observed at c =
    if not (is_applied c.state)
    then replied rejected (some "CONTINUATION_NOT_APPLIED") c
    else if is_empty_text observed || not (is_effect observed c.downstream_effect_id)
    then replied rejected (some "DOWNSTREAM_EFFECT_MISMATCH") c
    else finish_verify at (record c { state = verified })

-- `fail_auth_context`, which asks for no state.
unfoldable pub fail_auth_context : String → Bool → Moment → ContinuationControl → Replied
fail_auth_context actor auth_available at c =
    let c' = record c {
      execution_actor = some actor;
      auth_available = some auth_available;
      state = delivery_failed;
      failure_reason = some "AUTH_CONTEXT_MISMATCH";
    } in
    elim at [
      | naive ↦ raised c'
      | aware now ↦ replied failed (some "AUTH_CONTEXT_MISMATCH") (record c' {
        failed_at = some now;
        current_action = "Restore the authorized actor context without storing credentials.";
      })
    ]

-- The public methods.
pub data ContinuationCall : Type 0 where
  begin_call : String → String → Moment → String → ContinuationCall
  finish_call : ℤ → Bool → String → Option String → Moment → ContinuationCall
  verify_call : String → Moment → ContinuationCall
  fail_call : String → Bool → Moment → ContinuationCall

unfoldable pub call : ContinuationCall → ContinuationControl → Replied
call (begin_call report_id response_id at actor) c = begin report_id response_id at actor c
call (finish_call exit_code valid reason effect at) c = finish exit_code valid reason effect at c
call (verify_call observed at) c = verify observed at c
call (fail_call actor auth_available at) c = fail_auth_context actor auth_available at c

-- One after the other; a method that raised leaves what it wrote.
unfoldable pub call_all : List ContinuationCall → ContinuationControl → ContinuationControl
call_all [] c = c
call_all (x ∷ calls) c = call_all calls (continuation_after (call x c))
