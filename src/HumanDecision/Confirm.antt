-- ===== src/HumanDecision/Confirm.antt =====
-- backend/control/human_decision.py: the confirmation of a recorded decision by the reviewer.
use ai_control_center.Base.{
  ℕ, String, Bool, true, false, ◌&&◌, ◌||◌, not, Option, none, some, List, [], ◌∷◌, ◌==◌, get_elem?,
  if◌then◌else◌,
}
use ai_control_center.HumanDecision.{
  SubjectType, DecisionState, review_confirmed, rejected, delivery_failed, DecisionRequest,
  HumanResponse, ConfirmationPayload, DecisionRecord, DecisionControl, DecisionAnswer, accepted,
  refused, failed, raised, same_option_text, same_option_number, same_subject, is_missing, receive,
}
use ai_control_center.HumanDecision.Ask.{
  ConfirmationRequest, ConfirmationResponse, change_record, is_pending, build_confirmation,
}

-- The loop over `expected`: the first field that differs.
unfoldable pub mismatch : ConfirmationPayload → ConfirmationResponse → Option String
mismatch payload response =
    if not (same_option_text response.in_reply_to (some payload.report_id))
    then some "CONFIRMATION_IN_REPLY_TO_MISMATCH"
    else if not (same_option_text response.confirms_report_id (some payload.confirms_report_id))
    then some "CONFIRMATION_CONFIRMS_REPORT_ID_MISMATCH"
    else if not (same_option_text response.confirms_response_id (some payload.confirms_response_id))
    then some "CONFIRMATION_CONFIRMS_RESPONSE_ID_MISMATCH"
    else if not (same_option_text response.decision_id payload.decision_id)
    then some "CONFIRMATION_DECISION_ID_MISMATCH"
    else if not (same_option_number response.decision_revision payload.decision_revision)
    then some "CONFIRMATION_DECISION_REVISION_MISMATCH"
    else if not (same_option_text response.reviewed_commit payload.reviewed_commit)
    then some "CONFIRMATION_REVIEWED_COMMIT_MISMATCH"
    else if not (same_subject response.subject_type payload.subject_type)
    then some "CONFIRMATION_SUBJECT_TYPE_MISMATCH"
    else if not (same_option_text response.decision_effect payload.decision_effect)
    then some "CONFIRMATION_DECISION_EFFECT_MISMATCH"
    else none

-- `response.get("RESULT") in POSITIVE_RESULTS`
abbrev pub is_positive : Option String → Bool
is_positive none = false
is_positive (some result) = (result == "CONTINUE") || (result == "ACCEPT_COMPLETE")

abbrev pub reject_record : DecisionRecord → DecisionRecord
reject_record r = record r { state = rejected; reason_code = some "REVIEWER_DID_NOT_CONFIRM" }

abbrev pub confirm_record : Option String → Option String → DecisionRecord → DecisionRecord
confirm_record response_id evidence r = record r {
  state = review_confirmed;
  reason_code = none;
  confirmation_response_id = response_id;
  allowed_effect = r.decision_effect;
  effect_evidence_id = evidence;
}

-- `apply_confirmation` once every field agrees
unfoldable pub settle_confirmation :
    ConfirmationResponse
    → Bool
    → Option String
    → ℕ
    → DecisionControl
    → DecisionAnswer × DecisionControl
settle_confirmation response continued evidence i control =
    if not (is_positive response.result)
    then (refused "REVIEWER_DID_NOT_CONFIRM", change_record reject_record i control)
    else if not continued || is_missing evidence
    then (refused "CONFIRMATION_EFFECT_NOT_VERIFIED", control)
    else (accepted, change_record (confirm_record response.response_id evidence) i control)

unfoldable pub compare_confirmation :
    ConfirmationResponse
    → Bool
    → Option String
    → ℕ
    → Option String
    → DecisionControl
    → DecisionAnswer × DecisionControl
compare_confirmation response continued evidence i (some reason) control = (refused reason, control)
compare_confirmation response continued evidence i none control =
    settle_confirmation response continued evidence i control

-- `apply_confirmation` for a pending record, by its payload and the response's identifier.
unfoldable pub apply_pending :
    ConfirmationResponse
    → Bool
    → Option String
    → ℕ
    → Option ConfirmationPayload
    → Option String
    → DecisionControl
    → DecisionAnswer × DecisionControl
apply_pending response continued evidence i none id control = (raised, control)
apply_pending response continued evidence i (some payload) none control =
    (refused "CONFIRMATION_RESPONSE_ID_MISSING", control)
apply_pending response continued evidence i (some payload) (some id) control =
    compare_confirmation response continued evidence i (mismatch payload response) control

unfoldable pub apply_at :
    ConfirmationResponse
    → Bool
    → Option String
    → ℕ
    → Option DecisionRecord
    → DecisionControl
    → DecisionAnswer × DecisionControl
apply_at response continued evidence i none control = (raised, control)
apply_at response continued evidence i (some r) control =
    if is_pending r.state
    then apply_pending response continued evidence i r.confirmation_payload response.response_id
        control
    else (refused "CONFIRMATION_NOT_PENDING", control)

-- `apply_confirmation`
unfoldable pub apply_confirmation :
    ConfirmationResponse
    → Bool
    → Option String
    → ℕ
    → DecisionControl
    → DecisionAnswer × DecisionControl
apply_confirmation response continued evidence i control =
    apply_at response continued evidence i (get_elem? control.records i) control

abbrev pub fail_record : String → DecisionRecord → DecisionRecord
fail_record reason r = record r { state = delivery_failed; reason_code = some reason }

unfoldable pub fail_at :
    String → ℕ → Option DecisionRecord → DecisionControl → DecisionAnswer × DecisionControl
fail_at reason i none control = (raised, control)
fail_at reason i (some r) control = (failed reason, change_record (fail_record reason) i control)

-- `mark_delivery_failure`
unfoldable pub mark_delivery_failure :
    String → ℕ → DecisionControl → DecisionAnswer × DecisionControl
mark_delivery_failure reason i control = fail_at reason i (get_elem? control.records i) control

-- The methods that change the control.
pub data DecisionCall : Type 0 where
  response_received : HumanResponse → List DecisionRequest → DecisionCall
  confirmation_asked : ConfirmationRequest → ℕ → DecisionCall
  confirmation_applied : ConfirmationResponse → Bool → Option String → ℕ → DecisionCall
  delivery_marked : String → ℕ → DecisionCall

unfoldable pub decide : DecisionCall → DecisionControl → DecisionAnswer × DecisionControl
decide (response_received response requests) control = receive response requests control
decide (confirmation_asked ask i) control = build_confirmation ask i control
decide (confirmation_applied response continued evidence i) control =
    apply_confirmation response continued evidence i control
decide (delivery_marked reason i) control = mark_delivery_failure reason i control

unfoldable pub decide_all : List DecisionCall → DecisionControl → DecisionControl
decide_all [] control = control
decide_all (call ∷ calls) control = decide_all calls (decide call control).1

-- What `view` grants of a record.
pub record DecisionGrants : Type 0 where
  pub effect_applied : Bool
  pub artifact_accepted : Bool
  pub gate_exit_complete : Bool
  pub implementation_authorized : Bool

abbrev pub is_confirmed : DecisionState → Bool
is_confirmed review_confirmed = true
is_confirmed _ = false

-- `view`, for what it derives from the record.
unfoldable pub grants : DecisionRecord → DecisionGrants
grants r = record {
  effect_applied = is_confirmed r.state;
  artifact_accepted =
      is_confirmed r.state && same_subject r.subject_type (some SubjectType.codex_artifact);
  gate_exit_complete =
      is_confirmed r.state && same_subject r.subject_type (some SubjectType.gate_exit);
  implementation_authorized =
      is_confirmed r.state && same_subject r.subject_type (some SubjectType.execution_authority);
}
