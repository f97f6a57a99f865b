-- ===== src/Examples/Reviews.antt =====
-- The theorems on a review's control and on human decisions, on concrete calls.
use ai_control_center.Base.{◌≡◌, refl, true, none, some, List, [], ◌∷◌, get_elem?, All}
use ai_control_center.ReviewControl.{
  ReviewResponse, naive, aware, ReviewControl, new_control, answered, accepted, ignored,
  control_after, send, receive, receive_at, receive_sent, ReviewCall, send_report, receive_response,
  apply_response, verify_response, deadline_checked, call_all,
}
use ai_control_center.ReviewControl.Correlated.{IsCorrelated, reachable-IsCorrelated}
use ai_control_center.ReviewControl.Once.{Taken, receive-Taken, receive_once}
use ai_control_center.ReviewControl.Naive.{IsStuck, naive_send_sticks}
use ai_control_center.HumanDecision.{
  DecisionRequest, HumanResponse, DecisionRecord, DecisionControl, new_decisions,
  execution_authority, new_record, receive_bound, binding_reason, request_reason, unbound_reason,
  find_request,
}
use ai_control_center.HumanDecision as Decision
use ai_control_center.HumanDecision.Confirm as Confirm
use ai_control_center.HumanDecision.Confirm.{
  DecisionCall, response_received, confirmation_asked, confirmation_applied, delivery_marked,
  decide, decide_all, grants, mark_delivery_failure, fail_at, apply_confirmation, apply_pending,
  compare_confirmation, settle_confirmation, mismatch, confirm_record,
}
use ai_control_center.HumanDecision.Ask.{
  ConfirmationRequest, ConfirmationResponse, build_confirmation, build_at, build_for,
  ask_confirmation,
}
use ai_control_center.HumanDecision.Decided.{IsSound, IsAuthorised, IsConfirmed}
use ai_control_center.HumanDecision.Bound.{reachable-IsSound, granted_by_person}
use ai_control_center.HumanDecision.Suppressed.{IsSuppressed, confirmed_once}

abbrev reply : ReviewResponse
reply = record { response_id = "RESP-1"; in_reply_to = "REPORT-1"; result = "CONTINUE" }

abbrev review_calls : List ReviewCall
review_calls =
    send_report "REPORT-1" (aware 0)
    ∷ receive_response (some reply) (aware 5) true
    ∷ apply_response "RESP-1" (aware 6)
    ∷ verify_response "EVIDENCE-1" (aware 7)
    ∷ []

reachable-IsCorrelated_example : IsCorrelated (call_all review_calls (new_control 600))
reachable-IsCorrelated_example = reachable-IsCorrelated 600 review_calls refl

abbrev waiting : ReviewControl
waiting = control_after (send "REPORT-1" (aware 0) (new_control 600))

abbrev replied : ReviewControl
replied = control_after (receive (some reply) (aware 5) true waiting)

waiting-reply : receive (some reply) (aware 5) true waiting ≡ answered accepted none replied
unfolding send receive receive_at receive_sent
waiting-reply = refl

receive-Taken_example : Taken reply 5 waiting replied
receive-Taken_example = receive-Taken reply 5 true waiting replied none waiting-reply

receive_once_example :
    receive
      (some reply)
      (aware 9)
      true
      (call_all (deadline_checked (aware 8) ∷ send_report "REPORT-2" (aware 8) ∷ []) replied)
    ≡ answered ignored
        (some "DUPLICATE_RESPONSE")
        (call_all (deadline_checked (aware 8) ∷ send_report "REPORT-2" (aware 8) ∷ []) replied)
receive_once_example =
    receive_once reply reply 5 9 true true none waiting replied
      (deadline_checked (aware 8) ∷ send_report "REPORT-2" (aware 8) ∷ []) waiting-reply refl

naive_send_sticks_example :
    IsStuck "REPORT-1" (call_all (send_report "REPORT-1" naive ∷ review_calls) (new_control 600))
naive_send_sticks_example = naive_send_sticks 600 "REPORT-1" review_calls

abbrev request : DecisionRequest
request = record {
  decision_id = "D-1";
  revision = 1;
  subject_type = execution_authority;
  decision_subject = "Run day 3";
  target_commit = "c0ffee";
  requested_effect = "AUTHORIZE";
}

abbrev spoken : HumanResponse
spoken = record {
  exact_text = "Go";
  decider = "Owner";
  channel = "chat";
  message_id = "M-1";
  source_class = "RECORDED_DIRECT_CONVERSATION";
  received_at = some 10;
  decision_id = some "D-1";
  revision = some 1;
  subject_type = some execution_authority;
  target_commit = some "c0ffee";
  decision_effect = some "AUTHORIZE";
  subject_basis = some "Named in the request";
}

abbrev asking : ConfirmationRequest
asking = record {
  confirmation_report_id = "CONF-1";
  confirms_report_id = "REPORT-1";
  confirms_response_id = "RESP-1";
  authority_record = "AUTHORITY-1";
}

abbrev confirming : ConfirmationResponse
confirming = record {
  response_id = some "RESP-2";
  in_reply_to = some "CONF-1";
  confirms_report_id = some "REPORT-1";
  confirms_response_id = some "RESP-1";
  decision_id = some "D-1";
  decision_revision = some 1;
  reviewed_commit = some "c0ffee";
  subject_type = some execution_authority;
  decision_effect = some "AUTHORIZE";
  result = some "CONTINUE";
}

abbrev decision_calls : List DecisionCall
decision_calls =
    response_received spoken (request ∷ [])
    ∷ confirmation_asked asking 0
    ∷ confirmation_applied confirming true (some "EVIDENCE-1") 0
    ∷ []

reachable-IsSound_example : All IsSound (decide_all decision_calls new_decisions).records
reachable-IsSound_example = reachable-IsSound decision_calls

abbrev received_record : DecisionRecord
received_record = new_record spoken (some request) none

abbrev confirmed_record : DecisionRecord
confirmed_record =
    confirm_record (some "RESP-2") (some "EVIDENCE-1") (ask_confirmation asking received_record)

confirmed-found :
    get_elem? (decide_all decision_calls new_decisions).records 0 ≡ some confirmed_record
unfolding decide_all decide Decision.receive Decision.receive_at receive_bound binding_reason
    request_reason unbound_reason find_request build_confirmation build_at build_for
    apply_confirmation Confirm.apply_at apply_pending compare_confirmation settle_confirmation
    mismatch
confirmed-found = refl

confirmed-granted : (grants confirmed_record).implementation_authorized ≡ true
unfolding grants
confirmed-granted = refl

granted_by_person_example :
    IsAuthorised confirmed_record
    × IsConfirmed confirmed_record
    × (spoken.subject_type ≡ some execution_authority)
granted_by_person_example =
    granted_by_person decision_calls 0 confirmed_record confirmed-found confirmed-granted

abbrev received_control : DecisionControl
received_control = record { records = received_record ∷ []; confirmations = [] }

abbrev asked_control : DecisionControl
asked_control = (build_confirmation asking 0 received_control).1

-- The delivery fails, and the same message is received again.
abbrev second_calls : List DecisionCall
second_calls = delivery_marked "TIMEOUT" 0 ∷ response_received spoken (request ∷ []) ∷ []

asked-accepted : (build_confirmation asking 0 received_control).0 ≡ Decision.accepted
unfolding build_confirmation build_at build_for
asked-accepted = refl

second-found : get_elem? (decide_all second_calls asked_control).records 1 ≡ some received_record
unfolding decide_all decide Decision.receive Decision.receive_at receive_bound binding_reason
    request_reason unbound_reason find_request build_confirmation build_at build_for
    mark_delivery_failure fail_at
second-found = refl

confirmed_once_example :
    IsSuppressed
      (build_confirmation asking 1 (decide_all second_calls asked_control))
      (decide_all second_calls asked_control)
confirmed_once_example =
    confirmed_once asking asking 0 1 received_record received_record received_control second_calls
      refl refl asked-accepted second-found refl

-- With an empty report id the second confirmation is accepted too.
abbrev nameless : ConfirmationRequest
nameless = record asking { confirmation_report_id = "" }

nameless-accepted :
    (build_confirmation nameless 1
      (decide_all second_calls (build_confirmation nameless 0 received_control).1)).0
    ≡ Decision.accepted
unfolding decide_all decide Decision.receive Decision.receive_at receive_bound binding_reason
    request_reason unbound_reason find_request build_confirmation build_at build_for
    mark_delivery_failure fail_at
nameless-accepted = refl
