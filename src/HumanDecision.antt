-- ===== src/HumanDecision.antt =====
-- backend/control/human_decision.py: `HumanDecisionControl`. Records are named "HD-0001", "HD-0002" and so
-- on in the order they are made; here a record's name is its place. Times are numbers of microseconds, and a
-- time without a zone, which `_aware` refuses, is `none`. A response of the reviewer is the fields that are
-- read of its dictionary, of which a missing one or one of another type is `none`.
pub mod Ask
pub mod Confirm
pub mod Decided
pub mod Bound
pub mod Suppressed
use ai_control_center.Base.{
  ℕ, ◌≡◌, String, Bool, true, false, ◌&&◌, ◌||◌, not, Option, none, some, List, [], ◌∷◌, ◌++◌, ◌==◌,
  get_elem?, modify, length, same_number, if◌then◌else◌,
}
use ai_control_center.Base.Keyed.{contains}

pub data SubjectType : Type 0 where
  reviewer_recommendation codex_artifact gate_exit execution_authority : SubjectType

pub data DecisionState : Type 0 where
  human_response_unclassified human_decision_received review_confirmation_pending : DecisionState
  review_confirmed rejected delivery_failed : DecisionState

pub record DecisionRequest : Type 0 where
  pub decision_id : String
  pub revision : ℕ
  pub subject_type : SubjectType
  pub decision_subject : String
  pub target_commit : String
  pub requested_effect : String

pub record HumanResponse : Type 0 where
  pub exact_text : String
  pub decider : String
  pub channel : String
  pub message_id : String
  pub source_class : String
  pub received_at : Option ℕ
  pub decision_id : Option String
  pub revision : Option ℕ
  pub subject_type : Option SubjectType
  pub target_commit : Option String
  pub decision_effect : Option String
  pub subject_basis : Option String

pub record ConfirmationPayload : Type 0 where
  pub report_id : String
  pub confirms_report_id : String
  pub confirms_response_id : String
  pub decision_id : Option String
  pub decision_revision : Option ℕ
  pub authority_record : String
  pub reviewed_commit : Option String
  pub subject_type : Option SubjectType
  pub decision_effect : Option String

pub record DecisionRecord : Type 0 where
  pub state : DecisionState
  pub reason_code : Option String
  pub response : HumanResponse
  pub decision_id : Option String
  pub revision : Option ℕ
  pub subject_type : Option SubjectType
  pub target_commit : Option String
  pub decision_effect : Option String
  pub confirmation_report_id : Option String
  pub confirmation_payload : Option ConfirmationPayload
  pub confirmation_response_id : Option String
  pub allowed_effect : Option String
  pub effect_evidence_id : Option String

-- A confirmation is kept by message, decision and revision.
pub record ConfirmationKey : Type 0 where
  pub message_id : String
  pub decision_id : Option String
  pub revision : Option ℕ

pub record DecisionControl : Type 0 where
  pub records : List DecisionRecord
  pub confirmations : List (ConfirmationKey × String)

abbrev pub new_decisions : DecisionControl
new_decisions = record { records = []; confirmations = [] }

-- What a call answers: the outcome and the reason, as `_result` gives them; a key that is not there raises
-- `KeyError`, and an assertion or a conversion may raise too.
pub data DecisionAnswer : Type 0 where
  accepted : DecisionAnswer
  refused : String → DecisionAnswer
  ignored : String → DecisionAnswer
  failed : String → DecisionAnswer
  received : Option String → DecisionAnswer
  raised : DecisionAnswer

abbrev pub same_option_text : Option String → Option String → Bool
same_option_text none none = true
same_option_text (some s) (some t) = s == t
same_option_text _ _ = false

abbrev pub same_option_number : Option ℕ → Option ℕ → Bool
same_option_number none none = true
same_option_number (some m) (some n) = same_number m n
same_option_number _ _ = false

abbrev pub subject_code : SubjectType → ℕ
subject_code reviewer_recommendation = 0
subject_code codex_artifact = 1
subject_code gate_exit = 2
subject_code execution_authority = 3

abbrev pub same_subject : Option SubjectType → Option SubjectType → Bool
same_subject none none = true
same_subject (some s) (some t) = same_number (subject_code s) (subject_code t)
same_subject _ _ = false

abbrev pub is_missing : Option String → Bool
is_missing none = true
is_missing (some text) = text == ""

-- `_binding_reason` for a request that is there
unfoldable pub unbound_reason : HumanResponse → DecisionRequest → Option String
unbound_reason response request =
    if not (same_option_number response.revision (some request.revision))
    then some "DECISION_REVISION_MISMATCH"
    else if not (same_subject response.subject_type (some request.subject_type))
    then some "SUBJECT_TYPE_MISMATCH"
    else if not (same_option_text response.target_commit (some request.target_commit))
    then some "TARGET_COMMIT_MISMATCH"
    else if not (same_option_text response.decision_effect (some request.requested_effect))
    then some "DECISION_EFFECT_MISMATCH"
    else if is_missing response.subject_basis
    then some "SUBJECT_BASIS_MISSING"
    else none

unfoldable pub request_reason : HumanResponse → Option DecisionRequest → Option String
request_reason response none = some "DECISION_SUBJECT_NOT_BOUND"
request_reason response (some request) = unbound_reason response request

-- `_binding_reason`
unfoldable pub binding_reason : HumanResponse → Option DecisionRequest → Option String
binding_reason response request =
    if response.source_class == "RECORDED_DIRECT_CONVERSATION"
    then request_reason response request
    else some "SOURCE_NOT_DIRECT_AUTHORITY"

-- The dictionary of requests by their decision: the last request of a decision counts.
unfoldable pub find_request : String → List DecisionRequest → Option DecisionRequest
find_request decision [] = none
find_request decision (request ∷ requests) = elim (find_request decision requests) [
  | some later ↦ some later
  | none ↦ if request.decision_id == decision then some request else none
]

abbrev pub or_empty_text : Option String → String
or_empty_text none = ""
or_empty_text (some text) = text

abbrev pub received_state : Option String → DecisionState
received_state none = human_decision_received
received_state (some reason) = human_response_unclassified

-- The fields that a request gives, or else the response.
abbrev pub new_record : HumanResponse → Option DecisionRequest → Option String → DecisionRecord
new_record response none reason = record {
  state = received_state reason;
  reason_code = reason;
  response = response;
  decision_id = response.decision_id;
  revision = response.revision;
  subject_type = response.subject_type;
  target_commit = response.target_commit;
  decision_effect = response.decision_effect;
  confirmation_report_id = none;
  confirmation_payload = none;
  confirmation_response_id = none;
  allowed_effect = none;
  effect_evidence_id = none;
}
new_record response (some request) reason = record {
  state = received_state reason;
  reason_code = reason;
  response = response;
  decision_id = some request.decision_id;
  revision = some request.revision;
  subject_type = some request.subject_type;
  target_commit = some request.target_commit;
  decision_effect = some request.requested_effect;
  confirmation_report_id = none;
  confirmation_payload = none;
  confirmation_response_id = none;
  allowed_effect = none;
  effect_evidence_id = none;
}

abbrev pub add_record : DecisionRecord → DecisionControl → DecisionControl
add_record r control = record control { records = control.records ++ r ∷ [] }

unfoldable pub receive_bound :
    HumanResponse → Option DecisionRequest → DecisionControl → DecisionAnswer × DecisionControl
receive_bound response request control =
    let reason = binding_reason response request in
    (received reason, add_record (new_record response request reason) control)

unfoldable pub receive_at :
    HumanResponse
    → List DecisionRequest
    → Option ℕ
    → DecisionControl
    → DecisionAnswer × DecisionControl
receive_at response requests none control = (raised, control)
receive_at response requests (some at) control =
    receive_bound response (find_request (or_empty_text response.decision_id) requests) control

-- `receive`
unfoldable pub receive :
    HumanResponse → List DecisionRequest → DecisionControl → DecisionAnswer × DecisionControl
receive response requests control = receive_at response requests response.received_at control
