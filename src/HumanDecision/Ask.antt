-- ===== src/HumanDecision/Ask.antt =====
-- backend/control/human_decision.py: `build_confirmation`, which asks the reviewer to confirm a decision.
use ai_control_center.Base.{
  ℕ, String, Bool, true, false, ◌&&◌, not, Option, none, some, List, [], ◌∷◌, ◌==◌, get_elem?,
  modify, if◌then◌else◌,
}
use ai_control_center.HumanDecision.{
  SubjectType, DecisionState, human_decision_received, review_confirmation_pending,
  ConfirmationPayload, DecisionRecord, ConfirmationKey, DecisionControl, DecisionAnswer, accepted,
  refused, ignored, raised, same_option_text, same_option_number,
}

-- What a caller of `build_confirmation` gives.
pub record ConfirmationRequest : Type 0 where
  pub confirmation_report_id : String
  pub confirms_report_id : String
  pub confirms_response_id : String
  pub authority_record : String

-- What is read of the reviewer's response; an identifier that is blank is `none`, and a subject is the one
-- with that value.
pub record ConfirmationResponse : Type 0 where
  pub response_id : Option String
  pub in_reply_to : Option String
  pub confirms_report_id : Option String
  pub confirms_response_id : Option String
  pub decision_id : Option String
  pub decision_revision : Option ℕ
  pub reviewed_commit : Option String
  pub subject_type : Option SubjectType
  pub decision_effect : Option String
  pub result : Option String

abbrev pub same_key : ConfirmationKey → ConfirmationKey → Bool
same_key a b =
    (a.message_id == b.message_id)
    && same_option_text a.decision_id b.decision_id
    && same_option_number a.revision b.revision

abbrev pub find_confirmation : ConfirmationKey → List (ConfirmationKey × String) → Option String
find_confirmation key [] = none
find_confirmation key ((other, report) ∷ rest) =
    if same_key key other then some report else find_confirmation key rest

abbrev pub key_of : DecisionRecord → ConfirmationKey
key_of r = record {
  message_id = r.response.message_id;
  decision_id = r.decision_id;
  revision = r.revision;
}

abbrev pub change_record : (DecisionRecord → DecisionRecord) → ℕ → DecisionControl → DecisionControl
change_record change i control = record control { records = modify change control.records i }

abbrev pub is_received : DecisionState → Bool
is_received human_decision_received = true
is_received _ = false

abbrev pub is_pending : DecisionState → Bool
is_pending review_confirmation_pending = true
is_pending _ = false

abbrev pub payload_of : ConfirmationRequest → DecisionRecord → ConfirmationPayload
payload_of ask r = record {
  report_id = ask.confirmation_report_id;
  confirms_report_id = ask.confirms_report_id;
  confirms_response_id = ask.confirms_response_id;
  decision_id = r.decision_id;
  decision_revision = r.revision;
  authority_record = ask.authority_record;
  reviewed_commit = r.target_commit;
  subject_type = r.subject_type;
  decision_effect = r.decision_effect;
}

abbrev pub ask_confirmation : ConfirmationRequest → DecisionRecord → DecisionRecord
ask_confirmation ask r = record r {
  confirmation_report_id = some ask.confirmation_report_id;
  confirmation_payload = some (payload_of ask r);
  state = review_confirmation_pending;
}

abbrev pub keep_confirmation : ConfirmationKey → String → DecisionControl → DecisionControl
keep_confirmation key report control = record control {
  confirmations = (key, report) ∷ control.confirmations;
}

abbrev pub is_blank_report : Option String → Bool
is_blank_report none = true
is_blank_report (some report) = report == ""

-- `build_confirmation` for a record that is there: an earlier confirmation of the key suppresses it.
unfoldable pub build_for :
    ConfirmationRequest → ℕ → DecisionRecord → DecisionControl → DecisionAnswer × DecisionControl
build_for ask i r control =
    if not (is_received r.state)
    then (refused "HUMAN_DECISION_NOT_CLASSIFIED", control)
    else if is_blank_report (find_confirmation (key_of r) control.confirmations)
    then (
      accepted,
      keep_confirmation (key_of r) ask.confirmation_report_id
          (change_record (ask_confirmation ask) i control),
    )
    else (ignored "DUPLICATE_CONFIRMATION_SUPPRESSED", control)

unfoldable pub build_at :
    ConfirmationRequest
    → ℕ
    → Option DecisionRecord
    → DecisionControl
    → DecisionAnswer × DecisionControl
build_at ask i none control = (raised, control)
build_at ask i (some r) control = build_for ask i r control

-- `build_confirmation`
unfoldable pub build_confirmation :
    ConfirmationRequest → ℕ → DecisionControl → DecisionAnswer × DecisionControl
build_confirmation ask i control = build_at ask i (get_elem? control.records i) control
