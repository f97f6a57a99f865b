-- ===== src/HumanDecision/Decided.antt =====
-- What one recorded decision stands on, and how each change keeps it (backend/control/human_decision.py).
use mathlib.Core.Path.{subst}
use mathlib.Core.Option.{some-injective}
use ai_control_center.Base.{
  ℕ, ◌≡◌, refl, sym, ap, ◌∙◌, String, Bool, true, false, Option, none, some, List, [], ◌∷◌, arith,
  ◌==◌, eq_iff, Bool-cases, Option-cases, inl, inr, if◌then◌else◌,
}
use ai_control_center.Routing.Router.{is_some}
use ai_control_center.HumanDecision.{
  SubjectType, reviewer_recommendation, codex_artifact, gate_exit, execution_authority,
  DecisionState, human_response_unclassified, human_decision_received, review_confirmation_pending,
  review_confirmed, delivery_failed, DecisionRequest, HumanResponse, DecisionRecord,
  same_option_text, same_option_number, same_subject, subject_code, is_missing, unbound_reason,
  request_reason, binding_reason, find_request, or_empty_text, new_record,
}
use ai_control_center.HumanDecision.Confirm.{
  reject_record, confirm_record, fail_record, is_confirmed,
}
use ai_control_center.HumanDecision.Ask.{
  ConfirmationRequest, is_received, is_pending, payload_of, ask_confirmation,
}

-- What a person decided directly, against the fields that are recorded.
pub record IsDecided (response : HumanResponse) (decision_id : Option String) (revision : Option ℕ)
    (subject_type : Option SubjectType) (target_commit decision_effect : Option String)
    : Type 0 where
  pub direct : response.source_class ≡ "RECORDED_DIRECT_CONVERSATION"
  pub decision : or_empty_text response.decision_id ≡ or_empty_text decision_id
  pub same_revision : response.revision ≡ revision
  pub subject : response.subject_type ≡ subject_type
  pub commit : response.target_commit ≡ target_commit
  pub effect : response.decision_effect ≡ decision_effect
  pub basis : is_missing response.subject_basis ≡ false

-- The decision of the record is the one that a person took, of the request that it names.
abbrev pub IsAuthorised : DecisionRecord → Type 0
IsAuthorised r =
    IsDecided r.response r.decision_id r.revision r.subject_type r.target_commit r.decision_effect

-- The reviewer confirmed the effect of the record.
pub record IsConfirmed (r : DecisionRecord) : Type 0 where
  pub allowed : r.allowed_effect ≡ r.decision_effect
  pub evidenced : is_missing r.effect_evidence_id ≡ false
  pub answered : is_some r.confirmation_response_id ≡ true

abbrev pub is_bound : DecisionState → Bool
is_bound human_response_unclassified = false
is_bound delivery_failed = false
is_bound _ = true

abbrev pub is_asked : DecisionState → Bool
is_asked review_confirmation_pending = true
is_asked review_confirmed = true
is_asked _ = false

pub record IsSound (r : DecisionRecord) : Type 0 where
  pub authorised : is_bound r.state ≡ true → IsAuthorised r
  pub asked :
      is_asked r.state ≡ true
      → (ask : ConfirmationRequest) × (r.confirmation_payload ≡ some (payload_of ask r))
  pub confirmed : is_confirmed r.state ≡ true → IsConfirmed r

pub same_option_text_sound : (a b : Option String) → same_option_text a b ≡ true → a ≡ b
same_option_text_sound none none h = refl
same_option_text_sound (some s) (some t) h = ap some ((eq_iff s t).0 h)
same_option_text_sound none (some t) h = absurd (cc)
same_option_text_sound (some s) none h = absurd (cc)

pub same_option_number_sound : (a b : Option ℕ) → same_option_number a b ≡ true → a ≡ b
same_option_number_sound none none h = refl
same_option_number_sound (some m) (some n) h = ap some (ground arith)
same_option_number_sound none (some t) h = absurd (cc)
same_option_number_sound (some s) none h = absurd (cc)

pub subject_code_inj : (a b : SubjectType) → subject_code a ≡ subject_code b → a ≡ b
subject_code_inj reviewer_recommendation reviewer_recommendation h = refl
subject_code_inj codex_artifact codex_artifact h = refl
subject_code_inj gate_exit gate_exit h = refl
subject_code_inj execution_authority execution_authority h = refl
subject_code_inj a b h = absurd (omega (arith, h))

pub same_subject_sound : (a b : Option SubjectType) → same_subject a b ≡ true → a ≡ b
same_subject_sound none none h = refl
same_subject_sound (some s) (some t) h = ap some (subject_code_inj s t (ground arith))
same_subject_sound none (some t) h = absurd (cc)
same_subject_sound (some s) none h = absurd (cc)

pub named_first :
    (first request : DecisionRequest) (decision : String)
    → (if first.decision_id == decision then some first else none) ≡ some request
    → request.decision_id ≡ decision
named_first first request decision e = elim (Bool-cases (first.decision_id == decision)) [
  | inl same ↦
      subst (λ r. r.decision_id ≡ decision) (some-injective first request (rw same at e))
        ((eq_iff first.decision_id decision).0 same)
  | inr other ↦ absurd (ground (arith, other, e))
]

pub find_request-named :
    (decision : String) (requests : List DecisionRequest) (request : DecisionRequest)
    → find_request decision requests ≡ some request
    → request.decision_id ≡ decision
unfolding find_request
find_request-named decision [] request e = absurd (cc)
find_request-named decision (first ∷ requests) request e =
    elim (Option-cases (find_request decision requests)) [
      | inl missing ↦ named_first first request decision (rw missing at e)
      | inr (later, found) ↦ find_request-named decision requests request (found ∙ (rw found at e))
    ]

pub binding_reason-IsAuthorised :
    (response : HumanResponse) (request : DecisionRequest)
    → request.decision_id ≡ or_empty_text response.decision_id
    → binding_reason response (some request) ≡ none
    → IsAuthorised (new_record response (some request) none)
unfolding binding_reason request_reason unbound_reason
binding_reason-IsAuthorised response request named e = record {
  direct = (eq_iff response.source_class "RECORDED_DIRECT_CONVERSATION").0 (ground arith);
  decision = sym named;
  same_revision = same_option_number_sound response.revision (some request.revision) (ground arith);
  subject = same_subject_sound response.subject_type (some request.subject_type) (ground arith);
  commit =
      same_option_text_sound response.target_commit (some request.target_commit) (ground arith);
  effect =
      same_option_text_sound response.decision_effect (some request.requested_effect)
        (ground arith);
  basis = ground arith;
}

-- A record that is not classified claims nothing.
pub new_record-unclassified :
    (response : HumanResponse) (request : Option DecisionRequest) (reason : String)
    → IsSound (new_record response request (some reason))
new_record-unclassified response none reason = record {
  authorised = λ b. absurd (cc);
  asked = λ b. absurd (cc);
  confirmed = λ b. absurd (cc);
}
new_record-unclassified response (some request) reason = record {
  authorised = λ b. absurd (cc);
  asked = λ b. absurd (cc);
  confirmed = λ b. absurd (cc);
}

pub unrequested : (response : HumanResponse) → binding_reason response none ≡ none → ⊥
unfolding binding_reason request_reason
unrequested response e = ground arith

pub IsSound-new_record :
    (response : HumanResponse) (request : Option DecisionRequest) (reason : Option String)
    → ((r : DecisionRequest)
        → request ≡ some r
        → r.decision_id ≡ or_empty_text response.decision_id)
    → binding_reason response request ≡ reason
    → IsSound (new_record response request reason)
IsSound-new_record response request (some reason) named e =
    new_record-unclassified response request reason
IsSound-new_record response none none named e = absurd (unrequested response e)
IsSound-new_record response (some request) none named e = record {
  authorised = λ b. binding_reason-IsAuthorised response request (named request refl) e;
  asked = λ b. absurd (cc);
  confirmed = λ b. absurd (cc);
}

pub received_is_bound : (s : DecisionState) → is_received s ≡ true → is_bound s ≡ true
received_is_bound human_decision_received h = refl
received_is_bound s h = absurd (cc)

pub pending_is_bound : (s : DecisionState) → is_pending s ≡ true → is_bound s ≡ true
pending_is_bound review_confirmation_pending h = refl
pending_is_bound s h = absurd (cc)

pub confirmed_is_bound : (s : DecisionState) → is_confirmed s ≡ true → is_bound s ≡ true
confirmed_is_bound review_confirmed h = refl
confirmed_is_bound s h = absurd (cc)

pub pending_is_asked : (s : DecisionState) → is_pending s ≡ true → is_asked s ≡ true
pending_is_asked review_confirmation_pending h = refl
pending_is_asked s h = absurd (cc)

pub IsSound-ask_confirmation :
    (ask : ConfirmationRequest) (r : DecisionRecord)
    → is_received r.state ≡ true
    → IsSound r
    → IsSound (ask_confirmation ask r)
IsSound-ask_confirmation ask r e h = record {
  authorised = λ b. h.authorised (received_is_bound r.state e);
  asked = λ b. (ask, refl);
  confirmed = λ b. absurd (cc);
}

pub IsSound-reject_record :
    (r : DecisionRecord) → is_pending r.state ≡ true → IsSound r → IsSound (reject_record r)
IsSound-reject_record r e h = record {
  authorised = λ b. h.authorised (pending_is_bound r.state e);
  asked = λ b. absurd (cc);
  confirmed = λ b. absurd (cc);
}

pub IsSound-confirm_record :
    (id : String) (evidence : Option String) (r : DecisionRecord)
    → is_pending r.state ≡ true
    → is_missing evidence ≡ false
    → IsSound r
    → IsSound (confirm_record (some id) evidence r)
IsSound-confirm_record id evidence r e k h = record {
  authorised = λ b. h.authorised (pending_is_bound r.state e);
  asked = λ b. h.asked (pending_is_asked r.state e);
  confirmed = λ b. record { allowed = refl; evidenced = k; answered = refl };
}

pub IsSound-fail_record :
    (reason : String) (r : DecisionRecord) → IsSound r → IsSound (fail_record reason r)
IsSound-fail_record reason r h = record {
  authorised = λ b. absurd (cc);
  asked = λ b. absurd (cc);
  confirmed = λ b. absurd (cc);
}
