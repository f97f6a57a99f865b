-- ===== src/HumanDecision/Suppressed.antt =====
-- A decision is confirmed once (backend/control/human_decision.py).
use mathlib.Core.Path.{subst}
use mathlib.Core.Option.{some-injective}
use ai_control_center.Base.{
  ℕ, ◌≡◌, ◌⊎◌, refl, sym, String, Bool, true, false, not, ◌||◌, Option, none, some, List, [], ◌∷◌,
  arith, ◌==◌, eq_iff, get_elem?, if-cases, Bool-cases, Option-cases, inl, inr,
}
use ai_control_center.HumanDecision.{
  DecisionRequest, HumanResponse, ConfirmationPayload, DecisionRecord, ConfirmationKey,
  DecisionControl, DecisionAnswer, accepted, ignored, refused, same_option_text, same_option_number,
  is_missing, receive_bound, receive_at, receive,
}
use ai_control_center.HumanDecision.Confirm.{
  mismatch, is_positive, settle_confirmation, compare_confirmation, apply_pending, apply_at,
  apply_confirmation, fail_at, mark_delivery_failure, DecisionCall, response_received,
  confirmation_asked, confirmation_applied, delivery_marked, decide, decide_all,
}
use ai_control_center.HumanDecision.Ask.{
  ConfirmationRequest, ConfirmationResponse, key_of, same_key, find_confirmation, is_blank_report,
  is_received, is_pending, build_for, build_at, build_confirmation, keep_confirmation,
  change_record, ask_confirmation,
}
use ai_control_center.HumanDecision.Decided.{same_option_text_sound, same_option_number_sound}

same_key_sound : (a b : ConfirmationKey) → same_key a b ≡ true → a ≡ b
same_key_sound a b h =
    let m = (eq_iff a.message_id b.message_id).0 (ground arith) in
    let d = same_option_text_sound a.decision_id b.decision_id (ground arith) in
    let r = same_option_number_sound a.revision b.revision (ground arith) in
    λ i. record { message_id = m i; decision_id = d i; revision = r i }

same_text_refl : (s : String) → (s == s) ≡ true
same_text_refl s = (eq_iff s s).1 refl

same_option_text_refl : (a : Option String) → same_option_text a a ≡ true
same_option_text_refl none = refl
same_option_text_refl (some s) = same_text_refl s

same_option_number_refl : (a : Option ℕ) → same_option_number a a ≡ true
same_option_number_refl none = refl
same_option_number_refl (some n) = ground arith

same_key_refl : (key : ConfirmationKey) → same_key key key ≡ true
same_key_refl key =
    rw (same_text_refl key.message_id)
      (rw (same_option_text_refl key.decision_id) (same_option_number_refl key.revision))

-- The key has a confirmation.
abbrev IsKept : ConfirmationKey → DecisionControl → Type 0
IsKept key control = is_blank_report (find_confirmation key control.confirmations) ≡ false

abbrev Stays : ConfirmationKey → DecisionAnswer × DecisionControl → Type 0
Stays key result = IsKept key result.1

keep_confirmation-IsKept :
    (key other : ConfirmationKey) (report : String) (control : DecisionControl)
    → is_blank_report (find_confirmation other control.confirmations) ≡ true
    → IsKept key control
    → IsKept key (keep_confirmation other report control)
keep_confirmation-IsKept key other report control blank h = elim (Bool-cases (same_key key other)) [
  | inl same ↦ absurd (
      let moved =
        subst (λ k. is_blank_report (find_confirmation k control.confirmations) ≡ true)
          (sym (same_key_sound key other same)) blank in
      cc)
  | inr differs ↦ rw differs h
]

Stays-build_at :
    (key : ConfirmationKey) (ask : ConfirmationRequest) (i : ℕ) (o : Option DecisionRecord)
    (control : DecisionControl)
    → IsKept key control
    → Stays key (build_at ask i o control)
unfolding build_at build_for
Stays-build_at key ask i none control h = h
Stays-build_at key ask i (some r) control h =
    if-cases (Stays key) (not (is_received r.state)) _ _ (λ unclassified. h)
      (λ classified.
        if-cases (Stays key) (is_blank_report (find_confirmation (key_of r) control.confirmations))
          _ _
          (λ blank.
            keep_confirmation-IsKept key (key_of r) ask.confirmation_report_id
              (change_record (ask_confirmation ask) i control) blank h)
          (λ kept. h))

Stays-apply_pending :
    (key : ConfirmationKey) (response : ConfirmationResponse) (continued : Bool)
    (evidence : Option String) (i : ℕ) (payload : Option ConfirmationPayload) (id : Option String)
    (control : DecisionControl)
    → IsKept key control
    → Stays key (apply_pending response continued evidence i payload id control)
unfolding apply_pending compare_confirmation settle_confirmation
Stays-apply_pending key response continued evidence i none id control h = h
Stays-apply_pending key response continued evidence i (some payload) none control h = h
Stays-apply_pending key response continued evidence i (some payload) (some id) control h =
    elim (Option-cases (mismatch payload response)) [
      | inl agreed ↦ rw agreed (
          if-cases (Stays key) (not (is_positive response.result)) _ _ (λ refuted. h)
            (λ positive.
              if-cases (Stays key) (not continued || is_missing evidence) _ _ (λ unverified. h)
                (λ verified. h)))
      | inr (reason, differs) ↦ rw differs h
    ]

Stays-apply_at :
    (key : ConfirmationKey) (response : ConfirmationResponse) (continued : Bool)
    (evidence : Option String) (i : ℕ) (o : Option DecisionRecord) (control : DecisionControl)
    → IsKept key control
    → Stays key (apply_at response continued evidence i o control)
unfolding apply_at
Stays-apply_at key response continued evidence i none control h = h
Stays-apply_at key response continued evidence i (some r) control h =
    if-cases (Stays key) (is_pending r.state) _ _
      (λ pending.
        Stays-apply_pending key response continued evidence i r.confirmation_payload
          response.response_id control h)
      (λ other. h)

Stays-fail_at :
    (key : ConfirmationKey) (reason : String) (i : ℕ) (o : Option DecisionRecord)
    (control : DecisionControl)
    → IsKept key control
    → Stays key (fail_at reason i o control)
unfolding fail_at
Stays-fail_at key reason i none control h = h
Stays-fail_at key reason i (some r) control h = h

Stays-receive_at :
    (key : ConfirmationKey) (response : HumanResponse) (requests : List DecisionRequest)
    (at : Option ℕ) (control : DecisionControl)
    → IsKept key control
    → Stays key (receive_at response requests at control)
unfolding receive_at receive_bound
Stays-receive_at key response requests none control h = h
Stays-receive_at key response requests (some at) control h = h

Stays-decide :
    (key : ConfirmationKey) (call : DecisionCall) (control : DecisionControl)
    → IsKept key control
    → Stays key (decide call control)
unfolding decide receive build_confirmation apply_confirmation mark_delivery_failure
Stays-decide key (response_received response requests) control h =
    Stays-receive_at key response requests response.received_at control h
Stays-decide key (confirmation_asked ask i) control h =
    Stays-build_at key ask i (get_elem? control.records i) control h
Stays-decide key (confirmation_applied response continued evidence i) control h =
    Stays-apply_at key response continued evidence i (get_elem? control.records i) control h
Stays-decide key (delivery_marked reason i) control h =
    Stays-fail_at key reason i (get_elem? control.records i) control h

decide_all-IsKept :
    (key : ConfirmationKey) (calls : List DecisionCall) (control : DecisionControl)
    → IsKept key control
    → IsKept key (decide_all calls control)
unfolding decide_all
decide_all-IsKept key [] control h = h
decide_all-IsKept key (call ∷ calls) control h =
    decide_all-IsKept key calls (decide call control).1 (Stays-decide key call control h)

-- An accepted confirmation is kept under the key of its record.
build_for-IsKept :
    (ask : ConfirmationRequest) (i : ℕ) (r : DecisionRecord) (control : DecisionControl)
    → (ask.confirmation_report_id == "") ≡ false
    → (build_for ask i r control).0 ≡ accepted
    → IsKept (key_of r) (build_for ask i r control).1
unfolding build_for
build_for-IsKept ask i r control named e =
    if-cases (λ (x : DecisionAnswer × DecisionControl). x.0 ≡ accepted → Stays (key_of r) x)
      (not (is_received r.state)) _ _ (λ unclassified wrong. absurd (cc))
      (λ classified.
        if-cases (λ (x : DecisionAnswer × DecisionControl). x.0 ≡ accepted → Stays (key_of r) x)
          (is_blank_report (find_confirmation (key_of r) control.confirmations)) _ _
          (λ blank right. rw (same_key_refl (key_of r)) named) (λ kept wrong. absurd (cc)))
      e

build_at-IsKept :
    (ask : ConfirmationRequest) (i : ℕ) (r : DecisionRecord) (o : Option DecisionRecord)
    (control : DecisionControl)
    → o ≡ some r
    → (ask.confirmation_report_id == "") ≡ false
    → (build_at ask i o control).0 ≡ accepted
    → IsKept (key_of r) (build_at ask i o control).1
unfolding build_at
build_at-IsKept ask i r none control found named e = absurd (cc)
build_at-IsKept ask i r (some other) control found named e =
    subst (λ x. IsKept (key_of x) (build_for ask i other control).1) (some-injective other r found)
      (build_for-IsKept ask i other control named e)

-- What a call of `build_confirmation` gives when it changes nothing: why it was turned down.
abbrev pub IsSuppressed : DecisionAnswer × DecisionControl → DecisionControl → Type 0
IsSuppressed result control =
    (result ≡ (ignored "DUPLICATE_CONFIRMATION_SUPPRESSED", control))
    ⊎ (result ≡ (refused "HUMAN_DECISION_NOT_CLASSIFIED", control))

build_for-IsSuppressed :
    (ask : ConfirmationRequest) (i : ℕ) (r : DecisionRecord) (control : DecisionControl)
    → IsKept (key_of r) control
    → IsSuppressed (build_for ask i r control) control
unfolding build_for
build_for-IsSuppressed ask i r control h =
    if-cases (λ result. IsSuppressed result control) (not (is_received r.state)) _ _
      (λ unclassified. inr refl) (λ classified. rw h (inl refl))

-- Once a confirmation with a report id that is not empty is accepted for a record, no confirmation is
-- accepted any more for a record of the same message, decision and revision, the first one included, whatever
-- is called in between, a failed delivery and the same message received again included; the control is
-- left as it is.
pub confirmed_once :
    (ask again : ConfirmationRequest) (i j : ℕ) (r later : DecisionRecord)
    (control : DecisionControl) (calls : List DecisionCall)
    → get_elem? control.records i ≡ some r
    → (ask.confirmation_report_id == "") ≡ false
    → (build_confirmation ask i control).0 ≡ accepted
    → get_elem? (decide_all calls (build_confirmation ask i control).1).records j ≡ some later
    → key_of later ≡ key_of r
    → IsSuppressed
        (build_confirmation again j (decide_all calls (build_confirmation ask i control).1))
        (decide_all calls (build_confirmation ask i control).1)
unfolding build_confirmation build_at
confirmed_once ask again i j r later control calls e named ok f same = rw f (
    build_for-IsSuppressed again j later _ (
      subst (λ key. IsKept key (decide_all calls (build_confirmation ask i control).1)) (sym same)
        (decide_all-IsKept (key_of r) calls (build_confirmation ask i control).1
          (build_at-IsKept ask i r (get_elem? control.records i) control e named ok))))
