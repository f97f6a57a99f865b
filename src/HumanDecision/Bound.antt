-- ===== src/HumanDecision/Bound.antt =====
-- What the recorded decisions stand on (backend/control/human_decision.py).
use mathlib.Core.Path.{subst}
use ai_control_center.Base.{
  ℕ, ◌≡◌, refl, sym, ◌∙◌, String, Bool, true, not, ◌||◌, Option, none, some, List, [], ◌∷◌, arith,
  get_elem?, All, All-append_last, All-modify, All-get_elem?, if-cases, Bool-cases, Option-cases,
  inl, inr,
}
use ai_control_center.HumanDecision.{
  execution_authority, DecisionRequest, HumanResponse, ConfirmationPayload, DecisionRecord,
  DecisionControl, new_decisions, DecisionAnswer, is_missing, find_request, or_empty_text,
  receive_bound, receive_at, receive,
}
use ai_control_center.HumanDecision.Confirm.{
  mismatch, is_positive, reject_record, confirm_record, settle_confirmation, compare_confirmation,
  apply_pending, apply_at, apply_confirmation, fail_record, fail_at, mark_delivery_failure,
  DecisionCall, response_received, confirmation_asked, confirmation_applied, delivery_marked,
  decide, decide_all, grants,
}
use ai_control_center.HumanDecision.Ask.{
  ConfirmationRequest, ConfirmationResponse, key_of, find_confirmation, is_blank_report,
  change_record, is_received, is_pending, ask_confirmation, build_for, build_at, build_confirmation,
}
use ai_control_center.HumanDecision.Decided.{
  same_subject_sound, find_request-named, IsSound-new_record, confirmed_is_bound,
  IsSound-ask_confirmation, IsSound-reject_record, IsSound-confirm_record, IsSound-fail_record,
  IsAuthorised, IsConfirmed, IsSound,
}

-- Every record of the control is sound.
abbrev AllSound : DecisionControl → Type 0
AllSound control = All IsSound control.records

AllSound-receive :
    (response : HumanResponse) (requests : List DecisionRequest) (at : Option ℕ)
    (control : DecisionControl)
    → AllSound control
    → AllSound (receive_at response requests at control).1
unfolding receive_at receive_bound
AllSound-receive response requests none control h = h
AllSound-receive response requests (some at) control h =
    All-append_last IsSound _ control.records h (
      IsSound-new_record response (find_request (or_empty_text response.decision_id) requests) _
        (λ request e. find_request-named (or_empty_text response.decision_id) requests request e)
        refl)

-- A change that keeps a sound record sound, at the place of that record.
AllSound-change_record :
    (change : DecisionRecord → DecisionRecord) (i : ℕ) (r : DecisionRecord)
    (control : DecisionControl)
    → get_elem? control.records i ≡ some r
    → (IsSound r → IsSound (change r))
    → AllSound control
    → AllSound (change_record change i control)
AllSound-change_record change i r control e k h =
    All-modify IsSound change control.records i r e k h

AllSound-build_at :
    (ask : ConfirmationRequest) (i : ℕ) (o : Option DecisionRecord) (control : DecisionControl)
    → get_elem? control.records i ≡ o
    → AllSound control
    → AllSound (build_at ask i o control).1
unfolding build_at build_for
AllSound-build_at ask i none control e h = h
AllSound-build_at ask i (some r) control e h = elim (Bool-cases (is_received r.state)) [
  | inl classified ↦ rw classified (
      if-cases (λ (x : DecisionAnswer × DecisionControl). AllSound x.1)
        (is_blank_report (find_confirmation (key_of r) control.confirmations)) _ _
        (λ blank.
          AllSound-change_record (ask_confirmation ask) i r control e
            (IsSound-ask_confirmation ask r classified) h)
        (λ kept. h))
  | inr other ↦ rw other h
]

-- The control that a call leaves holds sound records only.
abbrev Keeps : DecisionAnswer × DecisionControl → Type 0
Keeps result = AllSound result.1

AllSound-settle_confirmation :
    (response : ConfirmationResponse) (continued : Bool) (evidence : Option String) (i : ℕ)
    (r : DecisionRecord) (id : String) (control : DecisionControl)
    → get_elem? control.records i ≡ some r
    → is_pending r.state ≡ true
    → response.response_id ≡ some id
    → AllSound control
    → Keeps (settle_confirmation response continued evidence i control)
unfolding settle_confirmation
AllSound-settle_confirmation response continued evidence i r id control e pending named h =
    if-cases Keeps (not (is_positive response.result)) _ _
      (λ refuted.
        AllSound-change_record reject_record i r control e (IsSound-reject_record r pending) h)
      (λ positive.
        if-cases Keeps (not continued || is_missing evidence) _ _ (λ unverified. h)
          (λ verified.
            AllSound-change_record (confirm_record response.response_id evidence) i r control e
              (λ k.
                subst (λ o. IsSound (confirm_record o evidence r)) (sym named)
                  (IsSound-confirm_record id evidence r pending (ground arith) k))
              h))

AllSound-apply_pending :
    (response : ConfirmationResponse) (continued : Bool) (evidence : Option String) (i : ℕ)
    (r : DecisionRecord) (payload : Option ConfirmationPayload) (id : Option String)
    (control : DecisionControl)
    → get_elem? control.records i ≡ some r
    → is_pending r.state ≡ true
    → response.response_id ≡ id
    → AllSound control
    → Keeps (apply_pending response continued evidence i payload id control)
unfolding apply_pending compare_confirmation
AllSound-apply_pending response continued evidence i r none id control e pending named h = h
AllSound-apply_pending response continued evidence i r (some payload) none control e pending named
      h =
    h
AllSound-apply_pending response continued evidence i r (some payload) (some id) control e pending
      named h =
    elim (Option-cases (mismatch payload response)) [
      | inl agreed ↦ rw agreed (
          AllSound-settle_confirmation response continued evidence i r id control e pending named h)
      | inr (reason, differs) ↦ rw differs h
    ]

AllSound-apply_at :
    (response : ConfirmationResponse) (continued : Bool) (evidence : Option String) (i : ℕ)
    (o : Option DecisionRecord) (control : DecisionControl)
    → get_elem? control.records i ≡ o
    → AllSound control
    → Keeps (apply_at response continued evidence i o control)
unfolding apply_at
AllSound-apply_at response continued evidence i none control e h = h
AllSound-apply_at response continued evidence i (some r) control e h =
    if-cases Keeps (is_pending r.state) _ _
      (λ pending.
        AllSound-apply_pending response continued evidence i r r.confirmation_payload
          response.response_id control e pending refl h)
      (λ other. h)

AllSound-fail_at :
    (reason : String) (i : ℕ) (o : Option DecisionRecord) (control : DecisionControl)
    → get_elem? control.records i ≡ o
    → AllSound control
    → Keeps (fail_at reason i o control)
unfolding fail_at
AllSound-fail_at reason i none control e h = h
AllSound-fail_at reason i (some r) control e h =
    AllSound-change_record (fail_record reason) i r control e (IsSound-fail_record reason r) h

AllSound-decide :
    (call : DecisionCall) (control : DecisionControl)
    → AllSound control
    → Keeps (decide call control)
unfolding decide receive build_confirmation apply_confirmation mark_delivery_failure
AllSound-decide (response_received response requests) control h =
    AllSound-receive response requests response.received_at control h
AllSound-decide (confirmation_asked ask i) control h =
    AllSound-build_at ask i (get_elem? control.records i) control refl h
AllSound-decide (confirmation_applied response continued evidence i) control h =
    AllSound-apply_at response continued evidence i (get_elem? control.records i) control refl h
AllSound-decide (delivery_marked reason i) control h =
    AllSound-fail_at reason i (get_elem? control.records i) control refl h

AllSound-decide_all :
    (calls : List DecisionCall) (control : DecisionControl)
    → AllSound control
    → AllSound (decide_all calls control)
unfolding decide_all
AllSound-decide_all [] control h = h
AllSound-decide_all (call ∷ calls) control h =
    AllSound-decide_all calls (decide call control).1 (AllSound-decide call control h)

-- After any calls on a new control, each record that is not unclassified and whose delivery has not failed
-- agrees with what a person said directly and with a basis: decision, revision, subject, commit and effect.
-- A pending or confirmed record has a confirmation payload with its own fields, and a confirmed one allows
-- exactly the decided effect, with evidence and with a response's id.
pub reachable-IsSound :
    (calls : List DecisionCall) → All IsSound (decide_all calls new_decisions).records
reachable-IsSound calls = AllSound-decide_all calls new_decisions tt

-- After any calls on a new control, a record whose view authorises an implementation is the confirmed one of
-- a decision on execution authority that a person took directly, for the recorded commit and effect.
pub granted_by_person :
    (calls : List DecisionCall) (i : ℕ) (r : DecisionRecord)
    → get_elem? (decide_all calls new_decisions).records i ≡ some r
    → (grants r).implementation_authorized ≡ true
    → IsAuthorised r × IsConfirmed r × (r.response.subject_type ≡ some execution_authority)
unfolding grants
granted_by_person calls i r e granted =
    let sound =
      All-get_elem? IsSound (decide_all calls new_decisions).records i r e
        (reachable-IsSound calls) in
    let bound = sound.authorised (confirmed_is_bound r.state (ground arith)) in
    (
      bound,
      sound.confirmed (ground arith),
      bound.subject ∙ same_subject_sound r.subject_type (some execution_authority) (ground arith),
    )
