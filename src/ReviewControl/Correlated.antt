-- ===== src/ReviewControl/Correlated.antt =====
-- What holds of a review's control between two calls (backend/control/review_control.py).
use ai_control_center.Base.{
  ℕ, ◌+◌, ◌*◌, leb, ◌≡◌, ◌≢◌, refl, String, Bool, true, false, ◌&&◌, Option, none, some, List, [],
  ◌∷◌, arith, ◌==◌, Bool-cases, inl, inr, all, if◌then◌else◌,
}
use ai_control_center.Base.Keyed.{contains, contains-append_last}
use ai_control_center.Routing.Router.{is_some}
use ai_control_center.ReviewControl.{
  ReviewControlState, sent, received, applied, verified, delivery_failed, ReviewResponse, Moment,
  naive, aware, ReviewControl, new_control, control_after, add_id, send, receive, receive_at,
  receive_sent, apply, apply_at, verify, check_deadline, deadline_at, ReviewCall, send_report,
  receive_response, apply_response, verify_response, deadline_checked, call, call_all,
}

abbrev pub is_answered : Option ReviewControlState → Bool
is_answered (some received) = true
is_answered (some applied) = true
is_answered (some verified) = true
is_answered _ = false

-- The response answers the report, and its id is among the processed ones.
abbrev pub answers : Option String → Option ReviewResponse → List String → Bool
answers (some report) (some response) processed =
    (response.in_reply_to == report) && contains processed response.response_id
answers _ _ processed = false

abbrev pub is_applied_to : Option ReviewControlState → Bool
is_applied_to (some applied) = true
is_applied_to (some verified) = true
is_applied_to _ = false

abbrev pub is_verified_by : Option ReviewControlState → Bool
is_verified_by (some verified) = true
is_verified_by _ = false

-- The time at which a response arrived is inside the timeout of its report.
abbrev pub is_in_time : Option ℕ → Option ℕ → ℕ → Bool
is_in_time (some since) (some arrived) timeout = leb arrived (since + timeout * 1000000)
is_in_time _ _ timeout = true

abbrev pub is_nonempty_text : Option String → Bool
is_nonempty_text none = false
is_nonempty_text (some text) = if text == "" then false else true

pub record IsCorrelated (r : ReviewControl) : Type 0 where
  pub named : r.state ≢ none → is_some r.report_id ≡ true
  pub timed : r.state ≢ none → is_some r.sent_at ≡ true
  pub timed_received : is_some r.received_at ≡ is_answered r.state
  pub timed_applied : is_some r.applied_at ≡ is_applied_to r.state
  pub timed_verified : is_some r.verified_at ≡ is_verified_by r.state
  pub punctual : is_in_time r.sent_at r.received_at r.timeout_seconds ≡ true
  pub unanswered : r.state ≡ some sent → r.response ≡ none
  pub matched :
      is_answered r.state ≡ true → answers r.report_id r.response r.processed_response_ids ≡ true
  pub evidenced : r.state ≡ some verified → is_nonempty_text r.downstream_evidence_id ≡ true
  pub explained : r.state ≡ some delivery_failed → is_some r.failure_reason ≡ true

contains-add_id : (id : String) (ids : List String) → contains (add_id id ids) id ≡ true
contains-add_id id ids = elim (Bool-cases (contains ids id)) [
  | inl old ↦ rw old old
  | inr new ↦ rw new (contains-append_last id ids)
]

IsCorrelated-send :
    (report : String) (now : ℕ) (r : ReviewControl)
    → IsCorrelated r
    → IsCorrelated (control_after (send report (aware now) r))
unfolding send
IsCorrelated-send report now r h = ground arith

IsCorrelated-receive_sent :
    (response : ReviewResponse) (now : ℕ) (available : Bool) (report : String) (since : ℕ)
    (r : ReviewControl)
    → r.state ≡ some sent
    → r.report_id ≡ some report
    → r.sent_at ≡ some since
    → IsCorrelated r
    → IsCorrelated (control_after (receive_sent response now available report since r))
unfolding receive_sent
IsCorrelated-receive_sent response now available report since r s i t h =
    ground (arith, contains-add_id response.response_id r.processed_response_ids)

IsCorrelated-receive_at :
    (response : ReviewResponse) (now : ℕ) (available : Bool) (state : Option ReviewControlState)
    (report : Option String) (since : Option ℕ) (r : ReviewControl)
    → r.state ≡ state
    → r.report_id ≡ report
    → r.sent_at ≡ since
    → IsCorrelated r
    → IsCorrelated (control_after (receive_at response now available state report since r))
unfolding receive_at
IsCorrelated-receive_at response now available (some sent) (some report) (some since) r s i t h =
    IsCorrelated-receive_sent response now available report since r s i t h
IsCorrelated-receive_at response now available state report since r s i t h = h

IsCorrelated-receive :
    (response : Option ReviewResponse) (at : Moment) (available : Bool) (r : ReviewControl)
    → IsCorrelated r
    → IsCorrelated (control_after (receive response at available r))
unfolding receive
IsCorrelated-receive none at available r h = h
IsCorrelated-receive (some response) naive available r h = h
IsCorrelated-receive (some response) (aware now) available r h =
    elim (Bool-cases (contains r.processed_response_ids response.response_id)) [
      | inl old ↦ rw old h
      | inr new ↦ rw new (
          IsCorrelated-receive_at response now available r.state r.report_id r.sent_at r refl refl
            refl h)
    ]

IsCorrelated-apply :
    (id : String) (at : Moment) (r : ReviewControl)
    → IsCorrelated r
    → IsCorrelated (control_after (apply id at r))
unfolding apply apply_at
IsCorrelated-apply id naive r h = ground arith
IsCorrelated-apply id (aware now) r h = ground arith

IsCorrelated-verify :
    (evidence : String) (at : Moment) (r : ReviewControl)
    → IsCorrelated r
    → IsCorrelated (control_after (verify evidence at r))
unfolding verify
IsCorrelated-verify evidence naive r h = ground arith
IsCorrelated-verify evidence (aware now) r h = ground arith

IsCorrelated-check_deadline :
    (at : Moment) (r : ReviewControl)
    → IsCorrelated r
    → IsCorrelated (control_after (check_deadline at r))
unfolding check_deadline deadline_at
IsCorrelated-check_deadline naive r h = h
IsCorrelated-check_deadline (aware now) r h = ground arith

-- The call does not send a report with a time that has no zone.
abbrev pub is_dated : ReviewCall → Bool
is_dated (send_report report naive) = false
is_dated _ = true

IsCorrelated-call :
    (c : ReviewCall) (r : ReviewControl)
    → is_dated c ≡ true
    → IsCorrelated r
    → IsCorrelated (control_after (call c r))
unfolding call
IsCorrelated-call (send_report report naive) r d h = absurd (cc)
IsCorrelated-call (send_report report (aware now)) r d h = IsCorrelated-send report now r h
IsCorrelated-call (receive_response response at available) r d h =
    IsCorrelated-receive response at available r h
IsCorrelated-call (apply_response id at) r d h = IsCorrelated-apply id at r h
IsCorrelated-call (verify_response evidence at) r d h = IsCorrelated-verify evidence at r h
IsCorrelated-call (deadline_checked at) r d h = IsCorrelated-check_deadline at r h

IsCorrelated-call_all :
    (calls : List ReviewCall) (r : ReviewControl)
    → all is_dated calls ≡ true
    → IsCorrelated r
    → IsCorrelated (call_all calls r)
unfolding call_all
IsCorrelated-call_all [] r d h = h
IsCorrelated-call_all (c ∷ calls) r d h =
    IsCorrelated-call_all calls (control_after (call c r)) (ground arith)
      (IsCorrelated-call c r (ground arith) h)

-- After any calls of a new control, none of which sends a report with a time that has no zone: a control in
-- a state holds a report and the time it was sent; it holds a time of receiving exactly when it is received,
-- applied or verified, one of applying exactly when it is applied or verified, and one of verifying exactly
-- when it is verified, and what was received came inside the timeout; one that waits has no response; one that
-- is received, applied or verified holds a response to its own report, whose id is processed; a verified one
-- has evidence, and a failed one a reason.
pub reachable-IsCorrelated :
    (timeout : ℕ) (calls : List ReviewCall)
    → all is_dated calls ≡ true
    → IsCorrelated (call_all calls (new_control timeout))
reachable-IsCorrelated timeout calls d =
    IsCorrelated-call_all calls (new_control timeout) d (ground arith)
