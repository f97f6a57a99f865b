-- ===== src/ReviewControl/Naive.antt =====
-- What a report that is sent with a time without a zone leaves (backend/control/review_control.py).
use ai_control_center.Base.{ℕ, ◌≡◌, refl, String, none, some, List, [], ◌∷◌, arith}
use ai_control_center.ReviewControl.{
  sent, naive, aware, ReviewControl, new_control, control_after, send, receive, receive_at, apply,
  apply_at, verify, check_deadline, deadline_at, ReviewCall, send_report, receive_response,
  apply_response, verify_response, deadline_checked, call, call_all,
}

-- The control holds a report that was never sent.
pub record IsStuck (report : String) (r : ReviewControl) : Type 0 where
  pub state : r.state ≡ some sent
  pub report_id : r.report_id ≡ some report
  pub unsent : r.sent_at ≡ none

IsStuck-call :
    (report : String) (c : ReviewCall) (r : ReviewControl)
    → IsStuck report r
    → IsStuck report (control_after (call c r))
unfolding call send receive receive_at apply apply_at verify check_deadline deadline_at
IsStuck-call report (send_report id at) r h = ground arith
IsStuck-call report (receive_response none at available) r h = h
IsStuck-call report (receive_response (some response) naive available) r h = h
IsStuck-call report (receive_response (some response) (aware now) available) r h = ground arith
IsStuck-call report (apply_response id at) r h = ground arith
IsStuck-call report (verify_response evidence at) r h = ground arith
IsStuck-call report (deadline_checked naive) r h = h
IsStuck-call report (deadline_checked (aware now)) r h = ground arith

IsStuck-call_all :
    (report : String) (calls : List ReviewCall) (r : ReviewControl)
    → IsStuck report r
    → IsStuck report (call_all calls r)
unfolding call_all
IsStuck-call_all report [] r h = h
IsStuck-call_all report (c ∷ calls) r h =
    IsStuck-call_all report calls (control_after (call c r)) (IsStuck-call report c r h)

-- When the first report of a control is sent with a time that has no zone, `send` raises and the control is
-- stuck: whatever is called afterwards, it holds that report in the state SENT with no time of sending.
pub naive_send_sticks :
    (timeout : ℕ) (report : String) (calls : List ReviewCall)
    → IsStuck report (call_all (send_report report naive ∷ calls) (new_control timeout))
unfolding call_all call send
naive_send_sticks timeout report calls =
    IsStuck-call_all report calls _ (record { state = refl; report_id = refl; unsent = refl })
