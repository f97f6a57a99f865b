-- ===== src/ReviewControl/Once.antt =====
-- A response is taken once and in time (backend/control/review_control.py).
use ai_control_center.Base.{
  ℕ, ◌+◌, ◌*◌, ◌≤◌, ◌≡◌, refl, String, Bool, true, false, Option, none, some, List, [], ◌∷◌, arith,
  eq_iff, Bool-cases, inl, inr,
}
use ai_control_center.Base.Keyed.{contains, contains-append_last, contains-append_left}
use ai_control_center.ReviewControl.{
  ReviewControlState, sent, ReviewResponse, naive, aware, ReviewControl, answered, accepted,
  ignored, control_after, add_id, send, receive, receive_at, receive_sent, apply, apply_at, verify,
  check_deadline, deadline_at, ReviewCall, send_report, receive_response, apply_response,
  verify_response, deadline_checked, call, call_all,
}

-- What an accepted response says of the control before it.
pub record Taken (response : ReviewResponse) (now : ℕ) (r r' : ReviewControl) : Type 0 where
  pub waiting : r.state ≡ some sent
  pub answer : r.report_id ≡ some response.in_reply_to
  pub fresh : contains r.processed_response_ids response.response_id ≡ false
  pub processed : contains r'.processed_response_ids response.response_id ≡ true
  pub in_time : (since : ℕ) × (r.sent_at ≡ some since) × (now ≤ since + r.timeout_seconds * 1000000)

contains-add_id_old :
    (k id : String) (ids : List String) → contains ids k ≡ true → contains (add_id id ids) k ≡ true
contains-add_id_old k id ids h = elim (Bool-cases (contains ids id)) [
  | inl old ↦ rw old h
  | inr new ↦ rw new (contains-append_left k ids (id ∷ []) h)
]

receive_sent-Taken :
    (response : ReviewResponse) (now : ℕ) (available : Bool) (report : String) (since : ℕ)
    (r r' : ReviewControl) (reason : Option String)
    → r.state ≡ some sent
    → r.report_id ≡ some report
    → r.sent_at ≡ some since
    → contains r.processed_response_ids response.response_id ≡ false
    → receive_sent response now available report since r ≡ answered accepted reason r'
    → Taken response now r r'
unfolding receive_sent
receive_sent-Taken response now available report since r r' reason s i t f e = record {
  waiting = s;
  answer = ground (arith, eq_iff response.in_reply_to report);
  fresh = f;
  processed = ground (arith, contains-append_last response.response_id r.processed_response_ids);
  in_time = (since, t, ground arith);
}

receive_at-Taken :
    (response : ReviewResponse) (now : ℕ) (available : Bool) (state : Option ReviewControlState)
    (report : Option String) (since : Option ℕ) (r r' : ReviewControl) (reason : Option String)
    → r.state ≡ state
    → r.report_id ≡ report
    → r.sent_at ≡ since
    → contains r.processed_response_ids response.response_id ≡ false
    → receive_at response now available state report since r ≡ answered accepted reason r'
    → Taken response now r r'
unfolding receive_at
receive_at-Taken response now available (some sent) (some report) (some since) r r' reason s i t f
      e =
    receive_sent-Taken response now available report since r r' reason s i t f e
receive_at-Taken response now available state report since r r' reason s i t f e = absurd (cc)

-- A response is accepted only while its own report waits, not later than the timeout after the report was
-- sent, and only if its id was not processed before; then its id is processed.
pub receive-Taken :
    (response : ReviewResponse) (now : ℕ) (available : Bool) (r r' : ReviewControl)
    (reason : Option String)
    → receive (some response) (aware now) available r ≡ answered accepted reason r'
    → Taken response now r r'
unfolding receive
receive-Taken response now available r r' reason e =
    elim (Bool-cases (contains r.processed_response_ids response.response_id)) [
      | inl old ↦ absurd (ground (arith, old, e))
      | inr new ↦
          receive_at-Taken response now available r.state r.report_id r.sent_at r r' reason refl
            refl refl new (rw new at e)
    ]

receive_at-processed :
    (k : String) (response : ReviewResponse) (now : ℕ) (available : Bool)
    (state : Option ReviewControlState) (report : Option String) (since : Option ℕ)
    (r : ReviewControl)
    → contains r.processed_response_ids k ≡ true
    → contains
        (control_after
          (receive_at response now available state report since r)).processed_response_ids
        k
      ≡ true
unfolding receive_at receive_sent
receive_at-processed k response now available (some sent) (some report) (some since) r h =
    ground (arith, contains-add_id_old k response.response_id r.processed_response_ids h)
receive_at-processed k response now available state report since r h = h

-- What is processed stays processed.
call-processed :
    (k : String) (c : ReviewCall) (r : ReviewControl)
    → contains r.processed_response_ids k ≡ true
    → contains (control_after (call c r)).processed_response_ids k ≡ true
unfolding call send receive apply apply_at verify check_deadline deadline_at
call-processed k (send_report report naive) r h = ground arith
call-processed k (send_report report (aware now)) r h = ground arith
call-processed k (receive_response none at available) r h = h
call-processed k (receive_response (some response) naive available) r h = h
call-processed k (receive_response (some response) (aware now) available) r h =
    elim (Bool-cases (contains r.processed_response_ids response.response_id)) [
      | inl old ↦ rw old h
      | inr new ↦
          rw new (receive_at-processed k response now available r.state r.report_id r.sent_at r h)
    ]
call-processed k (apply_response id naive) r h = ground arith
call-processed k (apply_response id (aware now)) r h = ground arith
call-processed k (verify_response evidence naive) r h = ground arith
call-processed k (verify_response evidence (aware now)) r h = ground arith
call-processed k (deadline_checked naive) r h = h
call-processed k (deadline_checked (aware now)) r h = ground arith

call_all-processed :
    (k : String) (calls : List ReviewCall) (r : ReviewControl)
    → contains r.processed_response_ids k ≡ true
    → contains (call_all calls r).processed_response_ids k ≡ true
unfolding call_all
call_all-processed k [] r h = h
call_all-processed k (c ∷ calls) r h =
    call_all-processed k calls (control_after (call c r)) (call-processed k c r h)

-- Once a response is accepted, a response with the same id is ignored as a duplicate, whatever was called
-- in between and whenever it comes, and the control is left as it is.
pub receive_once :
    (response duplicate : ReviewResponse) (now later : ℕ) (available again : Bool)
    (reason : Option String) (r r' : ReviewControl) (calls : List ReviewCall)
    → receive (some response) (aware now) available r ≡ answered accepted reason r'
    → duplicate.response_id ≡ response.response_id
    → receive (some duplicate) (aware later) again (call_all calls r')
      ≡ answered ignored (some "DUPLICATE_RESPONSE") (call_all calls r')
unfolding receive
receive_once response duplicate now later available again reason r r' calls e same =
    let taken = receive-Taken response now available r r' reason e in
    rw (rw (← same) at (call_all-processed response.response_id calls r' taken.processed)) refl
