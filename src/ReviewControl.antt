-- ===== src/ReviewControl.antt =====
-- backend/control/review_control.py: `ReviewControl`, which keeps one review request correlated. A time is
-- a number of microseconds; a time without a zone is `naive`, which `_aware` refuses.
pub mod Correlated
pub mod Once
pub mod Naive
use mathlib.Core.List.{◌++◌}
use ai_control_center.Base.{
  ℕ, ◌+◌, ◌*◌, String, Bool, true, false, ◌&&◌, ◌||◌, Option, none, some, List, [], ◌∷◌, ltb, ◌==◌,
  if◌then◌else◌,
}
use ai_control_center.Base.Keyed.{contains}

pub data ReviewControlState : Type 0 where
  sent received applied verified delivery_failed : ReviewControlState

pub record ReviewResponse : Type 0 where
  pub response_id : String
  pub in_reply_to : String
  pub result : String

pub data Moment : Type 0 where
  naive : Moment
  aware : ℕ → Moment

pub record ReviewControl : Type 0 where
  pub timeout_seconds : ℕ
  pub report_id : Option String
  pub state : Option ReviewControlState
  pub sent_at : Option ℕ
  pub received_at : Option ℕ
  pub applied_at : Option ℕ
  pub verified_at : Option ℕ
  pub response : Option ReviewResponse
  pub processed_response_ids : List String
  pub failure_reason : Option String
  pub downstream_evidence_id : Option String

-- The constructor, which asks for a positive number of seconds.
abbrev pub new_control : ℕ → ReviewControl
new_control timeout_seconds = record {
  timeout_seconds = timeout_seconds;
  report_id = none;
  state = none;
  sent_at = none;
  received_at = none;
  applied_at = none;
  verified_at = none;
  response = none;
  processed_response_ids = [];
  failure_reason = none;
  downstream_evidence_id = none;
}

pub data ReviewOutcome : Type 0 where
  accepted rejected ignored failed unchanged : ReviewOutcome

-- A method answers with an outcome and a reason, or raises; the rest of the dictionary that it answers
-- with is `view` of the control that it leaves.
pub data Called : Type 0 where
  answered : ReviewOutcome → Option String → ReviewControl → Called
  raised : ReviewControl → Called

abbrev pub control_after : Called → ReviewControl
control_after (answered outcome reason r) = r
control_after (raised r) = r

abbrev pub is_outstanding : Option ReviewControlState → Bool
is_outstanding (some sent) = true
is_outstanding (some received) = true
is_outstanding (some applied) = true
is_outstanding _ = false

-- What `_view` reports of the control, the times left out.
pub record ReviewView : Type 0 where
  pub report_id : Option String
  pub outstanding_report_id : Option String
  pub state : Option ReviewControlState
  pub response_id : Option String
  pub failure_reason : Option String
  pub downstream_evidence_id : Option String

abbrev pub id_of : Option ReviewResponse → Option String
id_of none = none
id_of (some response) = some response.response_id

unfoldable pub view : ReviewControl → ReviewView
view r = record {
  report_id = r.report_id;
  outstanding_report_id = if is_outstanding r.state then r.report_id else none;
  state = r.state;
  response_id = id_of r.response;
  failure_reason = r.failure_reason;
  downstream_evidence_id = r.downstream_evidence_id;
}

-- `_fail`
abbrev pub fail : String → ReviewControl → Called
fail reason r =
    answered failed (some reason)
      (record r { state = some delivery_failed; failure_reason = some reason })

-- Whether `send` finds a report that is still open: there is one, and it is neither verified nor failed.
abbrev pub is_open : Option String → Option ReviewControlState → Bool
is_open none state = false
is_open (some report) (some verified) = false
is_open (some report) (some delivery_failed) = false
is_open (some report) _ = true

-- `send` up to `self._aware(at)`: the report and the state are written before the time is checked.
abbrev pub begin_report : String → ReviewControl → ReviewControl
begin_report report r = record r { report_id = some report; state = some sent }

abbrev pub stamp_report : ℕ → ReviewControl → ReviewControl
stamp_report now r = record r {
  sent_at = some now;
  received_at = none;
  applied_at = none;
  verified_at = none;
  response = none;
  failure_reason = none;
  downstream_evidence_id = none;
}

abbrev pub finish_send : Moment → ReviewControl → Called
finish_send naive r = raised r
finish_send (aware now) r = answered accepted none (stamp_report now r)

-- `send`
unfoldable pub send : String → Moment → ReviewControl → Called
send report at r =
    if is_open r.report_id r.state
    then answered rejected (some "OUTSTANDING_REPORT_EXISTS") r
    else finish_send at (begin_report report r)

-- `now > self.sent_at + timedelta(seconds=self.timeout_seconds)`
abbrev pub is_late : ℕ → ℕ → ReviewControl → Bool
is_late now since r = ltb (since + r.timeout_seconds * 1000000) now

-- `set.add`
abbrev pub add_id : String → List String → List String
add_id id ids = if contains ids id then ids else ids ++ id ∷ []

abbrev pub accept_response : ReviewResponse → ℕ → ReviewControl → Called
accept_response response now r = answered accepted none (record r {
  response = some response;
  received_at = some now;
  state = some received;
  processed_response_ids = add_id response.response_id r.processed_response_ids;
})

-- `receive` for a request that was sent: the checks from the watcher on.
unfoldable pub receive_sent : ReviewResponse → ℕ → Bool → String → ℕ → ReviewControl → Called
receive_sent response now watcher_available report since r =
    if watcher_available
    then if is_late now since r
      then fail "REVIEW_RESPONSE_TIMEOUT" r
      else if response.in_reply_to == report
      then accept_response response now r
      else answered rejected (some "IN_REPLY_TO_MISMATCH") r
    else fail "WATCHER_UNAVAILABLE" r

-- `receive` by the state, the report and the time of sending.
unfoldable pub receive_at :
    ReviewResponse
    → ℕ
    → Bool
    → Option ReviewControlState
    → Option String
    → Option ℕ
    → ReviewControl
    → Called
receive_at response now watcher_available (some sent) (some report) (some since) r =
    receive_sent response now watcher_available report since r
receive_at response now watcher_available _ _ _ r =
    answered rejected (some "NO_SENT_OUTSTANDING_REPORT") r

-- `receive`; `none` is a response that does not validate.
unfoldable pub receive : Option ReviewResponse → Moment → Bool → ReviewControl → Called
receive none at watcher_available r = raised r
receive (some response) naive watcher_available r = raised r
receive (some response) (aware now) watcher_available r =
    if contains r.processed_response_ids response.response_id
    then answered ignored (some "DUPLICATE_RESPONSE") r
    else receive_at response now watcher_available r.state r.report_id r.sent_at r

abbrev pub finish_apply : Moment → ReviewControl → Called
finish_apply naive r = raised r
finish_apply (aware now) r =
    answered accepted none (record r { applied_at = some now; state = some applied })

unfoldable pub apply_at :
    String → Moment → Option ReviewControlState → Option ReviewResponse → ReviewControl → Called
apply_at id at (some received) (some response) r =
    if id == response.response_id
    then finish_apply at r
    else answered rejected (some "RESPONSE_ID_MISMATCH") r
apply_at id at _ _ r = answered rejected (some "MATCHING_RESPONSE_NOT_RECEIVED") r

-- `apply`
unfoldable pub apply : String → Moment → ReviewControl → Called
apply id at r = apply_at id at r.state r.response r

abbrev pub is_applied : Option ReviewControlState → Bool
is_applied (some applied) = true
is_applied _ = false

-- `verify` writes the evidence before the time is checked.
abbrev pub finish_verify : Moment → ReviewControl → Called
finish_verify naive r = raised r
finish_verify (aware now) r =
    answered accepted none (record r { verified_at = some now; state = some verified })

-- `verify`
unfoldable pub verify : String → Moment → ReviewControl → Called
verify evidence at r =
    if is_applied r.state && (if evidence == "" then false else true)
    then finish_verify at (record r { downstream_evidence_id = some evidence })
    else answered rejected (some "APPLIED_RESPONSE_EVIDENCE_MISSING") r

unfoldable pub deadline_at : ℕ → Option ReviewControlState → Option ℕ → ReviewControl → Called
deadline_at now (some sent) (some since) r =
    if is_late now since r then fail "REVIEW_RESPONSE_TIMEOUT" r else answered unchanged none r
deadline_at now _ _ r = answered unchanged none r

-- `check_deadline`
unfoldable pub check_deadline : Moment → ReviewControl → Called
check_deadline naive r = raised r
check_deadline (aware now) r = deadline_at now r.state r.sent_at r

-- The public methods.
pub data ReviewCall : Type 0 where
  send_report : String → Moment → ReviewCall
  receive_response : Option ReviewResponse → Moment → Bool → ReviewCall
  apply_response : String → Moment → ReviewCall
  verify_response : String → Moment → ReviewCall
  deadline_checked : Moment → ReviewCall

unfoldable pub call : ReviewCall → ReviewControl → Called
call (send_report report at) r = send report at r
call (receive_response response at available) r = receive response at available r
call (apply_response id at) r = apply id at r
call (verify_response evidence at) r = verify evidence at r
call (deadline_checked at) r = check_deadline at r

-- One after the other; a method that raised leaves what it wrote.
unfoldable pub call_all : List ReviewCall → ReviewControl → ReviewControl
call_all [] r = r
call_all (c ∷ calls) r = call_all calls (control_after (call c r))
