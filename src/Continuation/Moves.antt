-- ===== src/Continuation/Moves.antt =====
-- What a continuation went through (backend/control/review_continuation.py).
use Prim.Native.String.{String}
use ai_control_center.Base.{
  ◌≡◌, Bool, true, false, ◌&&◌, ◌||◌, Option, none, some, List, [], ◌∷◌, arith, ◌==◌, eq_iff,
}
use ai_control_center.ReviewControl.{Moment, naive, aware}
use ai_control_center.Continuation.{
  ContinuationState, verified, ContinuationControl, new_continuation, continuation_after,
  is_applying, is_zero, is_effect, begin, finish, finish_applying, verify, fail_auth_context,
  ContinuationCall, begin_call, finish_call, verify_call, fail_call, call, call_all,
}
use ai_control_center.Continuation.Observed.{is_done}

abbrev pub is_verified : ContinuationState → Bool
is_verified verified = true
is_verified _ = false

-- The call begins the response to the report.
abbrev pub begins : String → String → ContinuationCall → Bool
begins report response (begin_call report_id response_id at actor) =
    (report_id == report) && (response_id == response)
begins report response _ = false

-- The call reports a clean exit, a valid envelope and this effect.
abbrev pub finishes : Option String → ContinuationCall → Bool
finishes (some effect) (finish_call exit_code valid reason (some found) (aware now)) =
    is_zero exit_code && valid && (found == effect)
finishes _ _ = false

-- The call observed this effect.
abbrev pub verifies : Option String → ContinuationCall → Bool
verifies effect (verify_call observed at) = is_effect observed effect
verifies effect _ = false

-- The calls are given with the latest first.
abbrev pub has_begun : String → String → List ContinuationCall → Bool
has_begun report response [] = false
has_begun report response (x ∷ earlier) =
    begins report response x || has_begun report response earlier

abbrev pub has_finished : String → String → Option String → List ContinuationCall → Bool
has_finished report response effect [] = false
has_finished report response effect (x ∷ earlier) =
    (finishes effect x && has_begun report response earlier)
    || has_finished report response effect earlier

abbrev pub has_verified : String → String → Option String → List ContinuationCall → Bool
has_verified report response effect [] = false
has_verified report response effect (x ∷ earlier) =
    (verifies effect x && has_finished report response effect earlier)
    || has_verified report response effect earlier

-- What the calls before, the latest first, left.
pub record IsTraced (report response : String) (earlier : List ContinuationCall)
    (c : ContinuationControl) : Type 0 where
  pub of_report : c.report_id ≡ report
  pub of_response : c.response_id ≡ response
  pub begun : is_applying c.state ≡ true → has_begun report response earlier ≡ true
  pub finished :
      is_done c.state ≡ true → has_finished report response c.downstream_effect_id earlier ≡ true
  pub observed :
      is_verified c.state ≡ true
      → has_verified report response c.downstream_effect_id earlier ≡ true

IsTraced-call :
    (report response : String) (earlier : List ContinuationCall) (x : ContinuationCall)
    (c : ContinuationControl)
    → IsTraced report response earlier c
    → IsTraced report response (x ∷ earlier) (continuation_after (call x c))
unfolding call begin finish finish_applying verify fail_auth_context
IsTraced-call report response earlier (begin_call report_id response_id naive actor) c h =
    ground arith
IsTraced-call report response earlier (begin_call report_id response_id (aware now) actor) c h =
    ground arith
IsTraced-call report response earlier (finish_call exit_code valid reason none naive) c h =
    ground arith
IsTraced-call report response earlier (finish_call exit_code valid reason none (aware now)) c h =
    ground arith
IsTraced-call report response earlier (finish_call exit_code valid reason (some effect) naive) c h =
    ground arith
IsTraced-call report response earlier (finish_call exit_code valid reason (some effect) (aware now))
      c h =
    ground (arith, eq_iff effect effect)
IsTraced-call report response earlier (verify_call observed naive) c h = ground arith
IsTraced-call report response earlier (verify_call observed (aware now)) c h = ground arith
IsTraced-call report response earlier (fail_call actor auth naive) c h = ground arith
IsTraced-call report response earlier (fail_call actor auth (aware now)) c h = ground arith

abbrev pub latest_first : List ContinuationCall → List ContinuationCall → List ContinuationCall
latest_first [] earlier = earlier
latest_first (x ∷ calls) earlier = latest_first calls (x ∷ earlier)

IsTraced-call_all :
    (report response : String) (calls earlier : List ContinuationCall) (c : ContinuationControl)
    → IsTraced report response earlier c
    → IsTraced report response (latest_first calls earlier) (call_all calls c)
unfolding call_all
IsTraced-call_all report response [] earlier c h = h
IsTraced-call_all report response (x ∷ calls) earlier c h =
    IsTraced-call_all report response calls (x ∷ earlier) (continuation_after (call x c))
      (IsTraced-call report response earlier x c h)

-- After any calls of a new control, it still names its report and its response; if it is applied, one of the
-- calls reported a clean exit, a valid envelope and the effect that it holds, after one that began this
-- response to this report; and if it is verified, a later call observed that same effect.
pub reachable-IsTraced :
    (report response comment : String) (at : Moment) (calls : List ContinuationCall)
    (c : ContinuationControl)
    → new_continuation report response comment at ≡ some c
    → IsTraced report response (latest_first calls []) (call_all calls c)
unfolding new_continuation
reachable-IsTraced report response comment naive calls c e = absurd (cc)
reachable-IsTraced report response comment (aware now) calls c e =
    IsTraced-call_all report response calls [] c (ground arith)
