-- ===== src/Continuation/Observed.antt =====
-- What holds of a continuation between two calls (backend/control/review_continuation.py).
use Prim.Native.String.{String}
use ai_control_center.Base.{◌≡◌, Bool, true, false, Option, none, some, List, [], ◌∷◌, arith}
use ai_control_center.Base.Int.{ℤ}
use ai_control_center.ReviewControl.{Moment, naive, aware}
use ai_control_center.Continuation.{
  ContinuationState, applied, verified, continuation_failed, delivery_failed, ContinuationControl,
  new_continuation, continuation_after, is_pending, is_zero, is_missing, begin, finish,
  finish_applying, verify, fail_auth_context, ContinuationCall, begin_call, finish_call,
  verify_call, fail_call, call, call_all,
}

-- The response was applied.
abbrev pub is_done : ContinuationState → Bool
is_done applied = true
is_done verified = true
is_done _ = false

abbrev pub is_failed : ContinuationState → Bool
is_failed continuation_failed = true
is_failed delivery_failed = true
is_failed _ = false

abbrev pub has : {A : Type 0} → Option A → Bool
has none = false
has (some a) = true

abbrev pub is_clean_exit : Option ℤ → Bool
is_clean_exit none = false
is_clean_exit (some exit_code) = is_zero exit_code

abbrev pub is_true : Option Bool → Bool
is_true none = false
is_true (some b) = b

pub record IsObserved (c : ContinuationControl) : Type 0 where
  pub exited : is_done c.state ≡ true → is_clean_exit c.exit_code ≡ true
  pub validated : is_done c.state ≡ true → is_true c.envelope_valid ≡ true
  pub effective : is_done c.state ≡ true → is_missing c.downstream_effect_id ≡ false
  pub timed : is_done c.state ≡ true → has c.applied_at ≡ true
  pub explained : is_failed c.state ≡ has c.failure_reason
  pub untouched : is_pending c.state ≡ true → has c.exit_code ≡ false

IsObserved-call :
    (x : ContinuationCall) (c : ContinuationControl)
    → IsObserved c
    → IsObserved (continuation_after (call x c))
unfolding call begin finish finish_applying verify fail_auth_context
IsObserved-call (begin_call report_id response_id naive actor) c h = ground arith
IsObserved-call (begin_call report_id response_id (aware now) actor) c h = ground arith
IsObserved-call (finish_call exit_code valid reason effect naive) c h = ground arith
IsObserved-call (finish_call exit_code valid reason effect (aware now)) c h = ground arith
IsObserved-call (verify_call observed naive) c h = ground arith
IsObserved-call (verify_call observed (aware now)) c h = ground arith
IsObserved-call (fail_call actor auth naive) c h = ground arith
IsObserved-call (fail_call actor auth (aware now)) c h = ground arith

IsObserved-call_all :
    (calls : List ContinuationCall) (c : ContinuationControl)
    → IsObserved c
    → IsObserved (call_all calls c)
unfolding call_all
IsObserved-call_all [] c h = h
IsObserved-call_all (x ∷ calls) c h =
    IsObserved-call_all calls (continuation_after (call x c)) (IsObserved-call x c h)

-- After any calls of a new control, also after those that raised: one that is applied or verified holds an
-- exit code of 0, a valid envelope, an effect that is not empty and the time it was applied; one has a
-- reason of failure exactly when it failed; and one that is pending has no exit code.
pub reachable-IsObserved :
    (report_id response_id comment_id : String) (at : Moment) (calls : List ContinuationCall)
    (c : ContinuationControl)
    → new_continuation report_id response_id comment_id at ≡ some c
    → IsObserved (call_all calls c)
unfolding new_continuation
reachable-IsObserved report_id response_id comment_id naive calls c e = absurd (cc)
reachable-IsObserved report_id response_id comment_id (aware now) calls c e =
    IsObserved-call_all calls c (ground arith)
