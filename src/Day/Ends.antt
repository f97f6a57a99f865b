-- ===== src/Day/Ends.antt =====
-- How the calls of the public methods of `DayRunner` end (backend/orchestrator/day_runner.py).
use ai_control_center.Base.{
  ◌≡◌, refl, String, Bool, true, false, Option, none, some, List, [], ◌∷◌, arith, if◌then◌else◌,
}
use ai_control_center.Base.Keyed.{lookup}
use ai_control_center.Day.{DayRunState, DayExecutionMode, DayPlan, DayRunSnapshot}
use ai_control_center.Day.Outside.{Outside}
use ai_control_center.Day.Runner.{DayRunner, Outcome, returned, raised, out_of_rounds}
use ai_control_center.Day.Advance.{is_running, advance}
use ai_control_center.Day.Control.{
  Response, rejected, accepted, runner_of, is_active, is_resumable, unsupported, missing_tasks,
  or_mode, plan_of, start_missing, start_plan, start, resume_plan, resume, stop, Operation,
  start_day, resume_day, stop_requested, perform, perform_all, new_runner,
}
use ai_control_center.Day.Step.Loop.{AdvanceAt, AdvanceAt-advance}
use ai_control_center.Day.Reachable.{Starts-begin_day, Starts-reopen_day, reachable-IsSane}
use ai_control_center.Day.Sane.{IsSane, Starts, Advanced-Starts}

-- A call refuses and changes nothing, or returns a day that does not run, or raises.
abbrev pub Ended : DayRunner → Response → Type 0
Ended r (rejected error r') = r' ≡ r
Ended r (accepted (returned r')) = is_running r'.snapshot.state ≡ false
Ended r (accepted (raised fault r')) = Unit
Ended r (accepted (out_of_rounds r')) = ⊥

Ended-AdvanceAt :
    (plan : DayPlan) (s₀ : DayRunSnapshot) (r : DayRunner) (v : Outcome)
    → AdvanceAt plan s₀ v
    → Ended r (accepted v)
Ended-AdvanceAt plan s₀ r (returned r') h = h.1
Ended-AdvanceAt plan s₀ r (raised fault r') h = tt
Ended-AdvanceAt plan s₀ r (out_of_rounds r') h = h

Ended-advance :
    (o : Outside) (plan : DayPlan) (before r : DayRunner)
    → Starts plan r.snapshot
    → Ended before (accepted (advance o plan r))
Ended-advance o plan before r h =
    Ended-AdvanceAt plan r.snapshot before _
      (AdvanceAt-advance o plan r.snapshot r (Advanced-Starts plan r.snapshot h))

Ended-if :
    (r : DayRunner) (b : Bool) (v w : Response)
    → Ended r v
    → Ended r w
    → Ended r (if b then v else w)
Ended-if r true v w hv hw = hv
Ended-if r false v w hv hw = hw

Ended-start_missing :
    (o : Outside) (plan_id : String) (plan : DayPlan) (mode : DayExecutionMode) (r : DayRunner)
    (missing : List String)
    → Ended r (start_missing o plan_id plan mode missing r)
unfolding start_missing
Ended-start_missing o plan_id plan mode r [] =
    Ended-advance o plan r _ (Starts-begin_day o plan_id plan mode r)
Ended-start_missing o plan_id plan mode r (task_id ∷ task_ids) = refl

Ended-start_plan :
    (o : Outside) (plan_id : String) (mode : DayExecutionMode) (r : DayRunner)
    (found : Option DayPlan)
    → Ended r (start_plan o plan_id mode r found)
unfolding start_plan
Ended-start_plan o plan_id mode r none = refl
Ended-start_plan o plan_id mode r (some plan) = Ended-if r (unsupported mode plan) _ _ refl (
    Ended-if r (is_active r.snapshot.state) _ _ refl
      (Ended-start_missing o plan_id plan mode r (missing_tasks o.tasks plan)))

-- Starting a day, from any runner and with any answers of the architect, of the evaluator and of the task
-- executor, ends: it refuses and changes nothing, or returns a day that does not run any more, or raises.
pub start-Ended :
    (o : Outside) (plan_id : String) (mode : DayExecutionMode) (r : DayRunner)
    → Ended r (start o plan_id mode r)
unfolding start
start-Ended o plan_id mode r = Ended-start_plan o plan_id mode r (lookup plan_id o.plans)

Ended-resume_plan :
    (o : Outside) (mode : DayExecutionMode) (r : DayRunner) (found : Option DayPlan)
    → plan_of o.plans r.snapshot.plan_id ≡ found
    → IsSane o r
    → Ended r (resume_plan o mode r found)
unfolding resume_plan
Ended-resume_plan o mode r none e h = refl
Ended-resume_plan o mode r (some plan) e h = Ended-if r (unsupported mode plan) _ _ refl (
    Ended-if r (is_resumable r.snapshot.state) _ _
      (Ended-advance o plan r _ (Starts-reopen_day o plan mode r (h plan e))) refl)

-- Resuming a day that was reached from a new runner by any operations ends: it refuses and changes
-- nothing, or returns a day that does not run any more, or raises.
pub resume-Ended :
    (o : Outside) (operations : List Operation) (mode : Option DayExecutionMode)
    → Ended
        (perform_all o operations (new_runner o))
        (resume o mode (perform_all o operations (new_runner o)))
unfolding resume
resume-Ended o operations mode =
    Ended-resume_plan o (or_mode mode (perform_all o operations (new_runner o)).snapshot.mode) _ _
      refl (reachable-IsSane o operations)

start_in_review :
    (o : Outside) (plan_id : String) (mode : DayExecutionMode) (r : DayRunner)
    (found : Option DayPlan)
    → r.snapshot.state ≡ DayRunState.human_review
    → runner_of (start_plan o plan_id mode r found) ≡ r
unfolding start_plan
start_in_review o plan_id mode r none e = refl
start_in_review o plan_id mode r (some plan) e = ground arith

resume_in_review :
    (o : Outside) (mode : DayExecutionMode) (r : DayRunner) (found : Option DayPlan)
    → r.snapshot.state ≡ DayRunState.human_review
    → runner_of (resume_plan o mode r found) ≡ r
unfolding resume_plan
resume_in_review o mode r none e = refl
resume_in_review o mode r (some plan) e = ground arith

perform_in_review :
    (o : Outside) (operation : Operation) (r : DayRunner)
    → r.snapshot.state ≡ DayRunState.human_review
    → perform o operation r ≡ r
unfolding perform start resume stop
perform_in_review o (start_day plan_id mode) r e = start_in_review o plan_id mode r _ e
perform_in_review o (resume_day mode) r e = resume_in_review o _ r _ e
perform_in_review o stop_requested r e = ground arith

-- A day that waits for a human review is left as it is by every sequence of starts, resumes and stops.
pub review_absorbs :
    (o : Outside) (operations : List Operation) (r : DayRunner)
    → r.snapshot.state ≡ DayRunState.human_review
    → perform_all o operations r ≡ r
unfolding perform_all
review_absorbs o [] r e = refl
review_absorbs o (operation ∷ operations) r e =
    rw (perform_in_review o operation r e) (review_absorbs o operations r e)
