-- ===== src/Day/Reachable.antt =====
-- What holds of a day runner of backend/orchestrator/day_runner.py between the calls of its methods.
use ai_control_center.Base.{
  ◌≡◌, refl, String, Bool, true, false, Option, none, some, List, [], ◌∷◌, arith, inl, inr,
  Option-cases, if◌then◌else◌,
}
use ai_control_center.Base.Keyed.{Keyed, lookup}
use ai_control_center.Routing.{ModelProfile}
use ai_control_center.Day.{DayExecutionMode, DayPlan, DayRunSnapshot}
use ai_control_center.Day.Outside.{Outside}
use ai_control_center.Day.Runner.{DayRunner, save, audit, stop_day}
use ai_control_center.Day.Account.{ensure_profile_usage}
use ai_control_center.Day.Control.{
  Response, runner_of, is_active, is_resumable, is_stoppable, unsupported, missing_tasks, or_mode,
  plan_of, begin_day, start_missing, start_plan, start, reopen_day, resume_plan, resume, stop,
  Operation, start_day, resume_day, stop_requested, perform, perform_all, new_runner, open_runner,
}
use ai_control_center.Day.Sane.{
  Sane, IsSane, Starts, IsSane-advance, ids-new_item, repairs-new_item,
}

Starts-ensure :
    (router : Option (Keyed ModelProfile)) (plan : DayPlan) (s : DayRunSnapshot)
    → Starts plan s
    → Starts plan (ensure_profile_usage router s)
unfolding ensure_profile_usage
Starts-ensure none plan s h = h
Starts-ensure (some profiles) plan s h = record {
  limits = h.limits;
  architect = h.architect;
  fresh_run = h.fresh_run;
  tasks = h.tasks;
  runs = h.runs;
}

plan_id-ensure :
    (router : Option (Keyed ModelProfile)) (s : DayRunSnapshot)
    → (ensure_profile_usage router s).plan_id ≡ s.plan_id
unfolding ensure_profile_usage
plan_id-ensure none s = refl
plan_id-ensure (some profiles) s = refl

pub Starts-begin_day :
    (o : Outside) (plan_id : String) (plan : DayPlan) (mode : DayExecutionMode) (r : DayRunner)
    → Starts plan (begin_day o plan_id plan mode r).snapshot
unfolding begin_day save audit
Starts-begin_day o plan_id plan mode r = Starts-ensure o.model_router plan _ (record {
  limits = record {
    evaluator = omega arith;
    retried = omega arith;
    replanned = omega arith;
    repairs = repairs-new_item plan plan.task_ids;
  };
  architect = omega arith;
  fresh_run = refl;
  tasks = ids-new_item plan.task_ids;
  runs = refl;
})

plan_of-lookup :
    (plans : Keyed DayPlan) (plan_id : String) (plan other : DayPlan)
    → lookup plan_id plans ≡ some plan
    → plan_of plans (some plan_id) ≡ some other
    → other ≡ plan
plan_of-lookup plans plan_id plan other e f = ground arith

begin_day-plan_id :
    (o : Outside) (plan_id : String) (plan : DayPlan) (mode : DayExecutionMode) (r : DayRunner)
    → (begin_day o plan_id plan mode r).snapshot.plan_id ≡ some plan_id
unfolding begin_day save audit
begin_day-plan_id o plan_id plan mode r = plan_id-ensure o.model_router _

IsSane-start_missing :
    (o : Outside) (plan_id : String) (plan : DayPlan) (mode : DayExecutionMode)
    (missing : List String) (r : DayRunner)
    → lookup plan_id o.plans ≡ some plan
    → IsSane o r
    → IsSane o (runner_of (start_missing o plan_id plan mode missing r))
unfolding start_missing
IsSane-start_missing o plan_id plan mode (task_id ∷ task_ids) r e h = h
IsSane-start_missing o plan_id plan mode [] r e h =
    IsSane-advance o plan _
      (λ other f.
        plan_of-lookup o.plans plan_id plan other e
          (rw (begin_day-plan_id o plan_id plan mode r) at f))
      (Starts-begin_day o plan_id plan mode r)

response-if :
    (P : DayRunner → Type 0) (b : Bool) (v w : Response)
    → P (runner_of v)
    → P (runner_of w)
    → P (runner_of (if b then v else w))
response-if P true v w hv hw = hv
response-if P false v w hv hw = hw

IsSane-start_plan :
    (o : Outside) (plan_id : String) (mode : DayExecutionMode) (r : DayRunner)
    (found : Option DayPlan)
    → lookup plan_id o.plans ≡ found
    → IsSane o r
    → IsSane o (runner_of (start_plan o plan_id mode r found))
unfolding start_plan
IsSane-start_plan o plan_id mode r none e h = h
IsSane-start_plan o plan_id mode r (some plan) e h =
    response-if (IsSane o) (unsupported mode plan) _ _ h (
      response-if (IsSane o) (is_active r.snapshot.state) _ _ h
        (IsSane-start_missing o plan_id plan mode (missing_tasks o.tasks plan) r e h))

pub Starts-reopen_day :
    (o : Outside) (plan : DayPlan) (mode : DayExecutionMode) (r : DayRunner)
    → Sane plan r.snapshot
    → Starts plan (reopen_day o mode r).snapshot
unfolding reopen_day save
Starts-reopen_day o plan mode r h = record {
  limits = h.limits;
  architect = h.architect;
  fresh_run = refl;
  tasks = h.tasks;
  runs = refl;
}

reopen_day-plan_id :
    (o : Outside) (mode : DayExecutionMode) (r : DayRunner)
    → (reopen_day o mode r).snapshot.plan_id ≡ r.snapshot.plan_id
unfolding reopen_day save
reopen_day-plan_id o mode r = refl

IsSane-resume_plan :
    (o : Outside) (mode : DayExecutionMode) (r : DayRunner) (found : Option DayPlan)
    → plan_of o.plans r.snapshot.plan_id ≡ found
    → IsSane o r
    → IsSane o (runner_of (resume_plan o mode r found))
unfolding resume_plan
IsSane-resume_plan o mode r none e h = h
IsSane-resume_plan o mode r (some plan) e h = response-if (IsSane o) (unsupported mode plan) _ _ h (
    response-if (IsSane o) (is_resumable r.snapshot.state) _ _
      (IsSane-advance o plan _ (λ other f. ground (arith, e, rw (reopen_day-plan_id o mode r) at f))
        (Starts-reopen_day o plan mode r (h plan e)))
      h)

runner-if :
    (P : DayRunner → Type 0) (b : Bool) (v w : DayRunner) → P v → P w → P (if b then v else w)
runner-if P true v w hv hw = hv
runner-if P false v w hv hw = hw

IsSane-stop_day :
    (o : Outside) (reason : String) (r : DayRunner) → IsSane o r → IsSane o (stop_day reason r)
unfolding stop_day save audit
IsSane-stop_day o reason r h plan e = record {
  limits = (h plan e).limits;
  architect = (h plan e).architect;
  processed = (h plan e).processed;
  tasks = (h plan e).tasks;
  finished = λ f. cc;
}

IsSane-stop : (o : Outside) (r : DayRunner) → IsSane o r → IsSane o (stop r)
unfolding stop
IsSane-stop o r h =
    runner-if (IsSane o) (is_stoppable r.snapshot.state) _ _
      (IsSane-stop_day o "STOP_REQUESTED" r h) h

IsSane-perform :
    (o : Outside) (operation : Operation) (r : DayRunner)
    → IsSane o r
    → IsSane o (perform o operation r)
unfolding perform start resume
IsSane-perform o (start_day plan_id mode) r h =
    IsSane-start_plan o plan_id mode r (lookup plan_id o.plans) refl h
IsSane-perform o (resume_day mode) r h =
    IsSane-resume_plan o (or_mode mode r.snapshot.mode) r (plan_of o.plans r.snapshot.plan_id) refl
      h
IsSane-perform o stop_requested r h = IsSane-stop o r h

IsSane-perform_all :
    (o : Outside) (operations : List Operation) (r : DayRunner)
    → IsSane o r
    → IsSane o (perform_all o operations r)
unfolding perform_all
IsSane-perform_all o [] r h = h
IsSane-perform_all o (operation ∷ operations) r h =
    IsSane-perform_all o operations (perform o operation r) (IsSane-perform o operation r h)

new_runner-IsSane : (o : Outside) → IsSane o (new_runner o)
unfolding open_runner ensure_profile_usage
new_runner-IsSane o = elim (Option-cases o.model_router) [
  | inl e ↦ rw e (λ plan found. absurd (ground arith))
  | inr (profiles, e) ↦ rw e (λ plan found. absurd (ground arith))
]

-- Whatever a user starts, resumes and stops from a new runner, the snapshot that is reached keeps, under
-- the plan that it names, the plan's limits (calls of the evaluator, calls of the architect, retries of
-- providers, replans, repair loops of each task, tasks of one run), holds the plan's tasks in the plan's
-- order, and is COMPLETE only when its queue is not empty and every item of it has passed, has completed
-- without change or was skipped.
pub reachable-IsSane :
    (o : Outside) (operations : List Operation) → IsSane o (perform_all o operations (new_runner o))
reachable-IsSane o operations = IsSane-perform_all o operations (new_runner o) (new_runner-IsSane o)
