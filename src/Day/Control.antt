-- ===== src/Day/Control.antt =====
-- backend/orchestrator/day_runner.py: the constructor and the public methods of `DayRunner`.
use ai_control_center.Base.{
  ℕ, ◌+◌, String, Bool, true, false, not, Option, none, some, List, [], ◌∷◌, map, ◌==◌,
  select_items, get_last?, if◌then◌else◌,
}
use ai_control_center.Base.Keyed.{Keyed, lookup}
use ai_control_center.Usage.{no_usage, total_tokens}
use ai_control_center.Routing.{RoutingDecision, ProfileTokenUsage}
use ai_control_center.Routing.Router.{is_some}
use ai_control_center.Day.{
  DayRunState, DayExecutionMode, QueueTaskState, DayPlan, QueuedTask, DayRunSnapshot,
  ConfiguredTask, new_item, is_eligible,
}
use ai_control_center.Day.Outside.{Outside}
use ai_control_center.Day.Runner.{
  DayRunner, Outcome, final, save, audit, stop_day, with_state, day_plan_started,
}
use ai_control_center.Day.Account.{ensure_profile_usage}
use ai_control_center.Day.Advance.{advance, is_running}

-- `DayRunSnapshot(plan_id=…, state=…, mode=…, queue=…)`
abbrev pub fresh_snapshot :
    Option String → DayRunState → DayExecutionMode → List QueuedTask → DayRunSnapshot
fresh_snapshot plan_id state mode queue = record {
  plan_id = plan_id;
  state = state;
  mode = mode;
  queue = queue;
  human_review_queue = [];
  stop_reason = none;
  architect_calls = 0;
  evaluator_calls = 0;
  codex_calls = 0;
  failed_tasks = 0;
  tasks_processed_this_run = 0;
  day_progress = 0;
  overall_progress = 0;
  budget_warnings = [];
  token_usage = record { architect = no_usage; codex = no_usage; evaluator = no_usage };
  profile_token_usage = [];
  model_routing_decisions = [];
  deterministic_zero_usage_task_ids = [];
  auto_provider_retries = 0;
  auto_replans = 0;
  escalation_events = [];
}

abbrev pub empty_snapshot : DayRunSnapshot
empty_snapshot = fresh_snapshot none DayRunState.idle DayExecutionMode.single_step []

abbrev pub or_empty_snapshot : Option DayRunSnapshot → DayRunSnapshot
or_empty_snapshot none = empty_snapshot
or_empty_snapshot (some s) = s

-- A method refuses, or goes on.
pub data DayError : Type 0 where
  plan_not_configured continuous_mode_not_supported : DayError
  active_day_requires_resume_or_review no_day_plan day_not_resumable : DayError
  plan_task_not_configured : List String → DayError

pub data Response : Type 0 where
  rejected : DayError → DayRunner → Response
  accepted : Outcome → Response

abbrev pub runner_of : Response → DayRunner
runner_of (rejected error r) = r
runner_of (accepted outcome) = final outcome

abbrev pub is_active : DayRunState → Bool
is_active DayRunState.running = true
is_active DayRunState.paused = true
is_active DayRunState.human_review = true
is_active _ = false

abbrev pub is_resumable : DayRunState → Bool
is_resumable DayRunState.paused = true
is_resumable DayRunState.stopped = true
is_resumable _ = false

abbrev pub is_stoppable : DayRunState → Bool
is_stoppable DayRunState.running = true
is_stoppable DayRunState.paused = true
is_stoppable _ = false

-- The mode asks for what the plan does not support.
abbrev pub unsupported : DayExecutionMode → DayPlan → Bool
unsupported DayExecutionMode.continuous plan = not plan.continuous_mode_supported
unsupported DayExecutionMode.single_step plan = false

abbrev pub missing_tasks : Keyed ConfiguredTask → DayPlan → List String
missing_tasks tasks plan =
    select_items (λ task_id. not (is_some (lookup task_id tasks))) plan.task_ids

abbrev pub or_mode : Option DayExecutionMode → DayExecutionMode → DayExecutionMode
or_mode none mode = mode
or_mode (some mode) other = mode

-- `_plan`
abbrev pub plan_of : Keyed DayPlan → Option String → Option DayPlan
plan_of plans none = none
plan_of plans (some plan_id) = if plan_id == "" then none else lookup plan_id plans

module _ (o : Outside) where
  -- The constructor, over the events and calls of the process so far.
  unfoldable pub open_runner : Option DayRunSnapshot → DayRunner → DayRunner
  open_runner saved r =
      let s = ensure_profile_usage o.model_router (or_empty_snapshot saved) in
      let opened = record r { snapshot = s } in
      if is_running s.state
      then save (with_state DayRunState.paused "INTERRUPTED_REQUIRES_RESUME" opened)
      else opened

  unfoldable pub begin_day : String → DayPlan → DayExecutionMode → DayRunner → DayRunner
  begin_day plan_id plan mode r =
      let s =
        ensure_profile_usage o.model_router
          (fresh_snapshot (some plan_id) DayRunState.running mode (map new_item plan.task_ids)) in
      save (audit (day_plan_started plan_id mode plan.task_ids) (record r { snapshot = s }))

  unfoldable pub start_missing :
      String → DayPlan → DayExecutionMode → List String → DayRunner → Response
  start_missing plan_id plan mode [] r = accepted (advance o plan (begin_day plan_id plan mode r))
  start_missing plan_id plan mode (task_id ∷ task_ids) r =
      rejected (plan_task_not_configured (task_id ∷ task_ids)) r

  unfoldable pub start_plan : String → DayExecutionMode → DayRunner → Option DayPlan → Response
  start_plan plan_id mode r none = rejected plan_not_configured r
  start_plan plan_id mode r (some plan) =
      if unsupported mode plan
      then rejected continuous_mode_not_supported r
      else if is_active r.snapshot.state
      then rejected active_day_requires_resume_or_review r
      else start_missing plan_id plan mode (missing_tasks o.tasks plan) r

  -- `start`
  unfoldable pub start : String → DayExecutionMode → DayRunner → Response
  start plan_id mode r = start_plan plan_id mode r (lookup plan_id o.plans)

  unfoldable pub reopen_day : DayExecutionMode → DayRunner → DayRunner
  reopen_day mode r = save (record r {
    snapshot = record r.snapshot {
      state = DayRunState.running;
      stop_reason = none;
      mode = mode;
      tasks_processed_this_run = 0;
    };
  })

  unfoldable pub resume_plan : DayExecutionMode → DayRunner → Option DayPlan → Response
  resume_plan mode r none = rejected no_day_plan r
  resume_plan mode r (some plan) =
      if unsupported mode plan
      then rejected continuous_mode_not_supported r
      else if is_resumable r.snapshot.state
      then accepted (advance o plan (reopen_day mode r))
      else rejected day_not_resumable r

  -- `resume`
  unfoldable pub resume : Option DayExecutionMode → DayRunner → Response
  resume mode r = resume_plan (or_mode mode r.snapshot.mode) r (plan_of o.plans r.snapshot.plan_id)

-- `stop`
unfoldable pub stop : DayRunner → DayRunner
stop r = if is_stoppable r.snapshot.state then stop_day "STOP_REQUESTED" r else r

-- What a user of the runner does.
pub data Operation : Type 0 where
  start_day : String → DayExecutionMode → Operation
  resume_day : Option DayExecutionMode → Operation
  stop_requested : Operation

unfoldable pub perform : Outside → Operation → DayRunner → DayRunner
perform o (start_day plan_id mode) r = runner_of (start o plan_id mode r)
perform o (resume_day mode) r = runner_of (resume o mode r)
perform o stop_requested r = stop r

unfoldable pub perform_all : Outside → List Operation → DayRunner → DayRunner
perform_all o [] r = r
perform_all o (operation ∷ operations) r = perform_all o operations (perform o operation r)

abbrev pub blank_runner : DayRunner
blank_runner = record { snapshot = empty_snapshot; persisted = none; audited = []; calls = 0 }

-- The constructor with nothing saved.
abbrev pub new_runner : Outside → DayRunner
new_runner o = open_runner o none blank_runner

abbrev is_running_item : QueuedTask → Bool
is_running_item item = elim item.state [ QueueTaskState.running ↦ true | _ ↦ false ]

abbrev first_item : (QueuedTask → Bool) → List QueuedTask → Option QueuedTask
first_item test [] = none
first_item test (item ∷ items) =
    let rest = first_item test items in if test item then some item else rest

abbrev or_first : Option QueuedTask → Option QueuedTask → Option QueuedTask
or_first none other = other
or_first (some item) other = some item

-- What `view` adds to the snapshot.
pub record View : Type 0 where
  pub snapshot : DayRunSnapshot
  pub current_task : Option QueuedTask
  pub current_routing : Option RoutingDecision
  pub architect_total : ℕ
  pub codex_total : ℕ
  pub evaluator_total : ℕ
  pub day_total : ℕ
  pub profile_token_totals : Keyed ℕ

abbrev profile_total : String × ProfileTokenUsage → String × ℕ
profile_total (id, usage) = (id, usage.gross_input_tokens + usage.output_tokens)

-- `view`
unfoldable pub view : DayRunner → View
view r =
    let s = r.snapshot in
    record {
      snapshot = s;
      current_task =
          or_first (first_item is_running_item s.queue)
            (first_item (λ item. is_eligible item.state) s.queue);
      current_routing = get_last? s.model_routing_decisions;
      architect_total = total_tokens s.token_usage.architect;
      codex_total = total_tokens s.token_usage.codex;
      evaluator_total = total_tokens s.token_usage.evaluator;
      day_total =
          total_tokens s.token_usage.architect
          + total_tokens s.token_usage.codex
          + total_tokens s.token_usage.evaluator;
      profile_token_totals = map profile_total s.profile_token_usage;
    }
