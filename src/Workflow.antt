-- ===== src/Workflow.antt =====
-- backend/orchestrator/state_machine.py: `StateManager`, with the states of backend/models/state.py. A
-- method that raises `InvalidTransition` leaves the state as it is.
use ai_control_center.Base.{
  ℕ, ◌+◌, ◌≡◌, refl, String, Bool, true, false, ◌&&◌, ◌||◌, Option, none, some, List, [], ◌∷◌,
  arith, leb, any, if◌then◌else◌, Bool-cases, inl, inr,
}
use ai_control_center.Graph.{is_target}

pub data WorkflowState : Type 0 where
  idle planning precheck running_test triage codex_fix : WorkflowState
  evaluating complete human_review failed stopped : WorkflowState

pub record RunState : Type 0 where
  pub state : WorkflowState
  pub task_id : Option String
  pub retry_count : ℕ
  pub reason : Option String

abbrev pub initial_run : RunState
initial_run = record { state = idle; task_id = none; retry_count = 0; reason = none }

-- `_TRANSITIONS`
abbrev pub transitions : WorkflowState → List WorkflowState
transitions idle = planning ∷ stopped ∷ []
transitions planning = precheck ∷ human_review ∷ stopped ∷ []
transitions precheck = running_test ∷ human_review ∷ failed ∷ stopped ∷ []
transitions running_test = complete ∷ triage ∷ evaluating ∷ failed ∷ stopped ∷ []
transitions triage = codex_fix ∷ human_review ∷ failed ∷ stopped ∷ []
transitions codex_fix = running_test ∷ human_review ∷ failed ∷ stopped ∷ []
transitions evaluating = complete ∷ codex_fix ∷ human_review ∷ failed ∷ stopped ∷ []
transitions complete = idle ∷ []
transitions human_review = idle ∷ stopped ∷ []
transitions failed = idle ∷ stopped ∷ []
transitions stopped = idle ∷ []

abbrev state_code : WorkflowState → ℕ
state_code idle = 0
state_code planning = 1
state_code precheck = 2
state_code running_test = 3
state_code triage = 4
state_code codex_fix = 5
state_code evaluating = 6
state_code complete = 7
state_code human_review = 8
state_code failed = 9
state_code stopped = 10

-- `==` on states
abbrev pub same_state : WorkflowState → WorkflowState → Bool
same_state s t = leb (state_code s) (state_code t) && leb (state_code t) (state_code s)

-- The methods that change the state.
pub data Change : Type 0 where
  transition_to : WorkflowState → Option String → Change
  task_started : String → Change
  retry_incremented : Change

-- `transition`; `none` stands for `InvalidTransition`.
unfoldable pub transition : WorkflowState → Option String → RunState → Option RunState
transition target reason run =
    if is_target same_state target (transitions run.state)
    then some (record run { state = target; reason = reason })
    else none

-- `start_task`
unfoldable pub start_task : String → RunState → Option RunState
start_task task_id run =
    if same_state run.state idle then some (record initial_run { task_id = some task_id }) else none

-- `increment_retry`
unfoldable pub increment_retry : RunState → Option RunState
increment_retry run = some (record run { retry_count = run.retry_count + 1 })

unfoldable pub apply : Change → RunState → Option RunState
apply (transition_to target reason) run = transition target reason run
apply (task_started task_id) run = start_task task_id run
apply retry_incremented run = increment_retry run

abbrev pub or_unchanged : RunState → Option RunState → RunState
or_unchanged run none = run
or_unchanged run (some changed) = changed

-- One after the other; a change that is refused leaves the state.
unfoldable pub apply_all : List Change → RunState → RunState
apply_all [] run = run
apply_all (change ∷ changes) run = apply_all changes (or_unchanged run (apply change run))

-- The states before a test has run.
abbrev pub is_untested : WorkflowState → Bool
is_untested running_test = false
is_untested triage = false
is_untested codex_fix = false
is_untested evaluating = false
is_untested complete = false
is_untested _ = true

abbrev pub runs_test : Change → Bool
runs_test (transition_to target reason) = same_state target running_test
runs_test _ = false

-- Every target of an untested state is untested, or runs the test.
untested_target :
    (s t : WorkflowState)
    → is_untested s ≡ true
    → is_target same_state t (transitions s) ≡ true
    → is_untested t || same_state t running_test ≡ true
untested_target s t h e = ground arith

untested-apply :
    (change : Change) (run : RunState)
    → runs_test change ≡ false
    → is_untested run.state ≡ true
    → is_untested (or_unchanged run (apply change run)).state ≡ true
unfolding apply transition start_task increment_retry
untested-apply (transition_to target reason) run q h =
    elim (Bool-cases (is_target same_state target (transitions run.state))) [
      | inr refused ↦ rw refused h
      | inl moved ↦ rw moved (let entry = untested_target run.state target h moved in ground arith)
    ]
untested-apply (task_started task_id) run q h = ground arith
untested-apply retry_incremented run q h = h

-- From a state before any test has run, changes none of which is a transition to RUNNING_TEST, refused or
-- not, lead to such a state again: never to TRIAGE, CODEX_FIX, EVALUATING or COMPLETE.
pub apply_all_untested :
    (changes : List Change) (run : RunState)
    → any runs_test changes ≡ false
    → is_untested run.state ≡ true
    → is_untested (apply_all changes run).state ≡ true
unfolding apply_all
apply_all_untested [] run q h = h
apply_all_untested (change ∷ changes) run q h =
    apply_all_untested changes _ (ground arith) (untested-apply change run (ground arith) h)

stop_then_idle :
    (first second : Option String) (state : WorkflowState) (run : RunState)
    → run.state ≡ state
    → (apply_all (transition_to stopped first ∷ transition_to idle second ∷ []) run).state ≡ idle
unfolding apply_all apply transition
stop_then_idle first second idle run e = rw e refl
stop_then_idle first second planning run e = rw e refl
stop_then_idle first second precheck run e = rw e refl
stop_then_idle first second running_test run e = rw e refl
stop_then_idle first second triage run e = rw e refl
stop_then_idle first second codex_fix run e = rw e refl
stop_then_idle first second evaluating run e = rw e refl
stop_then_idle first second complete run e = rw e refl
stop_then_idle first second human_review run e = rw e refl
stop_then_idle first second failed run e = rw e refl
stop_then_idle first second stopped run e = rw e refl

-- Whatever state a run is in, asking for STOPPED and then for IDLE leaves it in IDLE, even where the first
-- request is refused.
returns_to_idle :
    (first second : Option String) (run : RunState)
    → (apply_all (transition_to stopped first ∷ transition_to idle second ∷ []) run).state ≡ idle
returns_to_idle first second run = stop_then_idle first second run.state run refl
