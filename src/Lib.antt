-- ===== src/Lib.antt =====
-- A verification library of the control center: a scheduler that works through a day's plan of tasks
-- with an architect, a task executor and an evaluator, each a language model or a process.
--
-- The parts, and the files that model them:
--
-- - Base: shared helpers. Tests on native numbers, lists with a native length, dictionaries with string
--   keys as lists of pairs in insertion order, integers, paths and the order of texts.
-- - Usage: `TokenUsage` of backend/models/result.py.
-- - Budget: `TokenBudgetManager` of backend/control/token_budget.py, whose day usage is passed on;
--   Accounted is about what its calls add.
-- - Graph, Workflow, Contract: the two tables of states. Workflow is `StateManager` of
--   backend/orchestrator/state_machine.py, Contract is backend/control/day_state_machine.py.
-- - NextAction: `recommend_next_action` of backend/control/next_action.py, with
--   backend/models/next_action.py; NextAction.Bounded is about what it recommends.
-- - ReviewControl: backend/control/review_control.py, one method after the other. Its children are about
--   what a control holds (Correlated), how a response is taken (Once) and times without a zone (Naive).
-- - Runs: the records of a run, of backend/models/local_llm_day.py. Below it, Store is `JsonRunStore` of
--   backend/control/run_store.py over a directory of files, whose reading of all runs is in Latest. Log says
--   what the files of a run hold, Untouched what a write leaves alone; Append, Versions and Faults are about
--   updates, the reading of versions, and writes that fail.
-- - Repair: `RepairRecoveryController` of backend/control/repair_recovery.py. Its children are about what it
--   keeps of its run (Bounded), the store that takes the run (Stored), and its last attempt (Stranded).
-- - HumanDecision: backend/control/human_decision.py up to `receive`; below it, Ask is the request for a
--   confirmation and Confirm the confirmation of a decision by the reviewer. Decided and Bound are about what
--   a decision stands on, Suppressed about a second confirmation.
-- - Evidence: the values that JSON can hold. Below it, Registry is backend/control/evidence_registry.py,
--   Records the values and Completion `CompletionEvidenceEvaluator` of backend/control/evidence_completion.py.
--   Collecting is about its loop, Proven about what it decides.
-- - Telemetry: the telemetry of a run, of backend/models/local_llm_day.py, with its validators. Below it,
--   Store is backend/control/run_telemetry_store.py; Consistent is about what validates, Kept about the store.
-- - Scope: backend/control/scope_guard.py; Exact is about the files that it allows.
-- - Git: backend/control/git_guard.py and the values of backend/models/git_completion.py. Below it, Candidate
--   and Completion are `GitCompletionService` of backend/control/git_completion.py, function by function.
--   Actions says what an action of git keeps, Steps is about the commands that are run, Ready about a pull
--   request that is ready.
-- - Continuation: backend/control/review_continuation.py. Observed is about what a control holds, Moves about
--   the calls that it went through.
-- - Discovery: `DeterministicTaskDiscovery` of backend/control/task_discovery.py; First is about the case that
--   it selects.
-- - Solutions: `SolutionCatalog` of backend/control/solution_catalog.py; Ranked is about what it finds. Episodes
--   is `RepairEpisodeStore` of the same file; its child Reopened is about a store that is opened again.
-- - Tasks: the checks of backend/control/tasks.py and of `WorkOrder` of backend/models/task.py. Contained is
--   about the files that the scope guard then allows, Valid about paths that are checked again.
-- - Actions: backend/control/day_action_registry.py, with its tables in Actions.Table; Found is about the
--   strategies that are found in them.
-- - Routing: the values of backend/models/model_routing.py. Below it, Tier and Router are
--   backend/control/model_router.py, function by function: `select`, `_preferred_profile`,
--   `_within_budget`, `_lower_profile` and the others keep their names. Permits, Selection and Escalation
--   are about what `select` promises.
-- - Day: the values of backend/models/day.py and the fields that the day runner reads of
--   backend/control/tasks.py and backend/models/orchestration.py. Below it is
--   backend/orchestrator/day_runner.py: Outside is what the runner is constructed with, Runner its state
--   and shortest methods (`_save`, `_audit`, `_stop`, `_update_progress`, `_complete`, `_after_task`),
--   Review `_human_review`, `_escalation` and `_request_replan`, Account the bookkeeping of tokens,
--   Profile `_select_profile` and the budget guards, Item the writes to an item, Evaluate
--   `_evaluate_semantic`, Execute `_execute_one`, Advance `_process_one` and `_advance`, Control the
--   constructor and the public methods.
-- - Day.Step and its children say what each method keeps, from single writes up to the loop;
--   Day.Sane, Day.Reachable and Day.Ends are about the public methods.
-- - Examples: concrete plans, profiles and budgets.
--
-- The runner calls the router for each profile (`_select_profile`), reads token usages from the answers of
-- its providers and adds them to its snapshot. A method is a function from a `DayRunner` to an `Outcome`:
-- it returns, or it raises with what was written before. `DayRunner` holds the snapshot, the last snapshot
-- that was persisted, the audited events, and the number of calls made to the outside.
--
-- Architects, evaluators and the task executor are parameters, the record `Outside`. A call is given the
-- number of calls made so far, so that one such function stands for any sequence of answers, exceptions
-- included. The executor, which calls `select_codex_profile` back, is a tree of such calls (`Session`).
--
-- Bounds. `_execute_one` and `_evaluate_semantic` call one another; `execute_rounds` has
-- `max_repair_loops_per_task + 1` rounds, since each further round first raises the item's count of repairs,
-- which is below the limit. The loop of `_advance` has `max_architect_calls + 2` rounds, since a round
-- after which the day still runs has called the architect once more, and the round that finds no call left
-- stops the day. Running out is an outcome of its own, `out_of_rounds`.
--
-- A repair controller adds to the states of a run record, and the run store takes the record only if it
-- follows the stored one: Repair.Stored composes the two. The evaluator of evidence asks the registry for
-- each result. A store's method returns or raises with the files that it leaves; where a write fails is an
-- argument (`WriteFault`). The digests that name files and review requests are parameters, and so is the
-- clock: each call is given its time, a number of microseconds.
--
-- Git is a parameter: its answer to a command depends on the commands before, so that one such function stands
-- for any course of answers. `complete` is written in an action monad that keeps the commands and may end
-- early with a result. Likewise a precheck of the search for a failing task is given the cases before, and
-- `json.loads` and the joining of paths are parameters. The case of letters is changed for those of ASCII.
--
-- Percentages are in hundredths and rounded half to even on the rational quotient. In a total below 160
-- that agrees with the rounding of floating point numbers. Durations are integers.
--
-- Not modelled: time stamps and generated identifiers, the ranges and lengths that pydantic checks, the
-- loaders of YAML files, the formats of JSON files and the order in which a directory lists its files, the
-- percentage of the token budget's view, the list of profiles' names that the registry validates, the texts of
-- a solution and most fields of a repair episode, the message of a coverage that fails, and the components of
-- the repository that no file here names. Of these the task engine, the program of the local LLM day, the
-- reviewer bus and the runners start processes and exchange files with them, the compositions of a run wire
-- up stores and executors, and the read model, the fault profiles and the retained evidence change no state.
pub mod Base
pub mod Usage
pub mod Budget
pub mod Graph
pub mod Workflow
pub mod Contract
pub mod NextAction
pub mod ReviewControl
pub mod Runs
pub mod Repair
pub mod HumanDecision
pub mod Evidence
pub mod Scope
pub mod Tasks
pub mod Git
pub mod Continuation
pub mod Discovery
pub mod Solutions
pub mod Actions
pub mod Telemetry
pub mod Routing
pub mod Day
pub mod Examples
