-- ===== src/Examples/Runs.antt =====
-- The theorems on the run store and the repair controller, on concrete runs.
use ai_control_center.Base.{ℕ, ◌≡◌, refl, String, true, false, none, some, List, [], ◌∷◌}
use ai_control_center.Base.Keyed.{lookup}
use ai_control_center.Base.Paths.{forward_slashes}
use ai_control_center.Contract.{LocalLlmDayState, preflight, diagnosing_gap}
use ai_control_center.Runs.{
  RunIntent, RunControl, RunRecord, same_identity, same_intent, same_limits,
}
use ai_control_center.Runs.Store.{
  RunFiles, intact, written, refused, no_fault, found, StoreError, stale_update, StoreCall,
  create_run, update_run, update_error, update, versions, store_all,
}
use ai_control_center.Runs.Log.{Holds, Grown}
use ai_control_center.Runs.Append.{update_accepts, log_append_only}
use ai_control_center.Runs.Versions.{oldest_first, versions-log}
use ai_control_center.Runs.Faults.{after_failure, failed_write_blocks}
use ai_control_center.Runs.Latest.{
  current_run, records, read_runs, sort_runs, insert_run, AllGoneAfter, current_is_latest,
}
use ai_control_center.Repair.{
  RepairAttempt, RepairController, new_controller, controller_after, RepairCall, attempt_made,
  review_made, add_attempt, guard_reason, record_attempt, repair, repair_all,
}
use ai_control_center.Repair.Bounded.{IsBounded, reachable-IsBounded}
use ai_control_center.Repair.Stranded.{last_attempt_strands}

abbrev digest : String → String
digest run_id = run_id

abbrev request_digest : String → ℕ → String → String
request_digest run_id day fingerprint = fingerprint

abbrev pub intent : RunIntent
intent = record {
  run_id = "RUN-1";
  selected_day = 3;
  go_at = 1;
  contract_fingerprint = "CONTRACT";
  policy_fingerprint = "POLICY";
  config_fingerprint = "CONFIG";
  git_fingerprint = "COMMIT-1";
  requested_limits = record {
    active_work_seconds = 100;
    max_attempts = 2;
    max_tokens = none;
    max_cost = "0";
    currency = "USD";
  };
}

abbrev control : LocalLlmDayState → List LocalLlmDayState → ℕ → RunControl
control state history at = record {
  run_id = "RUN-1";
  selected_day = 3;
  contract_fingerprint = "CONTRACT";
  current_state = state;
  state_history = history;
  next_action = "Check";
  blocker = none;
  resume_preflight = false;
  updated_at = at;
}

abbrev first_run : RunRecord
first_run = record { intent = intent; control = control preflight [] 10 }

abbrev second_run : RunRecord
second_run = record { intent = intent; control = control diagnosing_gap (preflight ∷ []) 20 }

abbrev files : RunFiles
files = record { current = ("RUN-1", intact first_run) ∷ []; history = []; temporary = [] }

files-Holds : Holds digest files "RUN-1" first_run []
unfolding lookup
files-Holds = record { now = refl; named = refl; past = refl; chain = tt; clean = refl }

second-valid : same_identity second_run ≡ true
unfolding same_identity
second-valid = refl

second-passes : update_error first_run second_run 10 ≡ none
unfolding update_error same_intent same_limits
second-passes = refl

second-stale : update_error first_run second_run 9 ≡ some stale_update
unfolding update_error same_intent same_limits
second-stale = refl

update_accepts_example :
    (s' : RunFiles) × (update digest second_run 10 no_fault files ≡ written s')
    × Holds digest s' "RUN-1" second_run (first_run ∷ [])
update_accepts_example =
    update_accepts digest files first_run second_run [] 10 files-Holds second-valid second-passes

abbrev store_calls : List StoreCall
store_calls = update_run second_run 10 no_fault ∷ create_run first_run true ∷ []

log_append_only_example : Grown digest "RUN-1" first_run [] (store_all digest store_calls files)
log_append_only_example =
    log_append_only digest store_calls files "RUN-1" first_run [] refl files-Holds

versions-log_example : versions digest "RUN-1" files ≡ found (oldest_first (first_run ∷ []))
versions-log_example = versions-log digest files "RUN-1" first_run [] files-Holds

failed_write_blocks_example :
    (error : StoreError) × (update digest second_run 10 no_fault
        (after_failure digest second_run 10 files)
      ≡ refused error (after_failure digest second_run 10 files))
failed_write_blocks_example =
    failed_write_blocks digest files first_run second_run [] 10 second_run 10 no_fault files-Holds
      second-valid second-passes refl

files-current : current_run files ≡ found (some first_run)
unfolding current_run records read_runs sort_runs insert_run
files-current = refl

current_is_latest_example : AllGoneAfter 1 files.current
current_is_latest_example = current_is_latest files first_run files-current

abbrev attempt : String → RepairAttempt
attempt failure = record {
  run_id = "RUN-1";
  selected_day = 3;
  failure_fingerprint = failure;
  action_fingerprint = "ACTION-1";
  changed_paths = "scripts\\run.py" ∷ [];
  git_fingerprint = "COMMIT-1";
  active_work_seconds = 60;
  verification_passed = false;
}

abbrev allowed : List String
allowed = "scripts/run.py" ∷ []

reachable-IsBounded_example : IsBounded (new_controller first_run allowed) (
    repair_all request_digest
      (attempt_made 20 (some (attempt "FAILURE-1"))
        ∷ attempt_made 30 (some (attempt "FAILURE-1"))
        ∷ review_made 40 none
        ∷ [])
      (new_controller first_run allowed))
reachable-IsBounded_example = reachable-IsBounded request_digest first_run allowed (
    attempt_made 20 (some (attempt "FAILURE-1"))
    ∷ attempt_made 30 (some (attempt "FAILURE-1"))
    ∷ review_made 40 none
    ∷ [])

-- One of the two attempts is spent.
abbrev attempted : RepairController
attempted = add_attempt (attempt "FAILURE-1") (new_controller first_run allowed)

attempted-passes : guard_reason attempted (attempt "FAILURE-2") ≡ none
unfolding guard_reason forward_slashes
attempted-passes = refl

last_attempt_strands_example :
    (repair_all request_digest (attempt_made 30 (some (attempt "FAILURE-2")) ∷ []) attempted
      ≡ controller_after (record_attempt request_digest 30 (some (attempt "FAILURE-2")) attempted))
    × ((controller_after (
          record_attempt request_digest 30
            (some (attempt "FAILURE-2"))
            attempted)).run.control.current_state
        ≡ diagnosing_gap)
    × ((controller_after (
          record_attempt request_digest 30
            (some (attempt "FAILURE-2"))
            attempted)).review_request_id
        ≡ none)
last_attempt_strands_example =
    last_attempt_strands request_digest 30 (attempt "FAILURE-2") [] attempted refl attempted-passes
      refl refl refl

abbrev repair_call : RepairCall
repair_call = attempt_made 30 (some (attempt "FAILURE-1"))

abbrev repaired : RepairController
repaired = controller_after (repair request_digest repair_call (new_controller first_run allowed))
