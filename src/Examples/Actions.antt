-- ===== src/Examples/Actions.antt =====
-- The theorems on continuations, the search for a failing task, solutions, and the registry of actions.
use Prim.Native.String.{String}
use ai_control_center.Base.{
  ℕ, Bool, ◌≡◌, refl, true, false, Option, none, some, List, [], ◌∷◌, ◌==◌, if◌then◌else◌,
}
use ai_control_center.Base.Int.{pos}
use ai_control_center.Base.Keyed.{contains, lookup}
use ai_control_center.Base.Words.{append_text, upper}
use ai_control_center.ReviewControl.{naive, aware}
use ai_control_center.Continuation.{
  ContinuationState, ContinuationControl, pending_control, new_continuation, begin, finish,
  finish_applying, verify, ContinuationCall, begin_call, finish_call, verify_call, call, call_all,
}
use ai_control_center.Continuation.Observed.{IsObserved, reachable-IsObserved}
use ai_control_center.Continuation.Moves.{IsTraced, latest_first, reachable-IsTraced}
use ai_control_center.Evidence.{Json}
use ai_control_center.Discovery.{
  DiscoveryDefinition, CommandRun, RunCommand, reported_error_code, report_error, classify,
  check_case, discover_from, discover,
}
use ai_control_center.Discovery.First.{IsFirstFix, discover-IsFirstFix}
use ai_control_center.Base.Texts.{text_leb}
use ai_control_center.Solutions.{
  SolutionScope, SolutionStatus, SolutionEntry, SolutionCatalog, SolutionQuery, take_chars, score,
  insert_ranked, sort_ranked, ids_of, find,
}
use ai_control_center.Solutions.Episodes.{
  RepairEpisode, EpisodeFile, open_store, save_episodes, get_episode,
}
use ai_control_center.Solutions.Episodes.Reopened.{reopened-get}
use ai_control_center.Actions.{
  Strategies, AcquisitionStrategy, find_strategy, put_strategy, add_names, add_lines, refine_names,
  refine_group, refine_groups, keys_of, passes_coverage,
}
use ai_control_center.Actions.Table.{strategies}
use ai_control_center.Actions.Found.{IsRegistered, required-IsRegistered}

abbrev pending : ContinuationControl
pending = pending_control "r1" "s1" "c1" 5

abbrev applied_calls : List ContinuationCall
applied_calls =
    begin_call "r1" "s1" (aware 6) "local"
    ∷ finish_call (pos 0) true "valid" (some "e1") (aware 7)
    ∷ verify_call "e1" (aware 8)
    ∷ []

calls-verified : (call_all applied_calls pending).state ≡ ContinuationState.verified
unfolding call_all call begin finish finish_applying verify
calls-verified = refl

-- A verification with a time that has no zone raises, and leaves the continuation verified without a time.
naive-verified :
    (call_all (verify_call "e1" naive ∷ []) (record pending {
      state = ContinuationState.applied;
      downstream_effect_id = some "e1";
    })).state
    ≡ ContinuationState.verified
unfolding call_all call verify
naive-verified = refl

reachable-IsObserved_example : IsObserved (call_all applied_calls pending)
unfolding new_continuation
reachable-IsObserved_example =
    reachable-IsObserved "r1" "s1" "c1" (aware 5) applied_calls pending refl

reachable-IsTraced_example :
    IsTraced "r1" "s1" (latest_first applied_calls []) (call_all applied_calls pending)
unfolding new_continuation
reachable-IsTraced_example = reachable-IsTraced "r1" "s1" "c1" (aware 5) applied_calls pending refl

abbrev definition : DiscoveryDefinition
definition = record {
  discovery_id = "d1";
  project_id = "p1";
  working_directory = ".";
  candidate_case_ids = "a" ∷ "b" ∷ "c" ∷ [];
  precheck = "check" ∷ "{case_id}" ∷ [];
  code_fix_error_codes = "ASSERTION" ∷ [];
}

abbrev failed_with : String → CommandRun
failed_with code = record {
  exit_code = some (pos 1);
  passed = false;
  stdout = none;
  error_code = some code;
}

-- The first case times out and the second fails by its code.
abbrev run_precheck : RunCommand
run_precheck cases (word ∷ case_id ∷ words) directory artifacts =
    failed_with (if case_id == "a" then "COMMAND_TIMEOUT" else "ASSERTION")
run_precheck cases words directory artifacts = failed_with "COMMAND_NOT_FOUND"

abbrev no_json : String → Option Json
no_json line = none

abbrev join_path : String → String → String
join_path directory name = append_text directory (append_text "/" name)

second-selected :
    (discover no_json join_path run_precheck definition "." "out").selected_case_id ≡ some "b"
unfolding discover discover_from check_case classify report_error reported_error_code
second-selected = refl

discover-IsFirstFix_example :
    IsFirstFix
      ("ASSERTION" ∷ [])
      ("a" ∷ "b" ∷ "c" ∷ [])
      (discover no_json join_path run_precheck definition "." "out")
discover-IsFirstFix_example =
    discover-IsFirstFix no_json join_path run_precheck definition "." "out"

abbrev table_of : Option Strategies → Strategies
table_of none = []
table_of (some table) = table

abbrev loaded_table : Strategies
loaded_table = table_of strategies

abbrev names_in : List (ℕ × String) → List String
names_in [] = []
names_in ((day, name) ∷ keys) = name ∷ names_in keys

required-IsRegistered_example :
    (contains (names_in (keys_of loaded_table)) "sprint_review" ≡ true)
    × (strategy : AcquisitionStrategy) × (find_strategy (14, "sprint_review") loaded_table
        ≡ some strategy)
    × IsRegistered 14 "sprint_review" strategy
unfolding strategies refine_groups refine_group refine_names add_lines add_names find_strategy
    put_strategy upper passes_coverage
required-IsRegistered_example =
    required-IsRegistered loaded_table (keys_of loaded_table) (names_in (keys_of loaded_table)) 14
      "sprint_review" refl refl refl

abbrev entry_of : String → String → SolutionEntry
entry_of id fingerprint = record {
  catalog_id = id;
  scope = SolutionScope.generic;
  project_id = none;
  failure_class = "TEST_FAILURE";
  failure_fingerprint = fingerprint;
  component = "";
  status = SolutionStatus.verified;
  updated_at = 1;
  uses = 0;
  last_used_at = none;
}

abbrev catalog : SolutionCatalog
catalog = record {
  entries =
      entry_of "c" "0123456789abcdefXX"
      ∷ entry_of "b" "ffffffffffffffff"
      ∷ entry_of "a" "0123456789abcdefYY"
      ∷ [];
  stored = none;
}

abbrev query : SolutionQuery
query = record {
  project_id = "p1";
  failure_class = "TEST_FAILURE";
  fingerprint = "0123456789abcdefYY";
  component = "";
}

found-in_order : ids_of (find query 5 catalog).0 ≡ "a" ∷ "c" ∷ []
unfolding find sort_ranked insert_ranked score take_chars text_leb
found-in_order = refl

abbrev episode_until : ℕ → RepairEpisode
episode_until deadline = record {
  episode_id = "episode-1";
  project_id = "p1";
  day = 3;
  work_item_id = "w1";
  failure_fingerprint = "0123456789abcdef";
  started_at_epoch = 10;
  repair_deadline_epoch = deadline;
  interrupted = false;
}

-- The first write fails, and the second one writes what both saved.
abbrev saves : List (RepairEpisode × Bool)
saves =
    (record (episode_until 70) { episode_id = "episode-0" }, true) ∷ (episode_until 80, false) ∷ []

reopened-get_example :
    get_episode "episode-0"
      (open_store (save_episodes saves (open_store (some EpisodeFile.unreadable))).file)
    ≡ some (record (episode_until 70) { episode_id = "episode-0" })
unfolding get_episode open_store lookup
reopened-get_example = reopened-get EpisodeFile.unreadable saves "episode-0" refl
