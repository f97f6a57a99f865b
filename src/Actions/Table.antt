-- ===== src/Actions/Table.antt =====
-- The tables of backend/control/day_action_registry.py.
use Prim.Native.String.{String}
use ai_control_center.Base.{ℕ, Option, none, some, List, [], ◌∷◌}
use ai_control_center.Actions.{
  ActionTemplate, new_template, read_only, baseline_checkpoint, engineering_worktree, research_run,
  decision_or_documentation_worktree, Strategies, StrategyLine, add_lines, ActionGroup,
  refine_groups,
}

abbrev pub read_only_template : ActionTemplate
read_only_template = new_template "READ_ONLY_COLLECT" read_only "NONE" [] "typed validator"

abbrev pub checkpoint : ActionTemplate
checkpoint =
    new_template "D1_BASELINE_CHECKPOINT_V2" baseline_checkpoint "TEMPORARY_GIT_INDEX_ONLY"
      ("refs/heads/ai-control-center/" ∷ []) "tree equals approved source snapshot"

abbrev pub engineering : ActionTemplate
engineering =
    new_template "ENGINEERING_DAY_WORK" engineering_worktree "MANAGED_WORKTREE"
      ("approved source/config/schema/tests/docs" ∷ []) "configured deterministic tests"

abbrev pub research : ActionTemplate
research =
    new_template "RESEARCH_DAY_WORK" research_run "RESULTS_ONLY"
      ("approved results/artifacts/logs" ∷ []) "artifact validator and provenance"

abbrev pub decision : ActionTemplate
decision =
    new_template "DECISION_DOCUMENTATION_DAY_WORK" decision_or_documentation_worktree
      "MANAGED_WORKTREE" ("approved docs" ∷ []) "typed document validator"

-- A line of evidence that a day produces, and of evidence that somebody else must provide.
abbrev produce : ℕ → ActionTemplate → List String → StrategyLine
produce day template names = record {
  day = day;
  names = names;
  classification = "PRODUCE_DAY_EVIDENCE";
  template = some template;
  authority = none;
}

abbrev collect : ℕ → List String → StrategyLine
collect day names = record {
  day = day;
  names = names;
  classification = "COLLECT_EVIDENCE";
  template = some read_only_template;
  authority = none;
}

abbrev await : ℕ → String → String → List String → StrategyLine
await day classification authority names = record {
  day = day;
  names = names;
  classification = classification;
  template = none;
  authority = some authority;
}

-- The lines of `STRATEGIES`
abbrev pub strategy_lines : List StrategyLine
strategy_lines =
    collect 1 (
      "git_head" ∷ "origin_ref" ∷ "status_audit" ∷ "staging_audit" ∷ "documentation_check"
      ∷ "test_result" ∷ [])
    ∷ produce 1 checkpoint ("commit_ref" ∷ [])
    ∷ await 2 "HUMAN_PRODUCT_DECISION_REQUIRED" "PREREQUISITE_DAY_REQUIRED" ("baseline_ref" ∷ [])
    ∷ produce 2 engineering
        ("source_check" ∷ "deterministic_tests" ∷ "architecture_check" ∷ "test_result" ∷ [])
    ∷ collect 2 ("preservation_audit" ∷ [])
    ∷ await 3 "HUMAN_PRODUCT_DECISION_REQUIRED" "PREREQUISITE_DAY_REQUIRED"
        ("v032_artifact" ∷ "v04_artifact" ∷ [])
    ∷ produce 3 research ("condition_record" ∷ "comparison_metrics" ∷ "failure_policy" ∷ [])
    ∷ produce 4 research (
        "cross_model_baseline_artifact" ∷ "cross_model_comparison_artifact"
        ∷ "cross_model_condition" ∷ "cross_model_validation" ∷ "cross_model_metrics"
        ∷ "cross_model_quality_assessment" ∷ [])
    ∷ await 5 "EXTERNAL_AUTHORITY_REQUIRED" "FROZEN_TEACHER_EVIDENCE_REQUIRED"
        ("teacher_evidence" ∷ [])
    ∷ produce 5 research ("validator_result" ∷ "local_artifact" ∷ [])
    ∷ produce 5 decision ("limitation_record" ∷ "decision_record" ∷ [])
    ∷ produce 6 engineering (
        "schema_contract" ∷ "source_check" ∷ "provenance_test" ∷ "deterministic_tests"
        ∷ "architecture_check" ∷ [])
    ∷ produce 7 engineering ("deterministic_tests" ∷ "validation_report" ∷ [])
    ∷ produce 8 research ("novelty_artifact" ∷ "provenance_artifact" ∷ [])
    ∷ produce 8 engineering ("source_check" ∷ "deterministic_tests" ∷ "nonmutation_test" ∷ [])
    ∷ produce 9 engineering
        ("source_check" ∷ "deterministic_tests" ∷ "nonmutation_test" ∷ "schema_contract" ∷ [])
    ∷ produce 10 research ("performance_artifact" ∷ "condition_record" ∷ "limitation_record" ∷ [])
    ∷ await 11 "HUMAN_PRODUCT_DECISION_REQUIRED" "PREREQUISITE_DAY_REQUIRED"
        ("hardware_evidence" ∷ [])
    ∷ produce 11 decision ("deployment_matrix" ∷ "advisory_record" ∷ [])
    ∷ produce 12 decision ("operator_docs" ∷ "recovery_check" ∷ "gitignore_check" ∷ [])
    ∷ produce 13 research ("full_test_result" ∷ [])
    ∷ produce 13 research
        ("holdout_manifest" ∷ "architecture_ref" ∷ "result_artifact" ∷ "retained_failures" ∷ [])
    ∷ produce 13 decision ("classification_record" ∷ "status_summary" ∷ [])
    ∷ produce 14 decision ("sprint_review" ∷ [])
    ∷ await 14 "HUMAN_PRODUCT_DECISION_REQUIRED" "HUMAN_REVIEW_MARKER_REQUIRED"
        ("human_review_marker" ∷ [])
    ∷ []

abbrev group : ℕ → String → String → List String → ActionGroup
group day action_id first_name other_names = record {
  day = day;
  action_id = action_id;
  first_name = first_name;
  other_names = other_names;
}

-- `_ACTION_GROUPS`
abbrev pub action_groups : List ActionGroup
action_groups =
    group 2 "D2_FEASIBLE_RELEVANT_GATE" "source_check"
      ("deterministic_tests" ∷ "architecture_check" ∷ "test_result" ∷ [])
    ∷ group 3 "D3_FIXED_REGRESSION" "condition_record"
        ("comparison_metrics" ∷ "failure_policy" ∷ [])
    ∷ group 4 "D4_CROSS_MODEL_PAIR" "cross_model_baseline_artifact"
        ("cross_model_comparison_artifact" ∷ "cross_model_condition" ∷ [])
    ∷ group 4 "D4_CROSS_MODEL_VALIDATION" "cross_model_validation"
        ("cross_model_metrics" ∷ "cross_model_quality_assessment" ∷ [])
    ∷ group 5 "D5_PLAN_SELECTION_PRECISION" "validator_result" ("local_artifact" ∷ [])
    ∷ group 5 "D5_PRECISION_DECISION" "limitation_record" ("decision_record" ∷ [])
    ∷ group 6 "D6_TEMPORAL_STATE_DESIGN" "schema_contract"
        ("source_check" ∷ "provenance_test" ∷ "deterministic_tests" ∷ "architecture_check" ∷ [])
    ∷ group 7 "D7_TEMPORAL_CASE_VALIDATION" "deterministic_tests" ("validation_report" ∷ [])
    ∷ group 8 "D8_NOVELTY_SCOUT" "novelty_artifact" ("provenance_artifact" ∷ [])
    ∷ group 8 "D8_NOVELTY_GUARD" "source_check" ("deterministic_tests" ∷ "nonmutation_test" ∷ [])
    ∷ group 9 "D9_EXPLANATION_STAGE" "source_check"
        ("deterministic_tests" ∷ "nonmutation_test" ∷ "schema_contract" ∷ [])
    ∷ group 10 "D10_PERFORMANCE_RUN" "performance_artifact"
        ("condition_record" ∷ "limitation_record" ∷ [])
    ∷ group 11 "D11_PRODUCT_CONFIGURATION" "deployment_matrix" ("advisory_record" ∷ [])
    ∷ group 12 "D12_REPRODUCIBILITY_OPERATIONS" "operator_docs"
        ("recovery_check" ∷ "gitignore_check" ∷ [])
    ∷ group 13 "D13_FULL_REGRESSION" "full_test_result" ([])
    ∷ group 13 "D13_NEW_HOLDOUT" "holdout_manifest"
        ("architecture_ref" ∷ "result_artifact" ∷ "retained_failures" ∷ [])
    ∷ group 13 "D13_CLASSIFY_RESULT" "classification_record" ("status_summary" ∷ [])
    ∷ group 14 "D14_SPRINT_REVIEW" "sprint_review" ([])
    ∷ []

-- `ENGINEERING_SCOPES`
abbrev pub engineering_scopes : List (ℕ × List String)
engineering_scopes =
    (2, "scripts/eval/decision_reasoning_v4.py" ∷ "tests/test_decision_reasoning_v4.py" ∷ [])
    ∷ (
      6,
      "schemas/temporal-state.json" ∷ "scripts/eval/temporal_state.py"
          ∷ "tests/test_temporal_state.py" ∷ "docs/architecture/temporal-state.md" ∷ [],
    )
    ∷ (7, "tests/test_temporal_cases.py" ∷ "docs/reports/temporal-validation.md" ∷ [])
    ∷ (8, "scripts/eval/novelty_scout.py" ∷ "tests/test_novelty_scout.py" ∷ [])
    ∷ (
      9,
      "scripts/eval/explanation_stage.py" ∷ "schemas/explanation-stage.json"
          ∷ "tests/test_explanation_stage.py" ∷ [],
    )
    ∷ []

-- `STRATEGIES`, if the module loads.
unfoldable pub strategies : Option Strategies
strategies = refine_groups engineering_scopes action_groups (add_lines strategy_lines [])
