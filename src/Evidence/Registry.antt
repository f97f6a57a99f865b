-- ===== src/Evidence/Registry.antt =====
-- backend/control/evidence_registry.py: the table of evidence types and `validate`.
use Prim.Native.String.{String}
use ai_control_center.Base.{Bool, false, ◌&&◌, Option, none, some, List, [], ◌∷◌, all, any}
use ai_control_center.Base.Keyed.{Keyed, lookup}
use ai_control_center.Base.Words.{is_worded}
use ai_control_center.Evidence.{
  Json, text, get_key, is_dictionary, is_present, is_array, is_empty_array, is_filled_array,
  is_filled_text, is_true, is_text, is_zero, is_positive_integer, checks_passed,
}

-- The validators of the table.
pub data Rule : Type 0 where
  mapping_with list_with : List String → Rule
  artifact status_audit staging_audit documentation_check test_result human_review_marker : Rule

abbrev pub is_mapping_with : List String → Json → Bool
is_mapping_with keys value = is_dictionary value && all (λ key. is_present (get_key key value)) keys

abbrev pub is_list_with : List String → Json → Bool
is_list_with keys value =
    is_dictionary value && all (λ key. is_filled_array (get_key key value)) keys

-- `_artifact`
abbrev pub is_artifact : Json → Bool
is_artifact value =
    all (λ key. is_filled_text (get_key key value))
      ("artifact_path" ∷ "manifest_fingerprint" ∷ "status" ∷ [])
    && any (λ status. is_text status (get_key "status" value))
        ("COMPLETE" ∷ "PASS" ∷ "RETAINED" ∷ [])

-- `_status_audit`
abbrev pub is_status_audit : Json → Bool
is_status_audit value =
    all (λ key. is_array (get_key key value))
      ("staged_tracked_paths" ∷ "unstaged_tracked_paths" ∷ "untracked_paths"
        ∷ "relevant_dirty_paths" ∷ "generated_paths" ∷ [])

-- `_test_result`
abbrev pub is_test_result : Json → Bool
is_test_result value =
    is_zero (get_key "exit_code" value)
    && is_filled_array (get_key "commands" value)
    && is_positive_integer (get_key "passed" value)
    && is_zero (get_key "failed" value)

unfoldable pub satisfies : Rule → Json → Bool
satisfies (mapping_with keys) value = is_mapping_with keys value
satisfies (list_with keys) value = is_list_with keys value
satisfies artifact value = is_artifact value
satisfies status_audit value = is_status_audit value
satisfies staging_audit value =
    is_true (get_key "generated_artifacts_not_staged" value)
    && is_empty_array (get_key "staged_generated_paths" value)
satisfies documentation_check value =
    is_list_with ("checked_files" ∷ "checks" ∷ []) value
    && is_empty_array (get_key "failures" value)
    && checks_passed (get_key "checks" value)
satisfies test_result value = is_test_result value
satisfies human_review_marker value =
    is_filled_text (get_key "marker_id" value) && is_text "human" (get_key "authority" value)

-- `_definitions`
unfoldable pub definitions : Keyed Rule
definitions =
    ("git_head", mapping_with ("branch" ∷ "head" ∷ "is_commit" ∷ []))
    ∷ ("origin_ref", mapping_with ("origin_url" ∷ "upstream_ref" ∷ "upstream_sha" ∷ []))
    ∷ ("status_audit", status_audit)
    ∷ ("staging_audit", staging_audit)
    ∷ ("documentation_check", documentation_check)
    ∷ ("test_result", test_result)
    ∷ ("commit_ref", mapping_with ("branch" ∷ "head" ∷ "is_commit" ∷ []))
    ∷ ("source_check", list_with ("checked_paths" ∷ "assertions" ∷ []))
    ∷ ("deterministic_tests", test_result)
    ∷ ("architecture_check", list_with ("checked_documents" ∷ "assertions" ∷ []))
    ∷ ("baseline_ref", mapping_with ("baseline_sha" ∷ "version" ∷ []))
    ∷ ("preservation_audit", mapping_with ("protected_paths" ∷ "preserved" ∷ []))
    ∷ ("v032_artifact", artifact)
    ∷ ("v04_artifact", artifact)
    ∷ (
      "condition_record",
      mapping_with ("condition_fingerprint" ∷ "model" ∷ "configuration_version" ∷ []),
    )
    ∷ (
      "comparison_metrics",
      mapping_with
          ("valid_plan_count" ∷ "invalid_plan_count" ∷ "prompt_tokens" ∷ "output_tokens" ∷ []),
    )
    ∷ ("failure_policy", mapping_with ("policy" ∷ "retained_failure_count" ∷ []))
    ∷ ("holdout_manifest", mapping_with ("manifest_path" ∷ "holdout_fingerprint" ∷ []))
    ∷ ("architecture_ref", mapping_with ("architecture_sha" ∷ "architecture_version" ∷ []))
    ∷ ("dagb_artifact", artifact)
    ∷ ("anti_leakage_check", mapping_with ("oracle_leakage" ∷ "hardcoding_check" ∷ []))
    ∷ ("retained_failures", mapping_with ("artifact_path" ∷ "failure_count" ∷ []))
    ∷ ("cross_model_baseline_artifact", artifact)
    ∷ ("cross_model_comparison_artifact", artifact)
    ∷ (
      "cross_model_condition",
      mapping_with ("condition_fingerprint" ∷ "baseline_model" ∷ "comparison_model" ∷ []),
    )
    ∷ ("cross_model_validation", test_result)
    ∷ (
      "cross_model_metrics",
      mapping_with ("baseline" ∷ "comparison" ∷ "truncated_response_count" ∷ []),
    )
    ∷ (
      "cross_model_quality_assessment",
      mapping_with ("conclusion" ∷ "limitations" ∷ "artifact_path" ∷ []),
    )
    ∷ ("validator_result", mapping_with ("validator_version" ∷ "result" ∷ []))
    ∷ ("local_artifact", artifact)
    ∷ ("teacher_evidence", artifact)
    ∷ ("limitation_record", mapping_with ("limitations" ∷ "scope" ∷ []))
    ∷ ("decision_record", mapping_with ("decision" ∷ "evidence_refs" ∷ []))
    ∷ ("schema_contract", mapping_with ("schema_path" ∷ "schema_version" ∷ []))
    ∷ ("provenance_test", test_result)
    ∷ ("validation_report", mapping_with ("report_path" ∷ "result" ∷ []))
    ∷ ("novelty_artifact", artifact)
    ∷ ("provenance_artifact", artifact)
    ∷ ("nonmutation_test", test_result)
    ∷ (
      "performance_artifact",
      mapping_with (
          "artifact_path" ∷ "prompt_tokens" ∷ "output_tokens" ∷ "elapsed_seconds" ∷ "vram_mb"
          ∷ "cpu_percent" ∷ "ram_mb" ∷ []),
    )
    ∷ ("deployment_matrix", mapping_with ("matrix_path" ∷ "tiers" ∷ []))
    ∷ ("hardware_evidence", mapping_with ("evidence_refs" ∷ "conclusion" ∷ []))
    ∷ ("advisory_record", mapping_with ("advisory" ∷ "limitations" ∷ []))
    ∷ ("operator_docs", list_with ("document_paths" ∷ "covered_topics" ∷ []))
    ∷ ("recovery_check", test_result)
    ∷ ("gitignore_check", mapping_with ("gitignore_path" ∷ "protected_patterns" ∷ []))
    ∷ ("full_test_result", test_result)
    ∷ ("result_artifact", artifact)
    ∷ ("classification_record", mapping_with ("classification" ∷ "artifact_path" ∷ []))
    ∷ ("status_summary", mapping_with ("summary_path" ∷ "evidence_refs" ∷ []))
    ∷ ("sprint_review", mapping_with ("review_path" ∷ "conclusions" ∷ []))
    ∷ ("human_review_marker", human_review_marker)
    ∷ []

abbrev pub is_source : Option Json → Bool
is_source (some (text words)) = is_worded words
is_source _ = false

abbrev pub key_of : String → Option Json → Option Json
key_of key none = none
key_of key (some value) = get_key key value

abbrev pub satisfies_some : Rule → Option Json → Bool
satisfies_some rule none = satisfies rule Json.null
satisfies_some rule (some value) = satisfies rule value

-- `validate` for a type that the table has
unfoldable pub validate_by : String → Json → Option Rule → Bool
validate_by name envelope none = false
validate_by name envelope (some rule) =
    is_text name (get_key "evidence_type" envelope)
    && is_true (get_key "verified" envelope)
    && is_source (get_key "source" envelope)
    && is_true (key_of "passed" (get_key "validation" envelope))
    && satisfies_some rule (get_key "value" envelope)

-- `validate`
unfoldable pub validate : String → Json → Bool
validate name envelope = validate_by name envelope (lookup name definitions)
