-- ===== src/Discovery/First.antt =====
-- Which case the search selects (backend/control/task_discovery.py).
use Prim.Native.String.{String}
use ai_control_center.Base.{
  ◌≡◌, ◌⊎◌, refl, ap, sym, ◌∙◌, Bool, true, false, ◌&&◌, ◌||◌, not, Option, none, some, List, [],
  ◌∷◌, ◌++◌, map, arith, all, All, All-append_last, Bool-cases, inl, inr,
}
use ai_control_center.Base.Keyed.{contains}
use ai_control_center.Evidence.{Json}
use ai_control_center.Discovery.{
  DiscoveryDefinition, CommandRun, DiscoveryCase, code_fix_selected, human_review_required,
  DiscoveryResult, is_in, classify, is_code_fix, RunCommand, check_case, discover_from, discover,
}

-- A failure that code can fix did not pass, and its error code is among the configured ones and names no
-- fault of the infrastructure or the configuration.
abbrev pub is_fixable : List String → CommandRun → Bool
is_fixable codes execution =
    not execution.passed
    && is_in execution.error_code codes
    && not (
        is_in execution.error_code (
          "COMMAND_NOT_FOUND" ∷ "COMMAND_TIMEOUT" ∷ "OUTPUT_ERROR" ∷ "LOCAL_IO" ∷ "INVALID_CASE"
          ∷ "CONFIGURATION" ∷ []))

contains-or :
    (k : String) (l m : List String) → contains (l ++ m) k ≡ (contains l k || contains m k)
contains-or k [] m = refl
contains-or k (j ∷ l) m = ground (arith, contains-or k l m)

is_in-or :
    (code : Option String) (l m : List String)
    → is_in code (l ++ m) ≡ (is_in code l || is_in code m)
is_in-or none l m = refl
is_in-or (some code) l m = contains-or code l m

classify-fixable :
    (codes : List String) (execution : CommandRun)
    → is_code_fix (classify codes execution).1 ≡ is_fixable codes execution
unfolding classify
classify-fixable codes execution = ground (
  arith,
  is_in-or execution.error_code ("COMMAND_NOT_FOUND" ∷ "COMMAND_TIMEOUT" ∷ [])
      ("OUTPUT_ERROR" ∷ "LOCAL_IO" ∷ "INVALID_CASE" ∷ "CONFIGURATION" ∷ []),
  is_in-or execution.error_code ("OUTPUT_ERROR" ∷ "LOCAL_IO" ∷ [])
      ("INVALID_CASE" ∷ "CONFIGURATION" ∷ []),
)

abbrev pub is_fix : DiscoveryCase → Bool
is_fix c = is_code_fix c.classification

-- The case was classified as one for code exactly when its command failed in a way that code can fix.
abbrev pub IsSound : List String → DiscoveryCase → Type 0
IsSound codes c = is_fix c ≡ is_fixable codes c.command

-- The cases that were run, of the candidates in order, and how the search ended.
pub record IsFirstFix (codes candidates : List String) (result : DiscoveryResult) : Type 0 where
  pub sound : All (IsSound codes) result.cases
  pub ended :
      ((all (λ c. not (is_fix c)) result.cases ≡ true)
        × (map (λ (c : DiscoveryCase). c.case_id) result.cases ≡ candidates)
        × (result.selected_case_id ≡ none)
        × (result.final_result ≡ human_review_required))
      ⊎ ((before : List DiscoveryCase) × (last : DiscoveryCase) × (rest : List String)
          × (result.cases ≡ before ++ last ∷ [])
          × (all (λ c. not (is_fix c)) before ≡ true)
          × (is_fix last ≡ true)
          × (map (λ (c : DiscoveryCase). c.case_id) before ++ last.case_id ∷ rest ≡ candidates)
          × (result.selected_case_id ≡ some last.case_id)
          × (result.final_result ≡ code_fix_selected))

abbrev ids_of : List DiscoveryCase → List String
ids_of cases = map (λ (c : DiscoveryCase). c.case_id) cases

ids_of-append_last :
    (cases : List DiscoveryCase) (c : DiscoveryCase) (rest : List String)
    → ids_of (cases ++ c ∷ []) ++ rest ≡ ids_of cases ++ c.case_id ∷ rest
ids_of-append_last [] c rest = refl
ids_of-append_last (d ∷ cases) c rest =
    ap (λ ids. d.case_id ∷ ids) (ids_of-append_last cases c rest)

ids_of-append_nil : (ids : List String) → ids ++ [] ≡ ids
ids_of-append_nil [] = refl
ids_of-append_nil (id ∷ ids) = ap (λ rest. id ∷ rest) (ids_of-append_nil ids)

no_fix-append_last :
    (cases : List DiscoveryCase) (c : DiscoveryCase)
    → all (λ c. not (is_fix c)) cases ≡ true
    → is_fix c ≡ false
    → all (λ c. not (is_fix c)) (cases ++ c ∷ []) ≡ true
no_fix-append_last [] c h e = ground arith
no_fix-append_last (d ∷ cases) c h e = ground (arith, no_fix-append_last cases c)

module _ (loads : String → Option Json) (join_path : String → String → String)
    (run_command : RunCommand) (definition : DiscoveryDefinition)
    (working_directory artifact_root : String) where
  abbrev found_case : List DiscoveryCase → String → DiscoveryCase
  found_case = check_case loads join_path run_command definition working_directory artifact_root

  check_case-IsSound :
      (cases : List DiscoveryCase) (case_id : String)
      → IsSound definition.code_fix_error_codes (found_case cases case_id)
  unfolding check_case
  check_case-IsSound cases case_id = classify-fixable definition.code_fix_error_codes _

  check_case-id :
      (cases : List DiscoveryCase) (case_id : String) → (found_case cases case_id).case_id ≡ case_id
  unfolding check_case
  check_case-id cases case_id = refl

  discover_from-IsFirstFix :
      (case_ids : List String) (cases : List DiscoveryCase)
      → All (IsSound definition.code_fix_error_codes) cases
      → all (λ c. not (is_fix c)) cases ≡ true
      → IsFirstFix definition.code_fix_error_codes (ids_of cases ++ case_ids) (
          discover_from loads join_path run_command definition working_directory artifact_root
            case_ids cases)
  unfolding discover_from
  discover_from-IsFirstFix [] cases s n = record {
    sound = s;
    ended = inl (n, sym (ids_of-append_nil (ids_of cases)), refl, refl);
  }
  discover_from-IsFirstFix (case_id ∷ case_ids) cases s n =
      let found = found_case cases case_id in
      let s' =
        All-append_last (IsSound definition.code_fix_error_codes) found cases s
          (check_case-IsSound cases case_id) in
      elim (Bool-cases (is_fix found)) [
        | inl fix ↦ rw fix (record {
          sound = s';
          ended = inr (
            cases,
            found,
            case_ids,
            refl,
            n,
            fix,
            ap (λ id. ids_of cases ++ id ∷ case_ids) (check_case-id cases case_id),
            ap some (sym (check_case-id cases case_id)),
            refl,
          );
        })
        | inr other ↦
            let extended =
              ids_of-append_last cases found case_ids
              ∙ ap (λ id. ids_of cases ++ id ∷ case_ids) (check_case-id cases case_id) in
            rw other (
              rw (sym extended) (
                discover_from-IsFirstFix case_ids (cases ++ found ∷ []) s'
                  (no_fix-append_last cases found n other)))
      ]

  -- Whatever the prechecks answer, the search runs the candidates in order; a case counts as one for code
  -- exactly when its command failed with a configured error code that names no other fault; and either none
  -- of all candidates does and a person is asked, or the search ends at the first that does and selects it.
  pub discover-IsFirstFix :
      IsFirstFix definition.code_fix_error_codes definition.candidate_case_ids
        (discover loads join_path run_command definition working_directory artifact_root)
  unfolding discover
  discover-IsFirstFix = discover_from-IsFirstFix definition.candidate_case_ids [] tt refl
