-- ===== src/Evidence/Proven.antt =====
-- When a criterion is satisfied (backend/control/evidence_completion.py).
use ai_control_center.Base.{
  ℕ, zero, suc, ◌≡◌, refl, sym, ◌∙◌, String, Bool, true, false, ◌&&◌, Option, none, some, List, [],
  ◌∷◌, arith, eq_iff, all, any, All, same_number, get_elem?, Bool-cases, inl, inr,
}
use ai_control_center.Runs.{RunIntent}
use ai_control_center.Evidence.Registry.{validate}
use ai_control_center.Evidence.Completion.{
  find_criterion, envelope, adapt_reason, evaluate_found, evaluate_criterion, blocked,
}
use ai_control_center.Evidence.Records.{DayCriterion, DayContract, EvidenceResult}
use ai_control_center.Evidence.Collecting.{proves, is_proven, collect_all-is_satisfied}

-- What `evaluate_criterion` is meant to decide: the criterion is there, the run is one of the contract's day,
-- and the results prove every required type.
abbrev pub is_complete :
    RunIntent → DayContract → List (Option EvidenceResult) → Option DayCriterion → Bool
is_complete intent contract results none = false
is_complete intent contract results (some criterion) =
    same_number intent.selected_day contract.day && is_proven intent criterion results

evaluate_found-is_complete :
    (digest : RunIntent → DayCriterion → EvidenceResult → String) (now : ℕ) (intent : RunIntent)
    (contract : DayContract) (criterion_id : String) (results : List (Option EvidenceResult))
    (o : Option DayCriterion)
    → (evaluate_found digest now intent contract criterion_id results o).criterion_satisfied
      ≡ is_complete intent contract results o
unfolding evaluate_found blocked
evaluate_found-is_complete digest now intent contract criterion_id results none = refl
evaluate_found-is_complete digest now intent contract criterion_id results (some criterion) =
    elim (Bool-cases (same_number intent.selected_day contract.day)) [
      | inl same ↦ rw same (collect_all-is_satisfied digest now intent contract criterion results)
      | inr differs ↦ rw differs refl
    ]

-- A criterion is reported as satisfied exactly when the contract has it, the run is one of the contract's
-- day, it requires some evidence, and each required type has a result that passes every check, whatever
-- other results are given and in whatever order.
pub evaluate_criterion-is_complete :
    (digest : RunIntent → DayCriterion → EvidenceResult → String) (now : ℕ) (intent : RunIntent)
    (contract : DayContract) (criterion_id : String) (results : List (Option EvidenceResult))
    → (evaluate_criterion digest now intent contract criterion_id results).criterion_satisfied
      ≡ is_complete intent contract results
          (find_criterion criterion_id contract.completion_criteria)
unfolding evaluate_criterion
evaluate_criterion-is_complete digest now intent contract criterion_id results =
    evaluate_found-is_complete digest now intent contract criterion_id results
      (find_criterion criterion_id contract.completion_criteria)

-- A result of the run, for the criterion, of a type and with the run's configuration, whose envelope the
-- registry validates.
pub record IsEvidence (intent : RunIntent) (criterion : DayCriterion) (t : String)
    (result : EvidenceResult) : Type 0 where
  pub typed : result.evidence_type ≡ t
  pub same_run : result.run_id ≡ intent.run_id
  pub same_criterion : result.criterion_id ≡ criterion.criterion_id
  pub same_configuration : result.configuration_fingerprint ≡ intent.config_fingerprint
  pub valid : validate result.evidence_type (envelope result) ≡ true

-- Some result of the list is evidence of the type.
abbrev pub HasEvidence : RunIntent → DayCriterion → List (Option EvidenceResult) → String → Type 0
HasEvidence intent criterion results t =
    (i : ℕ) × (result : EvidenceResult) × (get_elem? results i ≡ some (some result))
    × IsEvidence intent criterion t result

proves-IsEvidence :
    (intent : RunIntent) (criterion : DayCriterion) (t : String) (result : EvidenceResult)
    → proves intent criterion t (some result) ≡ true
    → IsEvidence intent criterion t result
unfolding adapt_reason
proves-IsEvidence intent criterion t result e = record {
  typed = (eq_iff result.evidence_type t).0 (ground arith);
  same_run = (eq_iff result.run_id intent.run_id).0 (ground arith);
  same_criterion = (eq_iff result.criterion_id criterion.criterion_id).0 (ground arith);
  same_configuration =
      (eq_iff result.configuration_fingerprint intent.config_fingerprint).0 (ground arith);
  valid = ground arith;
}

any-HasEvidence :
    (intent : RunIntent) (criterion : DayCriterion) (t : String)
    (results : List (Option EvidenceResult))
    → any (proves intent criterion t) results ≡ true
    → HasEvidence intent criterion results t
any-HasEvidence intent criterion t [] e = absurd (cc)
any-HasEvidence intent criterion t (none ∷ results) e =
    let (i, result, found, evidence) = any-HasEvidence intent criterion t results e in
    (suc i, result, found, evidence)
any-HasEvidence intent criterion t (some result ∷ results) e =
    elim (Bool-cases (proves intent criterion t (some result))) [
      | inl proof ↦ (zero, result, refl, proves-IsEvidence intent criterion t result proof)
      | inr other ↦
          let (i, later, found, evidence) =
            any-HasEvidence intent criterion t results (rw other at e) in
          (suc i, later, found, evidence)
    ]

all-HasEvidence :
    (intent : RunIntent) (criterion : DayCriterion) (results : List (Option EvidenceResult))
    (ts : List String)
    → all (λ t. any (proves intent criterion t) results) ts ≡ true
    → All (HasEvidence intent criterion results) ts
all-HasEvidence intent criterion results [] e = tt
all-HasEvidence intent criterion results (t ∷ ts) e = (
  any-HasEvidence intent criterion t results (ground arith),
  all-HasEvidence intent criterion results ts (ground arith),
)

complete-HasEvidence :
    (intent : RunIntent) (contract : DayContract) (results : List (Option EvidenceResult))
    (o : Option DayCriterion)
    → is_complete intent contract results o ≡ true
    → (criterion : DayCriterion) × (o ≡ some criterion)
      × (intent.selected_day ≡ contract.day)
      × All (HasEvidence intent criterion results) criterion.required_evidence
complete-HasEvidence intent contract results none e = absurd (cc)
complete-HasEvidence intent contract results (some criterion) e = (
  criterion,
  refl,
  ground arith,
  all-HasEvidence intent criterion results criterion.required_evidence (ground arith),
)

-- When a criterion is reported as satisfied, it is one of the contract, the run is one of the contract's
-- day, and each type that the criterion requires has one of the given results: of this run, for this
-- criterion, with the run's configuration, and valid by the registry.
pub satisfied-HasEvidence :
    (digest : RunIntent → DayCriterion → EvidenceResult → String) (now : ℕ) (intent : RunIntent)
    (contract : DayContract) (criterion_id : String) (results : List (Option EvidenceResult))
    → (evaluate_criterion digest now intent contract criterion_id results).criterion_satisfied
      ≡ true
    → (criterion : DayCriterion) × (find_criterion criterion_id contract.completion_criteria
        ≡ some criterion)
      × (intent.selected_day ≡ contract.day)
      × All (HasEvidence intent criterion results) criterion.required_evidence
satisfied-HasEvidence digest now intent contract criterion_id results e =
    complete-HasEvidence intent contract results
      (find_criterion criterion_id contract.completion_criteria)
      (sym (evaluate_criterion-is_complete digest now intent contract criterion_id results) ∙ e)
