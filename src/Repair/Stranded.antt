-- ===== src/Repair/Stranded.antt =====
-- Where a repair controller cannot go on (backend/control/repair_recovery.py).
use ai_control_center.Base.{
  ℕ, ◌+◌, ◌≤◌, ◌≡◌, refl, ap, ◌∙◌, String, false, none, some, List, [], ◌∷◌, arith, if-no,
  Option-cases, inl, inr, ◌≢◌, length, length-append,
}
use ai_control_center.Contract.{diagnosing_gap}
use ai_control_center.Repair.{
  RepairAttempt, RepairReview, RepairController, controller_after, set_control, guard_reason,
  add_attempt, is_repeated, settle_attempt, guarded_attempt, record_attempt, is_expected,
  apply_review, RepairCall, attempt_made, review_made, repair, repair_all,
}

-- No attempt is left, and no review was asked for.
pub record IsStranded (c : RepairController) : Type 0 where
  pub spent : c.run.intent.requested_limits.max_attempts ≤ length c.attempts
  pub unasked : c.review_request_id ≡ none

spent-guard_reason :
    (c : RepairController) (attempt : RepairAttempt)
    → c.run.intent.requested_limits.max_attempts ≤ length c.attempts
    → guard_reason c attempt ≢ none
unfolding guard_reason
spent-guard_reason c attempt h = ground arith

unasked-is_expected :
    (c : RepairController) (review : RepairReview)
    → c.review_request_id ≡ none
    → is_expected review c ≡ false
unfolding is_expected
unasked-is_expected c review h = ground arith

module _ (request_digest : String → ℕ → String → String) where
  stranded-repair :
      (call : RepairCall) (c : RepairController)
      → IsStranded c
      → controller_after (repair request_digest call c) ≡ c
  unfolding repair record_attempt apply_review guarded_attempt
  stranded-repair (attempt_made now none) c h = refl
  stranded-repair (attempt_made now (some attempt)) c h =
      elim (Option-cases (guard_reason c attempt)) [
        | inl passes ↦ absurd (spent-guard_reason c attempt h.spent passes)
        | inr (reason, e) ↦ rw e refl
      ]
  stranded-repair (review_made now none) c h = refl
  stranded-repair (review_made now (some review)) c h =
      rw (unasked-is_expected c review h.unasked) refl

  stranded-repair_all :
      (calls : List RepairCall) (c : RepairController)
      → IsStranded c
      → repair_all request_digest calls c ≡ c
  unfolding repair_all
  stranded-repair_all [] c h = refl
  stranded-repair_all (call ∷ calls) c h =
      rw (stranded-repair call c h) (stranded-repair_all calls c h)

  failed_attempt :
      (now : ℕ) (attempt : RepairAttempt) (c : RepairController)
      → guard_reason c attempt ≡ none
      → attempt.verification_passed ≡ false
      → is_repeated attempt (add_attempt attempt c) ≡ false
      → controller_after (record_attempt request_digest now (some attempt) c)
        ≡ set_control now diagnosing_gap
            "One bounded repair attempt remains for this failure fingerprint." none false
            (add_attempt attempt c)
  unfolding record_attempt guarded_attempt settle_attempt
  failed_attempt now attempt c passes failed other = rw passes (
      ap controller_after (
        if-no attempt.verification_passed _ _ failed
        ∙ if-no (is_repeated attempt (add_attempt attempt c)) _ _ other))

  repair_all-attempt :
      (now : ℕ) (attempt : RepairAttempt) (calls : List RepairCall) (c : RepairController)
      → repair_all request_digest (attempt_made now (some attempt) ∷ calls) c
        ≡ repair_all request_digest calls
            (controller_after (record_attempt request_digest now (some attempt) c))
  unfolding repair_all repair
  repair_all-attempt now attempt calls c = refl

  -- When the last attempt that a run allows fails, and not all attempts had its failure, the run is left in
  -- DIAGNOSING_GAP with no review asked for, and nothing that is called afterwards changes the controller.
  pub last_attempt_strands :
      (now : ℕ) (attempt : RepairAttempt) (calls : List RepairCall) (c : RepairController)
      → c.review_request_id ≡ none
      → guard_reason c attempt ≡ none
      → attempt.verification_passed ≡ false
      → length c.attempts + 1 ≡ c.run.intent.requested_limits.max_attempts
      → is_repeated attempt (add_attempt attempt c) ≡ false
      → (repair_all request_digest (attempt_made now (some attempt) ∷ calls) c
          ≡ controller_after (record_attempt request_digest now (some attempt) c))
        × ((controller_after
              (record_attempt request_digest now (some attempt) c)).run.control.current_state
            ≡ diagnosing_gap)
        × ((controller_after (record_attempt request_digest now (some attempt) c)).review_request_id
            ≡ none)
  last_attempt_strands now attempt calls c unasked passes failed last other =
      rw (repair_all-attempt now attempt calls c) (
        rw (failed_attempt now attempt c passes failed other) (
          stranded-repair_all calls
              (set_control now diagnosing_gap
                "One bounded repair attempt remains for this failure fingerprint." none false
                (add_attempt attempt c))
              (record {
                spent = omega (arith, length-append {0} c.attempts (attempt ∷ []), last);
                unasked = unasked;
              }),
          refl,
          unasked,
        ))
