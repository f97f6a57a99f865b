-- ===== src/Repair/Bounded.antt =====
-- What a repair controller keeps of the run that it is given (backend/control/repair_recovery.py).
use mathlib.Core.Path.{subst}
use mathlib.Core.List.{◌++◌, append_assoc, append-nil}
use ai_control_center.Base.{
  ℕ, is_empty_list, ◌+◌, ◌≤◌, ◌≡◌, refl, ap, sym, ◌∙◌, String, Bool, true, false, ◌&&◌, not, Option,
  none, some, List, [], ◌∷◌, arith, leb→le, if-cases, eq_iff, all, All, All-append_last,
  count_items, count_items-le-length, length, length-append,
}
use ai_control_center.Base.Keyed.{contains}
use ai_control_center.Base.Paths.{forward_slashes}
use ai_control_center.Contract.{
  LocalLlmDayState, preflight, diagnosing_gap, revalidating, human_action_required,
}
use ai_control_center.Runs.{RunRecord}
use ai_control_center.Repair.{
  RepairAttempt, ReviewResult, recheck, reject, RepairController, new_controller, is_empty_list,
  Repaired, controller_after, set_control, in_scope, guard_reason, add_attempt, is_same_failure,
  is_repeated, settle_attempt, ask_review, guarded_attempt, record_attempt, is_expected,
  follow_review, apply_review, RepairCall, attempt_made, review_made, repair, repair_all,
}

-- What the guard asks of an attempt, besides the number of attempts.
pub record IsGuarded (c : RepairController) (attempt : RepairAttempt) : Type 0 where
  pub same_run : attempt.run_id ≡ c.run.intent.run_id
  pub same_day : attempt.selected_day ≡ c.run.intent.selected_day
  pub in_time : attempt.active_work_seconds ≤ c.run.intent.requested_limits.active_work_seconds
  pub same_git : attempt.git_fingerprint ≡ c.run.intent.git_fingerprint
  pub scoped : in_scope c attempt.changed_paths ≡ true

-- The states that the run has been in, its current one last.
abbrev pub states_of : RepairController → List LocalLlmDayState
states_of c = c.run.control.state_history ++ c.run.control.current_state ∷ []

-- What a controller keeps of the one that it started as.
pub record IsBounded (start c : RepairController) : Type 0 where
  pub intent : c.run.intent ≡ start.run.intent
  pub allowed : c.allowed_paths ≡ start.allowed_paths
  pub within : length c.attempts ≤ start.run.intent.requested_limits.max_attempts
  pub guarded : All (IsGuarded start) c.attempts
  pub asked :
      (id : String)
      → c.review_request_id ≡ some id
      → (failure : String) × (c.repeated_failure_fingerprint ≡ some failure)
        × (count_items (is_same_failure failure) c.attempts ≡ length c.attempts)
        × (start.run.intent.requested_limits.max_attempts ≤ length c.attempts)
  pub states : (later : List LocalLlmDayState) × (states_of c ≡ states_of start ++ later)

guard_reason-IsGuarded :
    (c : RepairController) (attempt : RepairAttempt)
    → guard_reason c attempt ≡ none
    → IsGuarded c attempt
unfolding guard_reason
guard_reason-IsGuarded c attempt e = record {
  same_run = ground (arith, eq_iff attempt.run_id c.run.intent.run_id);
  same_day = ground arith;
  in_time = ground arith;
  same_git = ground (arith, eq_iff attempt.git_fingerprint c.run.intent.git_fingerprint);
  scoped = ground arith;
}

guard_reason-lt :
    (c : RepairController) (attempt : RepairAttempt)
    → guard_reason c attempt ≡ none
    → length c.attempts + 1 ≤ c.run.intent.requested_limits.max_attempts
unfolding guard_reason
guard_reason-lt c attempt e = ground arith

module _ (start : RepairController) where
  -- The controller that a call leaves is bounded.
  abbrev Keeps : Repaired → Type 0
  Keeps r = IsBounded start (controller_after r)

  IsGuarded-start :
      (c : RepairController) (attempt : RepairAttempt)
      → IsBounded start c
      → IsGuarded c attempt
      → IsGuarded start attempt
  IsGuarded-start c attempt h g = record {
    same_run = g.same_run ∙ ap (λ intent. intent.run_id) h.intent;
    same_day = g.same_day ∙ ap (λ intent. intent.selected_day) h.intent;
    in_time =
        subst (λ intent. attempt.active_work_seconds ≤ intent.requested_limits.active_work_seconds)
          h.intent g.in_time;
    same_git = g.same_git ∙ ap (λ intent. intent.git_fingerprint) h.intent;
    scoped =
        subst
          (λ allowed.
            (not (is_empty_list attempt.changed_paths)
              && all (λ path. contains allowed (forward_slashes path)) attempt.changed_paths)
            ≡ true)
          h.allowed g.scoped;
  }

  -- An attempt that passes the guard, and that is added.
  IsBounded-add_attempt :
      (c : RepairController) (attempt : RepairAttempt)
      → IsBounded start c
      → guard_reason c attempt ≡ none
      → IsBounded start (add_attempt attempt c)
  IsBounded-add_attempt c attempt h e =
      let fewer : length c.attempts + 1 ≤ start.run.intent.requested_limits.max_attempts =
        subst (λ intent. length c.attempts + 1 ≤ intent.requested_limits.max_attempts) h.intent
          (guard_reason-lt c attempt e) in
      record {
        intent = h.intent;
        allowed = h.allowed;
        within = omega (arith, length-append {0} c.attempts (attempt ∷ []), fewer);
        guarded =
            All-append_last (IsGuarded start) attempt c.attempts h.guarded
              (IsGuarded-start c attempt h (guard_reason-IsGuarded c attempt e));
        asked = λ id f. absurd (omega (arith, fewer, (h.asked id f).3));
        states = h.states;
      }

  IsBounded-set_control :
      (now : ℕ) (state : LocalLlmDayState) (next_action : String) (blocker : Option String)
      (resume : Bool) (c : RepairController)
      → IsBounded start c
      → IsBounded start (set_control now state next_action blocker resume c)
  IsBounded-set_control now state next_action blocker resume c h =
      let (later, e) = h.states in
      record {
        intent = h.intent;
        allowed = h.allowed;
        within = h.within;
        guarded = h.guarded;
        asked = h.asked;
        states = (
          later ++ state ∷ [],
          ap (λ states. states ++ state ∷ []) e ∙ append_assoc (states_of start) later (state ∷ []),
        );
      }

  IsBounded-ask_review :
      (request_digest : String → ℕ → String → String) (c : RepairController)
      (attempt : RepairAttempt)
      → IsBounded start c
      → is_repeated attempt c ≡ true
      → IsBounded start (ask_review request_digest attempt c)
  IsBounded-ask_review request_digest c attempt h e =
      let repeated : start.run.intent.requested_limits.max_attempts
          ≤ count_items (is_same_failure attempt.failure_fingerprint) c.attempts =
        subst
          (λ intent.
            intent.requested_limits.max_attempts
            ≤ count_items (is_same_failure attempt.failure_fingerprint) c.attempts)
          h.intent (leb→le _ _ e) in
      let few = count_items-le-length (is_same_failure attempt.failure_fingerprint) c.attempts in
      record {
        intent = h.intent;
        allowed = h.allowed;
        within = h.within;
        guarded = h.guarded;
        asked = λ id f. (
          attempt.failure_fingerprint,
          refl,
          omega (arith, repeated, few, h.within),
          omega (arith, repeated, few),
        );
        states = h.states;
      }

  module _ (request_digest : String → ℕ → String → String) where
    IsBounded-settle_attempt :
        (now : ℕ) (attempt : RepairAttempt) (c : RepairController)
        → IsBounded start c
        → IsBounded start (controller_after (settle_attempt request_digest now attempt c))
    unfolding settle_attempt
    IsBounded-settle_attempt now attempt c h =
        if-cases Keeps attempt.verification_passed _ _
          (λ passed. IsBounded-set_control now revalidating _ none false c h)
          (λ failed.
            if-cases Keeps (is_repeated attempt c) _ _
              (λ repeated.
                IsBounded-set_control now human_action_required _ _ true
                  (ask_review request_digest attempt c)
                  (IsBounded-ask_review request_digest c attempt h repeated))
              (λ other. IsBounded-set_control now diagnosing_gap _ none false c h))

    IsBounded-guarded_attempt :
        (now : ℕ) (attempt : RepairAttempt) (reason : Option String) (c : RepairController)
        → guard_reason c attempt ≡ reason
        → IsBounded start c
        → Keeps (guarded_attempt request_digest now attempt reason c)
    unfolding guarded_attempt
    IsBounded-guarded_attempt now attempt (some reason) c e h = h
    IsBounded-guarded_attempt now attempt none c e h =
        IsBounded-settle_attempt now attempt (add_attempt attempt c)
          (IsBounded-add_attempt c attempt h e)

    IsBounded-follow_review :
        (now : ℕ) (result : ReviewResult) (c : RepairController)
        → IsBounded start c
        → Keeps (follow_review now result c)
    IsBounded-follow_review now reject c h = h
    IsBounded-follow_review now recheck c h = IsBounded-set_control now preflight _ none false c h

    IsBounded-repair :
        (call : RepairCall) (c : RepairController)
        → IsBounded start c
        → Keeps (repair request_digest call c)
    unfolding repair record_attempt apply_review
    IsBounded-repair (attempt_made now none) c h = h
    IsBounded-repair (attempt_made now (some attempt)) c h =
        IsBounded-guarded_attempt now attempt (guard_reason c attempt) c refl h
    IsBounded-repair (review_made now none) c h = h
    IsBounded-repair (review_made now (some review)) c h =
        if-cases Keeps (is_expected review c) _ _
          (λ expected. IsBounded-follow_review now review.result c h) (λ other. h)

    IsBounded-repair_all :
        (calls : List RepairCall) (c : RepairController)
        → IsBounded start c
        → IsBounded start (repair_all request_digest calls c)
    unfolding repair_all
    IsBounded-repair_all [] c h = h
    IsBounded-repair_all (call ∷ calls) c h =
        IsBounded-repair_all calls (controller_after (repair request_digest call c))
          (IsBounded-repair call c h)

-- Whatever is called on a new controller, at whatever times: it keeps the intent of its run; it holds at
-- most as many attempts as the run allows, each of the same run, day and commit, inside the budget of work
-- and changing some paths, all of them allowed; a review is asked for only when all the allowed attempts
-- have the same failure; and the states of its run are only ever added to.
pub reachable-IsBounded :
    (request_digest : String → ℕ → String → String) (run : RunRecord) (allowed : List String)
    (calls : List RepairCall)
    → IsBounded
        (new_controller run allowed)
        (repair_all request_digest calls (new_controller run allowed))
reachable-IsBounded request_digest run allowed calls =
    IsBounded-repair_all (new_controller run allowed) request_digest calls
      (new_controller run allowed)
      (record {
        intent = refl;
        allowed = refl;
        within = omega arith;
        guarded = tt;
        asked = λ id e. absurd (cc);
        states = ([], sym (append-nil _));
      })
