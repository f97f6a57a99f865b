-- ===== src/Git/Ready.antt =====
-- What a pull request that is ready went through (backend/control/git_completion.py).
use Prim.Native.String.{String}
use ai_control_center.Base.{
  ◌≡◌, refl, ap, ◌∙◌, Bool, true, false, List, [], ◌∷◌, ◌++◌, arith, eq_iff,
}
use ai_control_center.Base.Words.{is_empty_text}
use ai_control_center.Git.{
  GitCandidate, GitStatus, pr_ready, GitResult, GitAnswer, Git, GitAction, Command, Flow, goes,
  ends, ◌>>=◌, ◌>>◌, pure, end_if, run, is_ok, answer_of,
}
use ai_control_center.Git.Completion.{
  validate_candidate, push_commit, commit_changes, complete_valid, complete_from, complete,
}
use ai_control_center.Git.Candidate.{
  ready_result, stage_command, commit_command, push_command, result_of,
}

-- The history after some more commands.
abbrev pub extend : List Command → List Command → List Command
extend h [] = h
extend h (command ∷ commands) = extend (h ++ command ∷ []) commands

abbrev pub is_ready : GitStatus → Bool
is_ready pr_ready = true
is_ready _ = false

abbrev pub push_commands : GitCandidate → String → List Command
push_commands candidate base_branch = push_command candidate ∷ ("rev-parse" ∷ base_branch ∷ []) ∷ []

push_commit-ready :
    (git : Git) (candidate : GitCandidate) (base_branch : String) (validation_only : Bool)
    (before sha : String) (h : List Command)
    → is_ready
        (result_of (push_commit git candidate base_branch validation_only before sha h).0).status
      ≡ true
    → (push_commit git candidate base_branch validation_only before sha h ≡ (
      goes (ready_result candidate base_branch validation_only sha before),
      extend h (push_commands candidate base_branch),
    ))
      × (is_empty_text before ≡ false)
      × (is_ok (answer_of (git h (push_command candidate))) ≡ true)
      × ((answer_of
            (git (h ++ push_command candidate ∷ []) ("rev-parse" ∷ base_branch ∷ []))).output
          ≡ before)
unfolding push_commit ◌>>=◌ ◌>>◌ pure end_if run
push_commit-ready git candidate base_branch validation_only before sha h e = ground (
  arith,
  eq_iff
      (answer_of (git (h ++ push_command candidate ∷ []) ("rev-parse" ∷ base_branch ∷ []))).output
      before,
)

-- The outcome is a pull request that is ready.
abbrev EndsReady : Flow GitResult GitResult × List Command → Type 0
EndsReady outcome = is_ready (result_of outcome.0).status ≡ true

ready_unless :
    (test : Bool) (x : GitResult) (m : GitAction GitResult GitResult) (h : List Command)
    → is_ready x.status ≡ false
    → EndsReady ((end_if test x >> m) h)
    → (test ≡ false) × EndsReady (m h) × ((end_if test x >> m) h ≡ m h)
unfolding ◌>>=◌ ◌>>◌ end_if
ready_unless true x m h other e = absurd (cc)
ready_unless false x m h other e = (refl, e, refl)

ready_run :
    (git : Git) (command : Command) (f : GitAnswer → GitAction GitResult GitResult)
    (h : List Command)
    → EndsReady ((run git command >>= f) h)
    → EndsReady (f (answer_of (git h command)) (h ++ command ∷ []))
      × ((run git command >>= f) h ≡ f (answer_of (git h command)) (h ++ command ∷ []))
unfolding ◌>>=◌ run
ready_run git command f h e = (e, refl)

abbrev head_command : Command
head_command = "rev-parse" ∷ "HEAD" ∷ []

-- The commands from the commit on.
abbrev pub last_commands : GitCandidate → String → List Command
last_commands candidate base_branch =
    commit_command candidate ∷ head_command ∷ push_commands candidate base_branch

-- How a pull request got ready from the history of the commands before the commit, given what git answered
-- for the base branch before, and what git answered to each of the last four commands at its own place.
pub record IsReady (git : Git) (candidate : GitCandidate) (base_branch : String)
    (validation_only : Bool) (before : String) (h : List Command)
    (outcome : Flow GitResult GitResult × List Command) : Type 0 where
  pub committed : is_ok (answer_of (git h (commit_command candidate))) ≡ true
  pub sha : String
  pub head : (answer_of (git (h ++ commit_command candidate ∷ []) head_command)).output ≡ sha
  pub named : is_empty_text sha ≡ false
  pub pushed :
      is_ok (
        answer_of
          (git (extend h (commit_command candidate ∷ head_command ∷ [])) (push_command candidate)))
      ≡ true
  pub known : is_empty_text before ≡ false
  pub base_kept :
      (answer_of (
        git
          (extend h (commit_command candidate ∷ head_command ∷ push_command candidate ∷ []))
          ("rev-parse" ∷ base_branch ∷ []))).output
      ≡ before
  pub result : outcome ≡ (
    goes (ready_result candidate base_branch validation_only sha before),
    extend h (last_commands candidate base_branch),
  )

-- The commands between the question for the base branch and the commit.
abbrev pub stage_commands : GitCandidate → List Command
stage_commands candidate = stage_command candidate ∷ ("diff" ∷ "--cached" ∷ "--quiet" ∷ []) ∷ []

abbrev pub first_commands : GitCandidate → String → List Command
first_commands candidate base_branch =
    ("rev-parse" ∷ base_branch ∷ [])
    ∷ ("config" ∷ "--get" ∷ "user.name" ∷ [])
    ∷ ("config" ∷ "--get" ∷ "user.email" ∷ [])
    ∷ ("diff" ∷ "--check" ∷ [])
    ∷ stage_commands candidate

commit_changes-IsReady :
    (git : Git) (candidate : GitCandidate) (base_branch : String) (validation_only : Bool)
    (before : String) (h : List Command)
    → EndsReady (commit_changes git candidate base_branch validation_only before h)
    → IsReady git candidate base_branch validation_only before
        (extend h (stage_commands candidate))
        (commit_changes git candidate base_branch validation_only before h)
unfolding commit_changes
commit_changes-IsReady git candidate base_branch validation_only before h e =
    let (e1, p1) = ready_run git _ _ h e in
    let (ok, e2, p2) = ready_unless _ _ _ _ refl e1 in
    let (e3, p3) = ready_run git _ _ _ e2 in
    let (some_change, e4, p4) = ready_unless _ _ _ _ refl e3 in
    let (known, e5, p5) = ready_unless _ _ _ _ refl e4 in
    let (e6, p6) = ready_run git _ _ _ e5 in
    let (done, e7, p7) = ready_unless _ _ _ _ refl e6 in
    let (e8, p8) = ready_run git _ _ _ e7 in
    let (head, e9, p9) = ready_unless _ _ _ _ refl e8 in
    let (allowed, e10, p10) = ready_unless _ _ _ _ refl e9 in
    let (p11, filled, pushed, kept) =
      push_commit-ready git candidate base_branch validation_only before _ _ e10 in
    record {
      committed = ground (arith, done);
      sha = _;
      head = refl;
      named = ground (arith, head);
      pushed = pushed;
      known = filled;
      base_kept = kept;
      result = p1 ∙ p2 ∙ p3 ∙ p4 ∙ p5 ∙ p6 ∙ p7 ∙ p8 ∙ p9 ∙ p10 ∙ p11;
    }

complete_valid-IsReady :
    (git : Git) (candidate : GitCandidate) (base_branch : String) (validation_only : Bool)
    (h : List Command)
    → EndsReady (complete_valid git candidate base_branch validation_only h)
    → IsReady git candidate base_branch validation_only
        (answer_of (git h ("rev-parse" ∷ base_branch ∷ []))).output
        (extend h (first_commands candidate base_branch))
        (complete_valid git candidate base_branch validation_only h)
unfolding complete_valid
complete_valid-IsReady git candidate base_branch validation_only h e =
    let (e1, p1) = ready_run git _ _ h e in
    let (e2, p2) = ready_run git _ _ _ e1 in
    let (named, e3, p3) = ready_unless _ _ _ _ refl e2 in
    let (e4, p4) = ready_run git _ _ _ e3 in
    let (reachable, e5, p5) = ready_unless _ _ _ _ refl e4 in
    let (e6, p6) = ready_run git _ _ _ e5 in
    let (clean, e7, p7) = ready_unless _ _ _ _ refl e6 in
    let r = commit_changes-IsReady git candidate base_branch validation_only _ _ e7 in
    record {
      committed = r.committed;
      sha = r.sha;
      head = r.head;
      named = r.named;
      pushed = r.pushed;
      known = r.known;
      base_kept = r.base_kept;
      result = p1 ∙ p2 ∙ p3 ∙ p4 ∙ p5 ∙ p6 ∙ p7 ∙ r.result;
    }

-- That a pull request is ready for a run of `complete`: the validation let it through, and what ran since.
abbrev pub WentThrough :
    Git → Bool → GitCandidate → String → Bool → GitResult × List Command → Type 0
WentThrough git is_directory candidate base_branch validation_only outcome =
    (h : List Command) × (validate_candidate git is_directory candidate base_branch []
      ≡ (goes tt, h))
    × (IsReady git candidate base_branch validation_only
        (answer_of (git h ("rev-parse" ∷ base_branch ∷ []))).output
        (extend h (first_commands candidate base_branch)) (goes outcome.0, outcome.1))

complete_from-ready :
    (git : Git) (is_directory : Bool) (candidate : GitCandidate) (base_branch : String)
    (validation_only : Bool) (validated : Flow String (Unit {0}) × List Command)
    → validate_candidate git is_directory candidate base_branch [] ≡ validated
    → is_ready (complete_from git candidate base_branch validation_only validated).0.status ≡ true
    → WentThrough git is_directory candidate base_branch validation_only
        (complete_from git candidate base_branch validation_only validated)
complete_from-ready git is_directory candidate base_branch validation_only (ends reason, h) p e =
    absurd (cc)
complete_from-ready git is_directory candidate base_branch validation_only (goes u, h) p e =
    let r = complete_valid-IsReady git candidate base_branch validation_only h e in
    (
      h,
      p,
      record {
        committed = r.committed;
        sha = r.sha;
        head = r.head;
        named = r.named;
        pushed = r.pushed;
        known = r.known;
        base_kept = r.base_kept;
        result =
            ap (λ (x : Flow GitResult GitResult × List Command). (goes (result_of x.0), x.1))
              r.result;
      },
    )

-- A pull request is ready only when the candidate passed the validation, the commands run since are exactly
-- the ten of the method in order, and git answered to them, each at its place: the commit and the push of the
-- candidate's branch ended with 0, `rev-parse HEAD` between the two gave the commit's name, which is not
-- empty, and `rev-parse` of the base branch, the first command and the last, gave the same name, which is not
-- empty; and the result says what was committed and pushed.
pub complete-WentThrough :
    (git : Git) (is_directory : Bool) (candidate : GitCandidate) (base_branch : String)
    (validation_only : Bool)
    → is_ready (complete git is_directory candidate base_branch validation_only).0.status ≡ true
    → WentThrough git is_directory candidate base_branch validation_only
        (complete git is_directory candidate base_branch validation_only)
unfolding complete
complete-WentThrough git is_directory candidate base_branch validation_only e =
    complete_from-ready git is_directory candidate base_branch validation_only _ refl e
