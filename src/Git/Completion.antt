-- ===== src/Git/Completion.antt =====
-- backend/control/git_completion.py: `complete`. Whether the worktree is a directory is an argument.
use Prim.Native.String.{String}
use ai_control_center.Base.{Bool, ◌||◌, not, Option, none, some, List, [], ◌∷◌, ◌==◌, if◌then◌else◌}
use ai_control_center.Base.Texts.{sort_set}
use ai_control_center.Base.Words.{append_text, is_empty_text}
use ai_control_center.Git.{
  GitCandidate, GitResult, Git, GitAction, goes, ends, Flow, ◌>>=◌, ◌>>◌, pure, end_if, run, is_ok,
  is_one, check_command,
}
use ai_control_center.Git.Candidate.{
  is_agent_branch, blocked_result, committed_result, pushed_result, ready_result, files_of,
  same_files, is_covered, stage_command, commit_command, push_command, result_of,
}

module _ (git : Git) where
  -- `_changed_files`
  unfoldable pub find_changes : {E : Type 0} → GitAction E (Option (List String))
  find_changes = do
    tracked ← run git ("diff" ∷ "--name-only" ∷ "--no-renames" ∷ "HEAD" ∷ [])
    untracked ← run git ("ls-files" ∷ "--others" ∷ "--exclude-standard" ∷ [])
    pure (
        if not (is_ok tracked) || not (is_ok untracked)
        then none
        else some (files_of tracked.output untracked.output))

  abbrev pub compare_files : GitCandidate → Option (List String) → GitAction String (Unit {0})
  compare_files candidate none h = (ends "GIT_STATUS_UNAVAILABLE", h)
  compare_files candidate (some actual) h =
      let expected = sort_set candidate.changed_files in
      end_if (not (same_files actual expected) || not (is_covered expected candidate.allowed_files))
        "GIT_VERIFIED_SCOPE_MISMATCH" h

  -- `_validate_candidate`, which ends early with the reason why the candidate is blocked.
  unfoldable pub validate_candidate : Bool → GitCandidate → String → GitAction String (Unit {0})
  validate_candidate is_directory candidate base_branch = do
    end_if
        (not is_directory
          || not (is_agent_branch candidate.task_branch)
          || is_empty_text base_branch
          || (candidate.task_branch == base_branch))
        "GIT_CANDIDATE_INVALID"
    branch ← run git ("branch" ∷ "--show-current" ∷ [])
    end_if (not (is_ok branch) || not (branch.output == candidate.task_branch))
        "GIT_BRANCH_MISMATCH"
    base ← run git ("rev-parse" ∷ "--verify" ∷ base_branch ∷ [])
    end_if (not (is_ok base)) "GIT_BASE_BRANCH_UNAVAILABLE"
    remote ← run git ("remote" ∷ "get-url" ∷ "origin" ∷ [])
    end_if (not (is_ok remote)) "GIT_ORIGIN_UNAVAILABLE"
    actual ← find_changes
    compare_files candidate actual

  -- `complete` from the push on.
  unfoldable pub push_commit :
      GitCandidate → String → Bool → String → String → GitAction GitResult GitResult
  push_commit candidate base_branch validation_only before sha = do
    pushed ← run git (push_command candidate)
    end_if (not (is_ok pushed)) (committed_result candidate validation_only sha before)
    after ← run git ("rev-parse" ∷ base_branch ∷ [])
    end_if (is_empty_text after.output || not (after.output == before))
        (pushed_result candidate validation_only sha before)
    pure (ready_result candidate base_branch validation_only sha before)

  -- `complete` from the staging to the push.
  unfoldable pub commit_changes :
      GitCandidate → String → Bool → String → GitAction GitResult GitResult
  commit_changes candidate base_branch validation_only before = do
    staged ← run git (stage_command candidate)
    end_if (not (is_ok staged)) (blocked_result candidate validation_only "GIT_STAGE_FAILED")
    difference ← run git ("diff" ∷ "--cached" ∷ "--quiet" ∷ [])
    end_if (is_ok difference) (blocked_result candidate validation_only "GIT_NO_STAGED_CHANGES")
    end_if (not (is_one difference))
        (blocked_result candidate validation_only "GIT_STAGED_DIFF_UNAVAILABLE")
    committed ← run git (commit_command candidate)
    end_if (not (is_ok committed)) (blocked_result candidate validation_only "GIT_COMMIT_FAILED")
    head ← run git ("rev-parse" ∷ "HEAD" ∷ [])
    end_if (not (is_ok head) || is_empty_text head.output)
        (blocked_result candidate validation_only "GIT_HEAD_UNAVAILABLE")
    end_if (not (check_command (append_text "git push origin " candidate.task_branch)).allowed)
        (blocked_result candidate validation_only "GIT_PUSH_POLICY_BLOCKED")
    push_commit candidate base_branch validation_only before head.output

  -- `complete` after the validation.
  unfoldable pub complete_valid : GitCandidate → String → Bool → GitAction GitResult GitResult
  complete_valid candidate base_branch validation_only = do
    before ← run git ("rev-parse" ∷ base_branch ∷ [])
    name ← run git ("config" ∷ "--get" ∷ "user.name" ∷ [])
    end_if (not (is_ok name))
        (blocked_result candidate validation_only "GIT_COMMIT_IDENTITY_UNAVAILABLE")
    email ← run git ("config" ∷ "--get" ∷ "user.email" ∷ [])
    end_if (not (is_ok email))
        (blocked_result candidate validation_only "GIT_COMMIT_IDENTITY_UNAVAILABLE")
    checked ← run git ("diff" ∷ "--check" ∷ [])
    end_if (not (is_ok checked)) (blocked_result candidate validation_only "GIT_DIFF_CHECK_FAILED")
    commit_changes candidate base_branch validation_only before.output

  abbrev pub complete_from :
      GitCandidate
      → String
      → Bool
      → Flow String (Unit {0}) × List (List String)
      → GitResult × List (List String)
  complete_from candidate base_branch validation_only (ends reason, h) =
      (blocked_result candidate validation_only reason, h)
  complete_from candidate base_branch validation_only (goes _, h) =
      let (flow, h') = complete_valid candidate base_branch validation_only h in
      (result_of flow, h')

  -- `complete`, with the commands that it ran.
  unfoldable pub complete : Bool → GitCandidate → String → Bool → GitResult × List (List String)
  complete is_directory candidate base_branch validation_only =
      complete_from candidate base_branch validation_only
        (validate_candidate is_directory candidate base_branch [])
