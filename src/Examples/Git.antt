-- ===== src/Examples/Git.antt =====
-- The theorems on the completion of verified work, on a worktree that git answers for.
use Prim.Native.String.{String}
use ai_control_center.Base.{◌≡◌, refl, true, false, if◌then◌else◌, ◌==◌, none, some, [], ◌∷◌, All}
use ai_control_center.Base.Int.{ℤ, pos}
use ai_control_center.Base.Paths.{forward_slashes, starts_with}
use ai_control_center.Base.Texts.{insert_text, sort_set}
use ai_control_center.Base.Words.{
  strip_left, strip_right, strip, split_lines, split_words, contains_text, ends_with, lower,
}
use ai_control_center.Git.{
  GitCandidate, GitStatus, Git, Command, check_command, normalize_command, ◌>>=◌, ◌>>◌, pure,
  end_if, run,
}
use ai_control_center.Git.Completion.{
  find_changes, validate_candidate, push_commit, commit_changes, complete_valid, complete,
}
use ai_control_center.Git.Candidate.{is_agent_branch}
use ai_control_center.Git.Steps.{IsStep, complete-IsStep}
use ai_control_center.Git.Ready.{WentThrough, complete-WentThrough}

abbrev clean_candidate : GitCandidate
clean_candidate = record {
  run_id = "r1";
  task_id = "t1";
  project_id = "p1";
  worktree_path = "/work/t1";
  task_branch = "agent/t1";
  allowed_files = "a.py" ∷ "b.py" ∷ [];
  changed_files = "a.py" ∷ [];
}

-- One file is changed, the commit is c2, and the base branch names c1.
abbrev answer_words : String → String → ℤ × String
answer_words first second =
    if first == "branch"
    then (pos 0, "agent/t1")
    else if first == "rev-parse"
    then (pos 0, if second == "HEAD" then "c2" else "c1")
    else if second == "--name-only"
    then (pos 0, "a.py")
    else if second == "--cached"
    then (pos 1, "")
    else (pos 0, "")

abbrev answer_command : Command → ℤ × String
answer_command (first ∷ second ∷ words) = answer_words first second
answer_command words = (pos 0, "")

abbrev answering_git : Git
answering_git h command = some (answer_command command)

-- A guard is given the command in any case and with any spaces.
guard_blocks : (check_command "  GIT  Reset --hard HEAD").allowed ≡ false
unfolding check_command normalize_command starts_with split_words lower
guard_blocks = refl

clean-pr_ready :
    (complete answering_git true clean_candidate "main" false).0.status ≡ GitStatus.pr_ready
unfolding complete complete_valid commit_changes push_commit validate_candidate find_changes
    is_agent_branch check_command normalize_command ◌>>=◌ ◌>>◌ pure end_if run starts_with
    forward_slashes sort_set insert_text split_lines strip strip_left strip_right split_words
    contains_text ends_with lower
clean-pr_ready = refl

-- A git that cannot be started blocks the candidate.
missing-blocked :
    (complete (λ h command. none) true clean_candidate "main" false).0.error_code
    ≡ some "GIT_BRANCH_MISMATCH"
unfolding complete complete_valid validate_candidate find_changes is_agent_branch ◌>>=◌ ◌>>◌ pure
    end_if run starts_with contains_text ends_with
missing-blocked = refl

complete-IsStep_example :
    All
      (IsStep answering_git clean_candidate "main")
      (complete answering_git true clean_candidate "main" false).1
complete-IsStep_example = complete-IsStep answering_git true clean_candidate "main" false

complete-WentThrough_example :
    WentThrough answering_git true clean_candidate "main" false
      (complete answering_git true clean_candidate "main" false)
unfolding complete complete_valid commit_changes push_commit validate_candidate find_changes
    is_agent_branch check_command normalize_command ◌>>=◌ ◌>>◌ pure end_if run starts_with
    forward_slashes sort_set insert_text split_lines strip strip_left strip_right split_words
    contains_text ends_with lower
complete-WentThrough_example =
    complete-WentThrough answering_git true clean_candidate "main" false refl
