-- ===== src/Git/Candidate.antt =====
-- backend/control/git_completion.py: `candidate_from_task_run`, and the results and commands that are made of
-- a candidate.
use Prim.Native.String.{String}
use ai_control_center.Base.{
  Bool, true, false, ◌&&◌, not, Option, none, some, List, [], ◌∷◌, ◌++◌, ◌==◌, map, select_items,
  is_empty_list, all, if◌then◌else◌,
}
use ai_control_center.Base.Keyed.{contains}
use ai_control_center.Base.Paths.{forward_slashes, starts_with}
use ai_control_center.Base.Texts.{sort_set}
use ai_control_center.Base.Words.{append_text, is_empty_text, split_lines, contains_text, ends_with}
use ai_control_center.Git.{GitCandidate, GitStatus, GitResult, goes, ends, Flow}

-- `_agent_branch`
unfoldable pub is_agent_branch : String → Bool
is_agent_branch branch =
    starts_with branch "agent/"
    && not (branch == "agent/main")
    && not (contains_text ".." branch)
    && not (ends_with branch "/")

-- The fields of a task run that the candidate is made of; a field that is missing or null is `none`, or [].
pub record TaskRunItem : Type 0 where
  pub state : Option String
  pub final_result : Option String
  pub postcheck_result : Option String
  pub scope_guard_result : Option String
  pub run_id : String
  pub task_id : String
  pub project_id : String
  pub worktree_path : Option String
  pub task_branch : Option String
  pub allowed_files : List String
  pub changed_files : List String

abbrev pub is_text : String → Option String → Bool
is_text text none = false
is_text text (some field) = field == text

abbrev pub candidate_with : TaskRunItem → Option String → Option String → Option GitCandidate
candidate_with item (some worktree_path) (some task_branch) =
    if not (is_empty_text worktree_path)
      && not (is_empty_text task_branch)
      && is_agent_branch task_branch
    then some (record {
      run_id = item.run_id;
      task_id = item.task_id;
      project_id = item.project_id;
      worktree_path = worktree_path;
      task_branch = task_branch;
      allowed_files = item.allowed_files;
      changed_files = sort_set item.changed_files;
    })
    else none
candidate_with item _ _ = none

-- `candidate_from_task_run`
unfoldable pub candidate_from_task_run : TaskRunItem → Option GitCandidate
candidate_from_task_run item =
    if is_text "COMPLETE" item.state
      && is_text "COMPLETE" item.final_result
      && is_text "PASS" item.postcheck_result
      && is_text "PASS" item.scope_guard_result
      && not (is_empty_list item.changed_files)
      && not (is_empty_list item.allowed_files)
    then candidate_with item item.worktree_path item.task_branch
    else none

-- `_blocked`, and the other results, which differ in what was reached.
abbrev pub blocked_result : GitCandidate → Bool → String → GitResult
blocked_result candidate validation_only code = record {
  run_id = candidate.run_id;
  task_id = candidate.task_id;
  project_id = candidate.project_id;
  status = GitStatus.blocked;
  commit_sha = none;
  remote_branch = none;
  base_branch_sha = none;
  base_branch_unchanged = false;
  pull_request = none;
  error_code = some code;
  validation_only = validation_only;
}

abbrev pub committed_result : GitCandidate → Bool → String → String → GitResult
committed_result candidate validation_only sha base =
    record (blocked_result candidate validation_only "GIT_PUSH_FAILED") {
      status = GitStatus.committed;
      commit_sha = some sha;
      base_branch_sha = some base;
    }

abbrev pub pushed_result : GitCandidate → Bool → String → String → GitResult
pushed_result candidate validation_only sha base =
    record (blocked_result candidate validation_only "GIT_BASE_BRANCH_CHANGED") {
      status = GitStatus.pushed;
      commit_sha = some sha;
      remote_branch = some candidate.task_branch;
      base_branch_sha = some base;
    }

abbrev pub ready_result : GitCandidate → String → Bool → String → String → GitResult
ready_result candidate base_branch validation_only sha base = record {
  run_id = candidate.run_id;
  task_id = candidate.task_id;
  project_id = candidate.project_id;
  status = GitStatus.pr_ready;
  commit_sha = some sha;
  remote_branch = some candidate.task_branch;
  base_branch_sha = some base;
  base_branch_unchanged = true;
  pull_request = some (record {
    base_branch = base_branch;
    head_branch = candidate.task_branch;
    title = append_text "Verified completion: " candidate.task_id;
    compare_ref = append_text base_branch (append_text "..." candidate.task_branch);
  });
  error_code = none;
  validation_only = validation_only;
}

-- The lines that are not empty, with forward slashes, in order and once.
abbrev pub files_of : String → String → List String
files_of tracked untracked = sort_set (
    map forward_slashes (
      select_items (λ line. not (is_empty_text line))
        (split_lines tracked ++ split_lines untracked)))

-- `==` on lists
abbrev pub same_files : List String → List String → Bool
same_files [] [] = true
same_files (a ∷ rest) (b ∷ others) = (a == b) && same_files rest others
same_files _ _ = false

abbrev pub is_covered : List String → List String → Bool
is_covered files allowed = all (contains allowed) files

abbrev pub stage_command : GitCandidate → List String
stage_command candidate = "add" ∷ "--" ∷ candidate.changed_files

abbrev pub commit_command : GitCandidate → List String
commit_command candidate =
    "commit"
    ∷ "-m"
    ∷ append_text "fix: verified " (append_text candidate.task_id " completion")
    ∷ []

abbrev pub push_command : GitCandidate → List String
push_command candidate = "push" ∷ "-u" ∷ "origin" ∷ candidate.task_branch ∷ []

abbrev pub result_of : Flow GitResult GitResult → GitResult
result_of (goes result) = result
result_of (ends result) = result
