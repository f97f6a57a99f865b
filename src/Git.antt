-- ===== src/Git.antt =====
-- backend/control/git_guard.py, with the values of backend/models/git_completion.py, and `_run` of
-- backend/control/git_completion.py: a command of git is its arguments, and git itself a parameter that is
-- given the commands run before.
pub mod Candidate
pub mod Completion
pub mod Actions
pub mod Steps
pub mod Ready
use Prim.Native.String.{String}
use ai_control_center.Base.{
  ℕ, zero, suc, Bool, true, false, ◌&&◌, ◌||◌, Option, none, some, List, [], ◌∷◌, ◌++◌, any,
  if◌then◌else◌,
}
use ai_control_center.Base.Int.{ℤ, pos}
use ai_control_center.Base.Paths.{starts_with}
use ai_control_center.Base.Words.{append_text, strip, split_words, join_words, contains_text, lower}

pub record GitCheck : Type 0 where
  pub allowed : Bool
  pub reason : Option String

abbrev pub forbidden : List String
forbidden = "git reset --hard" ∷ "git clean -fd" ∷ "git branch -d" ∷ []

unfoldable pub normalize_command : String → String
normalize_command command = join_words (split_words (lower command))

abbrev pub check_normalized : String → GitCheck
check_normalized command =
    if any (starts_with command) forbidden
    then record { allowed = false; reason = some "destructive git command is blocked" }
    else if starts_with command "git push"
        && (contains_text " main" (append_text " " command) || contains_text " origin/main" command)
    then record { allowed = false; reason = some "direct automated push to main is blocked" }
    else record { allowed = true; reason = none }

-- `GitGuard.check`
unfoldable pub check_command : String → GitCheck
check_command command = check_normalized (normalize_command command)

pub record GitCandidate : Type 0 where
  pub run_id : String
  pub task_id : String
  pub project_id : String
  pub worktree_path : String
  pub task_branch : String
  pub allowed_files : List String
  pub changed_files : List String

pub data GitStatus : Type 0 where
  committed pushed pr_ready blocked : GitStatus

pub record PullRequest : Type 0 where
  pub base_branch : String
  pub head_branch : String
  pub title : String
  pub compare_ref : String

pub record GitResult : Type 0 where
  pub run_id : String
  pub task_id : String
  pub project_id : String
  pub status : GitStatus
  pub commit_sha : Option String
  pub remote_branch : Option String
  pub base_branch_sha : Option String
  pub base_branch_unchanged : Bool
  pub pull_request : Option PullRequest
  pub error_code : Option String
  pub validation_only : Bool

abbrev pub Command : Type 0
Command = List String

-- What git does with a command after others: its exit code and output, or no answer at all, when it cannot
-- be started or takes too long.
abbrev pub Git : Type 0
Git = List Command → Command → Option (ℤ × String)

pub record GitAnswer : Type 0 where
  pub code : ℤ
  pub output : String

abbrev pub answer_of : Option (ℤ × String) → GitAnswer
answer_of none = record { code = pos 127; output = "" }
answer_of (some (code, output)) = record { code = code; output = strip output }

abbrev pub is_ok : GitAnswer → Bool
is_ok a = elim a.code [ pos n ↦ elim n [ zero ↦ true | suc m ↦ false ] | ℤ.negsuc n ↦ false ]

-- The exit code of `git diff --quiet` for a difference.
abbrev pub is_one : GitAnswer → Bool
is_one a = elim a.code [
  | pos n ↦ elim n [ zero ↦ false | suc m ↦ elim m [ zero ↦ true | suc k ↦ false ] ]
  | ℤ.negsuc n ↦ false
]

-- A method that runs commands returns, or ends early with a value of its own; the commands stay.
pub data Flow (E A : Type 0) : Type 0 where
  goes : A → Flow E A
  ends : E → Flow E A

abbrev pub GitAction : Type 0 → Type 0 → Type 0
GitAction E A = List Command → Flow E A × List Command

infixl 5 ◌>>=◌ ◌>>◌
unfoldable pub ◌>>=◌ : {E A B : Type 0} → GitAction E A → (A → GitAction E B) → GitAction E B
◌>>=◌ m f h = let (r, h') = m h in elim r [ goes a ↦ f a h' | ends e ↦ (ends e, h') ]

unfoldable pub ◌>>◌ : {E A B : Type 0} → GitAction E A → GitAction E B → GitAction E B
unfolding ◌>>=◌
m >> k = m >>= λ _. k

unfoldable pub pure : {E A : Type 0} → A → GitAction E A
pure a h = (goes a, h)

unfoldable pub end_if : {E : Type 0} → Bool → E → GitAction E (Unit {0})
end_if test e h = (if test then ends e else goes tt, h)

-- `_run`
unfoldable pub run : {E : Type 0} → Git → Command → GitAction E GitAnswer
run git command h = (goes (answer_of (git h command)), h ++ command ∷ [])
