-- ===== src/Git/Steps.antt =====
-- Which commands `complete` runs (backend/control/git_completion.py).
use Prim.Native.String.{String}
use ai_control_center.Base.{
  ◌≡◌, ◌⊎◌, refl, ap, ◌∙◌, Bool, true, false, ◌&&◌, ◌||◌, not, any, Option, none, some, List, [],
  ◌∷◌, ◌==◌, arith, All, eq_iff, inl, inr,
}
use ai_control_center.Base.Texts.{sort_set}
use ai_control_center.Base.Paths.{starts_with}
use ai_control_center.Base.Words.{append_text}
use ai_control_center.Git.{
  GitCandidate, Git, Command, Flow, goes, ends, end_if, answer_of, check_command,
}
use ai_control_center.Git.Completion.{
  find_changes, compare_files, validate_candidate, push_commit, commit_changes, complete_valid,
  complete_from, complete,
}
use ai_control_center.Git.Candidate.{
  is_agent_branch, same_files, is_covered, stage_command, commit_command, push_command,
}
use ai_control_center.Git.Actions.{
  Keeps, then-Keeps, unless-Keeps, run-Keeps, pure-Keeps, then_goes, unless_goes, run_goes,
}

-- The first of some words.
abbrev leads_with : String → List String → Bool
leads_with word [] = false
leads_with word (first ∷ words) = first == word

-- The forms of a command that git documents as changing neither files, index, references, configuration nor
-- remote. A difference writes a file when it is asked for `--output`.
abbrev pub only_reads : Command → Bool
only_reads [] = false
only_reads (word ∷ words) =
    (word == "rev-parse")
    || (word == "ls-files")
    || ((word == "diff") && not (any (λ option. starts_with option "--output") words))
    || ((word == "branch") && same_files words ("--show-current" ∷ []))
    || ((word == "remote") && leads_with "get-url" words)
    || ((word == "config") && leads_with "--get" words)

-- The commands of the validation before it asks for the changed files.
abbrev pub validation_commands : String → List Command
validation_commands base_branch =
    ("branch" ∷ "--show-current" ∷ [])
    ∷ ("rev-parse" ∷ "--verify" ∷ base_branch ∷ [])
    ∷ ("remote" ∷ "get-url" ∷ "origin" ∷ [])
    ∷ []

-- What holds of a candidate that passed the validation, for what git answered to its first command and to
-- the question for the changed files.
pub record IsVerified (git : Git) (candidate : GitCandidate) (base_branch : String) : Type 0 where
  pub agent : is_agent_branch candidate.task_branch ≡ true
  pub other : (candidate.task_branch == base_branch) ≡ false
  pub on_branch :
      (answer_of (git [] ("branch" ∷ "--show-current" ∷ []))).output ≡ candidate.task_branch
  pub changed :
      (actual : List String) × ((find_changes git {E = String} (validation_commands base_branch)).0
        ≡ goes (some actual))
      × (same_files actual (sort_set candidate.changed_files) ≡ true)
  pub covered : is_covered (sort_set candidate.changed_files) candidate.allowed_files ≡ true

-- A command reads only, or the candidate is verified and it stages its changed files, or commits, or
-- pushes its branch, which the guard allows.
abbrev pub IsStep : Git → GitCandidate → String → Command → Type 0
IsStep git candidate base_branch command =
    (only_reads command ≡ true)
    ⊎ (IsVerified git candidate base_branch
        × ((command ≡ stage_command candidate)
            ⊎ (command ≡ commit_command candidate)
            ⊎ ((command ≡ push_command candidate)
                × ((check_command (append_text "git push origin " candidate.task_branch)).allowed
                    ≡ true))))

module _ (git : Git) (candidate : GitCandidate) (base_branch : String) where
  abbrev P : Command → Type 0
  P = IsStep git candidate base_branch

  push_commit-Keeps :
      (validation_only : Bool) (before sha : String)
      → IsVerified git candidate base_branch
      → (check_command (append_text "git push origin " candidate.task_branch)).allowed ≡ true
      → Keeps P (push_commit git candidate base_branch validation_only before sha)
  unfolding push_commit
  push_commit-Keeps validation_only before sha v allowed =
      run-Keeps P git _ _ (inr (v, inr (inr (refl, allowed)))) (λ pushed.
        unless-Keeps P _ _ _ (λ ok.
          run-Keeps P git _ _ (inl refl)
            (λ after. unless-Keeps P _ _ _ (λ same. pure-Keeps P _ _))))

  commit_changes-Keeps :
      (validation_only : Bool) (before : String)
      → IsVerified git candidate base_branch
      → Keeps P (commit_changes git candidate base_branch validation_only before)
  unfolding commit_changes starts_with
  commit_changes-Keeps validation_only before v = run-Keeps P git _ _ (inr (v, inl refl)) (λ staged.
      unless-Keeps P _ _ _ (λ ok. run-Keeps P git _ _ (inl refl) (λ difference.
        unless-Keeps P _ _ _ (λ some_change. unless-Keeps P _ _ _ (λ known.
          run-Keeps P git _ _ (inr (v, inr (inl refl))) (λ committed. unless-Keeps P _ _ _ (λ done.
            run-Keeps P git _ _ (inl refl) (λ head. unless-Keeps P _ _ _ (λ named.
              unless-Keeps P _ _ _ (λ allowed.
                push_commit-Keeps validation_only before head.output v
                  (ground (arith, allowed))))))))))))

  complete_valid-Keeps :
      (validation_only : Bool)
      → IsVerified git candidate base_branch
      → Keeps P (complete_valid git candidate base_branch validation_only)
  unfolding complete_valid starts_with
  complete_valid-Keeps validation_only v = run-Keeps P git _ _ (inl refl) (λ before.
      run-Keeps P git _ _ (inl refl) (λ name. unless-Keeps P _ _ _ (λ named.
        run-Keeps P git _ _ (inl refl) (λ email. unless-Keeps P _ _ _ (λ reachable.
          run-Keeps P git _ _ (inl refl) (λ checked.
            unless-Keeps P _ _ _
              (λ clean. commit_changes-Keeps validation_only before.output v)))))))

  find_changes-Keeps : Keeps P (find_changes git {E = String})
  unfolding find_changes starts_with
  find_changes-Keeps =
      run-Keeps P git _ _ (inl refl)
        (λ tracked. run-Keeps P git _ _ (inl refl) (λ untracked. pure-Keeps P _ _))

  compare_files-Keeps :
      (actual : Option (List String)) → Keeps P (compare_files git candidate actual)
  unfolding end_if
  compare_files-Keeps none h p = p
  compare_files-Keeps (some actual) h p = p

  validate_candidate-Keeps :
      (is_directory : Bool) → Keeps P (validate_candidate git is_directory candidate base_branch)
  unfolding validate_candidate
  validate_candidate-Keeps is_directory = unless-Keeps P _ _ _ (λ valid.
      run-Keeps P git _ _ (inl refl) (λ branch. unless-Keeps P _ _ _ (λ same.
        run-Keeps P git _ _ (inl refl) (λ base. unless-Keeps P _ _ _ (λ known.
          run-Keeps P git _ _ (inl refl) (λ remote. unless-Keeps P _ _ _ (λ reachable.
            then-Keeps P (find_changes git) _ find_changes-Keeps
              (λ actual. compare_files-Keeps actual))))))))

compare_files-goes :
    (git : Git) (candidate : GitCandidate) (found : Option (List String)) (h : List Command)
    (u : Unit {0})
    → (compare_files git candidate found h).0 ≡ goes u
    → (actual : List String) × (found ≡ some actual)
      × (same_files actual (sort_set candidate.changed_files) ≡ true)
      × (is_covered (sort_set candidate.changed_files) candidate.allowed_files ≡ true)
unfolding end_if
compare_files-goes git candidate none h u e = absurd (cc)
compare_files-goes git candidate (some actual) h u e = (actual, refl, ground arith, ground arith)

validate_candidate-IsVerified :
    (git : Git) (is_directory : Bool) (candidate : GitCandidate) (base_branch : String)
    (u : Unit {0})
    → (validate_candidate git is_directory candidate base_branch []).0 ≡ goes u
    → IsVerified git candidate base_branch
unfolding validate_candidate
validate_candidate-IsVerified git is_directory candidate base_branch u e =
    let (valid, e1) = unless_goes _ _ _ _ _ e in
    let e2 = run_goes git _ _ _ _ e1 in
    let (same, e3) = unless_goes _ _ _ _ _ e2 in
    let e4 = run_goes git _ _ _ _ e3 in
    let (known, e5) = unless_goes _ _ _ _ _ e4 in
    let e6 = run_goes git _ _ _ _ e5 in
    let (reachable, e7) = unless_goes _ _ _ _ _ e6 in
    let (found, e8, e9) = then_goes (find_changes git) _ _ _ e7 in
    let (actual, e10, equal, covered) = compare_files-goes git candidate found _ u e9 in
    record {
      agent = ground (arith, valid);
      other = ground (arith, valid);
      on_branch = (eq_iff _ _).0 (ground (arith, same));
      changed = (actual, e8 ∙ ap goes e10, equal);
      covered = covered;
    }

complete_from-IsStep :
    (git : Git) (candidate : GitCandidate) (base_branch : String) (validation_only : Bool)
    (r : Flow String (Unit {0})) (h : List Command)
    → ((u : Unit {0}) → r ≡ goes u → IsVerified git candidate base_branch)
    → All (IsStep git candidate base_branch) h
    → All
        (IsStep git candidate base_branch)
        (complete_from git candidate base_branch validation_only (r, h)).1
complete_from-IsStep git candidate base_branch validation_only (ends reason) h v p = p
complete_from-IsStep git candidate base_branch validation_only (goes u) h v p =
    complete_valid-Keeps git candidate base_branch validation_only (v u refl) h p

-- Whatever git answers to each command, every command that `complete` runs has one of the forms of `rev-parse`,
-- `ls-files`, `diff`, `branch`, `remote` and `config` that only read, or stages the changed files, commits, or pushes the task's branch, which the guard allows; and if one of these three is run,
-- the branch is one of an agent and not the base branch, git named it as the current one, the files that git
-- reported as changed are those of the candidate, and all of them are allowed.
pub complete-IsStep :
    (git : Git) (is_directory : Bool) (candidate : GitCandidate) (base_branch : String)
    (validation_only : Bool)
    → All
        (IsStep git candidate base_branch)
        (complete git is_directory candidate base_branch validation_only).1
unfolding complete
complete-IsStep git is_directory candidate base_branch validation_only =
    complete_from-IsStep git candidate base_branch validation_only
      (validate_candidate git is_directory candidate base_branch []).0
      (validate_candidate git is_directory candidate base_branch []).1
      (validate_candidate-IsVerified git is_directory candidate base_branch)
      (validate_candidate-Keeps git candidate base_branch is_directory [] tt)
