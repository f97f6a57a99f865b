-- ===== src/Examples/Scope.antt =====
-- The theorems on the scope guard and on the checks of tasks and work orders, on concrete paths.
use Prim.Native.String.{String}
use ai_control_center.Base.{◌≡◌, ◌↔◌, refl, true, none, some, List, [], ◌∷◌}
use ai_control_center.Base.Keyed.{contains}
use ai_control_center.Base.Paths.{forward_slashes, starts_with}
use ai_control_center.Base.Texts.{insert_text, sort_set}
use ai_control_center.Base.Words.{strip, strip_left, strip_right, contains_text}
use ai_control_center.Tasks.{split_path, safe_relative_paths, order_files, TaskFields}
use ai_control_center.Scope.{check_scope}
use ai_control_center.Scope.Exact.{IsAllowed, IsOutside, check_scope-exact}

abbrev allowed_files : List String
allowed_files = "backend/app.py" ∷ []

abbrev changed_files : List String
changed_files = ".\\backend\\app.py" ∷ ".env" ∷ []

-- A leading dot that is part of a name is kept.
changed-outside : (check_scope allowed_files changed_files).out_of_scope ≡ ".env" ∷ []
unfolding check_scope forward_slashes starts_with sort_set insert_text
changed-outside = refl

check_scope-exact_example :
    ((check_scope allowed_files changed_files).allowed ≡ true
      ↔ IsAllowed allowed_files changed_files)
    × ((file : String)
        → contains (check_scope allowed_files changed_files).out_of_scope file ≡ true
          ↔ IsOutside allowed_files changed_files file)
check_scope-exact_example = check_scope-exact allowed_files changed_files

-- A file of the order that has a marker of its own is never matched.
marked-outside :
    (check_scope ("./backend/app.py" ∷ []) ("backend/app.py" ∷ [])).out_of_scope
    ≡ "backend/app.py" ∷ []
unfolding check_scope forward_slashes starts_with sort_set insert_text
marked-outside = refl

marked-accepted : order_files ("./backend/app.py" ∷ []) ≡ some ("./backend/app.py" ∷ [])
unfolding order_files safe_relative_paths split_path forward_slashes strip strip_left strip_right
    starts_with contains_text
marked-accepted = refl

climbing-refused : order_files ("docs\\..\\..\\notes.md" ∷ []) ≡ none
unfolding order_files safe_relative_paths split_path forward_slashes strip strip_left strip_right
    starts_with contains_text
climbing-refused = refl

abbrev raw_task : TaskFields
raw_task = record {
  working_directory = ". ";
  precheck = "pytest" ∷ [];
  postcheck = "pytest" ∷ "-q" ∷ [];
  allowed_files = "backend\\app.py" ∷ [];
  context_files = "README.md" ∷ [];
  evaluation_metrics = [];
}

abbrev valid_task : TaskFields
valid_task = record raw_task { working_directory = "."; allowed_files = allowed_files }
