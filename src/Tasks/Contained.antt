-- ===== src/Tasks/Contained.antt =====
-- That the files of a work order stay in its worktree (backend/models/task.py and
-- backend/control/scope_guard.py).
use Prim.Native.String.{String}
use ai_control_center.Base.{◌≡◌, false, ◌||◌, List, [], ◌∷◌, ◌++◌, ◌==◌, if◌then◌else◌}
use ai_control_center.Base.Paths.{starts_with}
use ai_control_center.Base.Words.{contains_text}
use ai_control_center.Tasks.{split_path}

-- The directory above; the root has none.
abbrev pub parent : List String → List String
parent [] = []
parent (name ∷ directory) = directory

-- A directory is its names, the innermost first. A segment of a path leads from one to the next.
abbrev pub enter : List String → String → List String
enter directory name =
    if (name == "") || (name == ".")
    then directory
    else if name == ".."
    then parent directory
    else name ∷ directory

unfoldable pub walk : List String → List String → List String
walk directory [] = directory
walk directory (name ∷ names) = walk (enter directory name) names

-- The path is relative, and from any directory every start of it leads to that directory or below it.
pub record IsContained (path : String) : Type 0 where
  pub relative : starts_with path "/" ≡ false
  pub driveless : contains_text path ":" ≡ false
  pub inside :
      (directory front back : List String)
      → split_path path ≡ front ++ back
      → (below : List String) × (walk directory front ≡ below ++ directory)
