-- ===== src/Tasks/Valid.antt =====
-- That checked paths are checked again with the same result (backend/control/tasks.py).
use Prim.Native.String.{String}
use mathlib.Core.Option.{some-injective}
use ai_control_center.Base.{
  ◌≡◌, refl, Bool, true, false, ◌||◌, not, Option, none, some, List, map, any, if◌then◌else◌,
}
use ai_control_center.Tasks.{
  normalize_path, is_unsafe, is_distinct, safe_relative_paths, order_files, TaskFields,
  validate_task,
}

unless-eq-some :
    (test : Bool) (l m : List String)
    → (if test then none else some l) ≡ some m
    → (test ≡ false) × (l ≡ m)
unless-eq-some true l m e = absurd (cc)
unless-eq-some false l m e = (refl, some-injective _ _ e)

pub safe_relative_paths-eq-some :
    (values paths : List String)
    → safe_relative_paths values ≡ some paths
    → ((any is_unsafe (map normalize_path values) || not (is_distinct (map normalize_path values)))
        ≡ false)
      × (map normalize_path values ≡ paths)
unfolding safe_relative_paths
safe_relative_paths-eq-some values paths e = unless-eq-some _ _ _ e

abbrev Again : TaskFields → Type 0
Again valid =
    (validate_task valid ≡ some valid)
    × (order_files valid.allowed_files ≡ some valid.allowed_files)
