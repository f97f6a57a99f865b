-- ===== src/Tasks.antt =====
-- backend/control/tasks.py and `WorkOrder` of backend/models/task.py: the checks of a configured task and of a
-- work order when they are built. `none` stands for the error that a check raises.
pub mod Contained
pub mod Valid
use Prim.Native.String.{String}
use Prim.Native.Char.{code}
use ai_control_center.Base.{
  Bool, true, false, ◌&&◌, ◌||◌, not, Option, none, some, List, [], ◌∷◌, map, any, is_empty_list,
  same_number, ◌==◌, if◌then◌else◌,
}
use ai_control_center.Base.Keyed.{Keyed, lookup, contains}
use ai_control_center.Base.Paths.{forward_slashes, starts_with}
use ai_control_center.Base.Words.{is_worded, is_empty_text, strip, contains_text, add_to_first}

-- `value.split("/")`
unfoldable pub split_path : String → List String
split_path String.[] = String.[] ∷ []
split_path (String.◌∷◌ c s) =
    let rest = split_path s in
    if same_number (code c) 47 then String.[] ∷ rest else add_to_first c rest

abbrev pub normalize_path : String → String
normalize_path value = strip (forward_slashes value)

abbrev pub is_unsafe : String → Bool
is_unsafe value =
    is_empty_text value
    || starts_with value "/"
    || contains_text value ":"
    || contains (split_path value) ".."

-- `len(values) == len(set(values))`
abbrev pub is_distinct : List String → Bool
is_distinct [] = true
is_distinct (value ∷ values) = not (contains values value) && is_distinct values

-- `_safe_relative_paths`
unfoldable pub safe_relative_paths : List String → Option (List String)
safe_relative_paths values =
    let normalized = map normalize_path values in
    if any is_unsafe normalized || not (is_distinct normalized) then none else some normalized

-- `WorkOrder.allowed_files`, which may not be empty.
unfoldable pub order_files : List String → Option (List String)
order_files values = if is_empty_list values then none else safe_relative_paths values

-- The fields of a configured task that are checked.
pub record TaskFields : Type 0 where
  pub working_directory : String
  pub precheck : List String
  pub postcheck : List String
  pub allowed_files : List String
  pub context_files : List String
  pub evaluation_metrics : List String

-- `argv_must_not_be_empty`; the list has at least one argument.
abbrev pub is_command : List String → Bool
is_command argv = not (is_empty_list argv) && not (any (λ item. not (is_worded item)) argv)

-- `metrics_must_be_named`
abbrev pub are_metrics : List String → Bool
are_metrics metrics = not (any (λ metric. not (is_worded metric)) metrics) && is_distinct metrics

abbrev pub first_or_empty : List String → String
first_or_empty [] = ""
first_or_empty (value ∷ values) = value

infixl 5 ◌>>=◌
abbrev pub ◌>>=◌ : {A B : Type 0} → Option A → (A → Option B) → Option B
none >>= f = none
(some a) >>= f = f a

abbrev pub require : Bool → Option (Unit {0})
require test = if test then some tt else none

-- What the validators of `ConfiguredTask` and of its commands make of the fields.
unfoldable pub validate_task : TaskFields → Option TaskFields
validate_task fields = do
  working_directory ← safe_relative_paths (fields.working_directory ∷ [])
  _ ← require (is_command fields.precheck && is_command fields.postcheck)
  allowed_files ← order_files fields.allowed_files
  context_files ← order_files fields.context_files
  _ ← require (are_metrics fields.evaluation_metrics)
  some (record fields {
    working_directory = first_or_empty working_directory;
    allowed_files = allowed_files;
    context_files = context_files;
  })
