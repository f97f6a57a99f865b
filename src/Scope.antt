-- ===== src/Scope.antt =====
-- backend/control/scope_guard.py: `ScopeGuard.check`, for the allowed files of a work order.
pub mod Exact
use Prim.Native.String.{String}
use ai_control_center.Base.{
  ◌≡◌, refl, ap, ◌∙◌, Bool, true, ◌&&◌, not, List, [], ◌∷◌, map, arith, ◌==◌, eq_iff, all,
  select_items, is_empty_list, Bool-cases, inl, inr, if◌then◌else◌,
}
use ai_control_center.Base.Keyed.{contains}
use ai_control_center.Base.Paths.{forward_slashes, starts_with}
use ai_control_center.Base.Texts.{sort_set, contains-sort_set, sort_set-is_empty_list}

pub record ScopeCheck : Type 0 where
  pub allowed : Bool
  pub out_of_scope : List String

-- `candidate[2:]`
abbrev pub drop_two : String → String
drop_two (String.◌∷◌ a (String.◌∷◌ b s)) = s
drop_two s = String.[]

abbrev pub without_marker : String → String
without_marker path = if starts_with path "./" then drop_two path else path

abbrev pub normalize : String → String
normalize path = without_marker (forward_slashes path)

abbrev pub outside : List String → List String → List String
outside allowed_files paths = select_items (λ path. not (contains allowed_files path)) paths

-- `check`
unfoldable pub check_scope : List String → List String → ScopeCheck
check_scope allowed_files changed_files =
    let out = sort_set (outside allowed_files (map normalize changed_files)) in
    record { allowed = is_empty_list out; out_of_scope = out }

outside-all :
    (allowed_files changed_files : List String)
    → is_empty_list (outside allowed_files (map normalize changed_files))
      ≡ all (λ path. contains allowed_files (normalize path)) changed_files
outside-all allowed_files [] = refl
outside-all allowed_files (path ∷ paths) =
    elim (Bool-cases (contains allowed_files (normalize path))) [
      | inl inside ↦ rw inside (outside-all allowed_files paths)
      | inr out ↦ rw out refl
    ]

contains_same :
    (files : List String) (k j : String) → (k == j) ≡ true → contains files k ≡ contains files j
contains_same files k j e = ap (contains files) ((eq_iff k j).0 e)

contains-outside :
    (allowed_files paths : List String) (k : String)
    → contains (outside allowed_files paths) k
      ≡ (not (contains allowed_files k) && contains paths k)
contains-outside allowed_files [] k = ground arith
contains-outside allowed_files (path ∷ paths) k =
    ground (arith, contains_same allowed_files path k, contains-outside allowed_files paths k)

pub check_scope-all :
    (allowed_files changed_files : List String)
    → (check_scope allowed_files changed_files).allowed
      ≡ all (λ path. contains allowed_files (normalize path)) changed_files
unfolding check_scope
check_scope-all allowed_files changed_files =
    sort_set-is_empty_list (outside allowed_files (map normalize changed_files))
    ∙ outside-all allowed_files changed_files

pub check_scope-contains :
    (allowed_files changed_files : List String) (k : String)
    → contains (check_scope allowed_files changed_files).out_of_scope k
      ≡ (not (contains allowed_files k) && contains (map normalize changed_files) k)
unfolding check_scope
check_scope-contains allowed_files changed_files k =
    contains-sort_set k (outside allowed_files (map normalize changed_files))
    ∙ contains-outside allowed_files (map normalize changed_files) k
