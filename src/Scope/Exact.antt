-- ===== src/Scope/Exact.antt =====
-- Which files backend/control/scope_guard.py allows, by what a changed path names.
use Prim.Native.String.{String}
use mathlib.Core.Path.{subst}
use Prim.Native.Char.{Char, code}
use text.Mathlib.TextEquality.{Char-path}
use ai_control_center.Base.{
  ◌≡◌, ◌≢◌, ◌↔◌, ◌⊎◌, refl, sym, ap, ◌∙◌, Bool, true, false, ◌&&◌, not, List, [], ◌∷◌, map, arith,
  ◌==◌, eq_iff, all, Bool-cases, inl, inr, same_number, if◌then◌else◌,
}
use ai_control_center.Base.Keyed.{contains}
use ai_control_center.Base.Paths.{forward_slashes, starts_with}
use ai_control_center.Base.Words.{append_text}
use ai_control_center.Scope.{
  drop_two, without_marker, normalize, check_scope, check_scope-all, check_scope-contains,
}

-- The second text is the first with each backslash (92) made a slash (47), character by character.
abbrev pub IsSlashed : String → String → Type 0
IsSlashed String.[] String.[] = Unit
IsSlashed (String.◌∷◌ c s) (String.◌∷◌ d t) =
    (((code c ≡ 92) × (code d ≡ 47)) ⊎ ((code c ≢ 92) × (c ≡ d))) × IsSlashed s t
IsSlashed _ _ = ⊥

-- A changed path names a file: with forward slashes it is "./" and the file, or the file alone.
pub data Names (path file : String) : Type 0 where
  marked : IsSlashed path (append_text "./" file) → Names path file
  plain : IsSlashed path file → starts_with file "./" ≡ false → Names path file

slash-IsSlashed :
    (c : Char)
    → ((code c ≡ 92) × (code (if same_number (code c) 92 then "/" else c) ≡ 47))
      ⊎ ((code c ≢ 92) × (c ≡ (if same_number (code c) 92 then "/" else c)))
slash-IsSlashed c = elim (Bool-cases (same_number (code c) 92)) [
  | inl same ↦ rw same (inl (ground arith, refl))
  | inr other ↦ rw other (inr (λ e. absurd (ground arith), refl))
]

forward_slashes-IsSlashed : (path : String) → IsSlashed path (forward_slashes path)
unfolding forward_slashes
forward_slashes-IsSlashed String.[] = tt
forward_slashes-IsSlashed (String.◌∷◌ c s) = (slash-IsSlashed c, forward_slashes-IsSlashed s)

slashed_char :
    (c d : Char)
    → ((code c ≡ 92) × (code d ≡ 47)) ⊎ ((code c ≢ 92) × (c ≡ d))
    → (if same_number (code c) 92 then "/" else c) ≡ d
slashed_char c d (inl (back, forward)) = elim (Bool-cases (same_number (code c) 92)) [
  | inl e ↦ rw e (Char-path "/" d (sym forward))
  | inr e ↦ absurd (ground arith)
]
slashed_char c d (inr (other, same)) = elim (Bool-cases (same_number (code c) 92)) [
  | inl e ↦ absurd (other (ground arith))
  | inr e ↦ rw e same
]

IsSlashed-unique : (path other : String) → IsSlashed path other → forward_slashes path ≡ other
unfolding forward_slashes
IsSlashed-unique String.[] String.[] h = refl
IsSlashed-unique String.[] (String.◌∷◌ d t) h = absurd h
IsSlashed-unique (String.◌∷◌ c s) String.[] h = absurd h
IsSlashed-unique (String.◌∷◌ c s) (String.◌∷◌ d t) (here, rest) =
    rw (slashed_char c d here) (ap (λ x. String.◌∷◌ d x) (IsSlashed-unique s t rest))

drop_marker :
    (text : String) → starts_with text "./" ≡ true → append_text "./" (drop_two text) ≡ text
unfolding starts_with
drop_marker String.[] h = absurd (cc)
drop_marker (String.◌∷◌ a String.[]) h = absurd (ground arith)
drop_marker (String.◌∷◌ a (String.◌∷◌ b s)) h =
    let first : code "." ≡ code a = ground arith in
    let second : code "/" ≡ code b = ground arith in
    rw (Char-path "." a first) (rw (Char-path "/" b second) refl)

normalize-Names : (path : String) → Names path (normalize path)
normalize-Names path = elim (Bool-cases (starts_with (forward_slashes path) "./")) [
  | inl dotted ↦
      rw dotted
        (marked (rw (drop_marker (forward_slashes path) dotted) (forward_slashes-IsSlashed path)))
  | inr bare ↦ rw bare (plain (forward_slashes-IsSlashed path) bare)
]

without_marker-marked : (file : String) → without_marker (append_text "./" file) ≡ file
unfolding starts_with
without_marker-marked file = refl

Names-normalize : (path file : String) → Names path file → normalize path ≡ file
Names-normalize path file (marked h) =
    ap without_marker (IsSlashed-unique path _ h) ∙ without_marker-marked file
Names-normalize path file (plain h bare) = rw (IsSlashed-unique path file h) (rw bare refl)

-- What every changed file names is allowed.
abbrev pub IsAllowed : List String → List String → Type 0
IsAllowed allowed_files changed_files =
    (path file : String)
    → contains changed_files path ≡ true
    → Names path file
    → contains allowed_files file ≡ true

-- A changed file names the file, which is not allowed.
abbrev pub IsOutside : List String → List String → String → Type 0
IsOutside allowed_files changed_files file =
    (contains allowed_files file ≡ false)
    × (path : String) × (contains changed_files path ≡ true)
    × Names path file

all-contains :
    (test : String → Bool) (paths : List String) (path : String)
    → all test paths ≡ true
    → contains paths path ≡ true
    → test path ≡ true
all-contains test [] path h c = absurd (cc)
all-contains test (other ∷ paths) path h c = elim (Bool-cases (other == path)) [
  | inl same ↦ ap test (sym ((eq_iff other path).0 same)) ∙ ground arith
  | inr next ↦ all-contains test paths path (ground arith) (ground arith)
]

contains-all :
    (test : String → Bool) (paths : List String)
    → ((path : String) → contains paths path ≡ true → test path ≡ true)
    → all test paths ≡ true
contains-all test [] h = refl
contains-all test (path ∷ paths) h =
    let first : test path ≡ true = h path (ground (arith, eq_iff path path)) in
    let rest = contains-all test paths (λ other c. h other (ground arith)) in ground arith

contains-map :
    (f : String → String) (paths : List String) (k : String)
    → contains (map f paths) k ≡ true
    → (path : String) × (contains paths path ≡ true) × (f path ≡ k)
contains-map f [] k c = absurd (cc)
contains-map f (path ∷ paths) k c = elim (Bool-cases (f path == k)) [
  | inl same ↦ (path, ground (arith, eq_iff path path), (eq_iff (f path) k).0 same)
  | inr next ↦
      let (other, inside, e) = contains-map f paths k (ground arith) in (other, ground arith, e)
]

map-contains :
    (f : String → String) (paths : List String) (path : String)
    → contains paths path ≡ true
    → contains (map f paths) (f path) ≡ true
map-contains f [] path c = absurd (cc)
map-contains f (other ∷ paths) path c = elim (Bool-cases (other == path)) [
  | inl same ↦ ground (arith, eq_iff (f other) (f path), ap f ((eq_iff other path).0 same))
  | inr next ↦ let found = map-contains f paths path (ground arith) in ground arith
]

all_iff_IsAllowed :
    (allowed_files changed_files : List String)
    → all (λ path. contains allowed_files (normalize path)) changed_files ≡ true
      ↔ IsAllowed allowed_files changed_files
all_iff_IsAllowed allowed_files changed_files = (
  λ h path file c n.
      ap (contains allowed_files) (sym (Names-normalize path file n))
      ∙ all-contains (λ path. contains allowed_files (normalize path)) changed_files path h c,
  λ h. contains-all _ changed_files (λ path c. h path (normalize path) c (normalize-Names path)),
)

contains_iff_IsOutside :
    (allowed_files changed_files : List String) (file : String)
    → (not (contains allowed_files file) && contains (map normalize changed_files) file) ≡ true
      ↔ IsOutside allowed_files changed_files file
contains_iff_IsOutside allowed_files changed_files file = (
  λ h.
      let (path, c, e) = contains-map normalize changed_files file (ground arith) in
      (ground arith, path, c, subst (Names path) e (normalize-Names path)),
  λ (out, path, c, n).
      let inside : contains (map normalize changed_files) file ≡ true =
        ap (contains (map normalize changed_files)) (sym (Names-normalize path file n))
        ∙ map-contains normalize changed_files path c in
      ground arith,
)

-- A changed path names the file that it is with forward slashes, without one leading "./". The changed files
-- are allowed exactly when every file that one of them names is allowed; and a file is reported as out of
-- scope exactly when a changed one names it and it is not allowed.
pub check_scope-exact :
    (allowed_files changed_files : List String)
    → ((check_scope allowed_files changed_files).allowed ≡ true
        ↔ IsAllowed allowed_files changed_files)
      × ((file : String)
          → contains (check_scope allowed_files changed_files).out_of_scope file ≡ true
            ↔ IsOutside allowed_files changed_files file)
check_scope-exact allowed_files changed_files = (
  rw (check_scope-all allowed_files changed_files) (all_iff_IsAllowed allowed_files changed_files),
  λ file.
      rw (check_scope-contains allowed_files changed_files file)
        (contains_iff_IsOutside allowed_files changed_files file),
)
