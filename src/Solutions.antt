-- ===== src/Solutions.antt =====
-- backend/control/solution_catalog.py: `SolutionCatalog`. The clock is an argument, and a store that the
-- catalog has holds what was last handed to it.
pub mod Ranked
pub mod Episodes
use Prim.Native.String.{String}
use ai_control_center.Base.{
  ℕ, zero, suc, ◌+◌, Bool, true, false, ◌&&◌, ◌||◌, not, Option, none, some, List, [], ◌∷◌, ◌++◌,
  map, select_items, ltb, same_number, ◌==◌, if◌then◌else◌,
}
use ai_control_center.Base.Keyed.{contains}
use ai_control_center.Base.Texts.{text_leb}
use ai_control_center.Base.Words.{is_empty_text}

pub data SolutionScope : Type 0 where
  generic project : SolutionScope

pub data SolutionStatus : Type 0 where
  verified retired : SolutionStatus

pub record SolutionEntry : Type 0 where
  pub catalog_id : String
  pub scope : SolutionScope
  pub project_id : Option String
  pub failure_class : String
  pub failure_fingerprint : String
  pub component : String
  pub status : SolutionStatus
  pub updated_at : ℕ
  pub uses : ℕ
  pub last_used_at : Option ℕ

pub record SolutionCatalog : Type 0 where
  pub entries : List SolutionEntry
  pub stored : Option (List SolutionEntry)

-- The arguments of `find`.
pub record SolutionQuery : Type 0 where
  pub project_id : String
  pub failure_class : String
  pub fingerprint : String
  pub component : String

abbrev pub is_verified : SolutionStatus → Bool
is_verified verified = true
is_verified retired = false

abbrev pub is_project : SolutionScope → Bool
is_project project = true
is_project generic = false

abbrev pub is_project_of : String → Option String → Bool
is_project_of name none = false
is_project_of name (some project_name) = project_name == name

-- `text[:n]`
unfoldable pub take_chars : ℕ → String → String
take_chars zero text = String.[]
take_chars (suc n) String.[] = String.[]
take_chars (suc n) (String.◌∷◌ c text) = String.◌∷◌ c (take_chars n text)

abbrev pub points_if : Bool → ℕ → ℕ
points_if test points = if test then points else 0

-- Whether the loop of `find` scores the entry.
abbrev pub is_candidate : SolutionQuery → SolutionEntry → Bool
is_candidate query entry =
    is_verified entry.status
    && (entry.failure_class == query.failure_class)
    && (not (is_project entry.scope) || is_project_of query.project_id entry.project_id)

abbrev pub fingerprint_points : String → String → ℕ
fingerprint_points found asked =
    if found == asked then 100 else points_if (take_chars 16 found == take_chars 16 asked) 40

unfoldable pub score : SolutionQuery → SolutionEntry → ℕ
score query entry =
    fingerprint_points entry.failure_fingerprint query.fingerprint
    + points_if (not (is_empty_text entry.component) && (entry.component == query.component)) 20
    + points_if (is_project entry.scope) 10

abbrev pub is_match : SolutionQuery → SolutionEntry → Bool
is_match query entry = is_candidate query entry && ltb 0 (score query entry)

-- `<=` on the keys of the sort: the greater score first, then the smaller identifier.
abbrev pub rank_leb : SolutionQuery → SolutionEntry → SolutionEntry → Bool
rank_leb query a b =
    ltb (score query b) (score query a)
    || (same_number (score query a) (score query b) && text_leb a.catalog_id b.catalog_id)

unfoldable pub insert_ranked :
    SolutionQuery → SolutionEntry → List SolutionEntry → List SolutionEntry
insert_ranked query entry [] = entry ∷ []
insert_ranked query entry (other ∷ entries) =
    let rest = insert_ranked query entry entries in
    if rank_leb query entry other then entry ∷ other ∷ entries else other ∷ rest

-- `ranked.sort`
unfoldable pub sort_ranked : SolutionQuery → List SolutionEntry → List SolutionEntry
sort_ranked query [] = []
sort_ranked query (entry ∷ entries) = insert_ranked query entry (sort_ranked query entries)

abbrev pub ids_of : List SolutionEntry → List String
ids_of entries = map (λ (entry : SolutionEntry). entry.catalog_id) entries

-- The copy of an entry that is used.
abbrev pub use_entry : ℕ → SolutionEntry → SolutionEntry
use_entry now entry = record entry {
  uses = suc entry.uses;
  last_used_at = some now;
  updated_at = now;
}

-- `_persist`
abbrev pub persist : SolutionCatalog → SolutionCatalog
persist catalog = record catalog {
  stored = elim catalog.stored [ none ↦ none | some old ↦ some catalog.entries ];
}

abbrev pub use_matched :
    ℕ → List SolutionEntry → SolutionCatalog → List SolutionEntry × SolutionCatalog
use_matched now [] catalog = ([], catalog)
use_matched now (first ∷ others) catalog =
    let used =
      map
        (λ (entry : SolutionEntry).
          if contains (ids_of (first ∷ others)) entry.catalog_id
          then use_entry now entry
          else entry)
        catalog.entries in
    (map (use_entry now) (first ∷ others), persist (record catalog { entries = used }))

-- `find`
unfoldable pub find : SolutionQuery → ℕ → SolutionCatalog → List SolutionEntry × SolutionCatalog
find query now catalog =
    use_matched now (sort_ranked query (select_items (is_match query) catalog.entries)) catalog

-- `add_verified`, which raises for an entry that is not verified.
unfoldable pub add_verified : SolutionEntry → SolutionCatalog → Option SolutionCatalog
add_verified entry catalog =
    if is_verified entry.status
    then some (
        persist (record catalog {
          entries =
              select_items (λ other. not (other.catalog_id == entry.catalog_id)) catalog.entries
              ++ entry ∷ [];
        }))
    else none
