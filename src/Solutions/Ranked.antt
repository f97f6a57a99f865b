-- ===== src/Solutions/Ranked.antt =====
-- What the catalog finds, and in which order (backend/control/solution_catalog.py).
use Prim.Native.String.{String}
use ai_control_center.Base.{
  ℕ, suc, ◌≡◌, Bool, true, ◌&&◌, List, [], ◌∷◌, map, select_items, all, if◌then◌else◌,
}
use ai_control_center.Base.Keyed.{contains}
use ai_control_center.Solutions.{
  SolutionEntry, SolutionCatalog, SolutionQuery, is_match, rank_leb, ids_of, use_entry,
}

abbrev pub leads : SolutionQuery → SolutionEntry → List SolutionEntry → Bool
leads query entry [] = true
leads query entry (other ∷ entries) = rank_leb query entry other

-- Each entry ranks before the next one.
abbrev pub is_ranked : SolutionQuery → List SolutionEntry → Bool
is_ranked query [] = true
is_ranked query (entry ∷ entries) = leads query entry entries && is_ranked query entries

abbrev pub uses_of : List SolutionEntry → List ℕ
uses_of entries = map (λ (entry : SolutionEntry). entry.uses) entries

-- How often each entry was used, once those with the identifiers are used again.
abbrev pub uses_with : List String → List SolutionEntry → List ℕ
uses_with ids entries =
    map
      (λ (entry : SolutionEntry).
        if contains ids entry.catalog_id then suc entry.uses else entry.uses)
      entries

abbrev use_if : ℕ → List String → SolutionEntry → SolutionEntry
use_if now ids entry = if contains ids entry.catalog_id then use_entry now entry else entry

-- What `find` answers, and the catalog that it leaves.
pub record IsFound (query : SolutionQuery) (catalog : SolutionCatalog)
    (outcome : List SolutionEntry × SolutionCatalog) : Type 0 where
  pub ranked : is_ranked query outcome.0 ≡ true
  pub sound : all (is_match query) outcome.0 ≡ true
  pub complete :
      (k : String)
      → contains (ids_of outcome.0) k
        ≡ contains (ids_of (select_items (is_match query) catalog.entries)) k
  pub counted : uses_of outcome.1.entries ≡ uses_with (ids_of outcome.0) catalog.entries
  pub kept : ids_of outcome.1.entries ≡ ids_of catalog.entries
