-- ===== src/Telemetry/Consistent.antt =====
-- What telemetry that validates says (backend/models/local_llm_day.py).
use ai_control_center.Base.{
  ℕ, ◌+◌, ◌≡◌, refl, String, false, Option, none, some, List, [], ◌∷◌, arith, eq_iff, count_items,
  All, All-get_elem?, get_elem?,
}
use ai_control_center.Base.Keyed.{contains}
use ai_control_center.Telemetry.{
  Number, whole, RunIntervention, SchemaVersion, second_version, RunTelemetry, TelemetryError,
  interventions_error, relays_error, split_error, value_of, first_error, is_relay, telemetry_error,
  checks,
}

-- Each intervention is of the run, and its identifier is neither among some nor among the earlier ones.
abbrev pub AreOwn : String → List String → List RunIntervention → Type 0
AreOwn run_id ids [] = Unit
AreOwn run_id ids (i ∷ interventions) =
    (i.run_id ≡ run_id)
    × (contains ids i.intervention_id ≡ false)
    × AreOwn run_id (i.intervention_id ∷ ids) interventions

pub record IsConsistent (t : RunTelemetry) : Type 0 where
  pub own : AreOwn t.run_id [] t.interventions
  pub relayed :
      (n : ℕ)
      → t.manual_relay_count.value ≡ some (whole n)
      → n ≡ count_items is_relay t.interventions
  pub split :
      t.schema_version ≡ second_version
      → (input cached uncached : ℕ) → t.input_tokens.value ≡ some (whole input)
      → value_of t.cached_input_tokens ≡ some (whole cached)
      → value_of t.uncached_input_tokens ≡ some (whole uncached)
      → input ≡ cached + uncached

interventions-AreOwn :
    (run_id : String) (ids : List String) (interventions : List RunIntervention)
    → interventions_error run_id ids interventions ≡ none
    → AreOwn run_id ids interventions
unfolding interventions_error
interventions-AreOwn run_id ids [] e = tt
interventions-AreOwn run_id ids (i ∷ interventions) e = (
  (eq_iff i.run_id run_id).0 (ground arith),
  ground arith,
  interventions-AreOwn run_id (i.intervention_id ∷ ids) interventions (ground arith),
)

-- When no check fails, the first one passes, and no later one fails.
first_error-none :
    (o : Option TelemetryError) (rest : List (Option TelemetryError))
    → first_error (o ∷ rest) ≡ none
    → (o ≡ none) × (first_error rest ≡ none)
first_error-none none rest e = (refl, e)
first_error-none (some error) rest e = absurd (cc)

-- All checks pass.
abbrev AllPass : List (Option TelemetryError) → Type 0
AllPass checks = All (λ o. o ≡ none) checks

first_error-AllPass :
    (checks : List (Option TelemetryError)) → first_error checks ≡ none → AllPass checks
first_error-AllPass [] e = tt
first_error-AllPass (o ∷ rest) e =
    let (passes, later) = first_error-none o rest e in (passes, first_error-AllPass rest later)

relays_error-same :
    (o : Option Number) (n count : ℕ) → o ≡ some (whole n) → relays_error o count ≡ none → n ≡ count
relays_error-same o n count e h = ground arith

split_error-sum :
    (a b c : Option Number) (v : SchemaVersion) (input cached uncached : ℕ)
    → v ≡ second_version
    → a ≡ some (whole input)
    → b ≡ some (whole cached)
    → c ≡ some (whole uncached)
    → split_error v a b c ≡ none
    → input ≡ cached + uncached
split_error-sum a b c v input cached uncached ev ea eb ec h = ground (arith, ev, ea, eb, ec, h)

-- Telemetry that validates is consistent: its interventions are of its run and have distinct identifiers, a
-- known count of manual relays is the number of interventions of that kind, and in the second version of the
-- schema known input tokens are the sum of the known cached and uncached ones.
pub valid-IsConsistent : (t : RunTelemetry) → telemetry_error t ≡ none → IsConsistent t
unfolding telemetry_error
valid-IsConsistent t e =
    let passes : (i : ℕ) (o : Option TelemetryError) → get_elem? (checks t) i ≡ some o → o ≡ none =
      λ i o found.
        All-get_elem? (λ o. o ≡ none) (checks t) i o found (first_error-AllPass (checks t) e) in
    record {
      own = interventions-AreOwn t.run_id [] t.interventions (passes 9 _ refl);
      relayed =
          λ n known. relays_error-same t.manual_relay_count.value n _ known (passes 11 _ refl);
      split = λ second input cached uncached a b c.
          split_error-sum t.input_tokens.value (value_of t.cached_input_tokens)
            (value_of t.uncached_input_tokens) t.schema_version input cached uncached second a b c
            (passes 13 _ refl);
    }
