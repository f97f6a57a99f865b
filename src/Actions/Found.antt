-- ===== src/Actions/Found.antt =====
-- What a strategy that is found holds (backend/control/day_action_registry.py).
use Prim.Native.String.{String}
use mathlib.Core.Option.{some-injective}
use ai_control_center.Base.{
  ℕ, ◌≡◌, refl, ap, sym, ◌∙◌, Bool, true, false, ◌&&◌, not, Option, none, some, List, [], ◌∷◌, all,
  arith, same_number, ◌==◌, eq_iff, ◌⊎◌, inl, inr, Bool-cases, leb, if◌then◌else◌,
}
use ai_control_center.Base.Keyed.{Keyed, contains}
use ai_control_center.Base.Words.{upper}
use ai_control_center.Evidence.Registry.{definitions}
use ai_control_center.Actions.{
  ExecutionMode, read_only, baseline_checkpoint, ActionTemplate, AcquisitionStrategy, Strategies,
  same_key, find_strategy, put_strategy, add_names, add_lines, refine_names, refine_group,
  refine_groups, has_key, keys_of, passes_coverage,
}
use ai_control_center.Actions.Table.{strategies}

abbrev pub has_text : Option String → Bool
has_text none = false
has_text (some text) = true

abbrev pub has_template : Option ActionTemplate → Bool
has_template none = false
has_template (some template) = true

abbrev is_empty_scope : List String → Bool
is_empty_scope [] = true
is_empty_scope (path ∷ paths) = false

-- What an action in the mode says of itself.
abbrev agrees : String → ExecutionMode → ActionTemplate → Bool
agrees name read_only template =
    (template.mutation_policy == "NONE") && is_empty_scope template.allowed_output_scope
agrees name baseline_checkpoint template = template.mutation_policy == "TEMPORARY_GIT_INDEX_ONLY"
agrees name _ template =
    contains template.post_action_evidence_types name
    && not (is_empty_scope template.allowed_output_scope)
    && not (template.mutation_policy == "NONE")

abbrev agrees_if_some : String → Option ActionTemplate → Bool
agrees_if_some name none = true
agrees_if_some name (some template) = agrees name template.execution_mode template

abbrev names_of : {V : Type 0} → Keyed V → List String
names_of [] = []
names_of ((name, value) ∷ d) = name ∷ names_of d

abbrev pub is_sound : (ℕ × String) × AcquisitionStrategy → Bool
is_sound ((day, name), strategy) =
    leb 1 day
    && leb day 14
    && same_number strategy.day day
    && (strategy.evidence_type == name)
    && (if has_template strategy.template
        then not (has_text strategy.authority_requirement)
        else has_text strategy.authority_requirement)
    && agrees_if_some name strategy.template
    && contains (names_of definitions) name

abbrev all_sound : Option Strategies → Bool
all_sound none = false
all_sound (some table) = all is_sound table

strategies-all_sound : all_sound strategies ≡ true
unfolding strategies refine_groups refine_group refine_names add_lines add_names find_strategy
    put_strategy definitions upper
strategies-all_sound = refl

-- The strategy of a day and a name.
pub record IsRegistered (day : ℕ) (name : String) (strategy : AcquisitionStrategy) : Type 0 where
  pub in_sprint : leb 1 day && leb day 14 ≡ true
  pub of_day : strategy.day ≡ day
  pub of_name : strategy.evidence_type ≡ name
  pub authorised : has_text strategy.authority_requirement ≡ not (has_template strategy.template)
  pub acts : agrees_if_some name strategy.template ≡ true
  pub validated : contains (names_of definitions) name ≡ true

is_sound-IsRegistered :
    (day : ℕ) (name : String) (strategy : AcquisitionStrategy)
    → is_sound ((day, name), strategy) ≡ true
    → IsRegistered day name strategy
is_sound-IsRegistered day name strategy h = record {
  in_sprint = ground arith;
  of_day = ground arith;
  of_name = ground (arith, eq_iff strategy.evidence_type name);
  authorised = ground arith;
  acts = ground arith;
  validated = ground arith;
}

find_strategy-cons :
    (key other : ℕ × String) (first strategy : AcquisitionStrategy) (table : Strategies)
    → find_strategy key ((other, first) ∷ table) ≡ some strategy
    → ((same_key other key ≡ true) × (first ≡ strategy)) ⊎ (find_strategy key table ≡ some strategy)
unfolding find_strategy
find_strategy-cons key other first strategy table e = elim (Bool-cases (same_key other key)) [
  | inl same ↦ inl (same, some-injective _ _ (sym (rw same refl) ∙ e))
  | inr other_key ↦ inr (sym (rw other_key refl) ∙ e)
]

find_strategy-IsRegistered :
    (day : ℕ) (name : String) (table : Strategies) (strategy : AcquisitionStrategy)
    → all is_sound table ≡ true
    → find_strategy (day, name) table ≡ some strategy
    → IsRegistered day name strategy
unfolding find_strategy
find_strategy-IsRegistered day name [] strategy h e = absurd (cc)
find_strategy-IsRegistered day name (((other_day, other_name), other) ∷ table) strategy h e =
    elim (find_strategy-cons (day, name) (other_day, other_name) other strategy table e) [
      | inl (same, equal) ↦
          let of_day : other_day ≡ day = ground arith in
          let of_name : other_name ≡ name = ground (arith, eq_iff other_name name) in
          rw (sym of_day) (
            rw (sym of_name)
              (rw (sym equal) (is_sound-IsRegistered other_day other_name other (ground arith))))
      | inr rest ↦ find_strategy-IsRegistered day name table strategy (ground arith) rest
    ]

all_sound-found :
    (loaded : Option Strategies) (table : Strategies)
    → all_sound loaded ≡ true
    → loaded ≡ some table
    → all is_sound table ≡ true
all_sound-found none table h e = absurd (cc)
all_sound-found (some loaded) table h e = ap (all is_sound) (sym (some-injective _ _ e)) ∙ h

find_strategy-key :
    (key : ℕ × String) (table : Strategies)
    → has_key (keys_of table) key ≡ true
    → (strategy : AcquisitionStrategy) × (find_strategy key table ≡ some strategy)
unfolding find_strategy
find_strategy-key key [] h = absurd (cc)
find_strategy-key key ((other, strategy) ∷ table) h = elim (Bool-cases (same_key other key)) [
  | inl same ↦ (strategy, rw same refl)
  | inr other_key ↦
      let (found, e) = find_strategy-key key table (ground (arith, other_key)) in
      (found, rw other_key e)
]

all-has_key :
    (p : ℕ × String → Bool) (l : List (ℕ × String)) (day : ℕ) (name : String)
    → all p l ≡ true
    → has_key l (day, name) ≡ true
    → p (day, name) ≡ true
all-has_key p [] day name h e = absurd (cc)
all-has_key p ((other_day, other_name) ∷ l) day name h e =
    elim (Bool-cases (same_key (other_day, other_name) (day, name))) [
      | inl same ↦
          let of_day : other_day ≡ day = ground arith in
          let of_name : other_name ≡ name = ground (arith, eq_iff other_name name) in
          rw (sym of_day) (rw (sym of_name) (ground arith))
      | inr other_key ↦ all-has_key p l day name (ground arith) (ground (arith, other_key))
    ]

-- When the coverage of the module's table passes for some required pairs and validators, every required pair
-- has a validator and a strategy: one of that day of the sprint and that name, which the evidence registry
-- validates; it names an authority exactly when it has no action; an action that only reads writes nowhere,
-- the checkpoint changes the temporary index only, and any other action produces this evidence and has a
-- scope to write to.
pub required-IsRegistered :
    (table : Strategies) (required : List (ℕ × String)) (validators : List String) (day : ℕ)
    (name : String)
    → strategies ≡ some table
    → passes_coverage (keys_of table) required validators ≡ true
    → has_key required (day, name) ≡ true
    → (contains validators name ≡ true)
      × (strategy : AcquisitionStrategy) × (find_strategy (day, name) table ≡ some strategy)
      × IsRegistered day name strategy
unfolding passes_coverage
required-IsRegistered table required validators day name loaded passed h =
    let (strategy, found) =
      find_strategy-key (day, name) table
        (all-has_key (has_key (keys_of table)) required day name (ground (arith, passed)) h) in
    (
      all-has_key (λ (pair : ℕ × String). contains validators pair.1) required day name
          (ground (arith, passed)) h,
      strategy,
      found,
      find_strategy-IsRegistered day name table strategy
          (all_sound-found strategies table strategies-all_sound loaded) found,
    )
