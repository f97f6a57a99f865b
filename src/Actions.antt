-- ===== src/Actions.antt =====
-- backend/control/day_action_registry.py: how each day's evidence is acquired. The dictionary `STRATEGIES`
-- is a list of entries by day and name.
pub mod Table
pub mod Found
use Prim.Native.String.{String}
use ai_control_center.Base.{
  ℕ, Bool, true, false, ◌&&◌, ◌||◌, not, Option, none, some, List, [], ◌∷◌, ◌++◌, map, all, any,
  same_number, ◌==◌, if◌then◌else◌,
}
use ai_control_center.Base.Keyed.{Keyed, lookup, contains}
use ai_control_center.Base.Words.{append_text, decimal, upper}

pub data ExecutionMode : Type 0 where
  read_only baseline_checkpoint engineering_worktree research_run : ExecutionMode
  decision_or_documentation_worktree : ExecutionMode

pub record ActionTemplate : Type 0 where
  pub template_id : String
  pub execution_mode : ExecutionMode
  pub mutation_policy : String
  pub allowed_output_scope : List String
  pub verification : String
  pub context_scope : List String
  pub input_evidence_types : List String
  pub post_action_evidence_types : List String
  pub git_policy : String
  pub result_adapter : String

-- A template with the defaults of the class.
abbrev pub new_template : String → ExecutionMode → String → List String → String → ActionTemplate
new_template template_id execution_mode mutation_policy allowed_output_scope verification = record {
  template_id = template_id;
  execution_mode = execution_mode;
  mutation_policy = mutation_policy;
  allowed_output_scope = allowed_output_scope;
  verification = verification;
  context_scope =
      "docs/runbooks/work-plan-day1-14.md" ∷ "docs/architecture/decision-reasoning-architecture.md"
      ∷ [];
  input_evidence_types = [];
  post_action_evidence_types = [];
  git_policy = "PRESERVE_USER_BRANCH_INDEX_WORKTREE";
  result_adapter = "REGISTERED_VALUES_V1";
}

pub record AcquisitionStrategy : Type 0 where
  pub strategy_id : String
  pub day : ℕ
  pub evidence_type : String
  pub classification : String
  pub template : Option ActionTemplate
  pub authority_requirement : Option String
  pub reuse_policy : String
  pub expected_information_gain : String
  pub expected_state_change : String
  pub provider_id : String
  pub validator_id : String
  pub collection_mode : String
  pub research_sensitive : Bool
  pub result_adapter : String

-- The properties of a strategy that read its template.
abbrev pub mode_of : Option ActionTemplate → ExecutionMode
mode_of none = read_only
mode_of (some template) = template.execution_mode

abbrev pub mutation_policy_of : Option ActionTemplate → String
mutation_policy_of none = "NONE"
mutation_policy_of (some template) = template.mutation_policy

abbrev pub output_scope_of : Option ActionTemplate → List String
output_scope_of none = []
output_scope_of (some template) = template.allowed_output_scope

abbrev pub is_read_only : ExecutionMode → Bool
is_read_only read_only = true
is_read_only _ = false

abbrev pub is_research : ExecutionMode → Bool
is_research research_run = true
is_research _ = false

abbrev pub Strategies : Type 0
Strategies = List ((ℕ × String) × AcquisitionStrategy)

abbrev pub same_key : ℕ × String → ℕ × String → Bool
same_key (day, name) (other, other_name) = same_number day other && (name == other_name)

-- `STRATEGIES.get(key)`
unfoldable pub find_strategy : ℕ × String → Strategies → Option AcquisitionStrategy
find_strategy key [] = none
find_strategy key ((other, strategy) ∷ table) =
    let rest = find_strategy key table in if same_key other key then some strategy else rest

-- `STRATEGIES[key] = strategy`
unfoldable pub put_strategy : ℕ × String → AcquisitionStrategy → Strategies → Strategies
put_strategy key strategy [] = (key, strategy) ∷ []
put_strategy key strategy ((other, old) ∷ table) =
    let rest = put_strategy key strategy table in
    if same_key other key then (other, strategy) ∷ table else (other, old) ∷ rest

abbrev pub new_strategy :
    ℕ → String → Option ActionTemplate → Option String → String → AcquisitionStrategy
new_strategy day classification template authority name = record {
  strategy_id = append_text "D" (append_text (decimal day) (append_text "_" (upper name)));
  day = day;
  evidence_type = name;
  classification = classification;
  template = template;
  authority_requirement = authority;
  reuse_policy = "VALIDATED_COMPATIBLE_ONLY";
  expected_information_gain = "Registered evidence record";
  expected_state_change =
      if is_read_only (mode_of template)
      then "Collect compatible evidence"
      else "Produce validated evidence";
  provider_id = append_text "day-" (append_text (decimal day) (append_text ":" name));
  validator_id = append_text "evidence-registry:" name;
  collection_mode = "REUSE_THEN_ACQUIRE";
  research_sensitive = is_research (mode_of template);
  result_adapter = "REGISTERED_VALUES_V1";
}

-- A line of the table: `STRATEGIES |= _strategies(...)`.
pub record StrategyLine : Type 0 where
  pub day : ℕ
  pub names : List String
  pub classification : String
  pub template : Option ActionTemplate
  pub authority : Option String

-- `_strategies`, merged into the table
unfoldable pub add_names : StrategyLine → List String → Strategies → Strategies
add_names line [] table = table
add_names line (name ∷ names) table = add_names line names (
    put_strategy (line.day, name)
      (new_strategy line.day line.classification line.template line.authority name) table)

unfoldable pub add_lines : List StrategyLine → Strategies → Strategies
add_lines [] table = table
add_lines (line ∷ lines) table = add_lines lines (add_names line line.names table)

-- An entry of `_ACTION_GROUPS`, with its first name apart.
pub record ActionGroup : Type 0 where
  pub day : ℕ
  pub action_id : String
  pub first_name : String
  pub other_names : List String

-- `ENGINEERING_SCOPES[day]`, which raises for a day without one.
abbrev pub scope_of : ℕ → List (ℕ × List String) → Option (List String)
scope_of day [] = none
scope_of day ((other, scope) ∷ scopes) =
    if same_number other day then some scope else scope_of day scopes

-- The output scope of a group by the mode of its template.
abbrev pub group_scope : List (ℕ × List String) → ℕ → ExecutionMode → Option (List String)
group_scope scopes day engineering_worktree = scope_of day scopes
group_scope scopes day decision_or_documentation_worktree =
    some (append_text "docs/day-" (append_text (decimal day) "-report.md") ∷ [])
group_scope scopes day _ =
    some (append_text "results/day-runner/day-" (append_text (decimal day) "/") ∷ [])

abbrev inputs_in : List (String × List String) → String → List String
inputs_in [] action_id = []
inputs_in ((name, inputs) ∷ others) action_id =
    if name == action_id then inputs else inputs_in others action_id

abbrev pub inputs_of : String → List String
inputs_of = inputs_in (
    ("D2_FEASIBLE_RELEVANT_GATE", "baseline_ref" ∷ [])
    ∷ ("D3_FIXED_REGRESSION", "v032_artifact" ∷ "v04_artifact" ∷ [])
    ∷ ("D4_DAGB_RUN", "holdout_manifest" ∷ "architecture_ref" ∷ [])
    ∷ ("D4_ANTI_LEAKAGE", "dagb_artifact" ∷ [])
    ∷ ("D11_PRODUCT_CONFIGURATION", "hardware_evidence" ∷ [])
    ∷ [])

abbrev pub is_reading : String → Bool
is_reading action_id = (action_id == "D4_ANTI_LEAKAGE") || (action_id == "D13_FULL_REGRESSION")

-- The template of a group, made of the one of its first name.
abbrev pub group_template : ActionGroup → ActionTemplate → List String → ActionTemplate
group_template group template scope =
    let refined = record template {
      template_id = group.action_id;
      allowed_output_scope = if is_reading group.action_id then [] else scope;
      post_action_evidence_types = group.first_name ∷ group.other_names;
      input_evidence_types = inputs_of group.action_id;
    } in
    if is_reading group.action_id
    then record refined { execution_mode = read_only; mutation_policy = "NONE" }
    else refined

infixl 5 ◌>>=◌
abbrev ◌>>=◌ : {A B : Type 0} → Option A → (A → Option B) → Option B
none >>= f = none
(some a) >>= f = f a

-- `STRATEGIES[(day, name)] = replace(STRATEGIES[(day, name)], template=template)` for each name; a name that
-- is missing raises.
unfoldable pub refine_names : ℕ → ActionTemplate → List String → Strategies → Option Strategies
refine_names day template [] table = some table
refine_names day template (name ∷ names) table = do
  strategy ← find_strategy (day, name) table
  refine_names day template names
      (put_strategy (day, name) (record strategy { template = some template }) table)

-- A round of the loop over `_ACTION_GROUPS`
unfoldable pub refine_group : List (ℕ × List String) → ActionGroup → Strategies → Option Strategies
refine_group scopes group table = do
  first ← find_strategy (group.day, group.first_name) table
  template ← first.template
  scope ← group_scope scopes group.day template.execution_mode
  refine_names group.day (group_template group template scope)
      (group.first_name ∷ group.other_names) table

unfoldable pub refine_groups :
    List (ℕ × List String) → List ActionGroup → Strategies → Option Strategies
refine_groups scopes [] table = some table
refine_groups scopes (group ∷ groups) table = do
  refined ← refine_group scopes group table
  refine_groups scopes groups refined

abbrev pub has_key : List (ℕ × String) → ℕ × String → Bool
has_key keys key = any (λ other. same_key other key) keys

abbrev pub keys_of : Strategies → List (ℕ × String)
keys_of table = map (λ (entry : (ℕ × String) × AcquisitionStrategy). entry.0) table

-- Whether `assert_coverage` passes: no validator is missing, no strategy is missing and none is extra.
unfoldable pub passes_coverage : List (ℕ × String) → List (ℕ × String) → List String → Bool
passes_coverage strategies required_pairs validator_names =
    all (λ (pair : ℕ × String). contains validator_names pair.1) required_pairs
    && all (has_key strategies) required_pairs
    && all (has_key required_pairs) strategies
