-- ===== src/Routing.antt =====
-- backend/models/model_routing.py: the values that the model router reads and returns. The numeric
-- and length ranges of the fields are the caller's to check.
pub mod Tier
pub mod Router
pub mod Permits
pub mod Selection
pub mod Escalation
use ai_control_center.Base.{ℕ, zero, ◌+◌, String, Bool, Option, none, some, List}
use ai_control_center.Base.Keyed.{Keyed}

pub data RoutingRole : Type 0 where
  architect evaluator codex : RoutingRole

pub data TaskComplexity : Type 0 where
  simple normal complex : TaskComplexity

pub data FailureType : Type 0 where
  reasoning unknown network missing_dependency sandbox permission : FailureType
  environment invalid_configuration scope_guard git_safety : FailureType

abbrev pub role_value : RoutingRole → String
role_value architect = "architect"
role_value evaluator = "evaluator"
role_value codex = "codex"

abbrev pub complexity_value : TaskComplexity → String
complexity_value simple = "simple"
complexity_value normal = "normal"
complexity_value complex = "complex"

abbrev pub failure_value : FailureType → String
failure_value reasoning = "reasoning_failure"
failure_value unknown = "unknown"
failure_value network = "network_failure"
failure_value missing_dependency = "missing_dependency"
failure_value sandbox = "sandbox_failure"
failure_value permission = "permission_failure"
failure_value environment = "environment_failure"
failure_value invalid_configuration = "invalid_configuration"
failure_value scope_guard = "scope_guard_failure"
failure_value git_safety = "git_safety_failure"

pub record ProviderProfile : Type 0 where
  pub model : String
  pub reasoning_effort : String
  pub timeout_seconds : ℕ
  pub max_output_tokens : ℕ

pub record ModelProfile : Type 0 where
  pub provider : String
  pub settings : ProviderProfile
  pub estimated_input_tokens : ℕ
  pub estimated_output_tokens : ℕ
  pub provider_profiles : Keyed ProviderProfile

pub record RoutingPolicy : Type 0 where
  pub allowed_profile_ids : List String
  pub allow_budget_downgrade : Bool
  pub max_escalation_level : ℕ

pub record RoutingRequest : Type 0 where
  pub role : RoutingRole
  pub execution_provider : String
  pub task_type : String
  pub task_complexity : TaskComplexity
  pub previous_attempt_count : ℕ
  pub previous_failure_type : Option FailureType
  pub context_size : ℕ
  pub remaining_role_input_tokens : ℕ
  pub remaining_role_output_tokens : ℕ
  pub remaining_day_input_tokens : ℕ
  pub remaining_day_output_tokens : ℕ
  pub plan_policy : RoutingPolicy

pub data RoutingOutcome : Type 0 where
  selected human_review : RoutingOutcome

pub record RoutingDecision : Type 0 where
  pub outcome : RoutingOutcome
  pub role : RoutingRole
  pub profile_id : Option String
  pub provider : Option String
  pub settings : Option ProviderProfile
  pub selection_reason : String
  pub escalation_level : ℕ
  pub escalation_reason : Option String
  pub context_size : ℕ

pub record ProviderExecutionConfig : Type 0 where
  pub profile_id : Option String
  pub provider : String
  pub settings : Option ProviderProfile

pub record ProfileTokenUsage : Type 0 where
  pub gross_input_tokens : ℕ
  pub cached_input_tokens : ℕ
  pub uncached_input_tokens : ℕ
  pub output_tokens : ℕ
  pub call_count : ℕ
  pub duration_ms : ℕ
