-- ===== src/Routing/Router.antt =====
-- backend/control/model_router.py: `ModelRouter` chooses a reasoning profile for a request.
use Prim.Native.String.{◌++◌}
use ai_control_center.Base.{
  ◌+◌, String, Bool, true, false, ◌&&◌, Option, none, some, List, [], ◌∷◌, ltb, leb, ◌==◌,
  select_items, if◌then◌else◌,
}
use ai_control_center.Base.Int.{ℤ, pos_part}
use ai_control_center.Base.Keyed.{Keyed, contains, lookup}
use ai_control_center.Usage.{TokenUsage}
use ai_control_center.Routing.{
  role_value, complexity_value, ProviderProfile, ModelProfile, RoutingRequest, selected,
  human_review, RoutingDecision, ProviderExecutionConfig, ProfileTokenUsage,
}
use ai_control_center.Routing.Tier.{Tier, tier_id, lower_tiers, Preference, preferred_profile}

unfoldable pub within_budget : ModelProfile → RoutingRequest → Bool
within_budget profile request =
    leb profile.estimated_input_tokens request.remaining_role_input_tokens
    && leb profile.estimated_output_tokens request.remaining_role_output_tokens
    && leb profile.estimated_input_tokens request.remaining_day_input_tokens
    && leb profile.estimated_output_tokens request.remaining_day_output_tokens

-- The profile that a tier names, if the policy allows it and it fits the budget.
unfoldable pub usable_profile :
    Keyed ModelProfile → List String → RoutingRequest → Tier → Option ModelProfile
usable_profile profiles allowed request tier = elim (lookup (tier_id tier) profiles) [
  | none ↦ none
  | some profile ↦
      if contains allowed (tier_id tier) && within_budget profile request
      then some profile
      else none
]

unfoldable pub first_usable :
    Keyed ModelProfile → List String → RoutingRequest → List Tier → Option (Tier × ModelProfile)
first_usable profiles allowed request [] = none
first_usable profiles allowed request (tier ∷ tiers) =
    let rest = first_usable profiles allowed request tiers in
    elim (usable_profile profiles allowed request tier) [
      | none ↦ rest
      | some profile ↦ some (tier, profile)
    ]

unfoldable pub lower_profile :
    Keyed ModelProfile → List String → RoutingRequest → Tier → Option (Tier × ModelProfile)
lower_profile profiles allowed request tier =
    first_usable profiles allowed request (lower_tiers tier)

abbrev pub resolve_provider_profile : ModelProfile → String → Option ProviderProfile
resolve_provider_profile profile execution_provider =
    if execution_provider == profile.provider
    then some profile.settings
    else lookup execution_provider profile.provider_profiles

unfoldable pub selection_reason : RoutingRequest → Tier → Option String → String
selection_reason request tier (some reason) =
    reason ++ "; selected lowest permitted sufficient profile " ++ tier_id tier
selection_reason request tier none =
    role_value request.role
    ++ " "
    ++ complexity_value request.task_complexity
    ++ " task selected lowest permitted sufficient profile "
    ++ tier_id tier

abbrev pub review : RoutingRequest → Preference → String → RoutingDecision
review request preference detail = record {
  outcome = human_review;
  role = request.role;
  profile_id = none;
  provider = none;
  settings = none;
  selection_reason = detail;
  escalation_level = preference.level;
  escalation_reason = preference.reason;
  context_size = request.context_size;
}

abbrev pub decide_selected :
    RoutingRequest → Preference → Tier → String → Option ProviderProfile → RoutingDecision
decide_selected request preference tier reason settings = record {
  outcome = selected;
  role = request.role;
  profile_id = some (tier_id tier);
  provider = some request.execution_provider;
  settings = settings;
  selection_reason = reason;
  escalation_level = preference.level;
  escalation_reason = preference.reason;
  context_size = request.context_size;
}

-- The end of `select`, for the profile that fits the budget.
unfoldable pub bind_provider :
    RoutingRequest → Preference → Tier → ModelProfile → String → RoutingDecision
bind_provider request preference tier profile reason =
    if request.execution_provider == "mock"
    then decide_selected request preference tier reason none
    else elim (resolve_provider_profile profile request.execution_provider) [
      | none ↦ review request preference (
          "selected profile has no trusted mapping for execution provider "
          ++ request.execution_provider)
      | some settings ↦ decide_selected request preference tier reason (some settings)
    ]

unfoldable pub downgrade_to :
    RoutingRequest → Preference → Option (Tier × ModelProfile) → RoutingDecision
downgrade_to request preference none =
    review request preference "selected profile exceeds remaining trusted budget"
downgrade_to request preference (some (tier, profile)) =
    bind_provider request preference tier profile
      ("budget policy explicitly allowed downgrade to " ++ tier_id tier)

abbrev pub is_some {ℓ} : {A : Type ℓ} → Option A → Bool
is_some none = false
is_some (some a) = true

abbrev pub permitted : Keyed ModelProfile → RoutingRequest → List String
permitted profiles request =
    select_items (λ profile_id. is_some (lookup profile_id profiles))
      request.plan_policy.allowed_profile_ids

abbrev pub downgrade_target :
    Keyed ModelProfile → RoutingRequest → Tier → Option (Tier × ModelProfile)
downgrade_target profiles request tier =
    if request.plan_policy.allow_budget_downgrade
    then lower_profile profiles (permitted profiles request) request tier
    else none

-- The part of `select` below the policy checks; `none` stands for the `KeyError` of
-- `model_profiles[profile_id]`.
unfoldable pub select_registered :
    Keyed ModelProfile → RoutingRequest → Preference → Option ModelProfile → Option RoutingDecision
select_registered profiles request preference none = none
select_registered profiles request preference (some profile) =
    if within_budget profile request
    then some (
        bind_provider request preference preference.tier profile
          (selection_reason request preference.tier preference.reason))
    else some (downgrade_to request preference (downgrade_target profiles request preference.tier))

unfoldable pub select : Keyed ModelProfile → RoutingRequest → Option RoutingDecision
select profiles request =
    let preference = preferred_profile request in
    if contains (permitted profiles request) (tier_id preference.tier)
    then if ltb request.plan_policy.max_escalation_level preference.level
      then some (review request preference "maximum escalation level reached")
      else select_registered profiles request preference (lookup (tier_id preference.tier) profiles)
    else some (review request preference "preferred profile is not allowed by trusted plan policy")

-- `ProviderExecutionConfig.from_routing_decision`; `none` stands for its `ValueError`.
unfoldable pub from_routing_decision : RoutingDecision → Option ProviderExecutionConfig
from_routing_decision decision = elim decision.outcome [
  | human_review ↦ none
  | selected ↦ elim decision.provider [
    | none ↦ none
    | some provider ↦
        if provider == ""
        then none
        else some (record {
          profile_id = decision.profile_id;
          provider = provider;
          settings = decision.settings;
        })
  ]
]

abbrev pub accumulate_profile_usage : ProfileTokenUsage → TokenUsage → ℤ → ProfileTokenUsage
accumulate_profile_usage current usage duration_ms = record {
  gross_input_tokens = current.gross_input_tokens + usage.gross_input_tokens;
  cached_input_tokens = current.cached_input_tokens + usage.cached_input_tokens;
  uncached_input_tokens = current.uncached_input_tokens + usage.uncached_input_tokens;
  output_tokens = current.output_tokens + usage.output_tokens;
  call_count = current.call_count + 1;
  duration_ms = current.duration_ms + pos_part duration_ms;
}
