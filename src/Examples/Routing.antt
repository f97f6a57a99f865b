-- ===== src/Examples/Routing.antt =====
-- The model router's theorems on concrete profiles and requests.
use ai_control_center.Base.{ℕ, ◌≤◌, ◌+◌, ◌≡◌, refl, inr, none, some, [], ◌∷◌, arith, true}
use ai_control_center.Base.Keyed.{Keyed, lookup}
use ai_control_center.Routing.{
  codex, normal, reasoning, ProviderProfile, ModelProfile, RoutingRequest, RoutingDecision,
  selected,
}
use ai_control_center.Routing.Tier.{Tier, tier_id, tier_index, base_tier, preferred_profile}
use ai_control_center.Routing.Router.{
  select, select_registered, within_budget, downgrade_to, lower_profile, first_usable,
  usable_profile, bind_provider,
}
use ai_control_center.Routing.Permits.{IsPermitted}
use ai_control_center.Routing.Selection.{Justified, select-Justified, select_complete}
use ai_control_center.Routing.Escalation.{allowance, select_bounded_escalation}

abbrev settings : ProviderProfile
settings = record {
  model = "m";
  reasoning_effort = "high";
  timeout_seconds = 60;
  max_output_tokens = 1000;
}

abbrev profile_of_size : ℕ → ModelProfile
profile_of_size n = record {
  provider = "codex";
  settings = settings;
  estimated_input_tokens = n;
  estimated_output_tokens = n;
  provider_profiles = [];
}

abbrev registered : Keyed ModelProfile
registered =
    ("economical", profile_of_size 10)
    ∷ ("standard", profile_of_size 100)
    ∷ ("deep", profile_of_size 1000)
    ∷ []

abbrev retry : RoutingRequest
retry = record {
  role = codex;
  execution_provider = "codex";
  task_type = "bugfix";
  task_complexity = normal;
  previous_attempt_count = 1;
  previous_failure_type = some reasoning;
  context_size = 7;
  remaining_role_input_tokens = 500;
  remaining_role_output_tokens = 500;
  remaining_day_input_tokens = 900;
  remaining_day_output_tokens = 900;
  plan_policy = record {
    allowed_profile_ids = "economical" ∷ "standard" ∷ "deep" ∷ [];
    allow_budget_downgrade = true;
    max_escalation_level = 2;
  };
}

-- The failure asks for the deep profile, which is over budget; the standard one is chosen.
abbrev downgraded : RoutingDecision
downgraded = record {
  outcome = selected;
  role = codex;
  profile_id = some "standard";
  provider = some "codex";
  settings = some settings;
  selection_reason = "budget policy explicitly allowed downgrade to standard";
  escalation_level = 2;
  escalation_reason = some "previous reasoning_failure";
  context_size = 7;
}

select-retry : select registered retry ≡ some downgraded
unfolding select select_registered preferred_profile within_budget downgrade_to lower_profile
    first_usable usable_profile bind_provider lookup
select-retry = refl

select-Justified_example : Justified registered retry downgraded
select-Justified_example = select-Justified registered retry downgraded select-retry refl

select_bounded_escalation_example :
    (tier : Tier) × (downgraded.profile_id ≡ some (tier_id tier))
    × (tier_index tier
        ≤ tier_index (base_tier retry.role retry.task_complexity)
          + allowance retry.previous_failure_type)
select_bounded_escalation_example =
    select_bounded_escalation registered retry downgraded select-retry refl

abbrev first_try : RoutingRequest
first_try = record retry { previous_failure_type = none }

first_try-IsPermitted :
    IsPermitted registered first_try (preferred_profile first_try).tier (profile_of_size 100)
unfolding preferred_profile lookup
first_try-IsPermitted = record {
  registered = refl;
  allowed = refl;
  levelled = omega arith;
  role_input = omega arith;
  role_output = omega arith;
  day_input = omega arith;
  day_output = omega arith;
}

select_complete_example :
    (d : RoutingDecision) × (select registered first_try ≡ some d)
    × ((d.outcome ≡ selected) × (d.profile_id ≡ some (tier_id (preferred_profile first_try).tier)))
select_complete_example =
    select_complete registered first_try (profile_of_size 100) settings first_try-IsPermitted
      (inr refl)
