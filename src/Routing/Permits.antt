-- ===== src/Routing/Permits.antt =====
-- What backend/control/model_router.py checks of a profile before `select` may name it, and what its
-- search for a lower profile finds.
use ai_control_center.Base.{
  ◌+◌, ◌≤◌, ◌<◌, ◌≡◌, String, true, none, some, List, [], ◌∷◌, arith, eq_iff, select_items,
}
use ai_control_center.Base.Keyed.{Keyed, contains, lookup}
use ai_control_center.Routing.{ModelProfile, RoutingRequest}
use ai_control_center.Routing.Tier.{
  Tier, economical, standard, deep, tier_id, tier_index, preferred_profile,
}
use ai_control_center.Routing.Router.{
  within_budget, usable_profile, first_usable, lower_profile, is_some, permitted,
}

-- What the policy keeps is named by the policy and registered.
pub contains-permitted :
    (profiles : Keyed ModelProfile) (ids : List String) (k : String)
    → contains (select_items (λ i. is_some (lookup i profiles)) ids) k ≡ true
    → (contains ids k ≡ true) × (is_some (lookup k profiles) ≡ true)
contains-permitted profiles [] k h = absurd (cc)
contains-permitted profiles (i ∷ ids) k h =
    ground (arith, contains-permitted profiles ids k, eq_iff i k)

-- What the policy asks of the escalation.
abbrev pub IsLevelled : RoutingRequest → Type 0
IsLevelled request = (preferred_profile request).level ≤ request.plan_policy.max_escalation_level

-- The limits that hold of a selected tier and its profile.
pub record IsPermitted (profiles : Keyed ModelProfile) (request : RoutingRequest) (tier : Tier)
    (profile : ModelProfile) : Type 0 where
  pub registered : lookup (tier_id tier) profiles ≡ some profile
  pub allowed : contains request.plan_policy.allowed_profile_ids (tier_id tier) ≡ true
  pub levelled : IsLevelled request
  pub role_input : profile.estimated_input_tokens ≤ request.remaining_role_input_tokens
  pub role_output : profile.estimated_output_tokens ≤ request.remaining_role_output_tokens
  pub day_input : profile.estimated_input_tokens ≤ request.remaining_day_input_tokens
  pub day_output : profile.estimated_output_tokens ≤ request.remaining_day_output_tokens

pub permitted-IsPermitted :
    (profiles : Keyed ModelProfile) (request : RoutingRequest) (tier : Tier)
    (profile : ModelProfile)
    → lookup (tier_id tier) profiles ≡ some profile
    → contains (permitted profiles request) (tier_id tier) ≡ true
    → within_budget profile request ≡ true
    → IsLevelled request
    → IsPermitted profiles request tier profile
unfolding within_budget
permitted-IsPermitted profiles request tier profile e c b l =
    let named =
      contains-permitted profiles request.plan_policy.allowed_profile_ids (tier_id tier) c in
    record {
      registered = e;
      allowed = named.0;
      levelled = l;
      role_input = ground arith;
      role_output = ground arith;
      day_input = ground arith;
      day_output = ground arith;
    }

pub usable_inversion :
    (profiles : Keyed ModelProfile) (allowed : List String) (request : RoutingRequest) (tier : Tier)
    (profile : ModelProfile)
    → usable_profile profiles allowed request tier ≡ some profile
    → (lookup (tier_id tier) profiles ≡ some profile)
      × (contains allowed (tier_id tier) ≡ true)
      × (within_budget profile request ≡ true)
unfolding usable_profile
usable_inversion profiles allowed request tier profile h = ground arith

pub usable-IsPermitted :
    (profiles : Keyed ModelProfile) (request : RoutingRequest) (tier : Tier)
    (profile : ModelProfile)
    → usable_profile profiles (permitted profiles request) request tier ≡ some profile
    → IsLevelled request
    → IsPermitted profiles request tier profile
usable-IsPermitted profiles request tier profile h l =
    let facts = usable_inversion profiles (permitted profiles request) request tier profile h in
    permitted-IsPermitted profiles request tier profile facts.0 facts.1 facts.2 l

-- What a downgrade finds is usable, and lies below the preferred tier.
pub lower_profile_sound :
    (profiles : Keyed ModelProfile) (allowed : List String) (request : RoutingRequest)
    (preferred tier : Tier) (profile : ModelProfile)
    → lower_profile profiles allowed request preferred ≡ some (tier, profile)
    → (usable_profile profiles allowed request tier ≡ some profile)
      × (tier_index tier + 1 ≤ tier_index preferred)
unfolding lower_profile first_usable
lower_profile_sound profiles allowed request economical tier profile h = absurd (cc)
lower_profile_sound profiles allowed request _ tier profile h = ground arith

pub lower_profile_highest :
    (profiles : Keyed ModelProfile) (allowed : List String) (request : RoutingRequest)
    (preferred tier between : Tier) (profile : ModelProfile)
    → lower_profile profiles allowed request preferred ≡ some (tier, profile)
    → tier_index tier < tier_index between
    → tier_index between < tier_index preferred
    → usable_profile profiles allowed request between ≡ none
unfolding lower_profile first_usable
lower_profile_highest profiles allowed request preferred tier economical profile h l m =
    absurd (omega arith)
lower_profile_highest profiles allowed request preferred tier deep profile h l m =
    absurd (ground arith)
lower_profile_highest profiles allowed request deep tier standard profile h l m = ground arith
lower_profile_highest profiles allowed request _ tier standard profile h l m = absurd (omega arith)

pub permitted-contains :
    (profiles : Keyed ModelProfile) (ids : List String) (k : String)
    → contains ids k ≡ true
    → is_some (lookup k profiles) ≡ true
    → contains (select_items (λ i. is_some (lookup i profiles)) ids) k ≡ true
permitted-contains profiles [] k h r = cc
permitted-contains profiles (i ∷ ids) k h r =
    ground (arith, permitted-contains profiles ids k, eq_iff i k)

pub within_budget_complete :
    (profiles : Keyed ModelProfile) (request : RoutingRequest) (tier : Tier)
    (profile : ModelProfile)
    → IsPermitted profiles request tier profile
    → within_budget profile request ≡ true
unfolding within_budget
within_budget_complete profiles request tier profile p = ground arith
