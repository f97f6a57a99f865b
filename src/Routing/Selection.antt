-- ===== src/Routing/Selection.antt =====
-- What `ModelRouter.select` promises: a profile is selected only inside the plan's policy and the
-- remaining budgets, and it is selected whenever nothing stands against it.
use mathlib.Core.Path.{subst}
use ai_control_center.Base.{
  ◌≤◌, ◌<◌, ◌≡◌, refl, ◌≢◌, ◌⊎◌, inl, inr, String, true, false, Option, none, some, arith, ltb,
  ◌==◌, Bool-cases, Option-cases, if◌then◌else◌,
}
use ai_control_center.Base.Keyed.{Keyed, contains, lookup}
use ai_control_center.Routing.{
  ModelProfile, ProviderProfile, RoutingRequest, selected, RoutingDecision,
}
use ai_control_center.Routing.Tier.{Tier, tier_id, tier_index, Preference, preferred_profile}
use ai_control_center.Routing.Router.{
  within_budget, usable_profile, lower_profile, resolve_provider_profile, selection_reason,
  bind_provider, downgrade_to, downgrade_target, permitted, select_registered, select,
}
use ai_control_center.Routing.Permits.{
  IsLevelled, IsPermitted, permitted-IsPermitted, usable-IsPermitted, contains-permitted,
  lower_profile_sound, lower_profile_highest, permitted-contains, within_budget_complete,
}

abbrev pub transport_of : RoutingRequest → ModelProfile → Option ProviderProfile
transport_of request profile =
    if request.execution_provider == "mock"
    then none
    else resolve_provider_profile profile request.execution_provider

-- One of the profile's two estimates exceeds what is left of the role's or of the day's budget.
abbrev pub IsOver : ModelProfile → RoutingRequest → Type 0
IsOver profile request =
    (request.remaining_role_input_tokens < profile.estimated_input_tokens)
    ⊎ (request.remaining_role_output_tokens < profile.estimated_output_tokens)
    ⊎ (request.remaining_day_input_tokens < profile.estimated_input_tokens)
    ⊎ (request.remaining_day_output_tokens < profile.estimated_output_tokens)

within_budget-IsOver :
    (profile : ModelProfile) (request : RoutingRequest)
    → within_budget profile request ≡ false
    → IsOver profile request
unfolding within_budget
within_budget-IsOver profile request h = ground arith

-- Why a tier may be selected: it is the preferred one, or the policy allows a downgrade, the
-- preferred profile is over budget, and no usable tier stands between the two.
pub data Grounds (profiles : Keyed ModelProfile) (request : RoutingRequest) (preferred tier : Tier)
    : Type 0 where
  as_preferred : tier ≡ preferred → Grounds profiles request preferred tier
  as_downgrade :
      request.plan_policy.allow_budget_downgrade ≡ true
      → (profile : ModelProfile) → lookup (tier_id preferred) profiles ≡ some profile
      → IsOver profile request
      → tier_index tier < tier_index preferred
      → ((between : Tier)
          → tier_index tier < tier_index between
          → tier_index between < tier_index preferred
          → usable_profile profiles (permitted profiles request) request between ≡ none)
      → Grounds profiles request preferred tier

-- What a decision that selects a profile certifies.
pub record Certifies (profiles : Keyed ModelProfile) (request : RoutingRequest)
    (decision : RoutingDecision) (tier : Tier) (profile : ModelProfile) : Type 0 where
  pub named : decision.profile_id ≡ some (tier_id tier)
  pub provided : decision.provider ≡ some request.execution_provider
  pub mapped : decision.settings ≡ transport_of request profile
  pub level : decision.escalation_level ≤ request.plan_policy.max_escalation_level
  pub within : IsPermitted profiles request tier profile
  pub grounds : Grounds profiles request (preferred_profile request).tier tier

bind_provider-Certifies :
    (profiles : Keyed ModelProfile) (request : RoutingRequest) (tier : Tier)
    (profile : ModelProfile) (reason : String)
    → IsPermitted profiles request tier profile
    → Grounds profiles request (preferred_profile request).tier tier
    → (bind_provider request (preferred_profile request) tier profile reason).outcome ≡ selected
    → Certifies profiles request
        (bind_provider request (preferred_profile request) tier profile reason)
        tier
        profile
unfolding bind_provider
bind_provider-Certifies profiles request tier profile reason p g h = record {
  named = ground arith;
  provided = ground arith;
  mapped = ground arith;
  level = ground (arith, p.levelled);
  within = p;
  grounds = g;
}

abbrev pub Justified : Keyed ModelProfile → RoutingRequest → RoutingDecision → Type 0
Justified profiles request decision =
    (tier : Tier) × (profile : ModelProfile) × Certifies profiles request decision tier profile

downgrade_to-Justified :
    (profiles : Keyed ModelProfile) (request : RoutingRequest) (over : ModelProfile)
    (o : Option (Tier × ModelProfile))
    → lookup (tier_id (preferred_profile request).tier) profiles ≡ some over
    → IsOver over request
    → IsLevelled request
    → downgrade_target profiles request (preferred_profile request).tier ≡ o
    → (downgrade_to request (preferred_profile request) o).outcome ≡ selected
    → Justified profiles request (downgrade_to request (preferred_profile request) o)
unfolding downgrade_to
downgrade_to-Justified profiles request over none r x l e h = absurd (cc)
downgrade_to-Justified profiles request over (some (tier, profile)) r x l e h =
    let preferred = (preferred_profile request).tier in
    let allowed = permitted profiles request in
    let on : request.plan_policy.allow_budget_downgrade ≡ true = ground arith in
    let found : lower_profile profiles allowed request preferred ≡ some (tier, profile) =
      ground arith in
    let below = lower_profile_sound profiles allowed request preferred tier profile found in
    (
      tier,
      profile,
      bind_provider-Certifies profiles request tier profile _
          (usable-IsPermitted profiles request tier profile below.0 l)
          (as_downgrade on over r x (omega arith) λ between.
            lower_profile_highest profiles allowed request preferred tier between profile found)
          h,
    )

-- Of a decision that selects: it is justified.
abbrev WhenSelected : Keyed ModelProfile → RoutingRequest → Option RoutingDecision → Type 0
WhenSelected profiles request none = Unit
WhenSelected profiles request (some d) = d.outcome ≡ selected → Justified profiles request d

select_registered-WhenSelected :
    (profiles : Keyed ModelProfile) (request : RoutingRequest) (o : Option ModelProfile)
    → lookup (tier_id (preferred_profile request).tier) profiles ≡ o
    → contains (permitted profiles request) (tier_id (preferred_profile request).tier) ≡ true
    → IsLevelled request
    → WhenSelected profiles request
        (select_registered profiles request (preferred_profile request) o)
unfolding select_registered
select_registered-WhenSelected profiles request none e c l = tt
select_registered-WhenSelected profiles request (some profile) e c l =
    let preferred = (preferred_profile request).tier in
    elim (Bool-cases (within_budget profile request)) [
      | inl fits ↦ rw fits (λ h. (
        preferred,
        profile,
        bind_provider-Certifies profiles request preferred profile _
            (permitted-IsPermitted profiles request preferred profile e c fits l)
            (as_preferred refl) h,
      ))
      | inr over ↦ rw over (
          downgrade_to-Justified profiles request profile
            (downgrade_target profiles request preferred) e
            (within_budget-IsOver profile request over) l refl)
    ]

select-WhenSelected :
    (profiles : Keyed ModelProfile) (request : RoutingRequest)
    → WhenSelected profiles request (select profiles request)
unfolding select
select-WhenSelected profiles request =
    let preference = preferred_profile request in
    elim (Bool-cases (contains (permitted profiles request) (tier_id preference.tier))) [
      | inr out ↦ rw out (λ h. cc)
      | inl inside ↦
          rw inside
            (elim (Bool-cases (ltb request.plan_policy.max_escalation_level preference.level)) [
              | inl high ↦ rw high (λ h. cc)
              | inr low ↦ rw low (
                  select_registered-WhenSelected profiles request _ refl inside
                    (ground (arith, low)))
            ])
    ]

-- A decision that selects names a tier that is registered, that the plan's policy allows and whose
-- estimates fit the four remaining budgets; its escalation level is not above the policy's greatest; its
-- transport settings are those of the requested provider; and the tier is the preferred one, or, when the
-- preferred one's profile exceeds a budget, a downgrade that the policy allows to the nearest usable tier
-- below it.
pub select-Justified :
    (profiles : Keyed ModelProfile) (request : RoutingRequest) (d : RoutingDecision)
    → select profiles request ≡ some d
    → d.outcome ≡ selected
    → Justified profiles request d
select-Justified profiles request d e h =
    subst (WhenSelected profiles request) e (select-WhenSelected profiles request) h

select-ne-none :
    (profiles : Keyed ModelProfile) (request : RoutingRequest) → select profiles request ≢ none
unfolding select select_registered
select-ne-none profiles request = ground (
  arith,
  contains-permitted profiles request.plan_policy.allowed_profile_ids
      (tier_id (preferred_profile request).tier),
)

-- The router always answers: no lookup of a profile fails.
select_total :
    (profiles : Keyed ModelProfile) (request : RoutingRequest)
    → (d : RoutingDecision) × (select profiles request ≡ some d)
select_total profiles request = elim (Option-cases (select profiles request)) [
  | inl e ↦ absurd (select-ne-none profiles request e)
  | inr found ↦ found
]

bind_provider_complete :
    (request : RoutingRequest) (preference : Preference) (tier : Tier) (profile : ModelProfile)
    (settings : ProviderProfile) (reason : String)
    → (request.execution_provider == "mock" ≡ true)
      ⊎ (resolve_provider_profile profile request.execution_provider ≡ some settings)
    → ((bind_provider request preference tier profile reason).outcome ≡ selected)
      × ((bind_provider request preference tier profile reason).profile_id ≡ some (tier_id tier))
unfolding bind_provider
bind_provider_complete request preference tier profile settings reason m = ground arith

-- The preferred profile is selected whenever the policy names it and allows its escalation level,
-- it is registered with a transport for the requested provider (or the provider is the mock), and
-- it fits the remaining budgets.
pub select_complete :
    (profiles : Keyed ModelProfile) (request : RoutingRequest) (profile : ModelProfile)
    (settings : ProviderProfile)
    → IsPermitted profiles request (preferred_profile request).tier profile
    → (request.execution_provider == "mock" ≡ true)
      ⊎ (resolve_provider_profile profile request.execution_provider ≡ some settings)
    → (d : RoutingDecision) × (select profiles request ≡ some d)
      × ((d.outcome ≡ selected) × (d.profile_id ≡ some (tier_id (preferred_profile request).tier)))
unfolding select select_registered
select_complete profiles request profile settings p m =
    let tier = (preferred_profile request).tier in
    (
      bind_provider request (preferred_profile request) tier profile
          (selection_reason request tier (preferred_profile request).reason),
      ground (
        arith,
        permitted-contains profiles request.plan_policy.allowed_profile_ids (tier_id tier),
        within_budget_complete profiles request tier profile p,
        p.levelled,
      ),
      bind_provider_complete request (preferred_profile request) tier profile settings _ m,
    )
