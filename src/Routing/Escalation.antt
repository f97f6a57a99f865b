-- ===== src/Routing/Escalation.antt =====
-- How far a failure may raise the tier that backend/control/model_router.py selects.
use ai_control_center.Base.{ℕ, ◌+◌, ◌≤◌, ◌≡◌, Option, none, some, arith, if◌then◌else◌}
use ai_control_center.Base.Keyed.{Keyed}
use ai_control_center.Routing.{FailureType, ModelProfile, RoutingRequest, selected, RoutingDecision}
use ai_control_center.Routing.Tier.{
  Tier, tier_id, tier_index, base_tier, is_escalatable, preferred_profile,
}
use ai_control_center.Routing.Router.{select}
use ai_control_center.Routing.Selection.{Grounds, as_preferred, as_downgrade, select-Justified}

-- One tier for a failure that more reasoning may mend, none for any other.
abbrev pub allowance : Option FailureType → ℕ
allowance none = 0
allowance (some failure) = if is_escalatable failure then 1 else 0

preferred_tier_bound :
    (request : RoutingRequest)
    → tier_index (preferred_profile request).tier
      ≤ tier_index (base_tier request.role request.task_complexity)
        + allowance request.previous_failure_type
unfolding preferred_profile
preferred_tier_bound request = ground arith

Grounds-bound :
    (profiles : Keyed ModelProfile) (request : RoutingRequest) (preferred tier : Tier)
    → Grounds profiles request preferred tier
    → tier_index tier ≤ tier_index preferred
Grounds-bound profiles request preferred tier (as_preferred e) = ground arith
Grounds-bound profiles request preferred tier (as_downgrade on profile found over below highest) =
    omega arith

-- A selected tier is never above the one for the task's role and complexity, but for one step after
-- a reasoning or an unknown failure; after any other failure it does not rise.
pub select_bounded_escalation :
    (profiles : Keyed ModelProfile) (request : RoutingRequest) (d : RoutingDecision)
    → select profiles request ≡ some d
    → d.outcome ≡ selected
    → (tier : Tier) × (d.profile_id ≡ some (tier_id tier))
      × (tier_index tier
          ≤ tier_index (base_tier request.role request.task_complexity)
            + allowance request.previous_failure_type)
select_bounded_escalation profiles request d e h =
    let (tier, profile, c) = select-Justified profiles request d e h in
    (
      tier,
      c.named,
      omega (
        arith,
        Grounds-bound profiles request (preferred_profile request).tier tier c.grounds,
        preferred_tier_bound request,
      ),
    )
