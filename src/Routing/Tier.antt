-- ===== src/Routing/Tier.antt =====
-- backend/control/model_router.py: the order of the profiles and the one that a request prefers. The
-- source keeps the three names in a tuple and finds a name's place by `index`; here a name is a
-- `Tier`, and `tier_id` and `tier_index` give its spelling and its place.
use Prim.Native.String.{◌++◌}
use ai_control_center.Base.{
  ℕ, String, Bool, true, false, Option, none, some, List, [], ◌∷◌, if◌then◌else◌,
}
use ai_control_center.Routing.{
  RoutingRole, architect, evaluator, codex, TaskComplexity, simple, normal, complex, FailureType,
  reasoning, unknown, failure_value, RoutingRequest,
}

pub data Tier : Type 0 where
  economical standard deep : Tier

abbrev pub tier_id : Tier → String
tier_id economical = "economical"
tier_id standard = "standard"
tier_id deep = "deep"

abbrev pub tier_index : Tier → ℕ
tier_index economical = 0
tier_index standard = 1
tier_index deep = 2

-- `_ORDER[min(_ORDER.index(base) + 1, len(_ORDER) - 1)]`
abbrev pub next_tier : Tier → Tier
next_tier economical = standard
next_tier standard = deep
next_tier deep = deep

-- `reversed(_ORDER[:_ORDER.index(selected)])`
abbrev pub lower_tiers : Tier → List Tier
lower_tiers economical = []
lower_tiers standard = economical ∷ []
lower_tiers deep = standard ∷ economical ∷ []

-- The first choice of `base`, by role.
abbrev pub role_tier : RoutingRole → TaskComplexity → Tier
role_tier architect simple = economical
role_tier architect _ = standard
role_tier evaluator simple = economical
role_tier evaluator _ = standard
role_tier codex simple = economical
role_tier codex normal = standard
role_tier codex complex = deep

abbrev pub base_tier : RoutingRole → TaskComplexity → Tier
base_tier role complex = deep
base_tier role simple = role_tier role simple
base_tier role normal = role_tier role normal

abbrev pub is_escalatable : FailureType → Bool
is_escalatable reasoning = true
is_escalatable unknown = true
is_escalatable _ = false

pub record Preference : Type 0 where
  pub tier : Tier
  pub level : ℕ
  pub reason : Option String

-- Each failure type is either escalatable or in `_NON_ESCALATABLE`.
abbrev pub preference_after : Tier → Option FailureType → Preference
preference_after base none = record { tier = base; level = tier_index base; reason = none }
preference_after base (some failure) =
    if is_escalatable failure
    then record {
      tier = next_tier base;
      level = tier_index (next_tier base);
      reason = some ("previous " ++ failure_value failure);
    }
    else record {
      tier = base;
      level = 0;
      reason = some (failure_value failure ++ " is not eligible for reasoning escalation");
    }

unfoldable pub preferred_profile : RoutingRequest → Preference
preferred_profile request =
    preference_after (base_tier request.role request.task_complexity) request.previous_failure_type
