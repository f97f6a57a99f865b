-- ===== src/Day/Account.antt =====
-- backend/orchestrator/day_runner.py: how `DayRunner` adds up token usage by role and by profile.
use mathlib.Core.List.{◌++◌}
use ai_control_center.Base.{String, Option, none, some, [], ◌∷◌, ◌==◌, if◌then◌else◌}
use ai_control_center.Base.Int.{ℤ}
use ai_control_center.Base.Keyed.{Keyed, contains, lookup, insert, set_default}
use ai_control_center.Usage.{TokenUsage, add_usage}
use ai_control_center.Routing.{
  RoutingRole, ModelProfile, RoutingDecision, ProfileTokenUsage, architect, evaluator, codex,
}
use ai_control_center.Routing.Router.{accumulate_profile_usage}
use ai_control_center.Day.{RoleUsage, DayRunSnapshot}
use ai_control_center.Day.Runner.{DayRunner, audit, day_deterministic_no_ai}

abbrev pub usage_of : RoutingRole → RoleUsage → TokenUsage
usage_of architect usage = usage.architect
usage_of codex usage = usage.codex
usage_of evaluator usage = usage.evaluator

abbrev pub with_usage : RoutingRole → TokenUsage → RoleUsage → RoleUsage
with_usage architect u usage = record usage { architect = u }
with_usage codex u usage = record usage { codex = u }
with_usage evaluator u usage = record usage { evaluator = u }

-- `_add_usage`
unfoldable pub add_role_usage : RoutingRole → TokenUsage → DayRunner → DayRunner
add_role_usage role usage r =
    let sum = add_usage (usage_of role r.snapshot.token_usage) usage in
    record r {
      snapshot = record r.snapshot { token_usage = with_usage role sum r.snapshot.token_usage };
    }

abbrev pub empty_profile_usage : ProfileTokenUsage
empty_profile_usage = record {
  gross_input_tokens = 0;
  cached_input_tokens = 0;
  uncached_input_tokens = 0;
  output_tokens = 0;
  call_count = 0;
  duration_ms = 0;
}

abbrev pub or_empty : Option ProfileTokenUsage → ProfileTokenUsage
or_empty none = empty_profile_usage
or_empty (some usage) = usage

abbrev pub add_to_profile :
    Option String → TokenUsage → ℤ → Keyed ProfileTokenUsage → Keyed ProfileTokenUsage
add_to_profile none usage duration profiles = profiles
add_to_profile (some id) usage duration profiles =
    if id == ""
    then profiles
    else insert id (accumulate_profile_usage (or_empty (lookup id profiles)) usage duration)
        profiles

-- `_add_profile_usage`
unfoldable pub add_profile_usage : RoutingDecision → TokenUsage → ℤ → DayRunner → DayRunner
add_profile_usage routing usage duration r = record r {
  snapshot = record r.snapshot {
    profile_token_usage =
        add_to_profile routing.profile_id usage duration r.snapshot.profile_token_usage;
  };
}

-- `_ensure_profile_usage`
unfoldable pub ensure_profiles :
    Keyed ModelProfile → Keyed ProfileTokenUsage → Keyed ProfileTokenUsage
ensure_profiles [] usage = usage
ensure_profiles ((id, profile) ∷ profiles) usage =
    ensure_profiles profiles (set_default id empty_profile_usage usage)

unfoldable pub ensure_profile_usage : Option (Keyed ModelProfile) → DayRunSnapshot → DayRunSnapshot
ensure_profile_usage none s = s
ensure_profile_usage (some profiles) s = record s {
  profile_token_usage = ensure_profiles profiles s.profile_token_usage;
}

-- `_record_deterministic_zero_usage`
unfoldable pub record_zero_usage : String → DayRunner → DayRunner
record_zero_usage task_id r =
    if contains r.snapshot.deterministic_zero_usage_task_ids task_id
    then r
    else audit (day_deterministic_no_ai task_id) (record r {
      snapshot = record r.snapshot {
        deterministic_zero_usage_task_ids =
            r.snapshot.deterministic_zero_usage_task_ids ++ task_id ∷ [];
      };
    })
