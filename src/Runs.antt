-- ===== src/Runs.antt =====
-- backend/models/local_llm_day.py: the records of a run. A time is a number of microseconds, since each of
-- these values refuses a time without a zone; `max_cost` is the text of a number. The literal schema
-- versions are left out.
pub mod Store
pub mod Log
pub mod Untouched
pub mod Append
pub mod Versions
pub mod Faults
pub mod Latest
use ai_control_center.Base.{
  ℕ, ◌≡◌, String, Bool, true, false, ◌&&◌, Option, none, some, List, [], ◌∷◌, arith, ◌==◌, eq_iff,
  same_number, refl,
}
use ai_control_center.Contract.{LocalLlmDayState, same_phase}

pub record RunLimits : Type 0 where
  pub active_work_seconds : ℕ
  pub max_attempts : ℕ
  pub max_tokens : Option ℕ
  pub max_cost : String
  pub currency : String

pub record RunIntent : Type 0 where
  pub run_id : String
  pub selected_day : ℕ
  pub go_at : ℕ
  pub contract_fingerprint : String
  pub policy_fingerprint : String
  pub config_fingerprint : String
  pub git_fingerprint : String
  pub requested_limits : RunLimits

pub record RunControl : Type 0 where
  pub run_id : String
  pub selected_day : ℕ
  pub contract_fingerprint : String
  pub current_state : LocalLlmDayState
  pub state_history : List LocalLlmDayState
  pub next_action : String
  pub blocker : Option String
  pub resume_preflight : Bool  -- `resume_target`, which is "PREFLIGHT" or missing
  pub updated_at : ℕ

pub record RunRecord : Type 0 where
  pub intent : RunIntent
  pub control : RunControl

-- `same_identity`
unfoldable pub same_identity : RunRecord → Bool
same_identity run =
    (run.intent.run_id == run.control.run_id)
    && same_number run.intent.selected_day run.control.selected_day
    && (run.intent.contract_fingerprint == run.control.contract_fingerprint)

abbrev pub same_tokens : Option ℕ → Option ℕ → Bool
same_tokens none none = true
same_tokens (some a) (some b) = same_number a b
same_tokens _ _ = false

-- `==` on the two frozen models
unfoldable pub same_limits : RunLimits → RunLimits → Bool
same_limits a b =
    same_number a.active_work_seconds b.active_work_seconds
    && same_number a.max_attempts b.max_attempts
    && same_tokens a.max_tokens b.max_tokens
    && (a.max_cost == b.max_cost)
    && (a.currency == b.currency)

unfoldable pub same_intent : RunIntent → RunIntent → Bool
same_intent a b =
    (a.run_id == b.run_id)
    && same_number a.selected_day b.selected_day
    && same_number a.go_at b.go_at
    && (a.contract_fingerprint == b.contract_fingerprint)
    && (a.policy_fingerprint == b.policy_fingerprint)
    && (a.config_fingerprint == b.config_fingerprint)
    && (a.git_fingerprint == b.git_fingerprint)
    && same_limits a.requested_limits b.requested_limits

-- `==` on tuples of states
abbrev pub same_history : List LocalLlmDayState → List LocalLlmDayState → Bool
same_history [] [] = true
same_history (s ∷ ss) (t ∷ ts) = same_phase s t && same_history ss ts
same_history _ _ = false

same_limits_sound : (a b : RunLimits) → same_limits a b ≡ true → a ≡ b
unfolding same_limits
same_limits_sound a b h = ground (arith, eq_iff a.max_cost b.max_cost, eq_iff a.currency b.currency)

pub same_intent_sound : (a b : RunIntent) → same_intent a b ≡ true → a ≡ b
unfolding same_intent
same_intent_sound a b h = ground (
  arith,
  eq_iff a.run_id b.run_id,
  eq_iff a.contract_fingerprint b.contract_fingerprint,
  eq_iff a.policy_fingerprint b.policy_fingerprint,
  eq_iff a.config_fingerprint b.config_fingerprint,
  eq_iff a.git_fingerprint b.git_fingerprint,
  same_limits_sound a.requested_limits b.requested_limits,
)

same_phase_sound : (s t : LocalLlmDayState) → same_phase s t ≡ true → s ≡ t
same_phase_sound s t h = ground arith

pub same_history_sound : (ss ts : List LocalLlmDayState) → same_history ss ts ≡ true → ss ≡ ts
same_history_sound [] [] h = refl
same_history_sound [] (t ∷ ts) h = absurd (cc)
same_history_sound (s ∷ ss) [] h = absurd (cc)
same_history_sound (s ∷ ss) (t ∷ ts) h =
    ground (arith, same_phase_sound s t, same_history_sound ss ts)

same_limits_refl : (a : RunLimits) → same_limits a a ≡ true
unfolding same_limits
same_limits_refl a = ground (arith, eq_iff a.max_cost a.max_cost, eq_iff a.currency a.currency)

pub same_intent_refl : (a : RunIntent) → same_intent a a ≡ true
unfolding same_intent
same_intent_refl a = ground (
  arith,
  eq_iff a.run_id a.run_id,
  eq_iff a.contract_fingerprint a.contract_fingerprint,
  eq_iff a.policy_fingerprint a.policy_fingerprint,
  eq_iff a.config_fingerprint a.config_fingerprint,
  eq_iff a.git_fingerprint a.git_fingerprint,
  same_limits_refl a.requested_limits,
)

same_phase_refl : (s : LocalLlmDayState) → same_phase s s ≡ true
same_phase_refl s = ground arith

pub same_history_refl : (ss : List LocalLlmDayState) → same_history ss ss ≡ true
same_history_refl [] = refl
same_history_refl (s ∷ ss) = rw (same_phase_refl s) (same_history_refl ss)
