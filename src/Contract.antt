-- ===== src/Contract.antt =====
-- backend/control/day_state_machine.py: the transitions of a local LLM day under its frozen contract, with
-- the states of backend/models/local_llm_day.py.
use ai_control_center.Base.{
  ℕ, ◌≡◌, ◌≢◌, refl, Bool, true, false, ◌&&◌, ◌||◌, not, List, [], ◌∷◌, ◌++◌, arith, leb, any,
  if◌then◌else◌,
}
use ai_control_center.Graph.{is_target}

pub data LocalLlmDayState : Type 0 where
  idle preflight loading_contract inventory validating diagnosing_gap : LocalLlmDayState
  collecting_evidence executing_day_work corrective_work repair_supervisor : LocalLlmDayState
  revalidating running paused complete human_action_required : LocalLlmDayState
  external_action_required failed_unrecoverable failed stopped : LocalLlmDayState

-- `ACTIVE`
abbrev pub is_active_phase : LocalLlmDayState → Bool
is_active_phase preflight = true
is_active_phase loading_contract = true
is_active_phase inventory = true
is_active_phase validating = true
is_active_phase diagnosing_gap = true
is_active_phase collecting_evidence = true
is_active_phase executing_day_work = true
is_active_phase corrective_work = true
is_active_phase repair_supervisor = true
is_active_phase revalidating = true
is_active_phase _ = false

-- `TRANSITIONS`, before the states of `ACTIVE` get three targets more
abbrev pub contract_targets : LocalLlmDayState → List LocalLlmDayState
contract_targets idle = preflight ∷ []
contract_targets preflight =
    loading_contract ∷ human_action_required ∷ external_action_required ∷ []
contract_targets loading_contract = inventory ∷ []
contract_targets inventory = validating ∷ []
contract_targets validating = complete ∷ diagnosing_gap ∷ []
contract_targets diagnosing_gap =
    collecting_evidence ∷ executing_day_work ∷ corrective_work ∷ repair_supervisor ∷ revalidating
    ∷ human_action_required ∷ external_action_required ∷ []
contract_targets collecting_evidence =
    revalidating ∷ repair_supervisor ∷ human_action_required ∷ external_action_required ∷ []
contract_targets executing_day_work =
    revalidating ∷ repair_supervisor ∷ human_action_required ∷ external_action_required ∷ []
contract_targets corrective_work =
    revalidating ∷ repair_supervisor ∷ human_action_required ∷ external_action_required ∷ []
contract_targets repair_supervisor =
    revalidating ∷ human_action_required ∷ external_action_required ∷ []
contract_targets revalidating = validating ∷ []
contract_targets running = []
contract_targets paused = preflight ∷ []
contract_targets complete = []
contract_targets human_action_required = preflight ∷ []
contract_targets external_action_required = preflight ∷ []
contract_targets failed_unrecoverable = preflight ∷ []
contract_targets failed = []
contract_targets stopped = preflight ∷ []

-- `TRANSITIONS`; a state without a row has no target.
abbrev pub targets : LocalLlmDayState → List LocalLlmDayState
targets before =
    if is_active_phase before
    then contract_targets before ++ paused ∷ stopped ∷ failed_unrecoverable ∷ []
    else contract_targets before

abbrev phase_code : LocalLlmDayState → ℕ
phase_code idle = 0
phase_code preflight = 1
phase_code loading_contract = 2
phase_code inventory = 3
phase_code validating = 4
phase_code diagnosing_gap = 5
phase_code collecting_evidence = 6
phase_code executing_day_work = 7
phase_code corrective_work = 8
phase_code repair_supervisor = 9
phase_code revalidating = 10
phase_code running = 11
phase_code paused = 12
phase_code complete = 13
phase_code human_action_required = 14
phase_code external_action_required = 15
phase_code failed_unrecoverable = 16
phase_code failed = 17
phase_code stopped = 18

-- `==` on states
abbrev pub same_phase : LocalLlmDayState → LocalLlmDayState → Bool
same_phase s t = leb (phase_code s) (phase_code t) && leb (phase_code t) (phase_code s)

-- `validate_transition` returns; it raises where this is false.
unfoldable pub validate_transition : LocalLlmDayState → LocalLlmDayState → Bool
validate_transition before after =
    not (same_phase before after || not (is_target same_phase after (targets before)))

-- Each state of the list follows the one before it.
unfoldable validate_walk : LocalLlmDayState → List LocalLlmDayState → Bool
validate_walk before [] = true
validate_walk before (after ∷ later) = validate_transition before after && validate_walk after later

abbrev last_phase : LocalLlmDayState → List LocalLlmDayState → LocalLlmDayState
last_phase before [] = before
last_phase before (after ∷ later) = last_phase after later

-- The states that a day can be in before its inventory.
abbrev is_before_inventory : LocalLlmDayState → Bool
is_before_inventory idle = true
is_before_inventory preflight = true
is_before_inventory loading_contract = true
is_before_inventory paused = true
is_before_inventory stopped = true
is_before_inventory failed_unrecoverable = true
is_before_inventory human_action_required = true
is_before_inventory external_action_required = true
is_before_inventory _ = false

-- What a row may hold, for the two theorems.
record RowEntry (before after : LocalLlmDayState) : Type 0 where
  completes : same_phase after complete ≡ true → before ≡ validating
  enters :
      is_before_inventory before ≡ true
      → is_before_inventory after || same_phase after inventory ≡ true

entry :
    (before after : LocalLlmDayState)
    → is_target same_phase after (targets before) ≡ true
    → RowEntry before after
entry before after h = record { completes = λ e. ground arith; enters = λ e. ground arith }

validated_target :
    (before after : LocalLlmDayState)
    → validate_transition before after ≡ true
    → RowEntry before after
unfolding validate_transition
validated_target before after h = entry before after (ground arith)

-- A transition to COMPLETE is validated from VALIDATING and from no other state.
complete_after_validating :
    (before : LocalLlmDayState) → validate_transition before complete ≡ true → before ≡ validating
complete_after_validating before h = (validated_target before complete h).completes refl

-- A validated sequence of states that starts before the inventory and does not hold INVENTORY ends before
-- the inventory: not in VALIDATING, nor in COMPLETE, nor in any state that works on the day.
walk_needs_inventory :
    (before : LocalLlmDayState) (later : List LocalLlmDayState)
    → validate_walk before later ≡ true
    → is_before_inventory before ≡ true
    → any (same_phase inventory) later ≡ false
    → is_before_inventory (last_phase before later) ≡ true
unfolding validate_walk
walk_needs_inventory before [] v h q = h
walk_needs_inventory before (after ∷ later) v h q =
    let next = (validated_target before after (ground arith)).enters h in
    walk_needs_inventory after later (ground arith) (ground arith) (ground arith)

-- No transition leaves COMPLETE, RUNNING or FAILED, and none stays in its state.
validated_moves :
    (before after : LocalLlmDayState)
    → validate_transition before after ≡ true
    → (before ≢ after) × ((before ≢ complete) × ((before ≢ running) × (before ≢ failed)))
unfolding validate_transition
validated_moves before after h =
    (λ e. ground arith, (λ e. ground arith, (λ e. ground arith, λ e. ground arith)))
