-- ===== src/Graph.antt =====
-- What the tables of transitions of backend/orchestrator/state_machine.py and
-- backend/control/day_state_machine.py have in common: a set of targets for each state.
use ai_control_center.Base.{Bool, List, any}

module _ {S : Type 0} where
  -- `target in table[source]`, for a test of equality of states
  abbrev pub is_target : (S → S → Bool) → S → List S → Bool
  is_target same target targets = any (same target) targets
