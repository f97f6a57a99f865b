-- ===== src/Repair/Stored.antt =====
-- The repair controller of backend/control/repair_recovery.py and the store of
-- backend/control/run_store.py: what the controller does to its run can be stored.
use ai_control_center.Base.{ℕ, ◌≡◌, ◌⊎◌, none}
use ai_control_center.Runs.{RunRecord, same_identity}
use ai_control_center.Runs.Store.{update_error}
use ai_control_center.Repair.{RepairCall, attempt_made, review_made}

abbrev pub called_at : RepairCall → ℕ
called_at (attempt_made now attempt) = now
called_at (review_made now review) = now

-- A record that replaces another in the store: the same one, or one that passes the checks of `update` and
-- is as valid as the old one.
abbrev pub CanReplace : RunRecord → RunRecord → Type 0
CanReplace old new =
    (new ≡ old)
    ⊎ ((update_error old new old.control.updated_at ≡ none)
        × (same_identity new ≡ same_identity old))
