-- ===== src/Runs/Log.antt =====
-- What the files of one run hold (backend/control/run_store.py): a log of its records, newest first.
use mathlib.Core.List.{◌++◌}
use ai_control_center.Base.{
  ℕ, ◌≤◌, ◌<◌, ◌≡◌, refl, ap, ◌∙◌, String, false, none, some, List, [], ◌∷◌, arith, map, All, any,
  eq_iff,
}
use ai_control_center.Base.Keyed.{contains, lookup, lookup-insert_self}
use ai_control_center.Runs.{RunRecord, same_intent_sound, same_history_sound}
use ai_control_center.Runs.Untouched.{Untouched}
use ai_control_center.Runs.Store.{
  or_no_versions, Stored, intact, RunFiles, found, written, no_fault, update_error, versions_at,
  is_version_of, keep_version, replace_current, read_stored, get, write_current, write_version,
}

-- What `update` asks of a record that follows another.
pub record Follows (old new : RunRecord) : Type 0 where
  pub same : new.intent ≡ old.intent
  pub later : old.control.updated_at < new.control.updated_at
  pub appended :
      new.control.state_history ≡ old.control.state_history ++ old.control.current_state ∷ []

-- Each record follows the next one of the list.
abbrev pub IsChain : RunRecord → List RunRecord → Type 0
IsChain run [] = Unit
IsChain run (old ∷ older) = Follows old run × IsChain old older

abbrev pub version_file : RunRecord → ℕ × Stored
version_file run = (run.control.updated_at, intact run)

pub update_error-Follows :
    (old new : RunRecord) (expected : ℕ) → update_error old new expected ≡ none → Follows old new
unfolding update_error
update_error-Follows old new expected e = record {
  same = ground (arith, same_intent_sound old.intent new.intent);
  later = ground arith;
  appended = ground (
    arith,
    same_history_sound new.control.state_history
        (old.control.state_history ++ old.control.current_state ∷ []),
  );
}

-- Every record of the list was updated before a time.
abbrev pub Below : ℕ → List RunRecord → Type 0
Below at older = All (λ old. old.control.updated_at < at) older

Below-le : (at later : ℕ) (older : List RunRecord) → at ≤ later → Below at older → Below later older
Below-le at later [] l h = tt
Below-le at later (old ∷ older) l h = (omega (arith, h.0), Below-le at later older l h.1)

pub Below-IsChain :
    (run : RunRecord) (older : List RunRecord)
    → IsChain run older
    → Below run.control.updated_at older
Below-IsChain run [] h = tt
Below-IsChain run (old ∷ older) h = (
  h.0.later,
  Below-le old.control.updated_at run.control.updated_at older (omega (arith, h.0.later))
      (Below-IsChain old older h.1),
)

unversioned-Below :
    (at : ℕ) (older : List RunRecord)
    → Below at older
    → any (is_version_of at) (map version_file older) ≡ false
unversioned-Below at [] h = refl
unversioned-Below at (old ∷ older) h = ground (arith, h.0, unversioned-Below at older h.1)

module _ (digest : String → String) where
  -- The files of a run hold a log: the current record, and the versions before it, newest first.
  pub record Holds (s : RunFiles) (run_id : String) (current : RunRecord) (older : List RunRecord)
      : Type 0 where
    pub now : lookup (digest run_id) s.current ≡ some (intact current)
    pub named : current.intent.run_id ≡ run_id
    pub past : versions_at (digest run_id) s ≡ map version_file older
    pub chain : IsChain current older
    pub clean : contains s.temporary (digest run_id) ≡ false

  -- What a log becomes: the files hold a log that ends in the one that they held.
  abbrev pub Grown : String → RunRecord → List RunRecord → RunFiles → Type 0
  Grown run_id current older s =
      (current' : RunRecord) × (older' : List RunRecord) × (recent : List RunRecord) × Holds s
        run_id current' older'
      × (current' ∷ older' ≡ recent ++ current ∷ older)

  pub get-Holds :
      (s : RunFiles) (run_id : String) (current : RunRecord) (older : List RunRecord)
      → Holds s run_id current older
      → get digest run_id s ≡ found (some current)
  unfolding get read_stored
  get-Holds s run_id current older h =
      rw h.now (rw ((eq_iff current.intent.run_id run_id).1 h.named) refl)

  pub unversioned :
      (s : RunFiles) (run_id : String) (current : RunRecord) (older : List RunRecord)
      → Holds s run_id current older
      → any (is_version_of current.control.updated_at) (versions_at (digest run_id) s) ≡ false
  unversioned s run_id current older h =
      rw h.past
        (unversioned-Below current.control.updated_at older (Below-IsChain current older h.chain))

  pub write_version-Holds :
      (s : RunFiles) (run_id : String) (current new : RunRecord) (older : List RunRecord)
      → Holds s run_id current older
      → Follows current new
      → new.intent.run_id ≡ run_id
      → (s' : RunFiles) × (write_version (digest run_id) current new no_fault s ≡ written s')
        × Holds s' run_id new (current ∷ older)
  unfolding write_version write_current
  write_version-Holds s run_id current new older h f named =
      let name = digest run_id in
      let kept = keep_version name current.control.updated_at (intact current) s in
      (
        replace_current name new kept,
        rw (unversioned s run_id current older h) (rw h.clean refl),
        record {
          now = lookup-insert_self name (intact new) s.current;
          named = named;
          past =
              rw (lookup-insert_self name _ s.history)
                (ap (λ rest. version_file current ∷ rest) h.past);
          chain = (f, h.chain);
          clean = h.clean;
        },
      )

  pub Holds-Untouched :
      (s s' : RunFiles) (run_id : String) (current : RunRecord) (older : List RunRecord)
      → Holds s run_id current older
      → Untouched (digest run_id) s s'
      → Holds s' run_id current older
  Holds-Untouched s s' run_id current older h u = record {
    now = u.now ∙ h.now;
    named = h.named;
    past = ap or_no_versions u.past ∙ h.past;
    chain = h.chain;
    clean = u.clean ∙ h.clean;
  }
