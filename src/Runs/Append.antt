-- ===== src/Runs/Append.antt =====
-- Updates of backend/control/run_store.py append to the log of a run, and no call takes a record out of it.
use mathlib.Core.List.{◌++◌, append_assoc}
use mathlib.Core.Path.{subst}
use ai_control_center.Base.{
  ℕ, ◌≡◌, refl, sym, ◌∙◌, String, Bool, true, false, not, ◌||◌, none, some, List, [], ◌∷◌, arith,
  all, ◌==◌, eq_iff, Bool-cases, Option-cases, inl, inr,
}
use ai_control_center.Base.Keyed.{contains, lookup, insert, lookup-insert_self}
use ai_control_center.Runs.{RunRecord, same_identity}
use ai_control_center.Runs.Store.{
  intact, RunFiles, StoreError, invalid_record, written, refused, files_after, WriteFault, no_fault,
  update_error, create, update_checked, update_from, update, StoreCall, create_run, update_run,
  store, store_all,
}
use ai_control_center.Runs.Untouched.{Untouched, Untouched-update, Untouched-create}
use ai_control_center.Runs.Log.{
  Holds, Grown, get-Holds, write_version-Holds, Holds-Untouched, update_error-Follows,
}

abbrev pub is_no_fault : WriteFault → Bool
is_no_fault no_fault = true
is_no_fault _ = false

-- No write of the call fails on the files of a run.
abbrev pub is_quiet : String → StoreCall → Bool
is_quiet run_id (create_run new writes) = true
is_quiet run_id (update_run new expected fault) =
    not (new.intent.run_id == run_id) || is_no_fault fault

module _ (digest : String → String) where
  -- When the files of a run hold an undamaged log, whose current record can be read, whose versions are
  -- exactly those of the older records, each followed by the next as the checks of an update ask, and of which
  -- no temporary file is left, a valid record that passes the checks against the current one is written, when
  -- no write fails: the files hold such a log again, in which it is the current record and the one that it
  -- replaces the newest version.
  pub update_accepts :
      (s : RunFiles) (current new : RunRecord) (older : List RunRecord) (expected : ℕ)
      → Holds digest s new.intent.run_id current older
      → same_identity new ≡ true
      → update_error current new expected ≡ none
      → (s' : RunFiles) × (update digest new expected no_fault s ≡ written s')
        × Holds digest s' new.intent.run_id new (current ∷ older)
  unfolding update update_from update_checked
  update_accepts s current new older expected h valid passes =
      let (s', e, k) =
        write_version-Holds digest s new.intent.run_id current new older h
          (update_error-Follows current new expected passes) refl in
      (s', rw valid (rw (get-Holds digest s new.intent.run_id current older h) (rw passes e)), k)

  -- A valid record that fails a check against the current one is refused with that check's error, whichever
  -- write would have failed, and the directory is left as it is.
  pub update_refuses :
      (s : RunFiles) (current new : RunRecord) (older : List RunRecord) (expected : ℕ)
      (fault : WriteFault) (error : StoreError)
      → Holds digest s new.intent.run_id current older
      → same_identity new ≡ true
      → update_error current new expected ≡ some error
      → update digest new expected fault s ≡ refused error s
  unfolding update update_from update_checked
  update_refuses s current new older expected fault error h valid fails =
      rw valid (rw (get-Holds digest s new.intent.run_id current older h) (rw fails refl))

  -- A run that is created with no file of its name there starts a log.
  pub create-Holds :
      (s : RunFiles) (new : RunRecord)
      → same_identity new ≡ true
      → lookup (digest new.intent.run_id) s.current ≡ none
      → lookup (digest new.intent.run_id) s.history ≡ none
      → contains s.temporary (digest new.intent.run_id) ≡ false
      → (s' : RunFiles) × (create digest new true s ≡ written s')
        × Holds digest s' new.intent.run_id new []
  unfolding create
  create-Holds s new valid free fresh clean = (
    record s { current = insert (digest new.intent.run_id) (intact new) s.current },
    rw valid (rw free refl),
    record {
      now = lookup-insert_self (digest new.intent.run_id) (intact new) s.current;
      named = refl;
      past = rw fresh refl;
      chain = tt;
      clean = clean;
    },
  )

  update_invalid :
      (s : RunFiles) (new : RunRecord) (expected : ℕ) (fault : WriteFault)
      → same_identity new ≡ false
      → update digest new expected fault s ≡ refused invalid_record s
  unfolding update
  update_invalid s new expected fault invalid = rw invalid refl

  Grown-refl :
      (s : RunFiles) (run_id : String) (current : RunRecord) (older : List RunRecord)
      → Holds digest s run_id current older
      → Grown digest run_id current older s
  Grown-refl s run_id current older h = (current, older, [], h, refl)

  own-Grown :
      (s : RunFiles) (current new : RunRecord) (older : List RunRecord) (expected : ℕ)
      → Holds digest s new.intent.run_id current older
      → Grown digest new.intent.run_id current older
          (files_after (update digest new expected no_fault s))
  own-Grown s current new older expected h = elim (Bool-cases (same_identity new)) [
    | inr invalid ↦
        rw (update_invalid s new expected no_fault invalid)
          (Grown-refl s new.intent.run_id current older h)
    | inl valid ↦ elim (Option-cases (update_error current new expected)) [
      | inl passes ↦
          let (s', e, k) = update_accepts s current new older expected h valid passes in
          rw e (new, current ∷ older, new ∷ [], k, refl)
      | inr (error, fails) ↦
          rw (update_refuses s current new older expected no_fault error h valid fails)
            (Grown-refl s new.intent.run_id current older h)
    ]
  ]

  foreign-Untouched :
      (s : RunFiles) (run_id : String) (current new : RunRecord) (older : List RunRecord)
      (expected : ℕ) (fault : WriteFault)
      → Holds digest s run_id current older
      → new.intent.run_id == run_id ≡ false
      → Untouched (digest run_id) s (files_after (update digest new expected fault s))
  foreign-Untouched s run_id current new older expected fault h foreign =
      let differs : current.intent.run_id == new.intent.run_id ≡ false = ground (
        arith,
        h.named,
        eq_iff current.intent.run_id new.intent.run_id,
        eq_iff new.intent.run_id run_id,
      ) in
      subst (λ id. Untouched (digest id) s (files_after (update digest new expected fault s)))
        h.named
        (Untouched-update digest s new current expected fault
          (subst (λ id. lookup (digest id) s.current ≡ some (intact current)) (sym h.named) h.now)
          differs)

  store-Grown :
      (s : RunFiles) (run_id : String) (current : RunRecord) (older : List RunRecord)
      (c : StoreCall)
      → is_quiet run_id c ≡ true
      → Holds digest s run_id current older
      → Grown digest run_id current older (files_after (store digest c s))
  unfolding store
  store-Grown s run_id current older (create_run new writes) q h =
      Grown-refl (files_after (create digest new writes s)) run_id current older (
        Holds-Untouched digest s _ run_id current older h
          (Untouched-create digest s new writes (digest run_id) (intact current) h.now))
  store-Grown s run_id current older (update_run new expected fault) q h =
      elim (Bool-cases (new.intent.run_id == run_id)) [
        | inl own ↦
            let path : new.intent.run_id ≡ run_id = (eq_iff _ _).0 own in
            let none_fails : fault ≡ no_fault = ground arith in
            rw none_fails (
              subst
                (λ id.
                  Grown digest id current older
                    (files_after (update digest new expected no_fault s)))
                path
                (own-Grown s current new older expected
                  (subst (λ id. Holds digest s id current older) (sym path) h)))
        | inr foreign ↦
            Grown-refl (files_after (update digest new expected fault s)) run_id current older (
              Holds-Untouched digest s _ run_id current older h
                (foreign-Untouched s run_id current new older expected fault h foreign))
      ]

  -- Whatever runs are created and updated, and whichever writes fail for other runs, the log that the files
  -- of a run hold only grows: its records stay, in order, and newer ones stand before them.
  pub log_append_only :
      (calls : List StoreCall) (s : RunFiles) (run_id : String) (current : RunRecord)
      (older : List RunRecord)
      → all (is_quiet run_id) calls ≡ true
      → Holds digest s run_id current older
      → Grown digest run_id current older (store_all digest calls s)
  unfolding store_all
  log_append_only [] s run_id current older q h = Grown-refl s run_id current older h
  log_append_only (c ∷ calls) s run_id current older q h =
      let (current', older', recent, h', e) =
        store-Grown s run_id current older c (ground arith) h in
      let (current'', older'', recent', h'', e') =
        log_append_only calls (files_after (store digest c s)) run_id current' older' (ground arith)
          h' in
      (
        current'',
        older'',
        recent' ++ recent,
        h'',
        e' ∙ rw e (sym (append_assoc recent' recent (current ∷ older))),
      )
