-- ===== src/Runs/Latest.antt =====
-- `records` and `current` of backend/control/run_store.py. Texts are compared by their code points, as
-- Python compares them.
use Prim.Native.String.{String}
use ai_control_center.Base.{
  ℕ, ◌≤◌, ◌≡◌, Bool, true, false, ◌&&◌, ◌||◌, Option, some, List, [], ◌∷◌, arith, ltb, same_number,
  get_last?, All, Bool-cases, inl, inr, if◌then◌else◌,
}
use ai_control_center.Base.Keyed.{Keyed}
use ai_control_center.Base.Texts.{text_leb}
use ai_control_center.Runs.{RunRecord}
use ai_control_center.Runs.Store.{
  Stored, intact, damaged, RunFiles, Read, found, unreadable, invalid_record, add_version,
}

-- `<=` on the keys `(go_at, run_id)`
unfoldable pub run_leb : RunRecord → RunRecord → Bool
run_leb a b =
    ltb a.intent.go_at b.intent.go_at
    || (same_number a.intent.go_at b.intent.go_at && text_leb a.intent.run_id b.intent.run_id)

unfoldable pub insert_run : RunRecord → List RunRecord → List RunRecord
insert_run run [] = run ∷ []
insert_run run (other ∷ runs) =
    if run_leb run other then run ∷ other ∷ runs else other ∷ insert_run run runs

unfoldable pub sort_runs : List RunRecord → List RunRecord
sort_runs [] = []
sort_runs (run ∷ runs) = insert_run run (sort_runs runs)

unfoldable pub read_runs : Keyed Stored → Read (List RunRecord)
read_runs [] = found []
read_runs ((name, damaged) ∷ files) = unreadable invalid_record
read_runs ((name, intact run) ∷ files) = add_version run (read_runs files)

abbrev pub sort_found : Read (List RunRecord) → Read (List RunRecord)
sort_found (found runs) = found (sort_runs runs)
sort_found (unreadable error) = unreadable error

-- `records`
unfoldable pub records : RunFiles → Read (List RunRecord)
records s = sort_found (read_runs s.current)

abbrev pub last_found : Read (List RunRecord) → Read (Option RunRecord)
last_found (found runs) = found (get_last? runs)
last_found (unreadable error) = unreadable error

-- `current`
unfoldable pub current_run : RunFiles → Read (Option RunRecord)
current_run s = last_found (records s)

abbrev GoneBefore : ℕ → List RunRecord → Type 0
GoneBefore at runs = All (λ run. at ≤ run.intent.go_at) runs

abbrev GoneAfter : ℕ → List RunRecord → Type 0
GoneAfter at runs = All (λ run. run.intent.go_at ≤ at) runs

abbrev IsOrdered : List RunRecord → Type 0
IsOrdered [] = Unit
IsOrdered (run ∷ runs) = GoneBefore run.intent.go_at runs × IsOrdered runs

GoneBefore-le : (a b : ℕ) (runs : List RunRecord) → a ≤ b → GoneBefore b runs → GoneBefore a runs
GoneBefore-le a b [] l h = tt
GoneBefore-le a b (run ∷ runs) l h = (omega (arith, h.0), GoneBefore-le a b runs l h.1)

run_leb-le : (a b : RunRecord) → run_leb a b ≡ true → a.intent.go_at ≤ b.intent.go_at
unfolding run_leb
run_leb-le a b h = ground arith

run_leb-ge : (a b : RunRecord) → run_leb a b ≡ false → b.intent.go_at ≤ a.intent.go_at
unfolding run_leb
run_leb-ge a b h = ground arith

All-insert_run {κ} :
    (P : RunRecord → Type κ) (run : RunRecord) (runs : List RunRecord)
    → P run
    → All P runs
    → All P (insert_run run runs)
unfolding insert_run
All-insert_run P run [] p h = (p, tt)
All-insert_run P run (other ∷ runs) p h = elim (Bool-cases (run_leb run other)) [
  | inl le ↦ rw le (p, h)
  | inr gt ↦ rw gt (h.0, All-insert_run P run runs p h.1)
]

All-uninsert_run {κ} :
    (P : RunRecord → Type κ) (run : RunRecord) (runs : List RunRecord)
    → All P (insert_run run runs)
    → P run × All P runs
unfolding insert_run
All-uninsert_run P run [] h = (h.0, tt)
All-uninsert_run P run (other ∷ runs) h = elim (Bool-cases (run_leb run other)) [
  | inl le ↦ rw le at h
  | inr gt ↦
      let k = rw gt at h in let rest = All-uninsert_run P run runs k.1 in (rest.0, (k.0, rest.1))
]

insert_run-IsOrdered :
    (run : RunRecord) (runs : List RunRecord) → IsOrdered runs → IsOrdered (insert_run run runs)
unfolding insert_run
insert_run-IsOrdered run [] h = (tt, tt)
insert_run-IsOrdered run (other ∷ runs) h = elim (Bool-cases (run_leb run other)) [
  | inl le ↦ rw le (
    (
      run_leb-le run other le,
      GoneBefore-le run.intent.go_at other.intent.go_at runs (run_leb-le run other le) h.0,
    ),
    h,
  )
  | inr gt ↦ rw gt (
    All-insert_run (λ r. other.intent.go_at ≤ r.intent.go_at) run runs (run_leb-ge run other gt)
        h.0,
    insert_run-IsOrdered run runs h.1,
  )
]

sort_runs-IsOrdered : (runs : List RunRecord) → IsOrdered (sort_runs runs)
unfolding sort_runs
sort_runs-IsOrdered [] = tt
sort_runs-IsOrdered (run ∷ runs) =
    insert_run-IsOrdered run (sort_runs runs) (sort_runs-IsOrdered runs)

All-unsort_runs {κ} :
    (P : RunRecord → Type κ) (runs : List RunRecord) → All P (sort_runs runs) → All P runs
unfolding sort_runs
All-unsort_runs P [] h = tt
All-unsort_runs P (run ∷ runs) h =
    let parts = All-uninsert_run P run (sort_runs runs) h in
    (parts.0, All-unsort_runs P runs parts.1)

last-GoneAfter :
    (runs : List RunRecord) (last : RunRecord)
    → IsOrdered runs
    → get_last? runs ≡ some last
    → GoneAfter last.intent.go_at runs
last-GoneAfter [] last h e = absurd (cc)
last-GoneAfter (run ∷ []) last h e = (ground arith, tt)
last-GoneAfter (run ∷ (other ∷ runs)) last h e =
    let rest = last-GoneAfter (other ∷ runs) last h.1 e in (omega (arith, h.0.0, rest.0), rest)

-- Every file is readable, and its run went no later than a time.
abbrev pub AllGoneAfter : ℕ → Keyed Stored → Type 0
AllGoneAfter at [] = Unit
AllGoneAfter at ((name, damaged) ∷ files) = ⊥
AllGoneAfter at ((name, intact run) ∷ files) = (run.intent.go_at ≤ at) × AllGoneAfter at files

-- What a read found, if it found anything.
abbrev Reads : Keyed Stored → Read (List RunRecord) → Type 0
Reads files (unreadable error) = Unit
Reads files (found runs) = (at : ℕ) → GoneAfter at runs → AllGoneAfter at files

Reads-add_version :
    (name : String) (run : RunRecord) (files : Keyed Stored) (r : Read (List RunRecord))
    → Reads files r
    → Reads ((name, intact run) ∷ files) (add_version run r)
Reads-add_version name run files (unreadable error) h = tt
Reads-add_version name run files (found runs) h = λ at g. (g.0, h at g.1)

Reads-read_runs : (files : Keyed Stored) → Reads files (read_runs files)
unfolding read_runs
Reads-read_runs [] = λ at g. tt
Reads-read_runs ((name, damaged) ∷ files) = tt
Reads-read_runs ((name, intact run) ∷ files) =
    Reads-add_version name run files (read_runs files) (Reads-read_runs files)

last-Reads :
    (files : Keyed Stored) (r : Read (List RunRecord)) (last : RunRecord)
    → Reads files r
    → last_found (sort_found r) ≡ found (some last)
    → AllGoneAfter last.intent.go_at files
last-Reads files (unreadable error) last h e = absurd (cc)
last-Reads files (found runs) last h e = h last.intent.go_at (
    All-unsort_runs (λ run. run.intent.go_at ≤ last.intent.go_at) runs
      (last-GoneAfter (sort_runs runs) last (sort_runs-IsOrdered runs) (ground arith)))

-- When `current` finds a run, every file of the directory holds a record that validates, and no run of it
-- went later than the one that is found.
pub current_is_latest :
    (s : RunFiles) (last : RunRecord)
    → current_run s ≡ found (some last)
    → AllGoneAfter last.intent.go_at s.current
unfolding current_run records
current_is_latest s last e =
    last-Reads s.current (read_runs s.current) last (Reads-read_runs s.current) e
