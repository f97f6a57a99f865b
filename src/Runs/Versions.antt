-- ===== src/Runs/Versions.antt =====
-- `versions` of backend/control/run_store.py returns the log of a run, oldest record first.
use mathlib.Core.List.{◌++◌, append_assoc}
use ai_control_center.Base.{
  ℕ, ◌<◌, ◌≡◌, refl, ap, sym, ◌∙◌, String, List, [], ◌∷◌, arith, All-append_last, eq_iff, map,
}
use ai_control_center.Runs.{RunRecord, same_intent_refl}
use ai_control_center.Runs.Store.{
  RunFiles, found, insert_version, sort_versions, read_versions, versions_from, versions,
}
use ai_control_center.Runs.Log.{Holds, IsChain, Below, Below-IsChain, version_file, get-Holds}

abbrev pub oldest_first : List RunRecord → List RunRecord
oldest_first [] = []
oldest_first (run ∷ runs) = oldest_first runs ++ run ∷ []

read_versions-map :
    (run_id : String) (current run : RunRecord) (older : List RunRecord)
    → current.intent.run_id ≡ run_id
    → run.intent ≡ current.intent
    → IsChain run older
    → read_versions run_id current (map version_file older) ≡ found (older ++ current ∷ [])
unfolding read_versions
read_versions-map run_id current run [] named same h = refl
read_versions-map run_id current run (old ∷ older) named same h =
    let shared : old.intent ≡ current.intent = sym h.0.same ∙ same in
    rw shared (
      rw ((eq_iff current.intent.run_id run_id).1 named) (
        rw (same_intent_refl current.intent)
          (rw (read_versions-map run_id current old older named shared h.1) refl)))

-- A record that is later than a list and earlier than its last record goes between them.
insert_version-last :
    (run current : RunRecord) (runs : List RunRecord)
    → Below run.control.updated_at runs
    → run.control.updated_at < current.control.updated_at
    → insert_version run (runs ++ current ∷ []) ≡ runs ++ run ∷ current ∷ []
unfolding insert_version
insert_version-last run current [] h l = ground arith
insert_version-last run current (other ∷ runs) h l =
    ground (arith, h.0, insert_version-last run current runs h.1 l)

Below-oldest_first : (at : ℕ) (runs : List RunRecord) → Below at runs → Below at (oldest_first runs)
Below-oldest_first at [] h = tt
Below-oldest_first at (run ∷ runs) h =
    All-append_last (λ old. old.control.updated_at < at) run (oldest_first runs)
      (Below-oldest_first at runs h.1) h.0

-- Sorting a log with its last record behind it puts the oldest record first.
sort_versions-chain :
    (current run : RunRecord) (older : List RunRecord)
    → Below current.control.updated_at older
    → IsChain run older
    → sort_versions (older ++ current ∷ []) ≡ oldest_first older ++ current ∷ []
unfolding sort_versions insert_version
sort_versions-chain current run [] b h = refl
sort_versions-chain current run (old ∷ older) b h =
    rw (sort_versions-chain current old older b.1 h.1) (
      insert_version-last old current (oldest_first older)
        (Below-oldest_first old.control.updated_at older (Below-IsChain old older h.1)) b.0
      ∙ sym (append_assoc (oldest_first older) (old ∷ []) (current ∷ [])))

-- Reading the versions of a run returns its log, the oldest record first and the current one last.
pub versions-log :
    (digest : String → String) (s : RunFiles) (run_id : String) (current : RunRecord)
    (older : List RunRecord)
    → Holds digest s run_id current older
    → versions digest run_id s ≡ found (oldest_first (current ∷ older))
unfolding versions versions_from
versions-log digest s run_id current older h = rw (get-Holds digest s run_id current older h) (
    rw h.past (
      rw (read_versions-map run_id current current older h.named refl h.chain) (
        ap found (
          sort_versions-chain current current older (Below-IsChain current older h.chain)
            h.chain))))
