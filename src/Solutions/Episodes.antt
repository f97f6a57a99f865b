-- ===== src/Solutions/Episodes.antt =====
-- backend/control/solution_catalog.py: `RepairEpisodeStore`. Of an episode the fields stand that identify it
-- and say until when it is repaired; a time is a number of microseconds. What the file's JSON decodes to is
-- given as the values, and a write that fails is an argument.
pub mod Reopened
use Prim.Native.String.{String}
use ai_control_center.Base.{
  ℕ, Bool, true, false, Option, none, some, List, [], ◌∷◌, map, if◌then◌else◌,
}
use ai_control_center.Base.Keyed.{Keyed, lookup, insert}

pub record RepairEpisode : Type 0 where
  pub episode_id : String
  pub project_id : String
  pub day : ℕ
  pub work_item_id : String
  pub failure_fingerprint : String
  pub started_at_epoch : ℕ
  pub repair_deadline_epoch : ℕ
  pub interrupted : Bool

-- A file that is missing, cannot be read, or holds a value that does not validate is `unreadable`.
pub data EpisodeFile : Type 0 where
  unreadable : EpisodeFile
  holding : List RepairEpisode → EpisodeFile

-- A store without a path has no file.
pub record EpisodeStore : Type 0 where
  pub episodes : Keyed RepairEpisode
  pub file : Option EpisodeFile

unfoldable pub insert_all : List RepairEpisode → Keyed RepairEpisode → Keyed RepairEpisode
insert_all [] d = d
insert_all (episode ∷ values) d = insert_all values (insert episode.episode_id episode d)

abbrev pub episodes_of : Option EpisodeFile → Keyed RepairEpisode
episodes_of (some (holding values)) = insert_all values []
episodes_of _ = []

-- The constructor
unfoldable pub open_store : Option EpisodeFile → EpisodeStore
open_store file = record { episodes = episodes_of file; file = file }

abbrev pub values_of : Keyed RepairEpisode → List RepairEpisode
values_of [] = []
values_of ((id, episode) ∷ d) = episode ∷ values_of d

abbrev pub write_file : Bool → Keyed RepairEpisode → Option EpisodeFile → Option EpisodeFile
write_file fails d none = none
write_file true d (some old) = some old
write_file false d (some old) = some (holding (values_of d))

-- `save`, with whether the write fails; the temporary file replaces the old one only once it is written.
unfoldable pub save_episode : RepairEpisode → Bool → EpisodeStore → EpisodeStore
save_episode episode fails store =
    let d = insert episode.episode_id episode store.episodes in
    record { episodes = d; file = write_file fails d store.file }

-- `get`
unfoldable pub get_episode : String → EpisodeStore → Option RepairEpisode
get_episode id store = lookup id store.episodes

unfoldable pub save_episodes : List (RepairEpisode × Bool) → EpisodeStore → EpisodeStore
save_episodes [] store = store
save_episodes ((episode, fails) ∷ saves) store =
    save_episodes saves (save_episode episode fails store)
