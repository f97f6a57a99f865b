-- ===== src/Solutions/Episodes/Reopened.antt =====
-- That a store that is opened again has what was saved (backend/control/solution_catalog.py).
use Prim.Native.String.{String}
use ai_control_center.Base.{
  ◌≡◌, refl, ap, sym, ◌∙◌, Bool, true, false, ◌&&◌, ◌||◌, not, Option, some, List, [], ◌∷◌, ◌++◌,
  arith, ◌==◌, eq_iff, if◌then◌else◌,
}
use ai_control_center.Base.Keyed.{Keyed, lookup, insert, lookup-insert}
use ai_control_center.Solutions.Episodes.{
  RepairEpisode, EpisodeFile, unreadable, holding, EpisodeStore, insert_all, episodes_of,
  open_store, values_of, write_file, save_episode, get_episode, save_episodes,
}

abbrev has_key : String → Keyed RepairEpisode → Bool
has_key id [] = false
has_key id ((other, episode) ∷ d) = (other == id) || has_key id d

-- Each episode stands under its own identifier, and once.
abbrev is_keyed : Keyed RepairEpisode → Bool
is_keyed [] = true
is_keyed ((id, episode) ∷ d) = (episode.episode_id == id) && not (has_key id d) && is_keyed d

has_key-insert :
    (id other : String) (episode : RepairEpisode) (d : Keyed RepairEpisode)
    → has_key other (insert id episode d) ≡ ((id == other) || has_key other d)
unfolding insert
has_key-insert id other episode [] = refl
has_key-insert id other episode ((first, e) ∷ d) =
    ground (
      arith,
      eq_iff first id,
      eq_iff id other,
      eq_iff first other,
      has_key-insert id other episode d,
    )

is_keyed-insert :
    (episode : RepairEpisode) (d : Keyed RepairEpisode)
    → is_keyed d ≡ true
    → is_keyed (insert episode.episode_id episode d) ≡ true
unfolding insert
is_keyed-insert episode [] h = ground (arith, eq_iff episode.episode_id episode.episode_id)
is_keyed-insert episode ((first, e) ∷ d) h = ground (
  arith,
  eq_iff first episode.episode_id,
  eq_iff episode.episode_id first,
  has_key-insert episode.episode_id first episode d,
  is_keyed-insert episode d,
)

is_keyed-insert_all :
    (values : List RepairEpisode) (d : Keyed RepairEpisode)
    → is_keyed d ≡ true
    → is_keyed (insert_all values d) ≡ true
unfolding insert_all
is_keyed-insert_all [] d h = h
is_keyed-insert_all (episode ∷ values) d h =
    is_keyed-insert_all values (insert episode.episode_id episode d) (is_keyed-insert episode d h)

insert_new :
    (id : String) (episode : RepairEpisode) (d : Keyed RepairEpisode)
    → has_key id d ≡ false
    → insert id episode d ≡ d ++ (id, episode) ∷ []
unfolding insert
insert_new id episode [] h = refl
insert_new id episode ((other, e) ∷ d) h =
    let different : (other == id) ≡ false = ground arith in
    rw different (ap (λ l. (other, e) ∷ l) (insert_new id episode d (ground arith)))

has_key-append_last :
    (id other : String) (episode : RepairEpisode) (d : Keyed RepairEpisode)
    → has_key other (d ++ (id, episode) ∷ []) ≡ ((id == other) || has_key other d)
has_key-append_last id other episode [] = refl
has_key-append_last id other episode ((first, e) ∷ d) =
    ground (arith, has_key-append_last id other episode d)

-- No key of the second dictionary is one of the first.
abbrev are_apart : Keyed RepairEpisode → Keyed RepairEpisode → Bool
are_apart d [] = true
are_apart d ((id, episode) ∷ others) = not (has_key id d) && are_apart d others

are_apart-append_last :
    (id : String) (episode : RepairEpisode) (d others : Keyed RepairEpisode)
    → are_apart d others ≡ true
    → has_key id others ≡ false
    → are_apart (d ++ (id, episode) ∷ []) others ≡ true
are_apart-append_last id episode d [] h n = refl
are_apart-append_last id episode d ((other, e) ∷ others) h n = ground (
  arith,
  eq_iff id other,
  eq_iff other id,
  has_key-append_last id other episode d,
  are_apart-append_last id episode d others,
)

append_last-cons :
    (d others : Keyed RepairEpisode) (entry : String × RepairEpisode)
    → (d ++ entry ∷ []) ++ others ≡ d ++ entry ∷ others
append_last-cons [] others entry = refl
append_last-cons (first ∷ d) others entry = ap (λ l. first ∷ l) (append_last-cons d others entry)

append_nil : (d : Keyed RepairEpisode) → d ++ [] ≡ d
append_nil [] = refl
append_nil (first ∷ d) = ap (λ l. first ∷ l) (append_nil d)

insert_all-values_of :
    (d others : Keyed RepairEpisode)
    → is_keyed others ≡ true
    → are_apart d others ≡ true
    → insert_all (values_of others) d ≡ d ++ others
unfolding insert_all
insert_all-values_of d [] k a = sym (append_nil d)
insert_all-values_of d ((id, episode) ∷ others) k a =
    let own = (eq_iff episode.episode_id id).0 (ground (arith, k)) in
    let new : insert episode.episode_id episode d ≡ d ++ (id, episode) ∷ [] =
      ap (λ key. insert key episode d) own ∙ insert_new id episode d (ground (arith, a)) in
    ap (insert_all (values_of others)) new
    ∙ (insert_all-values_of (d ++ (id, episode) ∷ []) others (ground (arith, k))
          (are_apart-append_last id episode d others (ground (arith, a)) (ground (arith, k)))
        ∙ append_last-cons d others (id, episode))

are_apart-nil : (d : Keyed RepairEpisode) → are_apart [] d ≡ true
are_apart-nil [] = refl
are_apart-nil ((id, episode) ∷ d) = are_apart-nil d

-- What the file holds is what the store holds.
abbrev IsSaved : EpisodeStore → Type 0
IsSaved store = episodes_of store.file ≡ store.episodes

abbrev IsKept : EpisodeStore → Type 0
IsKept store = is_keyed store.episodes ≡ true

save_episode-IsKept :
    (episode : RepairEpisode) (fails : Bool) (store : EpisodeStore)
    → IsKept store
    → IsKept (save_episode episode fails store)
unfolding save_episode
save_episode-IsKept episode fails store h = is_keyed-insert episode store.episodes h

save_episode-IsSaved :
    (episode : RepairEpisode) (store : EpisodeStore) (file : EpisodeFile)
    → store.file ≡ some file
    → IsKept store
    → IsSaved (save_episode episode false store)
unfolding save_episode
save_episode-IsSaved episode store file e h =
    let d = insert episode.episode_id episode store.episodes in
    ap (λ f. episodes_of (write_file false d f)) e
    ∙ insert_all-values_of [] d (is_keyed-insert episode store.episodes h) (are_apart-nil d)

-- Some episode is saved, and the last write does not fail.
abbrev pub ends_written : List (RepairEpisode × Bool) → Bool
ends_written [] = false
ends_written ((episode, fails) ∷ []) = not fails
ends_written ((episode, fails) ∷ next ∷ saves) = ends_written (next ∷ saves)

-- The episode that was saved last under the identifier, or the one from before.
abbrev pub last_saved :
    String → List (RepairEpisode × Bool) → Option RepairEpisode → Option RepairEpisode
last_saved id [] before = before
last_saved id ((episode, fails) ∷ saves) before =
    last_saved id saves (if episode.episode_id == id then some episode else before)

get-save_episodes :
    (id : String) (saves : List (RepairEpisode × Bool)) (store : EpisodeStore)
    → get_episode id (save_episodes saves store) ≡ last_saved id saves (get_episode id store)
unfolding save_episodes save_episode get_episode
get-save_episodes id [] store = refl
get-save_episodes id ((episode, fails) ∷ saves) store =
    get-save_episodes id saves (save_episode episode fails store)
    ∙ ap (last_saved id saves) (lookup-insert episode.episode_id id episode store.episodes)

save_episode-file :
    (episode : RepairEpisode) (fails : Bool) (store : EpisodeStore) (file : EpisodeFile)
    → store.file ≡ some file
    → (after : EpisodeFile) × ((save_episode episode fails store).file ≡ some after)
unfolding save_episode
save_episode-file episode true store file e =
    (file, ap (write_file true (insert episode.episode_id episode store.episodes)) e)
save_episode-file episode false store file e = (
  holding (values_of (insert episode.episode_id episode store.episodes)),
  ap (write_file false _) e,
)

save_episodes-IsSaved :
    (saves : List (RepairEpisode × Bool)) (store : EpisodeStore) (file : EpisodeFile)
    → store.file ≡ some file
    → IsKept store
    → ends_written saves ≡ true
    → IsSaved (save_episodes saves store)
unfolding save_episodes
save_episodes-IsSaved [] store file e k w = absurd (cc)
save_episodes-IsSaved ((episode, true) ∷ []) store file e k w = absurd (cc)
save_episodes-IsSaved ((episode, false) ∷ []) store file e k w =
    save_episode-IsSaved episode store file e k
save_episodes-IsSaved ((episode, fails) ∷ next ∷ saves) store file e k w =
    let (after, e') = save_episode-file episode fails store file e in
    save_episodes-IsSaved (next ∷ saves) (save_episode episode fails store) after e'
      (save_episode-IsKept episode fails store k) w

open_store-IsKept : (file : EpisodeFile) → IsKept (open_store (some file))
unfolding open_store
open_store-IsKept unreadable = refl
open_store-IsKept (holding values) = is_keyed-insert_all values [] refl

-- After any saves whose last write does not fail, whatever the file held before and whichever other writes
-- failed, a store that is opened on the file again gives for each identifier the episode that was saved last
-- under it, or what the first store gave before.
pub reopened-get :
    (file : EpisodeFile) (saves : List (RepairEpisode × Bool)) (id : String)
    → ends_written saves ≡ true
    → get_episode id (open_store (save_episodes saves (open_store (some file))).file)
      ≡ last_saved id saves (get_episode id (open_store (some file)))
unfolding open_store get_episode
reopened-get file saves id w =
    ap (lookup id)
      (save_episodes-IsSaved saves (open_store (some file)) file refl (open_store-IsKept file) w)
    ∙ get-save_episodes id saves (open_store (some file))
