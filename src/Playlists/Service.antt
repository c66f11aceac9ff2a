-- ===== src/Playlists/Service.antt =====
-- internal/service/playlist_service.go. The music service is another component, of which only
-- `GetByIDs` is called here; it is a parameter.
use music_online_go.Prelude.{
  false, [], ◌==◌, some, ltb, ◌&&◌, ◌∷◌, length, true, if◌then◌else◌, none, Bool, Option, List, ℕ,
}
use music_online_go.Database.Errors.{playlist_full, invalid_playlist, err, ok, Result}
use music_online_go.Database.Session.{Db, pure, raise, lift, ◌>>=◌, ◌>>◌}
use music_online_go.Playlists.Store.{max_playlist_items, PlaylistItem, Shelf, Playlist, Text}
use music_online_go.Playlists.Names.{normalize_description, normalize_name}
use music_online_go.Playlists.Repository.{
  update_playlist, music_ids, create_playlist, list_items, add_item, remove_item, reorder_items,
  find_owned,
}

-- `GetByIDs` and the id of its answers
pub record MusicService (Music : Type 0) : Type 0 where
  pub get_by_ids : List ℕ → ℕ → Db Shelf (List Music)
  pub id_of : Music → ℕ

-- `PlaylistDetailResponse`
pub record Detail (Music : Type 0) : Type 0 where
  pub playlist : Playlist
  pub item_count : ℕ
  pub items : List (ℕ × Music)

-- a field of a request, which may be missing
abbrev pub optional : (Text → Result Text) → Option Text → Result (Option Text)
optional f none = ok none
optional f (some text) = elim (f text) [ ok t ↦ ok (some t) | err e ↦ err e ]

abbrev pub is_missing : Option Text → Bool
is_missing none = true
is_missing (some text) = false

module _ {Music : Type 0} where
  -- `musicByID[id]`: the last answer with the id
  unfoldable pub by_id : (Music → ℕ) → ℕ → List Music → Option Music
  by_id id_of id [] = none
  by_id id_of id (m ∷ ms) = elim (by_id id_of id ms) [
    | some n ↦ some n
    | none ↦ if id_of m == id then some m else none
  ]

  unfoldable pub answered : (Music → ℕ) → List Music → List PlaylistItem → List (ℕ × Music)
  unfolding by_id
  answered id_of musics [] = []
  answered id_of musics (i ∷ is) =
      let rest = answered id_of musics is in
      elim (by_id id_of i.music_id musics) [ none ↦ rest | some m ↦ (i.position, m) ∷ rest ]

  unfoldable pub detail :
      MusicService Music → Playlist → List PlaylistItem → List Music → Detail Music
  unfolding answered
  detail service playlist items musics = record {
    playlist = playlist;
    item_count = length (answered service.id_of musics items);
    items = answered service.id_of musics items;
  }

  -- `Get`
  unfoldable pub get_playlist : MusicService Music → ℕ → ℕ → Db Shelf (Detail Music)
  unfolding find_owned list_items detail
  get_playlist service user_id id = do
    playlist ← find_owned id user_id
    items ← list_items id user_id
    musics ← service.get_by_ids (music_ids items) user_id
    pure (detail service playlist items musics)

  -- `Create`
  unfoldable pub create_named : MusicService Music → ℕ → ℕ → Text → Text → Db Shelf (Detail Music)
  unfolding normalize_name normalize_description create_playlist get_playlist
  create_named service now user_id name description = do
    name' ← lift (normalize_name name)
    description' ← lift (normalize_description description)
    playlist ← create_playlist now (record {
      id = 0;
      user_id = user_id;
      name = name';
      description = description';
      revision = 1;
      updated_at = 0;
    })
    get_playlist service user_id playlist.id

  -- `Update`
  unfoldable pub rename_playlist :
      MusicService Music → ℕ → ℕ → ℕ → Option Text → Option Text → Db Shelf (Detail Music)
  unfolding normalize_name normalize_description update_playlist get_playlist
  rename_playlist service now user_id id name description =
      if is_missing name && is_missing description then raise invalid_playlist else do
        name' ← lift (optional normalize_name name)
        description' ← lift (optional normalize_description description)
        update_playlist now id user_id name' description'
        get_playlist service user_id id

  -- `AddItem`
  unfoldable pub add_to_playlist : MusicService Music → ℕ → ℕ → ℕ → ℕ → Db Shelf (Detail Music)
  unfolding add_item get_playlist
  add_to_playlist service now user_id id music_id =
      add_item now id user_id music_id >> get_playlist service user_id id

  -- `RemoveItem`
  unfoldable pub remove_from_playlist : MusicService Music → ℕ → ℕ → ℕ → ℕ → Db Shelf (Detail Music)
  unfolding remove_item get_playlist
  remove_from_playlist service now user_id id music_id =
      remove_item now id user_id music_id >> get_playlist service user_id id

  -- `ReorderItems`
  unfoldable pub reorder_playlist :
      MusicService Music → ℕ → ℕ → ℕ → List ℕ → Db Shelf (Detail Music)
  unfolding reorder_items get_playlist
  reorder_playlist service now user_id id requested =
      if ltb max_playlist_items (length requested)
      then raise playlist_full
      else do reorder_items now id user_id requested; get_playlist service user_id id
