-- ===== src/Playlists/Repository.antt =====
-- internal/repository/playlist_repository.go. `now` is the time that the database takes for
-- updated_at. A transaction locks its playlist's row first, so the statements of two of them do not
-- interleave.
use music_online_go.Prelude.{
  ◌&&◌, none, ◌||◌, leb, not, ltb, some, max, ◌==◌, length, [], ◌++◌, suc, map, ◌∷◌, Bool,
  if◌then◌else◌, List, Option, ℕ,
}
use music_online_go.Database.Errors.{
  playlist_full, item_not_found, music_not_found, items_mismatch, playlist_not_found,
}
use music_online_go.Database.Session.{Db, statement, query, pure, raise, transaction, ◌>>=◌, ◌>>◌}
use music_online_go.Database.Table.{first_by, delete_rows, count_rows, update_rows, where_rows}
use music_online_go.Database.Order.{order_by, page_of}
use music_online_go.Playlists.Store.{max_playlist_items, Text, Shelf, PlaylistItem, Playlist}
use music_online_go.Playlists.Ids.{ids_equal, contains, remember_all, same_unique_ids}

-- WHERE id = ? AND user_id = ?
abbrev pub is_owned : ℕ → ℕ → Playlist → Bool
is_owned id user_id p = p.id == id && p.user_id == user_id

abbrev pub is_in : ℕ → PlaylistItem → Bool
is_in id i = i.playlist_id == id

-- WHERE playlist_id = ? AND music_id = ?
abbrev pub is_item : ℕ → ℕ → PlaylistItem → Bool
is_item id music_id i = i.playlist_id == id && i.music_id == music_id

-- ORDER BY position ASC, music_id ASC
abbrev pub item_before : PlaylistItem → PlaylistItem → Bool
item_before i j = ltb i.position j.position || i.position == j.position && leb i.music_id j.music_id

-- ORDER BY updated_at DESC, id DESC
abbrev pub newer : Playlist → Playlist → Bool
newer p q = ltb q.updated_at p.updated_at || p.updated_at == q.updated_at && leb q.id p.id

unfoldable pub stored : ℕ → ℕ → Playlist → Playlist
stored now id p = record p {
  id = id;
  revision = if p.revision == 0 then 1 else p.revision;
  updated_at = now;
}

-- `Create`
unfoldable pub create_playlist : ℕ → Playlist → Db Shelf Playlist
unfolding stored
create_playlist now playlist = statement (λ s. (
  stored now s.next_playlist playlist,
  record s {
    playlists = s.playlists ++ stored now s.next_playlist playlist ∷ [];
    next_playlist = suc s.next_playlist;
  },
))

-- `ListByUserID`
unfoldable pub list_by_user : ℕ → ℕ → ℕ → Db Shelf (List Playlist × ℕ)
unfolding page_of order_by
list_by_user user_id page page_size = do
  total ← query (λ s. count_rows (λ p. p.user_id == user_id) s.playlists)
  playlists ← query (λ s.
      page_of page page_size (order_by newer (where_rows (λ p. p.user_id == user_id) s.playlists)))
  pure (playlists, total)

unfoldable pub found_playlist : Option Playlist → Db Shelf Playlist
found_playlist none = raise playlist_not_found
found_playlist (some p) = pure p

unfoldable pub owned_row : ℕ → ℕ → Shelf → Option Playlist
owned_row id user_id s = first_by (λ p. p.id) (is_owned id user_id) s.playlists

-- `FindOwnedByID`
unfoldable pub find_owned : ℕ → ℕ → Db Shelf Playlist
unfolding found_playlist owned_row
find_owned id user_id = do found ← query (owned_row id user_id); found_playlist found

unfoldable pub items_of : ℕ → Shelf → List PlaylistItem
unfolding order_by
items_of id s = order_by item_before (where_rows (is_in id) s.items)

-- `ListItems`
unfoldable pub list_items : ℕ → ℕ → Db Shelf (List PlaylistItem)
unfolding find_owned items_of
list_items id user_id = find_owned id user_id >> query (items_of id)

-- `ensureOwnedPlaylist`
unfoldable pub ensure_owned : ℕ → ℕ → Db Shelf Unit
unfolding found_playlist owned_row
ensure_owned id user_id = do found ← query (owned_row id user_id); found_playlist found; pure tt

-- UPDATE playlist_items SET f WHERE p
unfoldable pub update_items : (PlaylistItem → Bool) → (PlaylistItem → PlaylistItem) → Db Shelf Unit
update_items p f = statement (λ s. (tt, record s { items = update_rows p f s.items }))

unfoldable pub update_playlists : ℕ → (Playlist → Playlist) → Db Shelf Unit
update_playlists id f =
    statement (λ s. (tt, record s { playlists = update_rows (λ p. p.id == id) f s.playlists }))

-- `touchPlaylist`
unfoldable pub touched : ℕ → Playlist → Playlist
touched now p = record p { revision = suc p.revision; updated_at = now }

unfoldable pub touch_playlist : ℕ → ℕ → Db Shelf Unit
unfolding update_playlists touched
touch_playlist now id = update_playlists id (touched now)

-- `Update`: a nil pointer leaves its column alone
abbrev pub or_keep : Option Text → Text → Text
or_keep none old = old
or_keep (some new) old = new

unfoldable pub renamed : ℕ → Option Text → Option Text → Playlist → Playlist
renamed now name description p = record p {
  revision = suc p.revision;
  name = or_keep name p.name;
  description = or_keep description p.description;
  updated_at = now;
}

unfoldable pub update_playlist : ℕ → ℕ → ℕ → Option Text → Option Text → Db Shelf Unit
unfolding ensure_owned update_playlists renamed
update_playlist now id user_id name description =
    transaction (ensure_owned id user_id >> update_playlists id (renamed now name description))

-- `Delete`
unfoldable pub delete_playlist : ℕ → ℕ → Db Shelf Unit
unfolding ensure_owned
delete_playlist id user_id = transaction (do
  ensure_owned id user_id
  statement (λ s. (tt, record s { items = delete_rows (is_in id) s.items }))
  statement (λ s. (tt, record s { playlists = delete_rows (λ p. p.id == id) s.playlists })))

-- COALESCE(MAX(position), -1) + 1
unfoldable pub next_position : ℕ → List PlaylistItem → ℕ
next_position id [] = 0
next_position id (i ∷ is) =
    let rest = next_position id is in if is_in id i then max (suc i.position) rest else rest

unfoldable pub insert_item : ℕ → ℕ → ℕ → Db Shelf Unit
insert_item id music_id place = statement (λ s. (
  tt,
  record s {
    items = s.items ++ record { playlist_id = id; music_id = music_id; position = place } ∷ [];
  },
))

-- What `AddItem` does once it has the number of items.
unfoldable pub append_within : ℕ → ℕ → ℕ → ℕ → Db Shelf Unit
unfolding insert_item touch_playlist next_position
append_within now id music_id item_count =
    if leb max_playlist_items item_count then raise playlist_full else do
      place ← query (λ s. next_position id s.items)
      insert_item id music_id place
      touch_playlist now id

-- What it does once it has the number of items with this music.
unfoldable pub append_unless : ℕ → ℕ → ℕ → ℕ → Db Shelf Unit
unfolding append_within
append_unless now id music_id existing = if ltb 0 existing then pure tt else do
  item_count ← query (λ s. count_rows (is_in id) s.items)
  append_within now id music_id item_count

-- What it does once it has the number of rows in the music table.
unfoldable pub append_item : ℕ → ℕ → ℕ → ℕ → Db Shelf Unit
unfolding append_unless
append_item now id music_id music_count = if music_count == 0 then raise music_not_found else do
  existing ← query (λ s. count_rows (is_item id music_id) s.items)
  append_unless now id music_id existing

-- `AddItem`
unfoldable pub add_item : ℕ → ℕ → ℕ → ℕ → Db Shelf Unit
unfolding ensure_owned append_item
add_item now id user_id music_id = transaction (do
  ensure_owned id user_id
  music_count ← query (λ s. count_rows (λ m. m == music_id) s.musics)
  append_item now id music_id music_count)

abbrev pub moved : ℕ → PlaylistItem → PlaylistItem
moved place i = record i { position = place }

-- The loop of `compactPlaylistPositions`.
unfoldable pub compact_from : ℕ → ℕ → List PlaylistItem → Db Shelf Unit
unfolding update_items
compact_from id place [] = pure tt
compact_from id place (i ∷ is) =
    let rest = compact_from id (suc place) is in
    if i.position == place then rest else update_items (is_item id i.music_id) (moved place) >> rest

-- `compactPlaylistPositions`
unfoldable pub compact_positions : ℕ → Db Shelf Unit
unfolding compact_from items_of
compact_positions id = do items ← query (items_of id); compact_from id 0 items

-- What `RemoveItem` does after its DELETE.
unfoldable pub close_gap : ℕ → ℕ → ℕ → Db Shelf Unit
unfolding compact_positions touch_playlist
close_gap now id affected =
    if affected == 0 then raise item_not_found else compact_positions id >> touch_playlist now id

unfoldable pub delete_item : ℕ → ℕ → Db Shelf ℕ
delete_item id music_id = statement (λ s. (
  count_rows (is_item id music_id) s.items,
  record s { items = delete_rows (is_item id music_id) s.items },
))

-- `RemoveItem`
unfoldable pub remove_item : ℕ → ℕ → ℕ → ℕ → Db Shelf Unit
unfolding ensure_owned delete_item close_gap
remove_item now id user_id music_id =
    transaction
      (do ensure_owned id user_id; affected ← delete_item id music_id; close_gap now id affected)

-- The loop of `ReorderItems`.
unfoldable pub place_from : ℕ → ℕ → List ℕ → Db Shelf Unit
unfolding update_items
place_from id place [] = pure tt
place_from id place (music_id ∷ ids) =
    update_items (is_item id music_id) (moved place) >> place_from id (suc place) ids

abbrev pub music_ids : List PlaylistItem → List ℕ
music_ids is = map (λ i. i.music_id) is

-- What `ReorderItems` does once it has the current order.
unfoldable pub apply_order : ℕ → ℕ → List ℕ → List ℕ → Db Shelf Unit
unfolding place_from touch_playlist same_unique_ids ids_equal
apply_order now id requested current =
    if not (same_unique_ids current requested)
    then raise items_mismatch
    else if ids_equal current requested
    then pure tt
    else place_from id 0 requested >> touch_playlist now id

-- `ReorderItems`
unfoldable pub reorder_items : ℕ → ℕ → ℕ → List ℕ → Db Shelf Unit
unfolding ensure_owned apply_order items_of
reorder_items now id user_id requested = transaction (do
  ensure_owned id user_id
  current ← query (λ s. music_ids (items_of id s))
  apply_order now id requested current)

-- `SELECT DISTINCT playlist_id`
unfoldable pub distinct_playlists : List PlaylistItem → List ℕ
unfolding remember_all
distinct_playlists is = remember_all (map (λ i. i.playlist_id) is) []

unfoldable pub compact_all : ℕ → List ℕ → Db Shelf Unit
unfolding compact_positions touch_playlist
compact_all now [] = pure tt
compact_all now (id ∷ ids) = do compact_positions id; touch_playlist now id; compact_all now ids

-- `removeMusicFromPlaylists`, which runs inside the caller's transaction
unfoldable pub remove_music : ℕ → List ℕ → Db Shelf Unit
unfolding compact_all distinct_playlists contains
remove_music now music_ids = if length music_ids == 0 then pure tt else do
  playlist_ids ←
      query (λ s. distinct_playlists (where_rows (λ i. contains i.music_id music_ids) s.items))
  if length playlist_ids == 0 then pure tt else do
    statement
        (λ s. (tt, record s { items = delete_rows (λ i. contains i.music_id music_ids) s.items }))
    compact_all now playlist_ids
