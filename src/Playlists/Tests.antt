-- ===== src/Playlists/Tests.antt =====
-- Playlists on concrete tables.
use music_online_go.Database.Order.{put}
use music_online_go.Prelude.{
  ◌<◌, length, ◌↔◌, if◌then◌else◌, arith, ◌==◌, true, some, ◌⊎◌, [], false, ◌≤◌, ◌≡◌, ◌∷◌, ℕ, List,
  refl,
}
use music_online_go.Database.Errors.{err, Error, ok}
use music_online_go.Database.Session.{Conn, transaction, ◌>>=◌}
use music_online_go.Database.Table.{delete_rows, update_rows, where_rows, first_by, count_rows}
use music_online_go.Playlists.Store.{max_playlist_items, Playlist, PlaylistItem, Shelf}
use music_online_go.Playlists.Ids.{contains, same_unique_ids}
use music_online_go.Playlists.Ids.Laws.{same_unique_ids_lem, IsUnique, occurs}
use music_online_go.Playlists.Repository.{
  items_of, is_in, create_playlist, is_item, list_items, remove_item, music_ids, owned_row,
  add_item, reorder_items,
}
use music_online_go.Playlists.Listing.{IsDense}
use music_online_go.Playlists.Reorder.{reorder_items-list_items}
use music_online_go.Playlists.Removal.{remove_item-list_items}
use music_online_go.Playlists.Edits.{add, remove, edit}
use music_online_go.Playlists.Ownership.{edit-IsApart, foreign_playlist, IsRefused, IsApart}
use music_online_go.Playlists.Limits.{empty, created, edited, Reach-IsLimited, IsLimited}
use music_online_go.Playlists.Names.{is_space, normalize_name, is_empty}
use music_online_go.Playlists.Names.Laws.{normalize_name_lem}
use music_online_go.Playlists.Additions.{add_item_lem}

abbrev item : ℕ → ℕ → ℕ → PlaylistItem
item p m k = record { playlist_id = p; music_id = m; position = k }

abbrev playlist : ℕ → ℕ → Playlist
playlist id user_id = record {
  id = id;
  user_id = user_id;
  name = 65 ∷ [];
  description = [];
  revision = 1;
  updated_at = 0;
}

abbrev shelf : Shelf
shelf = record {
  playlists = playlist 1 7 ∷ playlist 2 8 ∷ [];
  items = item 1 10 0 ∷ item 2 10 0 ∷ item 1 11 1 ∷ item 1 12 2 ∷ [];
  musics = 10 ∷ 11 ∷ 12 ∷ 13 ∷ [];
  next_playlist = 3;
}

abbrev conn : Conn Shelf
conn = record { tables = shelf; faults = λ n. false }

abbrev wanted : List ℕ
wanted = 12 ∷ 10 ∷ 11 ∷ []

reordered : (reorder_items 5 1 7 wanted conn).0 ≡ ok tt
unfolding reorder_items first_by where_rows update_rows put transaction ◌>>=◌
reordered = refl

same_unique_ids_lem_example :
    (same_unique_ids (10 ∷ 11 ∷ 12 ∷ []) wanted ≡ true)
    ↔ (((x : ℕ) → occurs x wanted ≡ occurs x (10 ∷ 11 ∷ 12 ∷ [])) × IsUnique (10 ∷ 11 ∷ 12 ∷ []))
same_unique_ids_lem_example = same_unique_ids_lem (10 ∷ 11 ∷ 12 ∷ []) wanted

abbrev after_reorder : Conn Shelf
after_reorder = record { tables = (reorder_items 5 1 7 wanted conn).1.tables; faults = λ n. false }

relisted : (list_items 1 7 after_reorder).0 ≡ ok (item 1 12 0 ∷ item 1 10 1 ∷ item 1 11 2 ∷ [])
unfolding reorder_items list_items first_by where_rows update_rows put transaction ◌>>=◌
relisted = refl

reorder_items-list_items_example : music_ids (item 1 12 0 ∷ item 1 10 1 ∷ item 1 11 2 ∷ []) ≡ wanted
reorder_items-list_items_example =
    reorder_items-list_items 5 1 7 7 wanted conn after_reorder reordered refl relisted

removed : (remove_item 5 1 7 10 conn).0 ≡ ok tt
unfolding remove_item first_by where_rows update_rows put delete_rows count_rows transaction ◌>>=◌
removed = refl

abbrev after_removal : Conn Shelf
after_removal = record { tables = (remove_item 5 1 7 10 conn).1.tables; faults = λ n. false }

listed_after_removal : (list_items 1 7 after_removal).0 ≡ ok (item 1 11 0 ∷ item 1 12 1 ∷ [])
unfolding remove_item list_items first_by where_rows update_rows put delete_rows count_rows
    transaction ◌>>=◌
listed_after_removal = refl

once : (m : ℕ) → count_rows (is_item 1 m) shelf.items ≤ 1
unfolding count_rows
once m = ground arith

remove_item-list_items_example :
    IsDense 0 (item 1 11 0 ∷ item 1 12 1 ∷ [])
    × ((m : ℕ)
        → occurs m (11 ∷ 12 ∷ [])
          ≡ (if m == 10 then 0 else occurs m (music_ids (items_of 1 shelf))))
remove_item-list_items_example =
    remove_item-list_items 5 1 7 7 10 conn after_removal once removed refl listed_after_removal

foreign_playlist_example :
    IsRefused (edit 5 1 8 (remove 10) conn).0 × ((edit 5 1 8 (remove 10) conn).1.tables ≡ shelf)
foreign_playlist_example = foreign_playlist 1 8 5 (remove 10) conn (refl, (refl, tt))

edit-IsApart_example :
    IsApart 1 shelf (edit 5 1 7 (remove 10) conn).1.tables
    × ((x : Error)
        → (edit 5 1 7 (remove 10) conn).0 ≡ err x
        → (edit 5 1 7 (remove 10) conn).1.tables ≡ shelf)
edit-IsApart_example = edit-IsApart 5 1 7 (remove 10) conn

abbrev bare : Conn Shelf
bare = record {
  tables = record { playlists = []; items = []; musics = 10 ∷ []; next_playlist = 1 };
  faults = λ n. false;
}

abbrev with_playlist : Conn Shelf
with_playlist = record {
  tables = (create_playlist 4 (playlist 0 7) bare).1.tables;
  faults = λ n. false;
}

Reach-IsLimited_example : IsLimited (edit 5 1 7 (add 10) with_playlist).1.tables
Reach-IsLimited_example =
    Reach-IsLimited
      (edited with_playlist 5 1 7 (add 10) (created bare 4 (playlist 0 7) (empty (10 ∷ []))))

padded_name : normalize_name (32 ∷ 65 ∷ 32 ∷ 9 ∷ 66 ∷ []) ≡ ok (65 ∷ 32 ∷ 66 ∷ [])
unfolding normalize_name is_space
padded_name = refl

normalize_name_lem_example :
    (is_empty {A = ℕ} (65 ∷ 32 ∷ 66 ∷ []) ≡ false)
    × (contains 0 (65 ∷ 32 ∷ 66 ∷ []) ≡ false)
    × (length {A = ℕ} (65 ∷ 32 ∷ 66 ∷ []) ≤ 120)
    × (normalize_name (65 ∷ 32 ∷ 66 ∷ []) ≡ ok (65 ∷ 32 ∷ 66 ∷ []))
normalize_name_lem_example =
    normalize_name_lem (32 ∷ 65 ∷ 32 ∷ 9 ∷ 66 ∷ []) (65 ∷ 32 ∷ 66 ∷ []) padded_name

owned : owned_row 1 7 shelf ≡ some (playlist 1 7)
unfolding owned_row first_by
owned = refl

there : 1 ≤ count_rows (λ x. x == 13) shelf.musics
unfolding count_rows
there = ground arith

room :
    (1 ≤ count_rows (is_item 1 13) shelf.items)
    ⊎ (count_rows (is_in 1) shelf.items < max_playlist_items)
unfolding count_rows
room = ground arith

add_item_lem_example :
    ((add_item 5 1 7 13 conn).0 ≡ ok tt)
    × (1 ≤ count_rows (is_item 1 13) (add_item 5 1 7 13 conn).1.tables.items)
add_item_lem_example = add_item_lem 5 1 7 13 conn (λ n. refl) owned there room
