-- ===== src/Playlists/Store.antt =====
-- The rows of internal/domain/playlist.go. Of the music table only the ids matter here. The column
-- created_at, which no operation reads, and item_count, which the database library is told to ignore,
-- are left out.
use music_online_go.Prelude.{List, ℕ}

-- A text as its runes.
abbrev pub Text : Type 0
Text = List ℕ

pub record Playlist : Type 0 where
  pub id : ℕ
  pub user_id : ℕ
  pub name : Text
  pub description : Text
  pub revision : ℕ
  pub updated_at : ℕ

pub record PlaylistItem : Type 0 where
  pub playlist_id : ℕ
  pub music_id : ℕ
  pub position : ℕ

abbrev pub max_playlist_items : ℕ
max_playlist_items = 500

-- The two tables, the ids of the music table, and the id counter.
pub record Shelf : Type 0 where
  pub playlists : List Playlist
  pub items : List PlaylistItem
  pub musics : List ℕ
  pub next_playlist : ℕ
