-- ===== src/Playlists/Edits.antt =====
-- The operations on one playlist, and what a property of the tables needs for all of them to keep it.
use music_online_go.Prelude.{
  inr, arith, inl, ltb, none, Bool-cases, [], ◌++◌, ◌<◌, ◌==◌, suc, true, leb, some, ◌∷◌, Bool, ◌≡◌,
  List, ℕ, Option, refl,
}
use music_online_go.Database.Session.{Conn, Db, next, pure, raise}
use music_online_go.Database.Session.Keeps.{
  statement-at, query-at, Keeps-raise, Keeps-if, Keeps-query, Keeps-statement, Keeps-transaction,
  Keeps-pure, Keeps-bind, keeps_rules, Keeps,
}
use music_online_go.Database.Table.{delete_rows, count_rows, update_rows}
use music_online_go.Playlists.Store.{max_playlist_items, PlaylistItem, Playlist, Text, Shelf}
use music_online_go.Playlists.Repository.{
  next_position, close_gap, append_within, delete_item, renamed, append_unless, apply_order,
  reorder_items, is_in, moved, touched, remove_item, delete_playlist, insert_item, is_item,
  ensure_owned, add_item, update_items, append_item, compact_positions, touch_playlist,
  update_playlist, place_from, update_playlists, compact_from, found_playlist,
}

pub data Edit : Type 0 where
  rename : Option Text → Option Text → Edit
  discard : Edit
  add remove : ℕ → Edit
  reorder : List ℕ → Edit

-- The edit of a playlist by a user.
unfoldable pub edit : ℕ → ℕ → ℕ → Edit → Db Shelf Unit
edit now id user_id (rename name description) = update_playlist now id user_id name description
edit now id user_id discard = delete_playlist id user_id
edit now id user_id (add music_id) = add_item now id user_id music_id
edit now id user_id (remove music_id) = remove_item now id user_id music_id
edit now id user_id (reorder requested) = reorder_items now id user_id requested

-- A property that the statements on one playlist keep.
pub record IsKept (id : ℕ) (P : Shelf → Type 0) : Type 0 where
  pub placed :
      (m k : ℕ) (s : Shelf)
      → P s
      → P (record s { items = update_rows (is_item id m) (moved k) s.items })
  pub cut :
      (p : PlaylistItem → Bool) (s : Shelf)
      → ((i : PlaylistItem) → p i ≡ true → is_in id i ≡ true)
      → P s
      → P (record s { items = delete_rows p s.items })
  pub changed :
      (f : Playlist → Playlist) (s : Shelf)
      → ((p : Playlist) → (f p).id ≡ p.id)
      → P s
      → P (record s { playlists = update_rows (λ p. p.id == id) f s.playlists })
  pub dropped :
      (s : Shelf) → P s → P (record s { playlists = delete_rows (λ p. p.id == id) s.playlists })
  pub grown :
      (m k : ℕ) (s : Shelf)
      → count_rows (is_item id m) s.items ≡ 0
      → count_rows (is_in id) s.items < max_playlist_items
      → P s
      → P (record s {
        items = s.items ++ record { playlist_id = id; music_id = m; position = k } ∷ [];
      })

module _ {id : ℕ} {P : Shelf → Type 0} (kept : IsKept id P) where
  Keeps-found_playlist : (found : Option Playlist) → Keeps P (found_playlist found)
  unfolding found_playlist
  Keeps-found_playlist none = search keeps_rules
  Keeps-found_playlist (some p) = search keeps_rules

  Keeps-ensure_owned : (user_id : ℕ) → Keeps P (ensure_owned id user_id)
  unfolding ensure_owned
  Keeps-ensure_owned user_id = search (keeps_rules, Keeps-found_playlist)

  Keeps-change :
      (f : Playlist → Playlist)
      → ((p : Playlist) → (f p).id ≡ p.id)
      → Keeps P (update_playlists id f)
  unfolding update_playlists
  Keeps-change f same = Keeps-statement _ (λ s h. kept.changed f s same h)

  pub Keeps-touch_playlist : (now : ℕ) → Keeps P (touch_playlist now id)
  unfolding touch_playlist
  Keeps-touch_playlist now = Keeps-change (touched now) (λ p. refl)

  Keeps-moved : (m k : ℕ) → Keeps P (update_items (is_item id m) (moved k))
  unfolding update_items
  Keeps-moved m k = Keeps-statement _ (λ s h. kept.placed m k s h)

  Keeps-place_from : (k : ℕ) (ids : List ℕ) → Keeps P (place_from id k ids)
  unfolding place_from
  Keeps-place_from k [] = Keeps-pure tt
  Keeps-place_from k (m ∷ ms) = Keeps-bind _ _ (Keeps-moved m k) (λ _. Keeps-place_from (suc k) ms)

  Keeps-compact_from : (k : ℕ) (is : List PlaylistItem) → Keeps P (compact_from id k is)
  unfolding compact_from
  Keeps-compact_from k [] = Keeps-pure tt
  Keeps-compact_from k (i ∷ is) =
      Keeps-if _ _ _ (Keeps-compact_from (suc k) is)
        (Keeps-bind _ _ (Keeps-moved i.music_id k) (λ _. Keeps-compact_from (suc k) is))

  pub Keeps-compact_positions : Keeps P (compact_positions id)
  unfolding compact_positions
  Keeps-compact_positions = Keeps-bind _ _ (Keeps-query _) (λ is. Keeps-compact_from 0 is)

  append_within-at :
      (now m count : ℕ) (c : Conn Shelf)
      → count_rows (is_in id) c.tables.items ≡ count
      → count_rows (is_item id m) c.tables.items ≡ 0
      → P c.tables
      → P (append_within now id m count c).1.tables
  unfolding append_within insert_item raise
  append_within-at now m count c counted fresh h =
      elim (Bool-cases (leb max_playlist_items count)) [
        | inl e ↦ rw (append_within, e) h
        | inr e ↦
            rw (append_within, e)
              (query-at P (λ s. next_position id s.items) _ c h
                (statement-at P _ (λ _. touch_playlist now id) (next c) h
                  ((Keeps-touch_playlist now).at _
                    (kept.grown m _ c.tables fresh (ground (arith, counted, e)) h))))
      ]

  append_unless-at :
      (now m existing : ℕ) (c : Conn Shelf)
      → count_rows (is_item id m) c.tables.items ≡ existing
      → P c.tables
      → P (append_unless now id m existing c).1.tables
  unfolding append_unless pure
  append_unless-at now m existing c counted h = elim (Bool-cases (ltb 0 existing)) [
    | inl e ↦ rw (append_unless, e) h
    | inr e ↦
        rw (append_unless, e)
          (query-at P (λ s. count_rows (is_in id) s.items) (append_within now id m) c h
            (append_within-at now m _ (next c) refl (ground (arith, counted, e)) h))
  ]

  Keeps-append_item : (now m count : ℕ) → Keeps P (append_item now id m count)
  unfolding append_item
  Keeps-append_item now m count = Keeps-if (count == 0) _ _ (Keeps-raise _) (record {
    at = λ c h.
        query-at P (λ s. count_rows (is_item id m) s.items) (append_unless now id m) c h
          (append_unless-at now m _ (next c) refl h);
  })

  Keeps-close_gap : (now affected : ℕ) → Keeps P (close_gap now id affected)
  unfolding close_gap
  Keeps-close_gap now affected =
      Keeps-if _ _ _ (Keeps-raise _)
        (Keeps-bind _ _ Keeps-compact_positions (λ _. Keeps-touch_playlist now))

  Keeps-delete_item : (m : ℕ) → Keeps P (delete_item id m)
  unfolding delete_item
  Keeps-delete_item m =
      Keeps-statement _ (λ s h. kept.cut (is_item id m) s (λ i e. ground (arith, e)) h)

  Keeps-apply_order :
      (now : ℕ) (requested current : List ℕ) → Keeps P (apply_order now id requested current)
  unfolding apply_order
  Keeps-apply_order now requested current = Keeps-if _ _ _ (Keeps-raise _) (
      Keeps-if _ _ _ (Keeps-pure tt)
        (Keeps-bind _ _ (Keeps-place_from 0 requested) (λ _. Keeps-touch_playlist now)))

  -- Every edit of the playlist keeps the property.
  pub Keeps-edit : (now user_id : ℕ) (e : Edit) → Keeps P (edit now id user_id e)
  unfolding edit update_playlist delete_playlist add_item remove_item reorder_items
  Keeps-edit now user_id (rename name description) = Keeps-transaction _ (
      Keeps-bind _ _ (Keeps-ensure_owned user_id)
        (λ _. Keeps-change (renamed now name description) (λ p. refl)))
  Keeps-edit now user_id discard = Keeps-transaction _ (
      Keeps-bind _ _ (Keeps-ensure_owned user_id) (λ _.
        Keeps-bind _ _ (Keeps-statement _ (λ s h. kept.cut (is_in id) s (λ i e. e) h))
          (λ _. Keeps-statement _ (λ s h. kept.dropped s h))))
  Keeps-edit now user_id (add m) = Keeps-transaction _ (
      Keeps-bind _ _ (Keeps-ensure_owned user_id)
        (λ _. Keeps-bind _ _ (Keeps-query _) (λ count. Keeps-append_item now m count)))
  Keeps-edit now user_id (remove m) = Keeps-transaction _ (
      Keeps-bind _ _ (Keeps-ensure_owned user_id)
        (λ _. Keeps-bind _ _ (Keeps-delete_item m) (λ affected. Keeps-close_gap now affected)))
  Keeps-edit now user_id (reorder requested) = Keeps-transaction _ (
      Keeps-bind _ _ (Keeps-ensure_owned user_id)
        (λ _. Keeps-bind _ _ (Keeps-query _) (λ current. Keeps-apply_order now requested current)))
