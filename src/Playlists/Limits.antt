-- ===== src/Playlists/Limits.antt =====
-- The invariant of the playlist tables, and the tables that the operations reach.
use music_online_go.Prelude.{
  ◌∙◌, &&_iff, ◌&&◌, ◌≡◌, inr, ==_iff, ap, inl, Bool-cases, ◌==◌, length, ◌∷◌, ◌++◌, [], ◌<◌, arith,
  ◌≤◌, ℕ, Bool, List, refl,
}
use music_online_go.Database.Session.{Conn, transaction}
use music_online_go.Database.Session.Keeps.{
  Keeps-query, Keeps-bind, Keeps-transaction, Keeps-if, Keeps-pure, Keeps, Keeps-statement,
}
use music_online_go.Database.Table.{delete_rows, count_rows}
use music_online_go.Database.Table.Counts.{
  count_rows-append, count_rows-update_rows, count_rows-delete_rows,
}
use music_online_go.Playlists.Store.{max_playlist_items, Playlist, PlaylistItem, Shelf}
use music_online_go.Playlists.Repository.{
  create_playlist, remove_music, compact_all, moved, is_item, is_in,
}
use music_online_go.Playlists.Edits.{
  Keeps-touch_playlist, Keeps-compact_positions, Keeps-edit, edit, Edit, IsKept,
}

-- No playlist is longer than the limit or has the same music twice.
pub record IsLimited (s : Shelf) : Type 0 where
  pub full : (id : ℕ) → count_rows (is_in id) s.items ≤ max_playlist_items
  pub once : (id m : ℕ) → count_rows (is_item id m) s.items ≤ 1

IsLimited-playlists :
    (ps : List Playlist) (n : ℕ) (s : Shelf)
    → IsLimited s
    → IsLimited (record s { playlists = ps; next_playlist = n })
IsLimited-playlists ps n s h = record { full = h.full; once = h.once }

-- Counts that do not grow stay within the limits.
IsLimited-fewer :
    (rows : List PlaylistItem) (s : Shelf)
    → ((p : PlaylistItem → Bool) → count_rows p rows ≤ count_rows p s.items)
    → IsLimited s
    → IsLimited (record s { items = rows })
IsLimited-fewer rows s fewer h = record {
  full = λ id. omega (arith, fewer (is_in id), h.full id);
  once = λ id m. omega (arith, fewer (is_item id m), h.once id m);
}

IsLimited-delete :
    (p : PlaylistItem → Bool) (s : Shelf)
    → IsLimited s
    → IsLimited (record s { items = delete_rows p s.items })
IsLimited-delete p s h =
    IsLimited-fewer _ s (λ q. omega (arith, count_rows-delete_rows q p s.items)) h

IsLimited-IsKept : (id : ℕ) → IsKept id IsLimited
unfolding count_rows
IsLimited-IsKept id = record {
  placed = λ m k s h. record {
    full = λ x. omega (
      arith,
      count_rows-update_rows (is_in x) (is_item id m) (moved k) s.items (λ r. refl),
      h.full x,
    );
    once = λ x y. omega (
      arith,
      count_rows-update_rows (is_item x y) (is_item id m) (moved k) s.items (λ r. refl),
      h.once x y,
    );
  };
  cut = λ p s within h. IsLimited-delete p s h;
  changed = λ f s same h. IsLimited-playlists _ _ s h;
  dropped = λ s h. IsLimited-playlists _ _ s h;
  grown = λ m k s fresh room h. record { full = longer m k s room h; once = new m k s fresh h };
}
  where
    longer :
        (m k : ℕ) (s : Shelf)
        → count_rows (is_in id) s.items < max_playlist_items
        → IsLimited s
        → (x : ℕ)
        → count_rows
            (is_in x)
            (s.items ++ record { playlist_id = id; music_id = m; position = k } ∷ [])
          ≤ max_playlist_items
    longer m k s room h x =
        let sum =
          count_rows-append (is_in x) s.items
            (record { playlist_id = id; music_id = m; position = k } ∷ []) in
        elim (Bool-cases (id == x)) [
          | inl e ↦
              let same = ap (λ j. count_rows (is_in j) s.items) ((==_iff id x).0 e) in
              ground (arith, sum, room, same, e)
          | inr e ↦ ground (arith, sum, h.full x, e)
        ]

    new :
        (m k : ℕ) (s : Shelf)
        → count_rows (is_item id m) s.items ≡ 0
        → IsLimited s
        → (x y : ℕ)
        → count_rows
            (is_item x y)
            (s.items ++ record { playlist_id = id; music_id = m; position = k } ∷ [])
          ≤ 1
    new m k s fresh h x y =
        let sum =
          count_rows-append (is_item x y) s.items
            (record { playlist_id = id; music_id = m; position = k } ∷ []) in
        elim (Bool-cases (id == x && m == y)) [
          | inl e ↦
              let both = (&&_iff (id == x) (m == y)).0 e in
              let same : count_rows (is_item id m) s.items ≡ count_rows (is_item x y) s.items =
                ap (λ j. count_rows (is_item j m) s.items) ((==_iff id x).0 both.0)
                ∙ ap (λ j. count_rows (is_item x j) s.items) ((==_iff m y).0 both.1) in
              omega (arith, rw (e) at sum, fresh, same)
          | inr e ↦ omega (arith, rw (e) at sum, h.once x y)
        ]

-- `removeMusicFromPlaylists` inside a transaction of its caller.
Keeps-compact_all : (now : ℕ) (ids : List ℕ) → Keeps IsLimited (compact_all now ids)
unfolding compact_all
Keeps-compact_all now [] = Keeps-pure tt
Keeps-compact_all now (id ∷ ids) =
    Keeps-bind _ _ (Keeps-compact_positions (IsLimited-IsKept id)) (λ _.
      Keeps-bind _ _ (Keeps-touch_playlist (IsLimited-IsKept id) now)
        (λ _. Keeps-compact_all now ids))

Keeps-remove_music : (now : ℕ) (ids : List ℕ) → Keeps IsLimited (remove_music now ids)
unfolding remove_music
Keeps-remove_music now ids = Keeps-if (length ids == 0) _ _ (Keeps-pure tt) (
    Keeps-bind _ _ (Keeps-query _) (λ found. Keeps-if (length found == 0) _ _ (Keeps-pure tt) (
      Keeps-bind _ _ (Keeps-statement _ (λ s h. IsLimited-delete _ s h))
        (λ _. Keeps-compact_all now found))))

-- Tables reached from empty ones by operations of any processes and users, each with a driver that
-- fails at will.
pub data Reach : Shelf → Type 0 where
  empty :
      (musics : List ℕ)
      → Reach (record { playlists = []; items = []; musics = musics; next_playlist = 1 })
  created :
      (c : Conn Shelf) (now : ℕ) (p : Playlist)
      → Reach c.tables
      → Reach (create_playlist now p c).1.tables
  edited :
      (c : Conn Shelf) (now id user_id : ℕ) (e : Edit)
      → Reach c.tables
      → Reach (edit now id user_id e c).1.tables
  music_removed :
      (c : Conn Shelf) (now : ℕ) (ids : List ℕ)
      → Reach c.tables
      → Reach (transaction (remove_music now ids) c).1.tables
  music_changed : (s : Shelf) (musics : List ℕ) → Reach s → Reach (record s { musics = musics })

-- In all tables that operations reach from empty ones, no playlist has more than 500 items, and none
-- has the same music twice.
pub Reach-IsLimited : {s : Shelf} → Reach s → IsLimited s
unfolding create_playlist count_rows
Reach-IsLimited (empty musics) = record { full = λ id. omega arith; once = λ id m. omega arith }
Reach-IsLimited (created c now p r) =
    (Keeps-statement _ (λ s h. IsLimited-playlists _ _ s h)).at c (Reach-IsLimited r)
Reach-IsLimited (edited c now id user_id e r) =
    (Keeps-edit (IsLimited-IsKept id) now user_id e).at c (Reach-IsLimited r)
Reach-IsLimited (music_removed c now ids r) =
    (Keeps-transaction _ (Keeps-remove_music now ids)).at c (Reach-IsLimited r)
Reach-IsLimited (music_changed s musics r) =
    let h = Reach-IsLimited r in record { full = h.full; once = h.once }
