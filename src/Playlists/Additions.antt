-- ===== src/Playlists/Additions.antt =====
-- What an addition leaves when the database works.
use music_online_go.Database.Session.Success.{
  last_statement_works, statement_works, transaction_works, query_works, IsWorking,
}
use music_online_go.Prelude.{
  true, Bool, leb, [], ◌∷◌, ◌++◌, ap, inr, ◌∙◌, inl, ltb, suc, Bool-cases, arith, ◌<◌, ◌⊎◌, ◌==◌,
  ◌≤◌, some, false, ◌≡◌, ℕ, refl,
}
use music_online_go.Database.Errors.{ok}
use music_online_go.Database.Session.{Conn, Db, next, query, pure, ◌>>=◌}
use music_online_go.Database.Table.{update_rows, count_rows}
use music_online_go.Database.Table.Counts.{count_rows-append}
use music_online_go.Playlists.Store.{PlaylistItem, max_playlist_items, Playlist, Shelf}
use music_online_go.Playlists.Repository.{
  touched, next_position, update_playlists, touch_playlist, insert_item, append_within, append_item,
  append_unless, is_in, is_item, owned_row, found_playlist, ensure_owned, add_item,
}

-- What is left of an addition succeeds, and the music is in the playlist then.
abbrev IsAdded : ℕ → ℕ → Db Shelf Unit → Conn Shelf → Type 0
IsAdded id m body c =
    (d : Conn Shelf) × (body c ≡ (ok tt, d))
    × IsWorking d
    × (1 ≤ count_rows (is_item id m) d.tables.items)

ensure_owned_works :
    {B : Type 0} (id user_id : ℕ) (k : Unit → Db Shelf B) (c : Conn Shelf) {p : Playlist}
    → IsWorking c
    → owned_row id user_id c.tables ≡ some p
    → (ensure_owned id user_id >>= k) c ≡ k tt (next c)
unfolding ensure_owned found_playlist ◌>>=◌
ensure_owned_works id user_id k c works owned = rw (works 0, owned) refl

count_rows_one :
    (p : PlaylistItem → Bool) (i : PlaylistItem) → p i ≡ true → count_rows p (i ∷ []) ≡ 1
unfolding count_rows
count_rows_one p i h = rw (h) refl

module _ (now id m : ℕ) where
  append_within-IsAdded :
      (count : ℕ) (c : Conn Shelf)
      → IsWorking c
      → count < max_playlist_items
      → IsAdded id m (append_within now id m count) c
  unfolding append_within insert_item touch_playlist update_playlists
  append_within-IsAdded count c works room =
      let short : leb max_playlist_items count ≡ false = ground (arith, room) in
      let read =
        query_works (λ s. next_position id s.items)
          (λ place. insert_item id m place >>= λ _. touch_playlist now id) c works in
      let write =
        statement_works (λ s. (tt, record s { items = s.items ++ row ∷ [] }))
          (λ _. touch_playlist now id) (next c) (λ n. works (suc n)) in
      let touch =
        last_statement_works
          (λ s.
            (tt, record s { playlists = update_rows (λ p. p.id == id) (touched now) s.playlists }))
          (record (next (next c)) { tables = grown }) (λ n. works (suc (suc n))) in
      (
        record (next (next (next c))) {
          tables = record grown {
            playlists = update_rows (λ p. p.id == id) (touched now) grown.playlists;
          };
        },
        rw (append_within, short) (read ∙ write ∙ touch),
        (λ n. works (suc (suc (suc n)))),
        omega (
          arith,
          count_rows-append (is_item id m) c.tables.items (row ∷ []),
          count_rows_one (is_item id m) row (ground arith),
        ),
      )
    where
      row : PlaylistItem
      row = record { playlist_id = id; music_id = m; position = next_position id c.tables.items }

      grown : Shelf
      grown = record c.tables { items = c.tables.items ++ row ∷ [] }

  append_unless-IsAdded :
      (c : Conn Shelf)
      → IsWorking c
      → (1 ≤ count_rows (is_item id m) c.tables.items)
        ⊎ (count_rows (is_in id) c.tables.items < max_playlist_items)
      → IsAdded id m (append_unless now id m (count_rows (is_item id m) c.tables.items)) c
  unfolding append_unless pure
  append_unless-IsAdded c works room = elim (Bool-cases (ltb 0 existing)) [
    | inl e ↦ (c, rw (append_unless, e) refl, works, ground (arith, e))
    | inr e ↦
        let (d, run, after, added) =
          append_within-IsAdded (count_rows (is_in id) c.tables.items) (next c) (λ n. works (suc n))
            (ground (arith, room, e)) in
        (
          d,
          rw (append_unless, e)
              (query_works (λ s. count_rows (is_in id) s.items) (append_within now id m) c works
                ∙ run),
          after,
          added,
        )
  ]
    where
      existing : ℕ
      existing = count_rows (is_item id m) c.tables.items

  append_item-IsAdded :
      (count : ℕ) (c : Conn Shelf)
      → 1 ≤ count
      → IsWorking c
      → (1 ≤ count_rows (is_item id m) c.tables.items)
        ⊎ (count_rows (is_in id) c.tables.items < max_playlist_items)
      → IsAdded id m (append_item now id m count) c
  unfolding append_item
  append_item-IsAdded count c there works room =
      let some_music : (count == 0) ≡ false = ground (arith, there) in
      let (d, run, after, added) = append_unless-IsAdded (next c) (λ n. works (suc n)) room in
      (
        d,
        rw (append_item, some_music)
            (query_works (λ s. count_rows (is_item id m) s.items) (append_unless now id m) c works
              ∙ run),
        after,
        added,
      )

-- An addition to an owned playlist of music that is there succeeds and leaves the music in the
-- playlist, if it was in the playlist or the playlist has room, and the database refuses no statement.
pub add_item_lem :
    (now id user_id m : ℕ) (c : Conn Shelf) {p : Playlist}
    → IsWorking c
    → owned_row id user_id c.tables ≡ some p
    → 1 ≤ count_rows (λ x. x == m) c.tables.musics
    → (1 ≤ count_rows (is_item id m) c.tables.items)
      ⊎ (count_rows (is_in id) c.tables.items < max_playlist_items)
    → ((add_item now id user_id m c).0 ≡ ok tt)
      × (1 ≤ count_rows (is_item id m) (add_item now id user_id m c).1.tables.items)
unfolding add_item
add_item_lem now id user_id m c {p} works owned there room =
    let rest =
      λ (_ : Unit). query (λ s. count_rows (λ x. x == m) s.musics) >>= append_item now id m in
    let (d, run, after, added) =
      append_item-IsAdded now id m (count_rows (λ x. x == m) c.tables.musics) (next (next (next c)))
        there (λ n. works (suc (suc (suc n)))) room in
    let body =
      ensure_owned_works id user_id rest (next c) {p = p} (λ n. works (suc n)) owned
      ∙ query_works (λ s. count_rows (λ x. x == m) s.musics) (append_item now id m) (next (next c))
          (λ n. works (suc (suc n)))
      ∙ run in
    let done = transaction_works (ensure_owned id user_id >>= rest) c d tt works after body in
    (ap (λ r. r.0) done, rw (done) added)
