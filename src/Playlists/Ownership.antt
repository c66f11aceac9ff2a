-- ===== src/Playlists/Ownership.antt =====
-- Whose playlists an edit can change.
use music_online_go.Prelude.{
  ap, ◌∙◌, inr, arith, ◌==◌, inl, false, Bool-cases, ◌⊎◌, not, All, ◌≡◌, ℕ, refl,
}
use music_online_go.Database.Errors.{Error, driver, ok, playlist_not_found, err, Result}
use music_online_go.Database.Session.{settle, Conn, Db, next, transaction, ◌>>=◌}
use music_online_go.Database.Session.Rollback.{transaction_rollback}
use music_online_go.Database.Table.{where_rows}
use music_online_go.Database.Table.Counts.{
  where_rows-append, where_rows-delete_rows, first_by-All, where_rows-update_rows,
}
use music_online_go.Playlists.Store.{Shelf}
use music_online_go.Playlists.Repository.{
  moved, reorder_items, remove_item, is_in, is_item, add_item, is_owned, owned_row, delete_playlist,
  found_playlist, update_playlist, ensure_owned,
}
use music_online_go.Playlists.Edits.{
  Keeps-edit, discard, reorder, remove, add, rename, Edit, IsKept, edit,
}

-- "Not found", or a failure of the database.
abbrev pub IsRefused : {A : Type 0} → Result A → Type 0
IsRefused r = (r ≡ err playlist_not_found) ⊎ (r ≡ err driver)

-- The user owns no playlist of this number.
abbrev pub IsForeign : ℕ → ℕ → Shelf → Type 0
IsForeign id user_id s = All (λ p. is_owned id user_id p ≡ false) s.playlists

module _ (id user_id : ℕ) where
  IsRefused-bind :
      {B : Type 0} (k : Unit → Db Shelf B) (c : Conn Shelf)
      → IsForeign id user_id c.tables
      → IsRefused ((ensure_owned id user_id >>= k) c).0
  unfolding ensure_owned found_playlist owned_row ◌>>=◌
  IsRefused-bind k c h = elim (Bool-cases (c.faults 0)) [
    | inl e ↦ rw (e) (inr refl)
    | inr e ↦ rw (e, first_by-All (λ p. p.id) (is_owned id user_id) c.tables.playlists h) (inl refl)
  ]

  IsRefused-transaction :
      (k : Unit → Db Shelf Unit) (c : Conn Shelf)
      → IsForeign id user_id c.tables
      → IsRefused (transaction (ensure_owned id user_id >>= k) c).0
        × ((transaction (ensure_owned id user_id >>= k) c).1.tables ≡ c.tables)
  unfolding transaction
  IsRefused-transaction k c h = (refused, kept refused)
    where
      body : Db Shelf Unit
      body = ensure_owned id user_id >>= k

      settled : (r : Result Unit) (d : Conn Shelf) → IsRefused r → IsRefused (settle c.tables r d).0
      settled (ok a) d (inl e) = absurd (ground (arith, e))
      settled (ok a) d (inr e) = absurd (ground (arith, e))
      settled (err x) d e = e

      refused : IsRefused (transaction body c).0
      refused = elim (Bool-cases (c.faults 0)) [
        | inl e ↦ rw (e) (inr refl)
        | inr e ↦ rw (e) (settled (body (next c)).0 (body (next c)).1 (IsRefused-bind k (next c) h))
      ]

      kept : IsRefused (transaction body c).0 → (transaction body c).1.tables ≡ c.tables
      kept (inl e) = transaction_rollback body c {e = playlist_not_found} e
      kept (inr e) = transaction_rollback body c {e = driver} e

  -- An edit of a playlist that the user does not own is refused with "not found", or with a failure of
  -- the database, and changes nothing.
  pub foreign_playlist :
      (now : ℕ) (e : Edit) (c : Conn Shelf)
      → IsForeign id user_id c.tables
      → IsRefused (edit now id user_id e c).0 × ((edit now id user_id e c).1.tables ≡ c.tables)
  unfolding edit update_playlist delete_playlist add_item remove_item reorder_items
  foreign_playlist now (rename name description) c h = IsRefused-transaction _ c h
  foreign_playlist now discard c h = IsRefused-transaction _ c h
  foreign_playlist now (add m) c h = IsRefused-transaction _ c h
  foreign_playlist now (remove m) c h = IsRefused-transaction _ c h
  foreign_playlist now (reorder requested) c h = IsRefused-transaction _ c h

-- Nothing but the playlist differs: neither other playlists, nor their items, nor the music.
pub record IsApart (id : ℕ) (old new : Shelf) : Type 0 where
  pub items :
      where_rows (λ i. not (is_in id i)) new.items ≡ where_rows (λ i. not (is_in id i)) old.items
  pub playlists :
      where_rows (λ p. not (p.id == id)) new.playlists
      ≡ where_rows (λ p. not (p.id == id)) old.playlists
  pub musics : new.musics ≡ old.musics

IsApart-IsKept : (id : ℕ) (old : Shelf) → IsKept id (IsApart id old)
IsApart-IsKept id old = record {
  placed = λ m k s h. record {
    items =
        where_rows-update_rows _ (is_item id m) (moved k) (λ i e. ground (arith, e)) s.items
        ∙ h.items;
    playlists = h.playlists;
    musics = h.musics;
  };
  cut = λ p s within h. record {
    items = where_rows-delete_rows _ p (λ i e. ap not (within i e)) s.items ∙ h.items;
    playlists = h.playlists;
    musics = h.musics;
  };
  changed = λ f s same h. record {
    items = h.items;
    playlists =
        where_rows-update_rows _ (λ p. p.id == id) f (λ p e. ground (arith, e, same p)) s.playlists
        ∙ h.playlists;
    musics = h.musics;
  };
  dropped = λ s h. record {
    items = h.items;
    playlists =
        where_rows-delete_rows _ (λ p. p.id == id) (λ p e. ap not e) s.playlists ∙ h.playlists;
    musics = h.musics;
  };
  grown = λ m k s _ _ h. record {
    items = where_rows-append _ _ (ground arith) s.items ∙ h.items;
    playlists = h.playlists;
    musics = h.musics;
  };
}

-- An edit changes nothing but its playlist and that playlist's items, and if it returns an error it
-- changes nothing at all.
pub edit-IsApart :
    (now id user_id : ℕ) (e : Edit) (c : Conn Shelf)
    → IsApart id c.tables (edit now id user_id e c).1.tables
      × ((x : Error)
          → (edit now id user_id e c).0 ≡ err x
          → (edit now id user_id e c).1.tables ≡ c.tables)
unfolding edit update_playlist delete_playlist add_item remove_item reorder_items
edit-IsApart now id user_id e c = (
  (Keeps-edit (IsApart-IsKept id c.tables) now user_id e).at c
      (record { items = refl; playlists = refl; musics = refl }),
  undone e,
)
  where
    undone :
        (e : Edit) (x : Error)
        → (edit now id user_id e c).0 ≡ err x
        → (edit now id user_id e c).1.tables ≡ c.tables
    undone (rename name description) x h = transaction_rollback _ c {e = x} h
    undone discard x h = transaction_rollback _ c {e = x} h
    undone (add m) x h = transaction_rollback _ c {e = x} h
    undone (remove m) x h = transaction_rollback _ c {e = x} h
    undone (reorder requested) x h = transaction_rollback _ c {e = x} h
