-- ===== src/Playlists/Removal.antt =====
-- What a removal leaves.
use music_online_go.Playlists.Reorder.{list_items_ok}
use music_online_go.Database.Session.Rollback.{transaction_commit}
use music_online_go.Playlists.Ids.Laws.{occurs}
use music_online_go.Database.Order.{order_by, order_by-count_rows}
use mathlib.Core.Path.{subst}
use music_online_go.Prelude.{
  ap, sym, All-map, arith, ◌∙◌, [], All, ◌≤◌, Bool-cases, inl, inr, if◌then◌else◌, true, ◌≡◌, ◌&&◌,
  ◌∷◌, ◌==◌, List, ℕ,
}
use music_online_go.Database.Errors.{item_not_found, ok}
use music_online_go.Database.Session.{raise, ◌>>=◌, next, Conn}
use music_online_go.Database.Session.Success.{statement_ok, bind_ok, query-bind, statement-bind}
use music_online_go.Database.Table.{delete_rows, where_rows, count_rows}
use music_online_go.Database.Table.Counts.{All-count_rows_self, count_rows-where_rows}
use music_online_go.Playlists.Store.{Shelf, PlaylistItem}
use music_online_go.Playlists.Repository.{
  ensure_owned, update_playlists, delete_item, touch_playlist, list_items, close_gap, remove_item,
  item_before, compact_positions, items_of, music_ids, is_item, is_in, compact_from,
}
use music_online_go.Playlists.Listing.{IsDense, IsAt}
use music_online_go.Playlists.Placement.{ensure_owned-bind, occurs-items_of, items_of_lem}
use music_online_go.Playlists.Compaction.{
  count_rows-compacted, compact_from_ok, alike, IsDone-compacted, IsLeft, compacted,
}

-- Every item of the playlist is in its listing.
All-IsLeft :
    (id : ℕ) (s : Shelf) → All (IsLeft id (music_ids (items_of id s)) (items_of id s)) s.items
unfolding items_of
All-IsLeft id s =
    All-map
      (λ r h. inl (λ e. omega (
        arith,
        h (itself r e),
        order_by-count_rows item_before (alike r) (where_rows (is_in id) s.items),
        count_rows-where_rows (is_in id) (alike r) s.items,
      )))
      s.items (All-count_rows_self (λ r j. is_in id j && alike r j) s.items)
  where
    itself : (r : PlaylistItem) → is_in id r ≡ true → (is_in id r && alike r r) ≡ true
    itself r e = ground (arith, e)

compact_positions_ok :
    (id : ℕ) (c : Conn Shelf)
    → (compact_positions id c).0 ≡ ok tt
    → (compact_positions id c).1.tables
      ≡ record c.tables { items = compacted id 0 (items_of id c.tables) c.tables.items }
unfolding compact_positions
compact_positions_ok id c h =
    let step = query-bind (items_of id) (compact_from id 0) c h in
    rw (step) (compact_from_ok id 0 (items_of id c.tables) (next c) (rw (step) at h))

-- A listing after its gaps were closed.
gapless :
    (id : ℕ) (s : Shelf)
    → ((m : ℕ) → count_rows (is_item id m) s.items ≤ 1)
    → let t = record s { items = compacted id 0 (items_of id s) s.items } in
      (music_ids (items_of id t) ≡ music_ids (items_of id s)) × IsDense 0 (items_of id t)
gapless id s u =
    items_of_lem id (music_ids (items_of id s)) _
      (IsDone-compacted id (music_ids (items_of id s)) 0 (items_of id s) s.items
        (λ n m h. subst (λ j. IsAt (music_ids (items_of id s)) j m) (omega arith) h)
        (All-IsLeft id s))
      (λ m. count_rows-compacted id 0 m (items_of id s) s.items ∙ sym (occurs-items_of id m s))
      (λ m. omega (arith, occurs-items_of id m s, u m))

close_gap_ok :
    (now id affected : ℕ) (c : Conn Shelf)
    → (close_gap now id affected c).0 ≡ ok tt
    → (close_gap now id affected c).1.tables.items
      ≡ compacted id 0 (items_of id c.tables) c.tables.items
unfolding close_gap touch_playlist update_playlists raise
close_gap_ok now id affected c h = elim (Bool-cases (affected == 0)) [
  | inl e ↦ absurd (refused (rw (close_gap, e) at h))
  | inr e ↦
      let (a, f, step) =
        bind_ok (compact_positions id) (λ _. touch_playlist now id) c (rw (close_gap, e) at h) in
      rw (close_gap, e, step)
        (ap (λ s. s.items)
            (statement_ok _ (compact_positions id c).1 (rw (close_gap, e, step) at h))
          ∙ ap (λ s. s.items) (compact_positions_ok id c f))
]
  where
    refused : (raise {S = Shelf} {A = Unit} item_not_found c).0 ≡ ok tt → ⊥
    refused x = cc

-- The tables that a removal leaves behind its DELETE.
abbrev without : ℕ → ℕ → Shelf → Shelf
without id music_id s = record s { items = delete_rows (is_item id music_id) s.items }

remove_item_ok :
    (now id user_id music_id : ℕ) (c : Conn Shelf)
    → (remove_item now id user_id music_id c).0 ≡ ok tt
    → (remove_item now id user_id music_id c).1.tables.items
      ≡ compacted id 0
          (items_of id (without id music_id c.tables))
          (without id music_id c.tables).items
unfolding remove_item delete_item
remove_item_ok now id user_id music_id c h =
    let rest = λ (_ : Unit). delete_item id music_id >>= close_gap now id in
    let (done, kept) = transaction_commit (ensure_owned id user_id >>= rest) c h in
    let owned = ensure_owned-bind id user_id rest (next c) done in
    let cut =
      statement-bind (λ s. (count_rows (is_item id music_id) s.items, without id music_id s))
        (close_gap now id) (next (next c)) (rw (owned) at done) in
    let last = owned ∙ cut in
    let run =
      close_gap_ok now id _
        (record (next (next (next c))) { tables = without id music_id c.tables })
        (ap (λ r. r.0) (sym last) ∙ done) in
    rw (kept, last) run

occurs-without :
    (id music_id m : ℕ) (s : Shelf)
    → count_rows (is_item id m) (without id music_id s).items
      ≡ (if m == music_id then 0 else count_rows (is_item id m) s.items)
unfolding count_rows delete_rows
occurs-without id music_id m s = of s.items
  where
    of :
        (rows : List PlaylistItem)
        → count_rows (is_item id m) (delete_rows (is_item id music_id) rows)
          ≡ (if m == music_id then 0 else count_rows (is_item id m) rows)
    of [] = ground arith
    of (r ∷ rows) = ground (arith, of rows)

-- After a removal that succeeded, the playlist lists its other music, each as often as it did, and the
-- positions are 0, 1, 2 and so on, for whoever gets an answer from these tables, if no music was in
-- the playlist twice.
pub remove_item-list_items :
    (now id user_id reader music_id : ℕ) (c d : Conn Shelf) {items : List PlaylistItem}
    → ((m : ℕ) → count_rows (is_item id m) c.tables.items ≤ 1)
    → (remove_item now id user_id music_id c).0 ≡ ok tt
    → d.tables ≡ (remove_item now id user_id music_id c).1.tables
    → (list_items id reader d).0 ≡ ok items
    → IsDense 0 items
      × ((m : ℕ)
          → occurs m (music_ids items)
            ≡ (if m == music_id then 0 else occurs m (music_ids (items_of id c.tables))))
unfolding items_of
remove_item-list_items now id user_id reader music_id c d {items} u h t l = (
  subst (IsDense 0) same closed.1,
  λ m.
      ap (λ is. occurs m (music_ids is)) (sym same)
      ∙ ap (occurs m) closed.0
      ∙ occurs-items_of id m (without id music_id c.tables)
      ∙ occurs-without id music_id m c.tables
      ∙ ap (λ n. if m == music_id then 0 else n) (sym (occurs-items_of id m c.tables)),
)
  where
    closed :
        let s = without id music_id c.tables in
        let e = record s { items = compacted id 0 (items_of id s) s.items } in
        (music_ids (items_of id e) ≡ music_ids (items_of id s)) × IsDense 0 (items_of id e)
    closed =
        gapless id (without id music_id c.tables)
          (λ m. ground (arith, u m, occurs-without id music_id m c.tables))

    left : List PlaylistItem
    left =
        compacted id 0 (items_of id (without id music_id c.tables))
          (without id music_id c.tables).items

    same : items_of id (record c.tables { items = left }) ≡ items
    same =
        ap (λ is. order_by item_before (where_rows (is_in id) is))
          (sym (remove_item_ok now id user_id music_id c h) ∙ ap (λ s. s.items) (sym t))
        ∙ list_items_ok id reader d l
