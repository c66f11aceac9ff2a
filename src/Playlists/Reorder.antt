-- ===== src/Playlists/Reorder.antt =====
-- What a reorder leaves.
use mathlib.Core.Path.{subst}
use music_online_go.Prelude.{
  Option-cases, All-map, sym, ◌≤◌, ==_iff, ◌==◌, &&_iff, arith, [], inl, inr, ◌∙◌, suc, All, ap,
  ◌∷◌, Bool-cases, true, List, ℕ, refl, ◌≡◌,
}
use music_online_go.Database.Errors.{items_mismatch, ok}
use music_online_go.Database.Session.{Conn, next, query, pure, raise, ◌>>=◌, ◌>>◌}
use music_online_go.Database.Session.Success.{query-bind, statement_ok, bind_ok}
use music_online_go.Database.Session.Rollback.{transaction_commit}
use music_online_go.Database.Table.{count_rows}
use music_online_go.Database.Table.Counts.{All-count_rows_self, count_rows-update_rows}
use music_online_go.Playlists.Store.{Shelf, PlaylistItem}
use music_online_go.Playlists.Ids.{same_unique_ids, ids_equal}
use music_online_go.Playlists.Ids.Laws.{same_unique_ids_lem, IsUnique, occurs}
use music_online_go.Playlists.Repository.{
  owned_row, found_playlist, ensure_owned, find_owned, list_items, reorder_items, is_in, moved,
  is_item, items_of, music_ids, place_from, update_playlists, touch_playlist, apply_order,
}
use music_online_go.Playlists.Listing.{IsAt}
use music_online_go.Playlists.Placement.{
  occurs-items_of, ensure_owned-bind, items_of_lem, IsDone-placed_rows, place_from_ok, IsDone,
  placed_rows,
}

ids_equal-path : (xs ys : List ℕ) → ids_equal xs ys ≡ true → xs ≡ ys
unfolding ids_equal
ids_equal-path [] [] h = refl
ids_equal-path [] (y ∷ ys) h = absurd (ground arith)
ids_equal-path (x ∷ xs) [] h = absurd (ground arith)
ids_equal-path (x ∷ xs) (y ∷ ys) h =
    let both = (&&_iff (x == y) (ids_equal xs ys)).0 h in
    let head : x ≡ y = (==_iff x y).0 both.0 in rw (head, ids_equal-path xs ys both.1) refl

-- Numbering keeps which music the playlist has.
pub count_rows-placed_rows :
    (id k m : ℕ) (ids : List ℕ) (rows : List PlaylistItem)
    → count_rows (is_item id m) (placed_rows id k ids rows) ≡ count_rows (is_item id m) rows
unfolding placed_rows
count_rows-placed_rows id k m [] rows = refl
count_rows-placed_rows id k m (x ∷ ids) rows =
    count_rows-placed_rows id (suc k) m ids _
    ∙ count_rows-update_rows (is_item id m) (is_item id x) (moved k) rows (λ r. refl)

place-touch_ok :
    (now id : ℕ) (ids : List ℕ) (c : Conn Shelf)
    → ((place_from id 0 ids >> touch_playlist now id) c).0 ≡ ok tt
    → ((place_from id 0 ids >> touch_playlist now id) c).1.tables.items
      ≡ placed_rows id 0 ids c.tables.items
unfolding touch_playlist update_playlists
place-touch_ok now id ids c h =
    let (a, e, step) = bind_ok (place_from id 0 ids) (λ _. touch_playlist now id) c h in
    rw (step) (
      ap (λ s. s.items) (statement_ok _ (place_from id 0 ids c).1 (rw (step) at h))
      ∙ ap (λ s. s.items) (place_from_ok id 0 ids c e))

-- Items that all have the music of the request are numbered by it.
pub numbered :
    (id : ℕ) (requested : List ℕ) (rows : List PlaylistItem)
    → ((m : ℕ) → count_rows (is_item id m) rows ≡ occurs m requested)
    → All (IsDone id requested) (placed_rows id 0 requested rows)
numbered id requested rows same =
    IsDone-placed_rows id requested 0 requested rows
      (λ n m h. subst (λ j. IsAt requested j m) (omega arith) h)
      (All-map (λ i h. inl (λ e. listed i (h (itself i e)))) rows
        (All-count_rows_self (λ i. is_item id i.music_id) rows))
  where
    itself : (i : PlaylistItem) → is_in id i ≡ true → is_item id i.music_id i ≡ true
    itself i e = ground (arith, e)

    listed :
        (i : PlaylistItem)
        → 1 ≤ count_rows (is_item id i.music_id) rows
        → 1 ≤ occurs i.music_id requested
    listed i h = omega (arith, h, same i.music_id)

placed_listing :
    (now id : ℕ) (requested : List ℕ) (c : Conn Shelf)
    → ((place_from id 0 requested >> touch_playlist now id) c).0 ≡ ok tt
    → ((m : ℕ) → count_rows (is_item id m) c.tables.items ≡ occurs m requested)
    → IsUnique requested
    → music_ids (items_of id ((place_from id 0 requested >> touch_playlist now id) c).1.tables)
      ≡ requested
placed_listing now id requested c h same u =
    let done = place-touch_ok now id requested c h in
    (items_of_lem id requested _ (rw (done) (numbered id requested c.tables.items same))
      (λ m.
        ap (λ is. count_rows (is_item id m) is) done
        ∙ count_rows-placed_rows id 0 m requested c.tables.items
        ∙ same m)
      u).0

apply_order_ok :
    (now id : ℕ) (requested current : List ℕ) (c : Conn Shelf)
    → current ≡ music_ids (items_of id c.tables)
    → (apply_order now id requested current c).0 ≡ ok tt
    → music_ids (items_of id (apply_order now id requested current c).1.tables) ≡ requested
unfolding apply_order raise pure
apply_order_ok now id requested current c listed h =
    elim (Bool-cases (same_unique_ids current requested)) [
      | inr e ↦ absurd (refused (rw (apply_order, e) at h))
      | inl e ↦ elim (Bool-cases (ids_equal current requested)) [
        | inl q ↦ rw (apply_order, e, q) (sym listed ∙ ids_equal-path current requested q)
        | inr q ↦
            let same = (same_unique_ids_lem current requested).0 e in
            rw (apply_order, e, q)
              (placed_listing now id requested c (rw (apply_order, e, q) at h)
                (λ m.
                  sym (occurs-items_of id m c.tables)
                  ∙ ap (λ is. occurs m is) (sym listed)
                  ∙ sym (same.0 m))
                (λ m. omega (arith, same.0 m, same.1 m)))
      ]
    ]
  where
    refused : (raise {S = Shelf} {A = Unit} items_mismatch c).0 ≡ ok tt → ⊥
    refused x = cc

-- A listing that is returned is that of the tables.
pub list_items_ok :
    (id user_id : ℕ) (d : Conn Shelf) {items : List PlaylistItem}
    → (list_items id user_id d).0 ≡ ok items
    → items_of id d.tables ≡ items
unfolding list_items find_owned found_playlist ◌>>=◌
list_items_ok id user_id d {items} h = elim (Bool-cases (d.faults 0)) [
  | inl e ↦ absurd (ground (arith, e, h))
  | inr e ↦ elim (Option-cases (owned_row id user_id d.tables)) [
    | inl o ↦ absurd (ground (arith, e, h, o))
    | inr (p, o) ↦ ground (arith, e, h, o)
  ]
]

reorder_items_ok :
    (now id user_id : ℕ) (requested : List ℕ) (c : Conn Shelf)
    → (reorder_items now id user_id requested c).0 ≡ ok tt
    → music_ids (items_of id (reorder_items now id user_id requested c).1.tables) ≡ requested
unfolding reorder_items
reorder_items_ok now id user_id requested c h =
    let listing = query (λ s. music_ids (items_of id s)) in
    let rest = λ (_ : Unit). listing >>= apply_order now id requested in
    let (done, kept) = transaction_commit (ensure_owned id user_id >>= rest) c h in
    let owned = ensure_owned-bind id user_id rest (next c) done in
    let read =
      query-bind (λ s. music_ids (items_of id s)) (apply_order now id requested) (next (next c))
        (rw (owned) at done) in
    let last = owned ∙ read in
    let run =
      apply_order_ok now id requested _ (next (next (next c))) refl
        (ap (λ r. r.0) (sym last) ∙ done) in
    rw (kept, last) run

-- After a reorder that succeeded, the playlist lists the requested music in the requested order, for
-- whoever gets an answer from these tables.
pub reorder_items-list_items :
    (now id user_id reader : ℕ) (requested : List ℕ) (c d : Conn Shelf) {items : List PlaylistItem}
    → (reorder_items now id user_id requested c).0 ≡ ok tt
    → d.tables ≡ (reorder_items now id user_id requested c).1.tables
    → (list_items id reader d).0 ≡ ok items
    → music_ids items ≡ requested
reorder_items-list_items now id user_id reader requested c d {items} h t l =
    ap (λ is. music_ids is) (sym (list_items_ok id reader d l))
    ∙ ap (λ s. music_ids (items_of id s)) t
    ∙ reorder_items_ok now id user_id requested c h
