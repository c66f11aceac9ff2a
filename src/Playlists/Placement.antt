-- ===== src/Playlists/Placement.antt =====
-- The loops that number the items of a playlist, without their statements, and what a transaction on
-- an owned playlist has done when it succeeds.
use music_online_go.Database.Errors.{ok}
use mathlib.Core.Path.{subst}
use music_online_go.Prelude.{
  Option-cases, ◌∙◌, refl, ◌==◌, &&_iff, ==_iff, Bool-cases, arith, inl, inr, false, [], All-map,
  ◌⊎◌, All, ◌≤◌, true, suc, if◌then◌else◌, ◌+◌, ◌∷◌, ◌≡◌, List, ℕ,
}
use music_online_go.Database.Session.{Conn, Db, next, pure, ◌>>=◌}
use music_online_go.Database.Session.Success.{statement-bind}
use music_online_go.Database.Table.{where_rows, count_rows, All-update_rows_if, update_rows}
use music_online_go.Database.Table.Counts.{All-where_rows, count_rows-where_rows}
use music_online_go.Database.Order.{All-order_by, order_by-IsSorted, order_by-count_rows, IsBy}
use music_online_go.Playlists.Store.{PlaylistItem, Shelf}
use music_online_go.Playlists.Repository.{
  owned_row, item_before, found_playlist, music_ids, ensure_owned, items_of, moved, is_item, is_in,
  update_items, place_from,
}
use music_online_go.Playlists.Ids.Laws.{IsUnique, occurs}
use music_online_go.Playlists.Listing.{IsPlaced, dense, IsDense, has_music, IsAt}

-- The items of a playlist after its music was numbered from a position on.
unfoldable pub placed_rows : ℕ → ℕ → List ℕ → List PlaylistItem → List PlaylistItem
placed_rows id k [] rows = rows
placed_rows id k (m ∷ ms) rows =
    placed_rows id (suc k) ms (update_rows (is_item id m) (moved k) rows)

-- The loop has run to its end if it returns without an error.
pub place_from_ok :
    (id k : ℕ) (ids : List ℕ) (c : Conn Shelf)
    → (place_from id k ids c).0 ≡ ok tt
    → (place_from id k ids c).1.tables
      ≡ record c.tables { items = placed_rows id k ids c.tables.items }
unfolding place_from placed_rows update_items pure
place_from_ok id k [] c h = refl
place_from_ok id k (m ∷ ms) c h =
    let step =
      statement-bind (λ s. (tt, record s { items = update_rows (is_item id m) (moved k) s.items }))
        (λ _. place_from id (suc k) ms) c h in
    rw (step) (place_from_ok id (suc k) ms _ (rw (step) at h))

module _ (id : ℕ) (requested : List ℕ) where
  -- An item of the playlist that stands where the request has its music.
  abbrev pub IsDone : PlaylistItem → Type 0
  IsDone i = is_in id i ≡ true → IsAt requested i.position i.music_id

  abbrev IsDue : List ℕ → PlaylistItem → Type 0
  IsDue ids i = (is_in id i ≡ true → 1 ≤ occurs i.music_id ids) ⊎ IsDone i

  IsDue-moved :
      (k m : ℕ) (ids : List ℕ)
      → IsAt requested k m
      → (i : PlaylistItem) → IsDue (m ∷ ids) i
      → IsDue ids (if is_item id m i then moved k i else i)
  unfolding occurs
  IsDue-moved k m ids at i due = elim (Bool-cases (is_item id m i)) [
    | inl e ↦
        let same = (==_iff i.music_id m).0 ((&&_iff (is_in id i) (i.music_id == m)).0 e).1 in
        rw (e) (inr (λ _. rw (same) at))
    | inr e ↦ rw (e) (still due e)
  ]
    where
      still : IsDue (m ∷ ids) i → is_item id m i ≡ false → IsDue ids i
      still (inr d) e = inr d
      still (inl d) e = inl (λ h. ground (arith, d h, e, h))

  -- The loop over the rest of a request leaves each item where the request has its music.
  pub IsDone-placed_rows :
      (k : ℕ) (ids : List ℕ) (rows : List PlaylistItem)
      → ((n m : ℕ) → IsAt ids n m → IsAt requested (k + n) m)
      → All (IsDue ids) rows
      → All IsDone (placed_rows id k ids rows)
  unfolding placed_rows occurs
  IsDone-placed_rows k [] rows within due = All-map done rows due
    where
      done : (i : PlaylistItem) → IsDue [] i → IsDone i
      done i (inl d) h = absurd (omega (arith, d h))
      done i (inr d) h = d h
  IsDone-placed_rows k (m ∷ ms) rows within due =
      IsDone-placed_rows (suc k) ms _
        (λ n x h. subst (λ j. IsAt requested j x) (shift n) (within (suc n) x h))
        (All-update_rows_if (IsDue (m ∷ ms)) (IsDue ms) (is_item id m) (moved k)
          (IsDue-moved k m ms (subst (λ j. IsAt requested j m) (omega arith) (within 0 m refl)))
          rows due)
    where
      shift : (n : ℕ) → k + suc n ≡ suc k + n
      shift n = omega arith

item_before-IsBy : IsBy (λ i. i.position) item_before
item_before-IsBy i j = elim (Bool-cases (item_before i j)) [
  | inl e ↦ inl (e, ground (arith, e))
  | inr e ↦ inr (e, ground (arith, e))
]

occurs-music_ids :
    (m : ℕ) (is : List PlaylistItem) → occurs m (music_ids is) ≡ count_rows (has_music m) is
unfolding occurs count_rows
occurs-music_ids m [] = refl
occurs-music_ids m (i ∷ is) = ground (arith, occurs-music_ids m is)

count_rows-items_of :
    (id m : ℕ) (s : Shelf)
    → count_rows (has_music m) (items_of id s) ≡ count_rows (is_item id m) s.items
unfolding items_of
count_rows-items_of id m s =
    order_by-count_rows item_before (has_music m) (where_rows (is_in id) s.items)
    ∙ count_rows-where_rows (is_in id) (has_music m) s.items

-- A listing has the music of exactly the items in the table.
pub occurs-items_of :
    (id m : ℕ) (s : Shelf)
    → occurs m (music_ids (items_of id s)) ≡ count_rows (is_item id m) s.items
occurs-items_of id m s = occurs-music_ids m (items_of id s) ∙ count_rows-items_of id m s

-- The listing of a playlist that was numbered.
pub items_of_lem :
    (id : ℕ) (requested : List ℕ) (s : Shelf)
    → All (IsDone id requested) s.items
    → ((m : ℕ) → count_rows (is_item id m) s.items ≡ occurs m requested)
    → IsUnique requested
    → (music_ids (items_of id s) ≡ requested) × IsDense 0 (items_of id s)
unfolding items_of
items_of_lem id requested s done same u =
    dense 0 requested (items_of id s)
      (order_by-IsSorted (λ i. i.position) item_before item_before-IsBy
        (where_rows (is_in id) s.items))
      (All-order_by (IsPlaced 0 requested) item_before _ (
        All-map (λ i h. (i.position, omega arith, h.0 h.1)) _
          (All-where_rows _ (is_in id) s.items done)))
      (λ m. count_rows-items_of id m s ∙ same m) u

-- What follows the check of the owner runs with unchanged tables.
pub ensure_owned-bind :
    {B : Type 0} (id user_id : ℕ) (k : Unit → Db Shelf B) (c : Conn Shelf) {b : B}
    → ((ensure_owned id user_id >>= k) c).0 ≡ ok b
    → (ensure_owned id user_id >>= k) c ≡ k tt (next c)
unfolding ensure_owned found_playlist ◌>>=◌
ensure_owned-bind id user_id k c h = elim (Bool-cases (c.faults 0)) [
  | inl e ↦ absurd (ground arith)
  | inr e ↦ elim (Option-cases (owned_row id user_id c.tables)) [
    | inl o ↦ absurd (ground arith)
    | inr (p, o) ↦ rw (e, o)
  ]
]
