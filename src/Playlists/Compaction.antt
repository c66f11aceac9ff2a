-- ===== src/Playlists/Compaction.antt =====
-- The loop of `compactPlaylistPositions` of internal/repository/playlist_repository.go, without its
-- statements.
use mathlib.Core.Path.{subst}
use music_online_go.Prelude.{
  All-map, arith, ==_iff, ◌∙◌, &&_iff, [], false, All, ◌⊎◌, ◌≤◌, ◌+◌, Bool-cases, inl, inr,
  if◌then◌else◌, true, suc, ◌≡◌, ◌&&◌, ◌∷◌, ◌==◌, List, Bool, ℕ, refl,
}
use music_online_go.Database.Errors.{ok}
use music_online_go.Database.Session.{Conn, pure}
use music_online_go.Database.Session.Success.{statement-bind}
use music_online_go.Database.Table.{All-update_rows_if, update_rows, count_rows}
use music_online_go.Database.Table.Counts.{count_rows-update_rows}
use music_online_go.Playlists.Store.{Shelf, PlaylistItem}
use music_online_go.Playlists.Repository.{
  moved, music_ids, is_item, is_in, update_items, compact_from,
}
use music_online_go.Playlists.Listing.{IsAt}
use music_online_go.Playlists.Placement.{IsDone}

-- The items after the loop of `compactPlaylistPositions`.
unfoldable pub compacted : ℕ → ℕ → List PlaylistItem → List PlaylistItem → List PlaylistItem
compacted id k [] rows = rows
compacted id k (i ∷ is) rows =
    compacted id (suc k) is
      (if i.position == k then rows else update_rows (is_item id i.music_id) (moved k) rows)

-- The loop has run to its end if it returns without an error.
pub compact_from_ok :
    (id k : ℕ) (is : List PlaylistItem) (c : Conn Shelf)
    → (compact_from id k is c).0 ≡ ok tt
    → (compact_from id k is c).1.tables
      ≡ record c.tables { items = compacted id k is c.tables.items }
unfolding compact_from compacted update_items pure
compact_from_ok id k [] c h = refl
compact_from_ok id k (i ∷ is) c h = elim (Bool-cases (i.position == k)) [
  | inl e ↦ rw (e) (compact_from_ok id (suc k) is c (rw (e) at h))
  | inr e ↦
      let step =
        statement-bind
          (λ s. (tt, record s { items = update_rows (is_item id i.music_id) (moved k) s.items }))
          (λ _. compact_from id (suc k) is) c (rw (e) at h) in
      rw (e, step) (compact_from_ok id (suc k) is _ (rw (e, step) at h))
]

-- An item of the table and one of a listing that show the same.
abbrev pub alike : PlaylistItem → PlaylistItem → Bool
alike r j = j.music_id == r.music_id && j.position == r.position

module _ (id : ℕ) (ids : List ℕ) where
  abbrev pub IsLeft : List PlaylistItem → PlaylistItem → Type 0
  IsLeft is r = (is_in id r ≡ true → 1 ≤ count_rows (alike r) is) ⊎ IsDone id ids r

  -- One round of the loop, which skips an item that stands right.
  IsLeft-moved :
      (k : ℕ) (i : PlaylistItem) (is : List PlaylistItem)
      → IsAt ids k i.music_id
      → (r : PlaylistItem) → IsLeft (i ∷ is) r
      → IsLeft is (if is_item id i.music_id r then moved k r else r)
  unfolding count_rows
  IsLeft-moved k i is at r left = elim (Bool-cases (is_item id i.music_id r)) [
    | inl e ↦
        let same =
          (==_iff r.music_id i.music_id).0
            ((&&_iff (is_in id r) (r.music_id == i.music_id)).0 e).1 in
        rw (e) (inr (λ _. rw (same) at))
    | inr e ↦ rw (e) (still left e)
  ]
    where
      still : IsLeft (i ∷ is) r → is_item id i.music_id r ≡ false → IsLeft is r
      still (inr d) e = inr d
      still (inl d) e = inl (λ h. ground (arith, d h, e, h))

  IsLeft-skipped :
      (k : ℕ) (i : PlaylistItem) (is : List PlaylistItem)
      → IsAt ids k i.music_id
      → i.position ≡ k
      → (r : PlaylistItem) → IsLeft (i ∷ is) r
      → IsLeft is r
  unfolding count_rows
  IsLeft-skipped k i is at e r (inr d) = inr d
  IsLeft-skipped k i is at e r (inl d) = elim (Bool-cases (alike r i)) [
    | inl a ↦
        let both = (&&_iff (i.music_id == r.music_id) (i.position == r.position)).0 a in
        let music : i.music_id ≡ r.music_id = (==_iff _ _).0 both.0 in
        let place : i.position ≡ r.position = (==_iff _ _).0 both.1 in
        inr (λ _. rw (← music, ← place, e) at)
    | inr a ↦ inl (λ h. ground (arith, d h, a))
  ]

  -- The loop over the rest of a listing leaves each item at the place of its music.
  pub IsDone-compacted :
      (k : ℕ) (is rows : List PlaylistItem)
      → ((n m : ℕ) → IsAt (music_ids is) n m → IsAt ids (k + n) m)
      → All (IsLeft is) rows
      → All (IsDone id ids) (compacted id k is rows)
  unfolding compacted count_rows
  IsDone-compacted k [] rows within left = All-map done rows left
    where
      done : (r : PlaylistItem) → IsLeft [] r → IsDone id ids r
      done r (inl d) h = absurd (omega (arith, d h))
      done r (inr d) h = d h
  IsDone-compacted k (i ∷ is) rows within left =
      IsDone-compacted (suc k) is _
        (λ n x h. subst (λ j. IsAt ids j x) (shift n) (within (suc n) x h)) rest
    where
      shift : (n : ℕ) → k + suc n ≡ suc k + n
      shift n = omega arith

      here : IsAt ids k i.music_id
      here = subst (λ j. IsAt ids j i.music_id) (omega arith) (within 0 i.music_id refl)

      rest :
          All
            (IsLeft is)
            (if i.position == k then rows else update_rows (is_item id i.music_id) (moved k) rows)
      rest = elim (Bool-cases (i.position == k)) [
        | inl e ↦
            rw (e) (All-map (IsLeft-skipped k i is here ((==_iff i.position k).0 e)) rows left)
        | inr e ↦ rw (e) (
            All-update_rows_if (IsLeft (i ∷ is)) (IsLeft is) (is_item id i.music_id) (moved k)
              (IsLeft-moved k i is here) rows left)
      ]

-- The loop keeps which music the playlist has.
pub count_rows-compacted :
    (id k m : ℕ) (is rows : List PlaylistItem)
    → count_rows (is_item id m) (compacted id k is rows) ≡ count_rows (is_item id m) rows
unfolding compacted
count_rows-compacted id k m [] rows = refl
count_rows-compacted id k m (i ∷ is) rows = count_rows-compacted id (suc k) m is _ ∙ one
  where
    one :
        count_rows
          (is_item id m)
          (if i.position == k then rows else update_rows (is_item id i.music_id) (moved k) rows)
        ≡ count_rows (is_item id m) rows
    one = elim (Bool-cases (i.position == k)) [
      | inl e ↦ rw (e) refl
      | inr e ↦
          rw (e) (
            count_rows-update_rows (is_item id m) (is_item id i.music_id) (moved k) rows
              (λ r. refl))
    ]
