-- ===== src/Playlists/Listing.antt =====
-- A listing whose positions count up from 0.
use music_online_go.Prelude.{
  All-map, ap, sym, All-zip, false, refl, inr, ==_iff, inl, Bool-cases, All, zero, [], ◌+◌, ◌==◌,
  suc, arith, Bool, ◌≡◌, ◌∷◌, ◌≤◌, List, ℕ,
}
use music_online_go.Database.Table.{count_rows}
use music_online_go.Database.Table.Counts.{count_rows_zero, All-count_rows}
use music_online_go.Database.Order.{IsSorted}
use music_online_go.Playlists.Store.{PlaylistItem}
use music_online_go.Playlists.Repository.{music_ids}
use music_online_go.Playlists.Ids.Laws.{IsUnique, occurs}

-- The id stands at an index of the list.
abbrev pub IsAt : List ℕ → ℕ → ℕ → Type 0
IsAt [] n id = ⊥
IsAt (x ∷ xs) zero id = x ≡ id
IsAt (x ∷ xs) (suc n) id = IsAt xs n id

-- The positions are k, k + 1, and so on.
abbrev pub IsDense : ℕ → List PlaylistItem → Type 0
IsDense k [] = Unit
IsDense k (i ∷ is) = (i.position ≡ k) × IsDense (suc k) is

-- An item stands where a list that begins at position k has its music.
abbrev pub IsPlaced : ℕ → List ℕ → PlaylistItem → Type 0
IsPlaced k ids i = (n : ℕ) × (i.position ≡ k + n) × IsAt ids n i.music_id

occurs-IsAt : (ids : List ℕ) (n id : ℕ) → IsAt ids n id → 1 ≤ occurs id ids
unfolding occurs
occurs-IsAt [] n id h = absurd h
occurs-IsAt (x ∷ xs) zero id h = ground (arith, h)
occurs-IsAt (x ∷ xs) (suc n) id h = ground (arith, occurs-IsAt xs n id h)

abbrev pub has_music : ℕ → PlaylistItem → Bool
has_music m i = i.music_id == m

-- An item behind the first position is placed by the rest of the list.
later :
    (k x : ℕ) (xs : List ℕ) (i : PlaylistItem)
    → IsPlaced k (x ∷ xs) i
    → suc k ≤ i.position
    → IsPlaced (suc k) xs i
later k x xs i (zero, e, h) l = absurd (omega (arith, e, l))
later k x xs i (suc n, e, h) l = (n, omega (arith, e), h)

-- So is an item with other music than the first.
other :
    (k x : ℕ) (xs : List ℕ) (i : PlaylistItem)
    → IsPlaced k (x ∷ xs) i
    → has_music x i ≡ false
    → IsPlaced (suc k) xs i
other k x xs i (zero, e, h) l = absurd (ground (arith, h, l))
other k x xs i (suc n, e, h) l = (n, omega (arith, e), h)

first_music :
    (k x : ℕ) (xs : List ℕ) (i : PlaylistItem)
    → IsPlaced k (x ∷ xs) i
    → i.position ≡ k
    → i.music_id ≡ x
first_music k x xs i (zero, e, h) l = sym h
first_music k x xs i (suc n, e, h) l = absurd (omega (arith, e, l))

-- An item that the rest places has not the music of the first id, if the ids are unique.
elsewhere :
    (k x : ℕ) (xs : List ℕ) (i : PlaylistItem)
    → IsPlaced k (x ∷ xs) i
    → suc k ≤ i.position
    → occurs x xs ≡ 0
    → has_music x i ≡ false
elsewhere k x xs i p l u = elim (Bool-cases (has_music x i)) [
  | inl e ↦
      let (n, _, h) = later k x xs i p l in
      let same = ap (λ m. occurs m xs) ((==_iff i.music_id x).0 e) in
      absurd (omega (arith, occurs-IsAt xs n i.music_id h, same, u))
  | inr e ↦ e
]

-- A sorted listing whose items stand where the ids have their music, and which has the music of each
-- id, lists exactly the ids.
pub dense :
    (k : ℕ) (ids : List ℕ) (is : List PlaylistItem)
    → IsSorted (λ i. i.position) is
    → All (IsPlaced k ids) is
    → ((m : ℕ) → count_rows (has_music m) is ≡ occurs m ids)
    → IsUnique ids
    → (music_ids is ≡ ids) × IsDense k is
unfolding occurs count_rows
dense k [] [] sorted placed same u = (refl, tt)
dense k [] (i ∷ is) sorted placed same u = let (n, e, h) = placed.0 in absurd h
dense k (x ∷ xs) [] sorted placed same u = absurd (ground (arith, same x))
dense k (x ∷ xs) (i ∷ is) sorted placed same u = elim (Bool-cases (i.position == k)) [
  | inl e ↦
      let at : i.position ≡ k = (==_iff i.position k).0 e in
      let head : i.music_id ≡ x = first_music k x xs i placed.0 at in
      let counts : (m : ℕ) → count_rows (has_music m) is ≡ occurs m xs =
        λ m. ground (arith, same m, head) in
      let rest =
        All-zip _ _ is placed.1 (All-count_rows (has_music x) is (omega (arith, counts x, once))) in
      let rec =
        dense (suc k) xs is sorted.1 (All-map (λ j h. other k x xs j h.0 h.1) is rest) counts
          (λ m. ground (arith, u m)) in
      (rw (head, rec.0) refl, (at, rec.1))
  | inr e ↦
      let far : suc k ≤ i.position = ground (arith, e, placed_le k (x ∷ xs) i placed.0) in
      let none =
        All-map (λ j h. elsewhere k x xs j h.0 (omega (arith, far, h.1)) once) is
          (All-zip _ _ is placed.1 sorted.0) in
      absurd (
        ground (
          arith,
          same x,
          elsewhere k x xs i placed.0 far once,
          count_rows_zero (has_music x) is none,
        ))
]
  where
    once : occurs x xs ≡ 0
    once = ground (arith, u x)

    placed_le : (k : ℕ) (ids : List ℕ) (i : PlaylistItem) → IsPlaced k ids i → k ≤ i.position
    placed_le k ids i (n, e, h) = omega (arith, e)
