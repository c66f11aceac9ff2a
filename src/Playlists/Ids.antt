-- ===== src/Playlists/Ids.antt =====
-- `sameUniqueIDs` of internal/repository/playlist_repository.go.
pub mod Laws
use music_online_go.Prelude.{
  ◌&&◌, true, ◌||◌, false, ◌==◌, length, [], Bool, ◌∷◌, if◌then◌else◌, List, ℕ,
}

unfoldable pub contains : ℕ → List ℕ → Bool
contains id [] = false
contains id (x ∷ xs) = x == id || contains id xs

-- The keys of the map `seen`: an insertion of a key that is there changes nothing.
unfoldable pub remember : ℕ → List ℕ → List ℕ
unfolding contains
remember id seen = if contains id seen then seen else id ∷ seen

unfoldable pub remember_all : List ℕ → List ℕ → List ℕ
unfolding remember
remember_all [] seen = seen
remember_all (id ∷ ids) seen = remember_all ids (remember id seen)

-- `delete(seen, id)`
unfoldable pub forget : ℕ → List ℕ → List ℕ
forget id [] = []
forget id (x ∷ xs) = let rest = forget id xs in if x == id then rest else x ∷ rest

unfoldable pub all_seen : List ℕ → List ℕ → Bool
unfolding contains forget
all_seen [] seen = length seen == 0
all_seen (id ∷ ids) seen = contains id seen && all_seen ids (forget id seen)

unfoldable pub same_unique_ids : List ℕ → List ℕ → Bool
unfolding remember_all all_seen
same_unique_ids current requested =
    length current == length requested && all_seen requested (remember_all current [])

unfoldable pub ids_equal : List ℕ → List ℕ → Bool
ids_equal [] [] = true
ids_equal (x ∷ xs) (y ∷ ys) = x == y && ids_equal xs ys
ids_equal _ _ = false
