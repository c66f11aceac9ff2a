-- ===== src/Playlists/Names.antt =====
-- The texts of internal/service/playlist_service.go: `normalizePlaylistName` and
-- `normalizePlaylistDescription`, with `strings.TrimSpace`, `Fields` and `Join` on runes.
pub mod Laws
use music_online_go.Prelude.{
  length, ltb, ◌==◌, ◌++◌, ◌&&◌, ◌||◌, false, true, [], leb, if◌then◌else◌, ◌∷◌, Bool, List, ℕ,
}
use music_online_go.Database.Errors.{ok, invalid_playlist, err, Result}
use music_online_go.Playlists.Store.{Text}
use music_online_go.Playlists.Ids.{contains}

-- `unicode.IsSpace`
unfoldable pub is_space : ℕ → Bool
is_space r =
    leb 9 r && leb r 13
    || r == 0x20
    || r == 0x85
    || r == 0xa0
    || r == 0x1680
    || leb 0x2000 r && leb r 0x200a
    || r == 0x2028
    || r == 0x2029
    || r == 0x202f
    || r == 0x205f
    || r == 0x3000

abbrev pub is_empty {ℓ} : {A : Type ℓ} → List A → Bool
is_empty [] = true
is_empty (x ∷ xs) = false

unfoldable pub trim_left : Text → Text
trim_left [] = []
trim_left (r ∷ rs) = if is_space r then trim_left rs else r ∷ rs

unfoldable pub trim_right : Text → Text
trim_right [] = []
trim_right (r ∷ rs) =
    let rest = trim_right rs in if is_space r && is_empty rest then [] else r ∷ rest

unfoldable pub trim_space : Text → Text
unfolding trim_left trim_right
trim_space text = trim_right (trim_left text)

-- A word that is not empty is put in front of the others.
abbrev pub keep : Text → List Text → List Text
keep [] words = words
keep (r ∷ rs) words = (r ∷ rs) ∷ words

-- The word that a text begins with, which may be empty, and the words behind it.
unfoldable pub scan : Text → Text × List Text
scan [] = ([], [])
scan (r ∷ rs) =
    let (word, words) = scan rs in if is_space r then ([], keep word words) else (r ∷ word, words)

unfoldable pub fields : Text → List Text
unfolding scan
fields text = let (word, words) = scan text in keep word words

unfoldable pub join : List Text → Text
join [] = []
join (word ∷ words) = let rest = join words in if is_empty words then word else word ++ 0x20 ∷ rest

-- `normalizePlaylistName`
unfoldable pub normalize_name : Text → Result Text
unfolding trim_space fields join contains
normalize_name text =
    let value = join (fields (trim_space text)) in
    if is_empty value || (contains 0 value || ltb 120 (length value))
    then err invalid_playlist
    else ok value

-- `normalizePlaylistDescription`
unfoldable pub normalize_description : Text → Result Text
unfolding trim_space contains
normalize_description text =
    let value = trim_space text in
    if contains 0 value || ltb 1000 (length value) then err invalid_playlist else ok value
