-- ===== src/Scans/Roots.antt =====
-- internal/repository/media_library_repository.go: roots, their states, and the files below them. The
-- unscoped deletes and the projections of music are not here.
pub mod Laws
use music_online_go.Prelude.{
  str_eq, [], not, ◌||◌, leb, none, ◌∷◌, some, map, ◌&&◌, ◌++◌, length, ltb, true, if◌then◌else◌,
  false, ◌==◌, List, Bool, ℕ, Option, refl,
}
use music_online_go.Database.Errors.{media_root_in_use, media_root_not_found, scan_in_progress}
use music_online_go.Database.Session.{
  Conn, Db, next, statement, query, pure, raise, transaction, ◌>>=◌, ◌>>◌,
}
use music_online_go.Database.Session.Success.{}
use music_online_go.Database.Session.Rollback.{}
use music_online_go.Database.Table.{where_rows, delete_rows, find_row, count_rows, update_rows}
use music_online_go.Playlists.Ids.{remember_all}
use music_online_go.Scans.Job.{Library, MediaFile, RootState}
use music_online_go.Scans.Queue.{is_active_for}

-- `FindRootState`
unfoldable pub find_root_state : ℕ → Db Library (Option RootState)
find_root_state root_id = query (λ s. find_row (λ r. r.root_id == root_id) s.states)

-- The WHERE clause of the upsert: a row that was checked later than the proposed one stays.
abbrev pub is_later : Option ℕ → Option ℕ → Bool
is_later none old = false
is_later (some new) none = true
is_later (some new) (some old) = leb old new

abbrev pub is_unchecked : {A : Type 0} → Option A → Bool
is_unchecked none = true
is_unchecked (some a) = false

unfoldable pub is_replaceable : RootState → RootState → Bool
is_replaceable state r =
    r.root_id == state.root_id
    && (is_unchecked r.last_checked_at || is_later state.last_checked_at r.last_checked_at)

-- INSERT ... ON CONFLICT (root_id) DO UPDATE
unfoldable pub upserted : RootState → List RootState → List RootState
unfolding is_replaceable
upserted state rows =
    if count_rows (λ r. r.root_id == state.root_id) rows == 0
    then rows ++ state ∷ []
    else update_rows (is_replaceable state) (λ r. state) rows

-- `UpsertRootState`
unfoldable pub upsert_root_state : RootState → Db Library Unit
unfolding upserted
upsert_root_state state = statement (λ s. (tt, record s { states = upserted state s.states }))

-- `HasReadOnlyMediaFile`
unfoldable pub has_read_only_file : ℕ → Db Library Bool
has_read_only_file music_id =
    query (λ s. ltb 0 (count_rows (λ f. f.music_id == music_id && f.read_only) s.files))

-- `MarkRootFilesMissingBefore`
unfoldable pub is_unseen : ℕ → ℕ → MediaFile → Bool
is_unseen root_id observed f =
    f.root_id == root_id
    && elim f.last_seen_at [ none ↦ true | some t ↦ ltb t observed ]
    && not (str_eq f.availability "changed")

unfoldable pub mark_missing_before : ℕ → ℕ → Db Library Unit
unfolding is_unseen
mark_missing_before root_id observed = statement (λ s. (
  tt,
  record s {
    files =
        update_rows (is_unseen root_id observed) (λ f. record f { availability = "missing" })
          s.files;
  },
))

-- `CountMusicByRoot`
unfoldable pub count_music_by_root : ℕ → Db Library ℕ
unfolding remember_all
count_music_by_root root_id = query (λ s.
    length
      (remember_all (map (λ f. f.music_id) (where_rows (λ f. f.root_id == root_id) s.files)) []))

unfoldable pub drop_state : ℕ → ℕ → Db Library Unit
drop_state id affected =
    if affected == 0
    then raise media_root_not_found
    else statement (λ s. (tt, record s { states = delete_rows (λ r. r.root_id == id) s.states }))

unfoldable pub drop_root : ℕ → ℕ → Db Library Unit
unfolding drop_state
drop_root id count = if ltb 0 count then raise media_root_in_use else do
  affected ← statement (λ s.
      (count_rows (λ r. r == id) s.roots, record s { roots = delete_rows (λ r. r == id) s.roots }))
  drop_state id affected

unfoldable pub drop_idle : ℕ → ℕ → Db Library Unit
unfolding drop_root
drop_idle id active =
    if ltb 0 active
    then raise scan_in_progress
    else do count ← query (λ s. count_rows (λ f. f.root_id == id) s.files); drop_root id count

-- `DeleteRoot`
unfoldable pub delete_root : ℕ → Db Library Unit
unfolding drop_idle
delete_root id =
    transaction (do active ← query (λ s. count_rows (is_active_for id) s.jobs); drop_idle id active)
