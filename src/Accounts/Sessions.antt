-- ===== src/Accounts/Sessions.antt =====
-- internal/repository/session_repository.go: the session table. The clock that gorm reads for
-- updated_at is taken to be the caller's.
use music_online_go.Prelude.{
  ℕ, suc, ◌==◌, ltb, not, ◌&&◌, Bool, true, false, Option, none, some, String, [], ◌∷◌, ◌++◌,
  str_eq, if◌then◌else◌,
}
use music_online_go.Database.Errors.{ok, err, driver, session_not_found}
use music_online_go.Database.Session.{Db, statement, query, pure, raise, lift, ◌>>=◌}
use music_online_go.Database.Table.{count_rows, find_row, update_rows, delete_rows}
use music_online_go.Accounts.Store.{Session, Accounts, Runes}

-- `revoked_at IS NULL`
abbrev pub is_unset : Option ℕ → Bool
is_unset none = true
is_unset (some t) = false

-- the unique index on refresh_hash, against every row but `id`
unfoldable pub has_hash : String → ℕ → Accounts → Bool
has_hash hash id t =
    not (count_rows (λ s. str_eq s.refresh_hash hash && not (s.id == id)) t.sessions == 0)

-- `Create`
unfoldable pub create_session : Session → Db Accounts Session
unfolding has_hash
create_session session = do
  r ← statement (λ t. if has_hash session.refresh_hash t.next_session t then (err driver, t) else (
    ok (record session { id = t.next_session }),
    record t {
      sessions = t.sessions ++ record session { id = t.next_session } ∷ [];
      next_session = suc t.next_session;
    },
  ))
  lift r

abbrev pub found_session : Option Session → Db Accounts Session
found_session none = raise session_not_found
found_session (some s) = pure s

-- `FindByID`
unfoldable pub find_session : ℕ → Db Accounts Session
find_session id = do found ← query (λ t. find_row (λ s. s.id == id) t.sessions); found_session found

-- the WHERE clause of `RotateIfMatch`
abbrev pub is_match : ℕ → String → Session → Bool
is_match id hash s = s.id == id && (str_eq s.refresh_hash hash && is_unset s.revoked_at)

-- and its SET clause
unfoldable pub rotated : String → Runes → Runes → ℕ → Session → Session
rotated hash agent ip now s = record s {
  refresh_hash = hash;
  user_agent = agent;
  ip_address = ip;
  updated_at = now;
  last_used_at = now;
}

unfoldable pub rotate_if_match : ℕ → String → String → Runes → Runes → ℕ → Db Accounts ℕ
unfolding has_hash
rotate_if_match id old_hash new_hash agent ip now = do
  r ← statement (λ t.
      if not (count_rows (is_match id old_hash) t.sessions == 0) && has_hash new_hash id t
      then (err driver, t)
      else (
        ok (count_rows (is_match id old_hash) t.sessions),
        record t {
          sessions = update_rows (is_match id old_hash) (rotated new_hash agent ip now) t.sessions;
        },
      ))
  lift r

-- UPDATE sessions SET revoked_at = now WHERE p AND revoked_at IS NULL
unfoldable pub revoke_where : (Session → Bool) → ℕ → Db Accounts Unit
revoke_where p now = statement (λ t. (
  tt,
  record t {
    sessions =
        update_rows (λ s. p s && is_unset s.revoked_at) (λ s. record s { revoked_at = some now })
          t.sessions;
  },
))

unfoldable pub revoke : ℕ → ℕ → Db Accounts Unit
revoke id now = revoke_where (λ s. s.id == id) now

unfoldable pub revoke_all_for_user : ℕ → ℕ → Db Accounts Unit
revoke_all_for_user user_id now = revoke_where (λ s. s.user_id == user_id) now

unfoldable pub revoke_all_except : ℕ → ℕ → ℕ → Db Accounts Unit
revoke_all_except user_id keep now =
    revoke_where (λ s. s.user_id == user_id && not (s.id == keep)) now

unfoldable pub delete_where : (Session → Bool) → Db Accounts Unit
delete_where p = statement (λ t. (tt, record t { sessions = delete_rows p t.sessions }))

unfoldable pub delete_expired_for_user : ℕ → ℕ → Db Accounts Unit
delete_expired_for_user user_id now =
    delete_where (λ s. s.user_id == user_id && ltb s.expires_at now)

unfoldable pub delete_session_by_id : ℕ → Db Accounts Unit
delete_session_by_id id = delete_where (λ s. s.id == id)

unfoldable pub delete_sessions_by_user : ℕ → Db Accounts Unit
delete_sessions_by_user user_id = delete_where (λ s. s.user_id == user_id)
