-- ===== src/Accounts/Reuse.antt =====
-- Presenting a refresh token whose hash is not the stored one.
use mathlib.Core.Bool.{false≢true}
use music_online_go.Database.Session.{Db}
use music_online_go.Prelude.{if◌then◌else◌}
use music_online_go.Prelude.{
  ℕ, suc, ◌==◌, ◌≡◌, ◌<◌, ◌+◌, not, leb, ltb, Bool, true, false, some, arith, refl,
}
use music_online_go.Database.Errors.{ok, err, session_revoked}
use music_online_go.Database.Session.{Conn, ◌>>=◌, next}
use music_online_go.Database.Table.{find_row, count_rows, update_rows, update_rows-count_rows}
use music_online_go.Accounts.Store.{Session, User, Accounts, Runes}
use music_online_go.Accounts.Tokens.{
  parse_refresh_token, refresh_token_for_session, hex_encode, truncate,
}
use music_online_go.Accounts.Sessions.{
  is_unset, is_match, rotated, rotate_if_match, find_session, revoke, revoke_where,
}
use music_online_go.Accounts.Users.{find_user}
use music_online_go.Accounts.Login.{
  Service, Reply, rotate, lost_rotation, or_raise, ignore, refresh_session, refresh_parsed,
  refresh_found, refresh_for, concurrent_refresh_grace,
}
use music_online_go.Accounts.Ended.{IsEnded}
use music_online_go.Accounts.Refresh.{revoked-IsEnded}

-- the lookup after a rotation that fits no row
lost_rotation-IsEnded :
    (id now : ℕ) (session s : Session) (c : Conn Accounts)
    → session.id ≡ id
    → id < c.tables.next_session
    → is_unset s.revoked_at ≡ true
    → s.updated_at + concurrent_refresh_grace < now
    → c.faults 0 ≡ false
    → ((lost_rotation session now (ok s) c).0 ≡ err session_revoked)
      × IsEnded id (lost_rotation session now (ok s) c).1.tables
unfolding lost_rotation ignore revoke revoke_where ◌>>=◌
lost_rotation-IsEnded id now session s c same given u late f =
    rw (u, over, f, same) ((refl, revoked-IsEnded id now c.tables given))
  where
    over : leb now (s.updated_at + concurrent_refresh_grace) ≡ false
    over = ground arith

rotate-IsEnded :
    (service : Service) (user : User) (session : Session) (token agent ip bytes : Runes)
    (now id : ℕ) (c : Conn Accounts)
    → session.id ≡ id
    → id < c.tables.next_session
    → find_row (λ s. s.id == session.id) c.tables.sessions ≡ some session
    → is_unset session.revoked_at ≡ true
    → session.updated_at + concurrent_refresh_grace < now
    → count_rows (is_match session.id (service.sha256_hex token)) c.tables.sessions ≡ 0
    → ((n : ℕ) → c.faults n ≡ false)
    → ((rotate service user session token agent ip (some bytes) now c).0 ≡ err session_revoked)
      × IsEnded id (rotate service user session token agent ip (some bytes) now c).1.tables
unfolding rotate or_raise rotate_if_match find_session ◌>>=◌
rotate-IsEnded service user session token agent ip bytes now id c same given found u late stale f =
    rw (f 0, stale, f 1, unchanged, found)
      (lost_rotation-IsEnded id now session session (next (next c)) same given u late (f 2))
  where
    unchanged :
        update_rows
          (is_match session.id (service.sha256_hex token))
          (rotated
            (service.sha256_hex (refresh_token_for_session session.id (hex_encode bytes)))
            (truncate agent 256)
            (truncate ip 64)
            now)
          c.tables.sessions
        ≡ c.tables.sessions
    unchanged = update_rows-count_rows _ _ c.tables.sessions stale

if_active :
    (id : ℕ) (b : Bool) (m n : Db Accounts Reply) (c : Conn Accounts)
    → b ≡ true
    → ((n c).0 ≡ err session_revoked) × IsEnded id (n c).1.tables
    → (((if not b then m else n) c).0 ≡ err session_revoked)
      × IsEnded id ((if not b then m else n) c).1.tables
if_active id true m n c e h = h
if_active id false m n c e h = absurd (false≢true e)

-- Reuse detection: if the driver works, a token that names a live and unexpired session of an active
-- user, but whose hash is not the stored one, is refused as revoked once the session was last
-- updated longer ago than the grace window; and the session has then ended, for every token.
pub reuse_detected :
    (service : Service) (token agent ip bytes random : Runes) (now : ℕ) (session : Session)
    (user : User) (c : Conn Accounts)
    → parse_refresh_token token ≡ some (session.id, random)
    → session.id < c.tables.next_session
    → find_row (λ s. s.id == session.id) c.tables.sessions ≡ some session
    → is_unset session.revoked_at ≡ true
    → ltb session.expires_at now ≡ false
    → find_row (λ u. u.id == session.user_id) c.tables.users ≡ some user
    → user.is_active ≡ true
    → count_rows (is_match session.id (service.sha256_hex token)) c.tables.sessions ≡ 0
    → session.updated_at + concurrent_refresh_grace < now
    → ((n : ℕ) → c.faults n ≡ false)
    → ((refresh_session service token agent ip (some bytes) now c).0 ≡ err session_revoked)
      × IsEnded session.id (refresh_session service token agent ip (some bytes) now c).1.tables
unfolding refresh_session refresh_parsed refresh_found refresh_for find_session find_user ◌>>=◌
reuse_detected service token agent ip bytes random now session user c parsed given found u live
      owner active stale late f =
    rw (parsed, f 0, found, u, live, f 1, owner)
      (if_active session.id user.is_active _ _ (next (next c)) active (
        rotate-IsEnded service user session token agent ip bytes now session.id (next (next c)) refl
          given found u late stale (λ n. f (suc (suc n)))))
