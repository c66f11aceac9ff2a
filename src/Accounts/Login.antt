-- ===== src/Accounts/Login.antt =====
-- The login sessions of internal/service/user_service.go.
use music_online_go.Prelude.{
  ℕ, ◌==◌, ◌*◌, ◌+◌, ltb, leb, not, ◌&&◌, Bool, Option, none, some, String, [], ◌∷◌, ◌++◌, str_eq,
  if◌then◌else◌,
}
use music_online_go.Database.Errors.{
  Error, ok, err, Result, session_not_found, user_not_found, invalid_credentials, account_inactive,
  totp_code_required, invalid_totp_code, invalid_refresh_token, session_revoked, session_expired,
  concurrent_refresh, random_failed, sign_failed,
}
use music_online_go.Database.Session.{Db, pure, raise, lift, try, ◌>>=◌}
use music_online_go.Accounts.Store.{User, UserResponse, to_response, Session, Accounts, Runes}
use music_online_go.Accounts.Tokens.{
  parse_refresh_token, refresh_token_for_session, hex_encode, truncate,
}
use music_online_go.Accounts.Password.{Bcrypt, verify_password}
use music_online_go.Accounts.Sessions.{
  is_unset, create_session, find_session, rotate_if_match, revoke, revoke_all_for_user,
  delete_expired_for_user, delete_session_by_id, delete_sessions_by_user,
}
use music_online_go.Accounts.Users.{find_user, find_user_by_username, find_user_by_email}

-- What the service takes from libraries and from its configuration: SHA-256 in hexadecimal, bcrypt,
-- the check of a one-time code against a secret, the signature of an access token, the lifetimes,
-- and the hash that is compared when there is no such user.
pub record Service : Type 0 where
  pub sha256_hex : Runes → String
  pub bcrypt : Bcrypt
  pub totp_validate : String → String → Bool
  pub sign : ℕ → String → String → ℕ → Option String
  pub refresh_ttl_days : ℕ
  pub access_ttl_minutes : ℕ
  pub dummy_password_hash : String

pub record Reply : Type 0 where
  pub user : Option UserResponse
  pub access_token : String
  pub refresh_token : Runes
  pub expires_in : ℕ

-- a day and the grace window, in nanoseconds
abbrev pub day : ℕ
day = 24 * 3600 * 1000000000

abbrev pub concurrent_refresh_grace : ℕ
concurrent_refresh_grace = 30 * 1000000000

-- the bytes of "pending-"
abbrev pub pending_prefix : Runes
pending_prefix = 0x70 ∷ 0x65 ∷ 0x6e ∷ 0x64 ∷ 0x69 ∷ 0x6e ∷ 0x67 ∷ 0x2d ∷ []

unfoldable pub or_raise : {A : Type 0} → Error → Option A → Db Accounts A
or_raise e none = raise e
or_raise e (some a) = pure a

-- `_ = m`: an error is dropped
unfoldable pub ignore : {A : Type 0} → Db Accounts A → Db Accounts Unit
ignore m = do r ← try m; pure tt

-- `jwt.GenerateToken`
unfoldable pub access_token : Service → User → ℕ → Db Accounts String
unfolding or_raise
access_token service user session_id =
    or_raise sign_failed (service.sign user.id user.username user.role session_id)

unfoldable pub new_session : Service → User → Runes → Runes → Runes → ℕ → Session
unfolding truncate
new_session service user random agent ip now = record {
  id = 0;
  user_id = user.id;
  refresh_hash = service.sha256_hex (pending_prefix ++ random);
  user_agent = truncate agent 256;
  ip_address = truncate ip 64;
  updated_at = now;
  last_used_at = now;
  expires_at = now + service.refresh_ttl_days * day;
  revoked_at = none;
}

-- The result of binding the token: a failure deletes the placeholder row.
unfoldable pub bound : ℕ → Result ℕ → Db Accounts Unit
unfolding ignore
bound session_id (ok n) = pure tt
bound session_id (err e) = do u ← ignore (delete_session_by_id session_id); raise e

-- `raw` is what `rand.Read` gives, none where it fails.
unfoldable pub create_login_session :
    Service → User → Runes → Runes → Option Runes → ℕ → Db Accounts Reply
unfolding or_raise new_session bound access_token hex_encode
create_login_session service user agent ip raw now = do
  bytes ← or_raise random_failed raw
  let random = hex_encode bytes
  session ← create_session (new_session service user random agent ip now)
  let token = refresh_token_for_session session.id random
  bind ← try (
      rotate_if_match session.id session.refresh_hash (service.sha256_hex token) session.user_agent
        session.ip_address now)
  done ← bound session.id bind
  signed ← access_token service user session.id
  cleaned ← delete_expired_for_user user.id now
  pure (record {
    user = some (to_response user);
    access_token = signed;
    refresh_token = token;
    expires_in = service.access_ttl_minutes * 60;
  })

-- `Login`: the user by name, else by e-mail
unfoldable pub by_email : Service → Runes → Result User → Db Accounts User
by_email service password (ok user) = pure user
by_email service password (err e) = do
  checked ← lift (verify_password service.bcrypt password service.dummy_password_hash)
  raise invalid_credentials

unfoldable pub by_name : Service → String → Runes → Result User → Db Accounts User
unfolding by_email
by_name service username password (ok user) = pure user
by_name service username password (err user_not_found) = do
  found ← try (find_user_by_email username)
  by_email service password found
by_name service username password (err e) = raise e

unfoldable pub check_totp : Service → User → String → Db Accounts Unit
check_totp service user code =
    if user.totp_enabled
    then (if str_eq code ""
        then raise totp_code_required
        else if service.totp_validate code user.totp_secret
        then pure tt
        else raise invalid_totp_code)
    else pure tt

unfoldable pub login : Service → String → Runes → String → Option Runes → ℕ → Db Accounts Reply
unfolding by_name check_totp create_login_session
login service username password code raw now = do
  found ← try (find_user_by_username username)
  user ← by_name service username password found
  if not user.is_active then raise account_inactive else do
    valid ← lift (verify_password service.bcrypt password user.password)
    if not valid then raise invalid_credentials else do
      checked ← check_totp service user code
      create_login_session service user [] [] raw now

-- `RefreshSession`, from its end: no row was rotated
unfoldable pub lost_rotation : Session → ℕ → Result Session → Db Accounts Reply
unfolding ignore
lost_rotation session now (err session_not_found) = raise session_revoked
lost_rotation session now (err e) = raise e
lost_rotation session now (ok current) =
    if is_unset current.revoked_at && leb now (current.updated_at + concurrent_refresh_grace)
    then raise concurrent_refresh
    else do u ← ignore (revoke session.id now); raise session_revoked

-- the rotation, for an active user
unfoldable pub rotate :
    Service → User → Session → Runes → Runes → Runes → Option Runes → ℕ → Db Accounts Reply
unfolding or_raise lost_rotation access_token hex_encode truncate
rotate service user session token agent ip raw now = do
  bytes ← or_raise random_failed raw
  let fresh = refresh_token_for_session session.id (hex_encode bytes)
  n ←
      rotate_if_match session.id (service.sha256_hex token) (service.sha256_hex fresh)
        (truncate agent 256) (truncate ip 64) now
  if n == 0
      then (do current ← try (find_session session.id); lost_rotation session now current)
      else do
        signed ← access_token service user session.id
        pure (record {
          user = none;
          access_token = signed;
          refresh_token = fresh;
          expires_in = service.access_ttl_minutes * 60;
        })

-- the user of a live session
unfoldable pub refresh_for :
    Service → Session → Runes → Runes → Runes → Option Runes → ℕ → Result User → Db Accounts Reply
unfolding ignore
refresh_for service session token agent ip raw now (err user_not_found) = do
  u ← ignore (delete_sessions_by_user session.user_id)
  raise session_revoked
refresh_for service session token agent ip raw now (err e) = raise e
refresh_for service session token agent ip raw now (ok user) =
    if not user.is_active
    then (do u ← revoke_all_for_user user.id now; raise session_revoked)
    else rotate service user session token agent ip raw now

unfoldable pub refresh_found :
    Service → Runes → Runes → Runes → Option Runes → ℕ → Result Session → Db Accounts Reply
unfolding refresh_for
refresh_found service token agent ip raw now (err session_not_found) = raise invalid_refresh_token
refresh_found service token agent ip raw now (err e) = raise e
refresh_found service token agent ip raw now (ok session) =
    if not (is_unset session.revoked_at)
    then raise session_revoked
    else if ltb session.expires_at now
    then (do u ← delete_expired_for_user session.user_id now; raise session_expired)
    else do
      found ← try (find_user session.user_id)
      refresh_for service session token agent ip raw now found

unfoldable pub refresh_parsed :
    Service → Runes → Runes → Runes → Option Runes → ℕ → Option (ℕ × Runes) → Db Accounts Reply
unfolding refresh_found
refresh_parsed service token agent ip raw now none = raise invalid_refresh_token
refresh_parsed service token agent ip raw now (some (session_id, random)) = do
  found ← try (find_session session_id)
  refresh_found service token agent ip raw now found

unfoldable pub refresh_session :
    Service → Runes → Runes → Runes → Option Runes → ℕ → Db Accounts Reply
unfolding refresh_parsed
refresh_session service token agent ip raw now =
    refresh_parsed service token agent ip raw now (parse_refresh_token token)

-- `LogoutSession`
unfoldable pub own_session : ℕ → ℕ → ℕ → Result Session → Db Accounts Unit
own_session user_id session_id now (err session_not_found) = pure tt
own_session user_id session_id now (err e) = raise e
own_session user_id session_id now (ok session) =
    if not (session.user_id == user_id) then pure tt else revoke session_id now

unfoldable pub logout_session : ℕ → ℕ → ℕ → Db Accounts Unit
unfolding own_session
logout_session user_id session_id now = do
  found ← try (find_session session_id)
  own_session user_id session_id now found

-- `LogoutByRefreshToken`
unfoldable pub live_session : ℕ → ℕ → Result Session → Db Accounts Unit
live_session session_id now (err session_not_found) = pure tt
live_session session_id now (err e) = raise e
live_session session_id now (ok session) =
    if not (is_unset session.revoked_at) then pure tt else revoke session_id now

unfoldable pub logout_parsed : ℕ → Option (ℕ × Runes) → Db Accounts Unit
unfolding live_session
logout_parsed now none = pure tt
logout_parsed now (some (session_id, random)) = do
  found ← try (find_session session_id)
  live_session session_id now found

unfoldable pub logout_by_refresh_token : Runes → ℕ → Db Accounts Unit
unfolding logout_parsed
logout_by_refresh_token token now = logout_parsed now (parse_refresh_token token)

unfoldable pub logout_all_sessions : ℕ → ℕ → Db Accounts Unit
logout_all_sessions user_id now = revoke_all_for_user user_id now
