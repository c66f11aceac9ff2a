-- ===== src/Accounts/Ended/Services.antt =====
-- The parts of the services, on a session that has ended.
use music_online_go.Accounts.Users.{set_totp_secret}
use music_online_go.Accounts.Profile.{
  store_key, bootstrap_valid, bootstrap_found, with_password, BootstrapAdminRequest,
}
use music_online_go.Accounts.Password.{Bcrypt}
use music_online_go.Database.Session.Keeps.{keeps_rules, Keeps}
use music_online_go.Database.Errors.{session_not_found, user_not_found, ok, err, Error, Result}
use music_online_go.Accounts.Sessions.{
  delete_sessions_by_user, revoke_all_except, delete_session_by_id, delete_expired_for_user,
  revoke_all_for_user, revoke,
}
use music_online_go.Accounts.Login.{
  refresh_parsed, logout_parsed, live_session, own_session, lost_rotation, by_name, bound, by_email,
  refresh_found, or_raise, login, create_login_session, check_totp, Service, refresh_for, ignore,
  rotate, access_token,
}
use music_online_go.Accounts.Store.{User, Runes, Session, Accounts}
use music_online_go.Database.Session.{Db}
use music_online_go.Prelude.{none, some, Option, String, ℕ}
use music_online_go.Accounts.Ended.{
  Keeps-update_user, Keeps-update_user_field, Keeps-create_user, Keeps-create_session,
  Keeps-find_user, Keeps-rotate_if_match, Keeps-find_user_by_username, Keeps-find_session,
  Keeps-find_user_by_email, Keeps-revoke_where, Keeps-delete_where, IsEnded,
}

module _ {id : ℕ} where
  pub Keeps-or_raise : {A : Type 0} (e : Error) (o : Option A) → Keeps (IsEnded id) (or_raise e o)
  unfolding or_raise
  Keeps-or_raise e none = search keeps_rules
  Keeps-or_raise e (some a) = search keeps_rules

  pub Keeps-ignore :
      {A : Type 0} (m : Db Accounts A) → Keeps (IsEnded id) m → Keeps (IsEnded id) (ignore m)
  unfolding ignore
  Keeps-ignore m k = search keeps_rules

  pub Keeps-access_token :
      (service : Service) (user : User) (i : ℕ) → Keeps (IsEnded id) (access_token service user i)
  unfolding access_token
  Keeps-access_token service user i = Keeps-or_raise _ _

  pub Keeps-revoke : (i now : ℕ) → Keeps (IsEnded id) (revoke i now)
  unfolding revoke
  Keeps-revoke i now = Keeps-revoke_where _ now

  pub Keeps-revoke_all_for_user : (i now : ℕ) → Keeps (IsEnded id) (revoke_all_for_user i now)
  unfolding revoke_all_for_user
  Keeps-revoke_all_for_user i now = Keeps-revoke_where _ now

  pub Keeps-revoke_all_except : (i keep now : ℕ) → Keeps (IsEnded id) (revoke_all_except i keep now)
  unfolding revoke_all_except
  Keeps-revoke_all_except i keep now = Keeps-revoke_where _ now

  pub Keeps-delete_expired_for_user :
      (i now : ℕ) → Keeps (IsEnded id) (delete_expired_for_user i now)
  unfolding delete_expired_for_user
  Keeps-delete_expired_for_user i now = Keeps-delete_where _

  pub Keeps-delete_session_by_id : (i : ℕ) → Keeps (IsEnded id) (delete_session_by_id i)
  unfolding delete_session_by_id
  Keeps-delete_session_by_id i = Keeps-delete_where _

  pub Keeps-delete_sessions_by_user : (i : ℕ) → Keeps (IsEnded id) (delete_sessions_by_user i)
  unfolding delete_sessions_by_user
  Keeps-delete_sessions_by_user i = Keeps-delete_where _

  pub Keeps-bound : (i : ℕ) (r : Result ℕ) → Keeps (IsEnded id) (bound i r)
  unfolding bound
  Keeps-bound i (ok n) = search keeps_rules
  Keeps-bound i (err e) = search (keeps_rules, Keeps-ignore, Keeps-delete_session_by_id)

  pub Keeps-create_login_session :
      (service : Service) (user : User) (agent ip : Runes) (raw : Option Runes) (now : ℕ)
      → Keeps (IsEnded id) (create_login_session service user agent ip raw now)
  unfolding create_login_session
  Keeps-create_login_session service user agent ip raw now =
      search
        (
          keeps_rules, Keeps-or_raise, Keeps-create_session, Keeps-rotate_if_match, Keeps-bound,
          Keeps-access_token, Keeps-delete_expired_for_user,
        )
        depth 16

  pub Keeps-check_totp :
      (service : Service) (user : User) (code : String)
      → Keeps (IsEnded id) (check_totp service user code)
  unfolding check_totp
  Keeps-check_totp service user code = search keeps_rules

  pub Keeps-by_email :
      (service : Service) (password : Runes) (r : Result User)
      → Keeps (IsEnded id) (by_email service password r)
  unfolding by_email
  Keeps-by_email service password (ok user) = search keeps_rules
  Keeps-by_email service password (err e) = search keeps_rules

  pub Keeps-by_name :
      (service : Service) (username : String) (password : Runes) (r : Result User)
      → Keeps (IsEnded id) (by_name service username password r)
  unfolding by_name
  Keeps-by_name service username password (ok user) = search keeps_rules
  Keeps-by_name service username password (err user_not_found) =
      search (keeps_rules, Keeps-find_user_by_email, Keeps-by_email)
  Keeps-by_name service username password (err _) = search keeps_rules

  pub Keeps-login :
      (service : Service) (username : String) (password : Runes) (code : String)
      (raw : Option Runes) (now : ℕ)
      → Keeps (IsEnded id) (login service username password code raw now)
  unfolding login
  Keeps-login service username password code raw now =
      search
        (
          keeps_rules, Keeps-find_user_by_username, Keeps-by_name, Keeps-check_totp,
          Keeps-create_login_session,
        )
        depth 12

  pub Keeps-lost_rotation :
      (session : Session) (now : ℕ) (r : Result Session)
      → Keeps (IsEnded id) (lost_rotation session now r)
  unfolding lost_rotation
  Keeps-lost_rotation session now (err session_not_found) = search keeps_rules
  Keeps-lost_rotation session now (err _) = search keeps_rules
  Keeps-lost_rotation session now (ok current) = search (keeps_rules, Keeps-ignore, Keeps-revoke)

  pub Keeps-rotate :
      (service : Service) (user : User) (session : Session) (token agent ip : Runes)
      (raw : Option Runes) (now : ℕ)
      → Keeps (IsEnded id) (rotate service user session token agent ip raw now)
  unfolding rotate
  Keeps-rotate service user session token agent ip raw now =
      search
        (
          keeps_rules, Keeps-or_raise, Keeps-rotate_if_match, Keeps-find_session,
          Keeps-lost_rotation, Keeps-access_token,
        )
        depth 12

  pub Keeps-refresh_for :
      (service : Service) (session : Session) (token agent ip : Runes) (raw : Option Runes)
      (now : ℕ) (r : Result User)
      → Keeps (IsEnded id) (refresh_for service session token agent ip raw now r)
  unfolding refresh_for
  Keeps-refresh_for service session token agent ip raw now (err user_not_found) =
      search (keeps_rules, Keeps-ignore, Keeps-delete_sessions_by_user)
  Keeps-refresh_for service session token agent ip raw now (err _) = search keeps_rules
  Keeps-refresh_for service session token agent ip raw now (ok user) =
      search (keeps_rules, Keeps-revoke_all_for_user, Keeps-rotate)

  pub Keeps-refresh_found :
      (service : Service) (token agent ip : Runes) (raw : Option Runes) (now : ℕ)
      (r : Result Session)
      → Keeps (IsEnded id) (refresh_found service token agent ip raw now r)
  unfolding refresh_found
  Keeps-refresh_found service token agent ip raw now (err session_not_found) = search keeps_rules
  Keeps-refresh_found service token agent ip raw now (err _) = search keeps_rules
  Keeps-refresh_found service token agent ip raw now (ok session) =
      search (keeps_rules, Keeps-delete_expired_for_user, Keeps-find_user, Keeps-refresh_for) depth
        9

  pub Keeps-refresh_parsed :
      (service : Service) (token agent ip : Runes) (raw : Option Runes) (now : ℕ)
      (parsed : Option (ℕ × Runes))
      → Keeps (IsEnded id) (refresh_parsed service token agent ip raw now parsed)
  unfolding refresh_parsed
  Keeps-refresh_parsed service token agent ip raw now none = search keeps_rules
  Keeps-refresh_parsed service token agent ip raw now (some (i, r)) =
      search (keeps_rules, Keeps-find_session, Keeps-refresh_found)

  pub Keeps-own_session :
      (u i now : ℕ) (r : Result Session) → Keeps (IsEnded id) (own_session u i now r)
  unfolding own_session
  Keeps-own_session u i now (err session_not_found) = search keeps_rules
  Keeps-own_session u i now (err _) = search keeps_rules
  Keeps-own_session u i now (ok s) = search (keeps_rules, Keeps-revoke)

  pub Keeps-live_session :
      (i now : ℕ) (r : Result Session) → Keeps (IsEnded id) (live_session i now r)
  unfolding live_session
  Keeps-live_session i now (err session_not_found) = search keeps_rules
  Keeps-live_session i now (err _) = search keeps_rules
  Keeps-live_session i now (ok s) = search (keeps_rules, Keeps-revoke)

  pub Keeps-logout_parsed :
      (now : ℕ) (parsed : Option (ℕ × Runes)) → Keeps (IsEnded id) (logout_parsed now parsed)
  unfolding logout_parsed
  Keeps-logout_parsed now none = search keeps_rules
  Keeps-logout_parsed now (some (i, r)) =
      search (keeps_rules, Keeps-find_session, Keeps-live_session)

  pub Keeps-with_password :
      (bcrypt : Bcrypt) (req : BootstrapAdminRequest) (user : User)
      → Keeps (IsEnded id) (with_password bcrypt req user)
  unfolding with_password
  Keeps-with_password bcrypt req user = search keeps_rules

  pub Keeps-bootstrap_found :
      (bcrypt : Bcrypt) (req : BootstrapAdminRequest) (r : Result User)
      → Keeps (IsEnded id) (bootstrap_found bcrypt req r)
  unfolding bootstrap_found
  Keeps-bootstrap_found bcrypt req (err user_not_found) =
      search (keeps_rules, Keeps-create_user) depth 9
  Keeps-bootstrap_found bcrypt req (err _) = search keeps_rules
  Keeps-bootstrap_found bcrypt req (ok u) =
      search (keeps_rules, Keeps-with_password, Keeps-update_user) depth 9

  pub Keeps-bootstrap_valid :
      (bcrypt : Bcrypt) (req : BootstrapAdminRequest) (r : Result {0} Unit)
      → Keeps (IsEnded id) (bootstrap_valid bcrypt req r)
  unfolding bootstrap_valid
  Keeps-bootstrap_valid bcrypt req (err e) = search keeps_rules
  Keeps-bootstrap_valid bcrypt req (ok u) =
      search (keeps_rules, Keeps-find_user_by_username, Keeps-bootstrap_found)

  pub Keeps-store_key :
      (i : ℕ) (key : Option (String × String)) → Keeps (IsEnded id) (store_key i key)
  unfolding store_key set_totp_secret
  Keeps-store_key i none = search keeps_rules
  Keeps-store_key i (some (secret, url)) = search (keeps_rules, Keeps-update_user_field)
