-- ===== src/Accounts/Runs.antt =====
-- Runs of the account services: sequences of calls, each at any time and with any failures of the
-- driver.
use music_online_go.Accounts.Ended.Services.{
  Keeps-store_key, Keeps-revoke_all_except, Keeps-bootstrap_valid, Keeps-revoke_all_for_user,
  Keeps-logout_parsed, Keeps-own_session, Keeps-refresh_parsed, Keeps-login,
}
use music_online_go.Accounts.Users.{set_totp_enabled, set_totp_secret, update_status, update_role}
use music_online_go.Accounts.Profile.{
  disable_totp, enable_totp, setup_totp, update_user_role, update_user_status, verify_user,
  change_password, update_profile, UpdateUserRequest, bootstrap_admin, BootstrapAdminRequest,
  create_user_by_admin, register,
}
use music_online_go.Accounts.Password.{Bcrypt}
use music_online_go.Database.Session.Keeps.{keeps_rules, Keeps}
use music_online_go.Accounts.Login.{
  logout_all_sessions, logout_by_refresh_token, logout_session, login, Service, refresh_session,
}
use music_online_go.Accounts.Store.{Runes, Accounts}
use music_online_go.Database.Session.{Conn, Db}
use music_online_go.Prelude.{Bool, Option, String, ℕ}
use music_online_go.Accounts.Ended.{
  Keeps-update_user, Keeps-update_user_field, Keeps-create_user, Keeps-find_user,
  Keeps-find_session, IsEnded,
}

-- Every operation of the service, at any argument.
pub data IsOperation : (A : Type 0) → Db Accounts A → Type 1 where
  logged_in :
      (service : Service) (username : String) (password : Runes) (code : String)
      (raw : Option Runes) (now : ℕ)
      → IsOperation _ (login service username password code raw now)
  refreshed :
      (service : Service) (token agent ip : Runes) (raw : Option Runes) (now : ℕ)
      → IsOperation _ (refresh_session service token agent ip raw now)
  logged_out : (user_id session_id now : ℕ) → IsOperation _ (logout_session user_id session_id now)
  handed_in : (token : Runes) (now : ℕ) → IsOperation _ (logout_by_refresh_token token now)
  logged_out_everywhere : (user_id now : ℕ) → IsOperation _ (logout_all_sessions user_id now)
  registered :
      (bcrypt : Bcrypt) (username email : String) (password : Runes) (full_name : String)
      → IsOperation _ (register bcrypt username email password full_name)
  created :
      (bcrypt : Bcrypt) (username email : String) (password : Runes) (full_name role : String)
      → IsOperation _ (create_user_by_admin bcrypt username email password full_name role)
  bootstrapped :
      (bcrypt : Bcrypt) (req : BootstrapAdminRequest) → IsOperation _ (bootstrap_admin bcrypt req)
  updated : (id : ℕ) (req : UpdateUserRequest) → IsOperation _ (update_profile id req)
  password_changed :
      (bcrypt : Bcrypt) (user_id session_id : ℕ) (old new : Runes) (now : ℕ)
      → IsOperation _ (change_password bcrypt user_id session_id old new now)
  verified : (id : ℕ) → IsOperation _ (verify_user id)
  status_set : (id : ℕ) (active : Bool) (now : ℕ) → IsOperation _ (update_user_status id active now)
  role_set : (id : ℕ) (role : String) → IsOperation _ (update_user_role id role)
  totp_set_up : (id : ℕ) (key : Option (String × String)) → IsOperation _ (setup_totp id key)
  totp_on :
      (check : String → String → Bool) (id : ℕ) (code : String)
      → IsOperation _ (enable_totp check id code)
  totp_off :
      (check : String → String → Bool) (id : ℕ) (code : String)
      → IsOperation _ (disable_totp check id code)

-- Tables reached by operations of any processes, each with a driver that fails at will.
pub data Reach (s : Accounts) : Accounts → Type 1 where
  start : Reach s s
  after :
      {A : Type 0} {m : Db Accounts A} {c : Conn Accounts}
      → Reach s c.tables
      → IsOperation A m
      → Reach s (m c).1.tables

module _ {id : ℕ} where
  -- an operation leaves an ended session ended
  Keeps-operation : {A : Type 0} {m : Db Accounts A} → IsOperation A m → Keeps (IsEnded id) m
  unfolding refresh_session logout_session logout_by_refresh_token logout_all_sessions register
      create_user_by_admin bootstrap_admin update_profile change_password verify_user
      update_user_status update_user_role setup_totp enable_totp disable_totp update_role
      update_status set_totp_enabled set_totp_secret
  Keeps-operation (logged_in service username password code raw now) = Keeps-login _ _ _ _ _ _
  Keeps-operation (refreshed service token agent ip raw now) = Keeps-refresh_parsed _ _ _ _ _ _ _
  Keeps-operation (logged_out user_id session_id now) =
      search (keeps_rules, Keeps-find_session, Keeps-own_session)
  Keeps-operation (handed_in token now) = Keeps-logout_parsed _ _
  Keeps-operation (logged_out_everywhere user_id now) = Keeps-revoke_all_for_user _ _
  Keeps-operation (registered bcrypt username email password full_name) =
      search (keeps_rules, Keeps-create_user) depth 9
  Keeps-operation (created bcrypt username email password full_name role) =
      search (keeps_rules, Keeps-create_user) depth 9
  Keeps-operation (bootstrapped bcrypt req) = search (keeps_rules, Keeps-bootstrap_valid)
  Keeps-operation (updated i req) = search (keeps_rules, Keeps-find_user, Keeps-update_user) depth 9
  Keeps-operation (password_changed bcrypt user_id session_id old new now) =
      search
        (
          keeps_rules, Keeps-find_user, Keeps-update_user, Keeps-revoke_all_except,
          Keeps-revoke_all_for_user,
        )
        depth 14
  Keeps-operation (verified i) = search (keeps_rules, Keeps-find_user, Keeps-update_user)
  Keeps-operation (status_set i active now) =
      search (keeps_rules, Keeps-update_user_field, Keeps-revoke_all_for_user)
  Keeps-operation (role_set i role) = Keeps-update_user_field _ _
  Keeps-operation (totp_set_up i key) = search (keeps_rules, Keeps-find_user, Keeps-store_key)
  Keeps-operation (totp_on check i code) =
      search (keeps_rules, Keeps-find_user, Keeps-update_user_field) depth 9
  Keeps-operation (totp_off check i code) =
      search (keeps_rules, Keeps-find_user, Keeps-update_user_field) depth 12

  pub Reach-IsEnded : {s t : Accounts} → Reach s t → IsEnded id s → IsEnded id t
  Reach-IsEnded start h = h
  Reach-IsEnded (after {c = c} r step) h = (Keeps-operation step).at c (Reach-IsEnded r h)
