-- ===== src/Accounts/Profile.antt =====
-- Creating, changing and administrating users: the rest of internal/service/user_service.go and
-- internal/service/user_service_admin.go.
use music_online_go.Prelude.{
  ℕ, ltb, not, ◌||◌, Bool, true, false, Option, none, some, String, str_eq, if◌then◌else◌,
}
use music_online_go.Database.Errors.{
  ok, err, Result, user_not_found, invalid_totp_code, old_password_incorrect, totp_already_enabled,
  totp_not_set_up, totp_not_enabled, bootstrap_admin_config, random_failed,
}
use music_online_go.Database.Session.{Db, pure, raise, lift, try, ◌>>=◌}
use music_online_go.Accounts.Store.{User, UserResponse, to_response, Accounts, Runes}
use music_online_go.Accounts.Password.{
  Bcrypt, hash_password, verify_password, validate_new_password,
}
use music_online_go.Accounts.Sessions.{revoke_all_for_user, revoke_all_except}
use music_online_go.Accounts.Users.{
  create_user, find_user, find_user_by_username, update_user, update_status, update_role,
  set_totp_secret, set_totp_enabled,
}

unfoldable pub new_user : String → String → String → String → String → Bool → User
new_user username email hash full_name role trusted = record {
  id = 0;
  username = username;
  email = email;
  password = hash;
  full_name = full_name;
  nickname = "";
  avatar_url = "";
  phone = "";
  bio = "";
  is_active = trusted;
  is_verified = trusted;
  role = role;
  totp_secret = "";
  totp_enabled = false;
}

unfoldable pub register : Bcrypt → String → String → Runes → String → Db Accounts UserResponse
unfolding new_user
register bcrypt username email password full_name = do
  hash ← lift (hash_password bcrypt password)
  user ← create_user (new_user username email hash full_name "user" false)
  pure (to_response user)

unfoldable pub create_user_by_admin :
    Bcrypt → String → String → Runes → String → String → Db Accounts UserResponse
unfolding new_user
create_user_by_admin bcrypt username email password full_name role = do
  hash ← lift (hash_password bcrypt password)
  user ← create_user (new_user username email hash full_name role true)
  pure (to_response user)

pub record BootstrapAdminRequest : Type 0 where
  pub username : String
  pub email : String
  pub password : Runes
  pub full_name : String
  pub reset_password : Bool

-- the account of an administrator, with the name that it has or else the request's
unfoldable pub promoted : BootstrapAdminRequest → User → User
promoted req user = record user {
  role = "admin";
  is_active = true;
  is_verified = true;
  full_name = if str_eq user.full_name "" then req.full_name else user.full_name;
}

-- Whether one of the assignments is made.
unfoldable pub needs_promotion : User → Bool
needs_promotion user =
    not (str_eq user.role "admin")
    || (not user.is_active || (not user.is_verified || str_eq user.full_name ""))

unfoldable pub with_password : Bcrypt → BootstrapAdminRequest → User → Db Accounts User
with_password bcrypt req user =
    if req.reset_password
    then (do
      hash ← lift (hash_password bcrypt req.password)
      pure (record user { password = hash }))
    else pure user

unfoldable pub bootstrap_found :
    Bcrypt → BootstrapAdminRequest → Result User → Db Accounts (UserResponse × Bool)
unfolding with_password promoted needs_promotion new_user
bootstrap_found bcrypt req (err user_not_found) = do
  hash ← lift (hash_password bcrypt req.password)
  user ← create_user (new_user req.username req.email hash req.full_name "admin" true)
  pure (to_response user, true)
bootstrap_found bcrypt req (err e) = raise e
bootstrap_found bcrypt req (ok existing) = do
  user ← with_password bcrypt req (promoted req existing)
  if needs_promotion existing || req.reset_password
      then (do saved ← update_user user; pure (to_response user, false))
      else pure (to_response user, false)

unfoldable pub bootstrap_valid :
    Bcrypt → BootstrapAdminRequest → Result {0} Unit → Db Accounts (UserResponse × Bool)
unfolding bootstrap_found
bootstrap_valid bcrypt req (err e) = raise bootstrap_admin_config
bootstrap_valid bcrypt req (ok u) = do
  found ← try (find_user_by_username req.username)
  bootstrap_found bcrypt req found

unfoldable pub bootstrap_admin : Bcrypt → BootstrapAdminRequest → Db Accounts (UserResponse × Bool)
unfolding bootstrap_valid
bootstrap_admin bcrypt req =
    if str_eq req.username "" || str_eq req.email ""
    then raise bootstrap_admin_config
    else bootstrap_valid bcrypt req (validate_new_password req.password)

unfoldable pub get_user_by_id : ℕ → Db Accounts UserResponse
get_user_by_id id = do user ← find_user id; pure (to_response user)

unfoldable pub get_user_by_username : String → Db Accounts UserResponse
get_user_by_username username = do user ← find_user_by_username username; pure (to_response user)

pub record UpdateUserRequest : Type 0 where
  pub full_name : Option String
  pub nickname : Option String
  pub avatar_url : Option String
  pub phone : Option String
  pub bio : Option String
  pub email : Option String

abbrev pub given : Option String → String → String
given none old = old
given (some new) old = new

unfoldable pub merged : UpdateUserRequest → User → User
merged req user = record user {
  full_name = given req.full_name user.full_name;
  nickname = given req.nickname user.nickname;
  avatar_url = given req.avatar_url user.avatar_url;
  phone = given req.phone user.phone;
  bio = given req.bio user.bio;
  email = given req.email user.email;
}

-- `UpdateUser`
unfoldable pub update_profile : ℕ → UpdateUserRequest → Db Accounts UserResponse
unfolding merged
update_profile id req = do
  user ← find_user id
  saved ← update_user (merged req user)
  pure (to_response (merged req user))

unfoldable pub change_password : Bcrypt → ℕ → ℕ → Runes → Runes → ℕ → Db Accounts Unit
change_password bcrypt user_id session_id old_password new_password now = do
  user ← find_user user_id
  valid ← lift (verify_password bcrypt old_password user.password)
  if not valid then raise old_password_incorrect else do
    hash ← lift (hash_password bcrypt new_password)
    saved ← update_user (record user { password = hash })
    if ltb 0 session_id
        then revoke_all_except user_id session_id now
        else revoke_all_for_user user_id now

unfoldable pub verify_user : ℕ → Db Accounts Unit
verify_user id = do user ← find_user id; update_user (record user { is_verified = true })

unfoldable pub update_user_status : ℕ → Bool → ℕ → Db Accounts Unit
update_user_status id active now = do
  updated ← update_status id active
  if not active then revoke_all_for_user id now else pure tt

unfoldable pub update_user_role : ℕ → String → Db Accounts Unit
update_user_role id role = update_role id role

unfoldable pub store_key : ℕ → Option (String × String) → Db Accounts (String × String)
store_key id none = raise random_failed
store_key id (some (secret, url)) = do saved ← set_totp_secret id secret; pure (secret, url)

-- `key` is what `totp.Generate` gives, none where it fails: the secret and its URL.
unfoldable pub setup_totp : ℕ → Option (String × String) → Db Accounts (String × String)
unfolding store_key
setup_totp id key = do
  user ← find_user id
  if user.totp_enabled then raise totp_already_enabled else store_key id key

-- The check of a code against a secret is the library's.
unfoldable pub enable_totp : (String → String → Bool) → ℕ → String → Db Accounts Unit
enable_totp totp_validate id code = do
  user ← find_user id
  if user.totp_enabled
      then raise totp_already_enabled
      else if str_eq user.totp_secret ""
      then raise totp_not_set_up
      else if not (totp_validate code user.totp_secret)
      then raise invalid_totp_code
      else set_totp_enabled id true

unfoldable pub disable_totp : (String → String → Bool) → ℕ → String → Db Accounts Unit
disable_totp totp_validate id code = do
  user ← find_user id
  if not user.totp_enabled
      then raise totp_not_enabled
      else if not (totp_validate code user.totp_secret)
      then raise invalid_totp_code
      else do disabled ← set_totp_enabled id false; set_totp_secret id ""
