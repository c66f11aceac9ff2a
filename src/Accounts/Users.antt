-- ===== src/Accounts/Users.antt =====
-- internal/repository/user_repository.go: the user table. Rows are deleted for good, so the
-- deleted_at column stays empty and is left out. `Delete`, which also clears the user's music, and
-- the lists are not modelled.
use music_online_go.Prelude.{
  false, ℕ, suc, ◌==◌, not, ◌&&◌, ◌||◌, Bool, true, Option, none, some, String, [], ◌∷◌, ◌++◌,
  str_eq, length, if◌then◌else◌,
}
use music_online_go.Database.Errors.{
  ok, err, driver, user_not_found, username_exists, email_exists, Result,
}
use music_online_go.Database.Session.{Db, statement, query, pure, raise, lift, try, ◌>>=◌}
use music_online_go.Database.Table.{count_rows, find_row, update_rows}
use music_online_go.Accounts.Store.{User, Accounts}

unfoldable pub exists_by_username : String → Db Accounts Bool
exists_by_username username =
    query (λ t. not (count_rows (λ u. str_eq u.username username) t.users == 0))

unfoldable pub exists_by_email : String → Db Accounts Bool
exists_by_email email = query (λ t. not (count_rows (λ u. str_eq u.email email) t.users == 0))

-- The unique indexes on username and email, against every row but that of the user.
unfoldable pub has_conflict : User → Accounts → Bool
has_conflict user t = not (
    count_rows
      (λ u. (str_eq u.username user.username || str_eq u.email user.email) && not (u.id == user.id))
      t.users
    == 0)

-- The columns with a default that is not zero take it where the field is zero.
unfoldable pub with_user_defaults : ℕ → User → User
with_user_defaults id user = record user {
  id = id;
  is_active = true;
  role = if str_eq user.role "" then "user" else user.role;
}

unfoldable pub insert_user : User → Accounts → Result User × Accounts
unfolding has_conflict with_user_defaults
insert_user user t =
    if has_conflict (with_user_defaults t.next_user user) t then (err driver, t) else (
      ok (with_user_defaults t.next_user user),
      record t {
        users = t.users ++ with_user_defaults t.next_user user ∷ [];
        next_user = suc t.next_user;
      },
    )

-- `Create`
unfoldable pub create_user : User → Db Accounts User
unfolding insert_user exists_by_username exists_by_email
create_user user = do
  by_name ← exists_by_username user.username
  if by_name then raise username_exists else do
    by_email ← exists_by_email user.email
    if by_email then raise email_exists else do r ← statement (insert_user user); lift r

abbrev pub found_user : Option User → Db Accounts User
found_user none = raise user_not_found
found_user (some u) = pure u

unfoldable pub find_user : ℕ → Db Accounts User
find_user id = do found ← query (λ t. find_row (λ u. u.id == id) t.users); found_user found

unfoldable pub find_user_by_username : String → Db Accounts User
find_user_by_username username = do
  found ← query (λ t. find_row (λ u. str_eq u.username username) t.users)
  found_user found

unfoldable pub find_user_by_email : String → Db Accounts User
find_user_by_email email = do
  found ← query (λ t. find_row (λ u. str_eq u.email email) t.users)
  found_user found

-- `Save`: the row with the user's id takes every column, or is inserted.
unfoldable pub save_user : User → Accounts → Result {0} Unit × Accounts
unfolding has_conflict
save_user user t =
    if has_conflict user t
    then (err driver, t)
    else if count_rows (λ u. u.id == user.id) t.users == 0
    then (ok tt, record t { users = t.users ++ user ∷ [] })
    else (ok tt, record t { users = update_rows (λ u. u.id == user.id) (λ _. user) t.users })

-- A lookup of the e-mail address that fails, or finds no row, lets the update go on.
taken_email : Result (Option User) → Bool
taken_email (ok (some u)) = true
taken_email _ = false

-- `Update`
unfoldable pub update_user : User → Db Accounts Unit
unfolding taken_email save_user
update_user user = if str_eq user.email "" then (do r ← statement (save_user user); lift r) else do
  other ←
      try (query (λ t. find_row (λ u. str_eq u.email user.email && not (u.id == user.id)) t.users))
  if taken_email other then raise email_exists else do r ← statement (save_user user); lift r

unfoldable pub count_admins : Db Accounts ℕ
count_admins = query (λ t. count_rows (λ u. str_eq u.role "admin" && u.is_active) t.users)

unfoldable pub count_all : Db Accounts ℕ
count_all = query (λ t. length t.users)

-- internal/repository/user_repository_admin.go: `updateUserField` and its four fields
unfoldable pub update_user_field : ℕ → (User → User) → Db Accounts Unit
update_user_field id set = do
  n ← statement (λ t. (
    count_rows (λ u. u.id == id) t.users,
    record t { users = update_rows (λ u. u.id == id) set t.users },
  ))
  if n == 0 then raise user_not_found else pure tt

unfoldable pub update_status : ℕ → Bool → Db Accounts Unit
update_status id active = update_user_field id (λ u. record u { is_active = active })

unfoldable pub update_role : ℕ → String → Db Accounts Unit
update_role id role = update_user_field id (λ u. record u { role = role })

unfoldable pub set_totp_secret : ℕ → String → Db Accounts Unit
set_totp_secret id secret = update_user_field id (λ u. record u { totp_secret = secret })

unfoldable pub set_totp_enabled : ℕ → Bool → Db Accounts Unit
set_totp_enabled id enabled = update_user_field id (λ u. record u { totp_enabled = enabled })
