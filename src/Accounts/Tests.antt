-- ===== src/Accounts/Tests.antt =====
-- The theorems on sessions at a small database: one user with one session, whose refresh token is
-- "s1.ab".
use music_online_go.Accounts.Refresh.{logged_out_forever}
use music_online_go.Accounts.Users.{find_user}
use music_online_go.Accounts.Rotation.{single_use}
use music_online_go.Accounts.Sessions.{
  rotated, has_hash, rotate_if_match, revoke_where, revoke, find_session, is_match,
}
use music_online_go.Prelude.{
  arith, length, ◌≢◌, refl, ◌≡◌, if◌then◌else◌, ◌==◌, ◌∷◌, true, false, none, String, [], some,
}
use music_online_go.Database.Session.{◌>>=◌, Conn}
use music_online_go.Accounts.Login.{
  access_token, or_raise, rotate, refresh_for, refresh_found, own_session, refresh_parsed, Service,
  refresh_session, Reply, logout_session,
}
use music_online_go.Accounts.Tokens.{
  truncate, hex_encode, digits, decimal, refresh_token_for_session, parse_digits, parse_uint32,
  index_byte, parse_refresh_token,
}
use music_online_go.Database.Errors.{ok, is_ok}
use music_online_go.Database.Table.{update_rows, count_rows, find_row}
use music_online_go.Accounts.Guard.{optional_claims, auth_claims, Claims}
use music_online_go.Accounts.Password.{matched, Bcrypt}
use music_online_go.Accounts.Store.{Accounts, Runes, Session, User}
use music_online_go.Accounts.Guard as Guard
use music_online_go.Accounts.Guard.{ParseToken, auth, bearer, session_is_active, enabled, live}
use music_online_go.Accounts.Guard.Admission.{IsAdmitted, auth_lem}
use music_online_go.Accounts.Reuse.{reuse_detected}
use music_online_go.Accounts.Tokens.Parsing.{parse_refresh_token-refresh_token_for_session}
use music_online_go.Accounts.Ended.{IsEnded}
use music_online_go.Database.Errors.{err, session_revoked}
use music_online_go.Accounts.Disabled.{disabled_forever}
use music_online_go.Accounts.Profile.{update_user_status}
use music_online_go.Accounts.Users.{update_status, update_user_field}
use music_online_go.Accounts.Sessions.{revoke_all_for_user}
use music_online_go.Accounts.Runs.{status_set}
use music_online_go.Accounts.Runs.{start, after, refreshed}

-- a digest that tells the tokens of this file apart
abbrev digest : Runes → String
digest t = if length t == 5 then "five" else "other"

abbrev plain_bcrypt : Bcrypt
plain_bcrypt = record { generate = λ raw. some "hash"; compare = λ hash raw. matched }

abbrev service : Service
service = record {
  sha256_hex = digest;
  bcrypt = plain_bcrypt;
  totp_validate = λ code secret. true;
  sign = λ user name role session. some "signed";
  refresh_ttl_days = 30;
  access_ttl_minutes = 15;
  dummy_password_hash = "hash";
}

abbrev alice : User
alice = record {
  id = 1;
  username = "alice";
  email = "a@example.org";
  password = "hash";
  full_name = "";
  nickname = "";
  avatar_url = "";
  phone = "";
  bio = "";
  is_active = true;
  is_verified = true;
  role = "user";
  totp_secret = "";
  totp_enabled = false;
}

abbrev session : Session
session = record {
  id = 1;
  user_id = 1;
  refresh_hash = "five";
  user_agent = [];
  ip_address = [];
  updated_at = 10;
  last_used_at = 10;
  expires_at = 1000;
  revoked_at = none;
}

abbrev tables : Accounts
tables = record { users = alice ∷ []; sessions = session ∷ []; next_user = 2; next_session = 2 }

abbrev conn : Conn Accounts
conn = record { tables = tables; faults = λ n. false }

abbrev token : Runes
token = 0x73 ∷ 0x31 ∷ 0x2e ∷ 0x61 ∷ 0x62 ∷ []

abbrev claims : Claims
claims = record { user_id = 1; username = "alice"; role = "user"; session_id = 1 }

-- the connection after the logout and one more attempt to refresh
abbrev out : Conn Accounts
out = (refresh_session service token [] [] (some (1 ∷ [])) 30 (logout_session 1 1 20 conn).1).1

abbrev exchanged : Reply
exchanged = record {
  user = none;
  access_token = "signed";
  refresh_token = 0x73 ∷ 0x31 ∷ 0x2e ∷ 0x30 ∷ 0x31 ∷ 0x30 ∷ 0x32 ∷ [];
  expires_in = 900;
}

found : find_row (λ r. r.id == 1) tables.sessions ≡ some session
unfolding find_row
found = refl

logged_out : (logout_session 1 1 20 conn).0 ≡ ok tt
unfolding logout_session own_session find_session revoke revoke_where find_row update_rows ◌>>=◌
logged_out = refl

parsed : parse_refresh_token token ≡ some (1, 0x61 ∷ 0x62 ∷ [])
unfolding parse_refresh_token index_byte parse_uint32 parse_digits
parsed = refl

first : (refresh_session service token [] [] (some (1 ∷ 2 ∷ [])) 30 conn).0 ≡ ok exchanged
unfolding refresh_session refresh_parsed refresh_found refresh_for rotate rotate_if_match has_hash
    rotated or_raise access_token find_session find_user find_row count_rows update_rows
    parse_refresh_token index_byte parse_uint32 parse_digits refresh_token_for_session decimal
    digits hex_encode truncate ◌>>=◌
first = refl

logged_out_forever_example :
    (is_ok (refresh_session service token [] [] (some (1 ∷ [])) 40 out).0 ≡ false)
    × ((auth_claims (some claims) out).0 ≡ ok Guard.unauthorized)
    × ((optional_claims (some claims) out).0 ≡ ok (Guard.next none))
logged_out_forever_example =
    logged_out_forever 1 1 20 conn out service token [] [] (some (1 ∷ [])) 40 (0x61 ∷ 0x62 ∷ [])
      claims (unfold find_row in omega arith) found refl logged_out
      (after {c = (logout_session 1 1 20 conn).1} start
        (refreshed service token [] [] (some (1 ∷ [])) 30))
      parsed refl

single_use_example :
    ((count_rows (is_match 1 "five") tables.sessions == 0) ≡ false)
    × ((refresh_session service token [] []
          (some (1 ∷ []))
          40
          (refresh_session service token [] [] (some (1 ∷ 2 ∷ [])) 30 conn).1).0
        ≢ ok exchanged)
single_use_example =
    single_use service token [] [] [] [] (some (1 ∷ 2 ∷ [])) (some (1 ∷ [])) 30 40 1
      (0x61 ∷ 0x62 ∷ []) conn (refresh_session service token [] [] (some (1 ∷ 2 ∷ [])) 30 conn).1
      parsed first refl refl

-- disabled, and enabled again
abbrev back : Conn Accounts
back = (update_user_status 1 true 30 (update_user_status 1 false 20 conn).1).1

disabled_ok : (update_user_status 1 false 20 conn).0 ≡ ok tt
unfolding update_user_status update_status update_user_field revoke_all_for_user revoke_where
    count_rows update_rows ◌>>=◌
disabled_ok = refl

disabled_forever_example :
    (is_ok (refresh_session service token [] [] (some (1 ∷ [])) 40 back).0 ≡ false)
    × ((auth_claims (some claims) back).0 ≡ ok Guard.unauthorized)
    × ((optional_claims (some claims) back).0 ≡ ok (Guard.next none))
disabled_forever_example =
    disabled_forever 1 1 20 conn back service token [] [] (some (1 ∷ [])) 40 (0x61 ∷ 0x62 ∷ [])
      claims (omega arith) ((λ same. refl), tt) disabled_ok
      (after {c = (update_user_status 1 false 20 conn).1} start (status_set 1 true 30)) parsed refl

-- a token of the session with another random part, long after the last rotation
abbrev old_token : Runes
old_token = 0x73 ∷ 0x31 ∷ 0x2e ∷ 0x61 ∷ []

-- the session is still valid then
abbrev lasting : Session
lasting = record session { expires_at = 90000000000 }

abbrev later_conn : Conn Accounts
later_conn = record conn { tables = record tables { sessions = lasting ∷ [] } }

old_parsed : parse_refresh_token old_token ≡ some (1, 0x61 ∷ [])
unfolding parse_refresh_token index_byte parse_uint32 parse_digits
old_parsed = refl

reuse_detected_example :
    ((refresh_session service old_token [] [] (some (1 ∷ [])) 60000000000 later_conn).0
      ≡ err session_revoked)
    × IsEnded 1
        (refresh_session service old_token [] [] (some (1 ∷ [])) 60000000000 later_conn).1.tables
unfolding find_row count_rows
reuse_detected_example =
    reuse_detected service old_token [] [] (1 ∷ []) (0x61 ∷ []) 60000000000 lasting alice later_conn
      old_parsed (omega arith) refl refl refl refl refl refl (omega arith) (λ n. refl)

parse_refresh_token-refresh_token_for_session_example :
    parse_refresh_token (refresh_token_for_session 4294967295 (0x61 ∷ []))
    ≡ some (4294967295, 0x61 ∷ [])
parse_refresh_token-refresh_token_for_session_example =
    parse_refresh_token-refresh_token_for_session 4294967295 (0x61 ∷ []) (omega arith) (omega arith)
      (omega arith)

abbrev parse : ParseToken
parse text = some claims

auth_lem_example :
    (text : String) × (bearer ("Bearer" ∷ "x" ∷ []) ≡ some text)
    × (parse text ≡ some claims)
    × IsAdmitted claims tables
unfolding auth auth_claims bearer session_is_active enabled live find_row ◌>>=◌
auth_lem_example = auth_lem parse ("Bearer" ∷ "x" ∷ []) claims conn refl
