-- ===== src/Accounts/Store.antt =====
-- The rows of internal/domain/user.go and internal/domain/session.go. Times are numbers of
-- nanoseconds, a nil pointer is `none`; columns that no operation reads are left out.
use music_online_go.Prelude.{ℕ, String, Bool, Option, List}

pub record User : Type 0 where
  pub id : ℕ
  pub username : String
  pub email : String
  pub password : String
  pub full_name : String
  pub nickname : String
  pub avatar_url : String
  pub phone : String
  pub bio : String
  pub is_active : Bool
  pub is_verified : Bool
  pub role : String
  pub totp_secret : String
  pub totp_enabled : Bool

-- What of a user is sent to a client.
pub record UserResponse : Type 0 where
  pub id : ℕ
  pub username : String
  pub email : String
  pub full_name : String
  pub nickname : String
  pub avatar_url : String
  pub phone : String
  pub bio : String
  pub is_active : Bool
  pub is_verified : Bool
  pub role : String
  pub totp_enabled : Bool

unfoldable pub to_response : User → UserResponse
to_response u = record {
  id = u.id;
  username = u.username;
  email = u.email;
  full_name = u.full_name;
  nickname = u.nickname;
  avatar_url = u.avatar_url;
  phone = u.phone;
  bio = u.bio;
  is_active = u.is_active;
  is_verified = u.is_verified;
  role = u.role;
  totp_enabled = u.totp_enabled;
}

-- A text that is cut by runes, or read byte by byte.
abbrev pub Runes : Type 0
Runes = List ℕ

pub record Session : Type 0 where
  pub id : ℕ
  pub user_id : ℕ
  pub refresh_hash : String
  pub user_agent : Runes
  pub ip_address : Runes
  pub updated_at : ℕ
  pub last_used_at : ℕ
  pub expires_at : ℕ
  pub revoked_at : Option ℕ

-- The two tables and their id counters.
pub record Accounts : Type 0 where
  pub users : List User
  pub sessions : List Session
  pub next_user : ℕ
  pub next_session : ℕ
