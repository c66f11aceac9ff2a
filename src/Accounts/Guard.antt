-- ===== src/Accounts/Guard.antt =====
-- internal/middleware/auth.go: who a request comes from.
pub mod Admission
use music_online_go.Prelude.{
  ℕ, ◌==◌, not, ◌||◌, Bool, false, Option, none, some, String, List, [], ◌∷◌, str_eq, if◌then◌else◌,
}
use music_online_go.Database.Errors.{ok, Result}
use music_online_go.Database.Session.{Db, query, pure, try, ◌>>=◌}
use music_online_go.Database.Table.{find_row}
use music_online_go.Accounts.Store.{User, Session, Accounts}
use music_online_go.Accounts.Sessions.{is_unset}

pub record Claims : Type 0 where
  pub user_id : ℕ
  pub username : String
  pub role : String
  pub session_id : ℕ

-- `jwt.ParseToken` under the server's secret; its errors are none.
abbrev pub ParseToken : Type 0
ParseToken = String → Option Claims

pub data Answer : Type 0 where
  unauthorized forbidden : Answer
  -- the next handler runs, with what the context holds
  next : Option Claims → Answer

-- The Authorization header, split at its spaces.
unfoldable pub bearer : List String → Option String
bearer (scheme ∷ token ∷ []) = if str_eq scheme "Bearer" then some token else none
bearer _ = none

unfoldable pub live : Result (Option Session) → Bool
live (ok (some s)) = is_unset s.revoked_at
live _ = false

unfoldable pub session_is_active : ℕ → Db Accounts Bool
unfolding live
session_is_active id =
    if id == 0
    then pure false
    else do found ← try (query (λ t. find_row (λ s. s.id == id) t.sessions)); pure (live found)

unfoldable pub enabled : Result (Option User) → Bool
enabled (ok (some u)) = u.is_active
enabled _ = false

-- `AuthMiddleware`
unfoldable pub auth_claims : Option Claims → Db Accounts Answer
unfolding session_is_active enabled
auth_claims none = pure unauthorized
auth_claims (some claims) = do
  found ← try (query (λ t. find_row (λ u. u.id == claims.user_id) t.users))
  if not (enabled found) then pure unauthorized else do
    active ← session_is_active claims.session_id
    if active then pure (next (some claims)) else pure unauthorized

unfoldable pub auth : ParseToken → List String → Db Accounts Answer
unfolding auth_claims bearer
auth parse parts = elim (bearer parts) [
  | none ↦ pure unauthorized
  | some token ↦ auth_claims (parse token)
]

-- `OptionalAuthMiddleware`: whoever is not known is let through as nobody
unfoldable pub optional_claims : Option Claims → Db Accounts Answer
unfolding session_is_active
optional_claims none = pure (next none)
optional_claims (some claims) = do
  active ← session_is_active claims.session_id
  if active then pure (next (some claims)) else pure (next none)

unfoldable pub optional_auth : ParseToken → List String → Db Accounts Answer
unfolding optional_claims bearer
optional_auth parse parts = elim (bearer parts) [
  | none ↦ pure (next none)
  | some token ↦ optional_claims (parse token)
]

-- `RoleMiddleware`, on the role that the context holds
unfoldable pub is_member : String → List String → Bool
is_member x [] = false
is_member x (y ∷ ys) = str_eq y x || is_member x ys

unfoldable pub require_role : List String → Option Claims → Answer
unfolding is_member
require_role allowed none = unauthorized
require_role allowed (some claims) =
    if is_member claims.role allowed then next (some claims) else forbidden
