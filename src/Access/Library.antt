-- ===== src/Access/Library.antt =====
-- internal/middleware/access.go and internal/middleware/admin_auth.go. The headers that only control
-- caches are left out.
pub mod Admins
use music_online_go.Prelude.{
  ◌&&◌, length, str_eq, none, not, ◌==◌, if◌then◌else◌, false, ℕ, String, some, List, Option, Bool,
}
use music_online_go.Database.Errors.{err, ok, Result}
use music_online_go.Database.Session.{Db, query, pure, try, ◌>>=◌}
use music_online_go.Database.Table.{find_row}
use music_online_go.Accounts.Store.{User, Accounts, Runes}
use music_online_go.Accounts.Guard.{
  Claims, ParseToken, Answer, unauthorized, forbidden, next, auth, optional_auth,
}
use music_online_go.Access.MediaToken.{Signer, validate}

-- `LibraryReadMiddleware`, with whether the mode is "authenticated"
unfoldable pub library_read : Bool → ParseToken → List String → Db Accounts Answer
unfolding auth optional_auth
library_read authenticated parse parts =
    if authenticated then auth parse parts else optional_auth parse parts

-- a request for media: the id in its path, if it is a number of 32 bits, and its media token
unfoldable pub has_media_token : Signer → Runes → Runes → ℕ → Option ℕ → Runes → Bool
unfolding validate
has_media_token signer secret kind now none token = false
has_media_token signer secret kind now (some music_id) token =
    not (length token == 0) && validate signer token secret music_id kind now

-- `LibraryMediaAccessMiddleware`
unfoldable pub library_media :
    Bool
    → Signer
    → Runes
    → Runes
    → ℕ
    → Option ℕ
    → Runes
    → ParseToken
    → List String
    → Db Accounts Answer
unfolding auth optional_auth has_media_token
library_media authenticated signer secret kind now music_id token parse parts =
    if not authenticated
    then optional_auth parse parts
    else if has_media_token signer secret kind now music_id token
    then pure (next none)
    else auth parse parts

-- `StrictAdminMiddleware`, on the claims that the context holds: 401, 403, 500, or the next handler
pub data AdminAnswer : Type 0 where
  unknown rejected broken passes : AdminAnswer

unfoldable pub admin_answer : Result (Option User) → AdminAnswer
admin_answer (err e) = broken
admin_answer (ok none) = unknown
admin_answer (ok (some u)) =
    if not u.is_active then rejected else if not (str_eq u.role "admin") then rejected else passes

unfoldable pub strict_admin : Option Claims → Db Accounts AdminAnswer
unfolding admin_answer
strict_admin none = pure unknown
strict_admin (some claims) = do
  found ← try (query (λ t. find_row (λ u. u.id == claims.user_id) t.users))
  pure (admin_answer found)
