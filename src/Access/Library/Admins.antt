-- ===== src/Access/Library/Admins.antt =====
-- Who passes as an administrator.
use music_online_go.Prelude.{
  Option-cases, inr, arith, inl, Bool-cases, str_eq, true, some, ◌≡◌, ◌==◌, ℕ,
}
use music_online_go.Database.Errors.{ok}
use music_online_go.Database.Session.{Conn, ◌>>=◌}
use music_online_go.Database.Table.{find_row}
use music_online_go.Accounts.Store.{User, Accounts}
use music_online_go.Accounts.Guard.{Claims}
use music_online_go.Access.Library.{passes, admin_answer, strict_admin}

-- A stored user of this id who is an active administrator.
pub record IsAdmin (id : ℕ) (t : Accounts) : Type 0 where
  pub user : User
  pub stored : find_row (λ u. u.id == id) t.users ≡ some user
  pub active : user.is_active ≡ true
  pub admin : str_eq user.role "admin" ≡ true

-- A request passes as an administrator's only if the user that its token names is now stored as an
-- active administrator, whatever the token says of roles.
pub strict_admin_lem :
    (claims : Claims) (c : Conn Accounts)
    → (strict_admin (some claims) c).0 ≡ ok passes
    → IsAdmin claims.user_id c.tables
unfolding strict_admin admin_answer ◌>>=◌
strict_admin_lem claims c h = elim (Bool-cases (c.faults 0)) [
  | inl e ↦ absurd (ground (arith, e, h))
  | inr e ↦ elim (Option-cases (find_row (λ u. u.id == claims.user_id) c.tables.users)) [
    | inl o ↦ absurd (ground (arith, e, h, o))
    | inr (u, o) ↦ record {
      user = u;
      stored = o;
      active = ground (arith, e, h, o);
      admin = ground (arith, e, h, o);
    }
  ]
]
