-- ===== src/Accounts/Disabled.antt =====
-- Disabling a user, and later requests and refreshes with the user's sessions.
use music_online_go.Prelude.{
  ℕ, ◌==◌, ◌≡◌, ◌<◌, ◌&&◌, Bool, Bool-cases, true, false, Option, none, some, inl, inr, arith, All,
  refl, if◌then◌else◌,
}
use music_online_go.Database.Errors.{ok, is_ok}
use music_online_go.Database.Session.{Conn, ◌>>=◌}
use music_online_go.Database.Table.{count_rows, All-update_rows_if}
use music_online_go.Accounts.Store.{Session, Accounts, Runes}
use music_online_go.Accounts.Tokens.{parse_refresh_token}
use music_online_go.Accounts.Sessions.{is_unset, revoke_all_for_user, revoke_where}
use music_online_go.Accounts.Users.{update_status, update_user_field}
use music_online_go.Accounts.Login.{Service, refresh_session}
use music_online_go.Accounts.Profile.{update_user_status}
use music_online_go.Accounts.Guard.{Claims, auth_claims, optional_claims}
use music_online_go.Accounts.Guard as Guard
use music_online_go.Accounts.Ended.{IsEnded, IsRevoked}
use music_online_go.Accounts.Runs.{Reach, Reach-IsEnded}
use music_online_go.Accounts.Refresh.{refresh_ended, auth_ended, optional_ended}

-- Every row with the session's id belongs to the user.
abbrev pub IsOwned : ℕ → ℕ → Session → Type 0
IsOwned user_id id s = s.id ≡ id → s.user_id ≡ user_id

-- a row after the revocation of all sessions of its user
owned-IsRevoked :
    (user_id id now : ℕ) (s : Session)
    → IsOwned user_id id s
    → IsRevoked id (
        if s.user_id == user_id && is_unset s.revoked_at
        then record s { revoked_at = some now }
        else s)
owned-IsRevoked user_id id now s own = at (s.user_id == user_id) refl (is_unset s.revoked_at) refl
  where
    at :
        (b : Bool)
        → (s.user_id == user_id) ≡ b
        → (u : Bool) → is_unset s.revoked_at ≡ u
        → IsRevoked id (if b && u then record s { revoked_at = some now } else s)
    at true e true f same = refl
    at true e false f same = f
    at false e u f same = absurd (ground (arith, own same))

disabled-IsEnded :
    (user_id id now : ℕ) (c : Conn Accounts)
    → id < c.tables.next_session
    → All (IsOwned user_id id) c.tables.sessions
    → (update_user_status user_id false now c).0 ≡ ok tt
    → IsEnded id (update_user_status user_id false now c).1.tables
unfolding update_user_status update_status update_user_field revoke_all_for_user revoke_where ◌>>=◌
disabled-IsEnded user_id id now c given own = elim (Bool-cases (c.faults 0)) [
  | inl f ↦ rw (f) (λ e. absurd (cc))
  | inr f ↦ elim (Bool-cases (count_rows (λ u. u.id == user_id) c.tables.users == 0)) [
    | inl n ↦ rw (f, n) (λ e. absurd (cc))
    | inr n ↦ elim (Bool-cases (c.faults 1)) [
      | inl g ↦ rw (f, n, g) (λ e. absurd (cc))
      | inr g ↦
          rw (f, n, g)
            (λ e. record {
              given_out = given;
              revoked =
                  All-update_rows_if (IsOwned user_id id) (IsRevoked id) _ _
                    (owned-IsRevoked user_id id now) c.tables.sessions own;
            })
    ]
  ]
]

-- Once an administrator has disabled a user, each session of the user stays dead, even if the user
-- is enabled again: after any further operations of any processes, whatever the driver refuses, its
-- refresh token is not exchanged any more, a request with an access token of it is unauthorized, and
-- is nobody's where login is optional.
pub disabled_forever :
    (user_id id now : ℕ) (c d : Conn Accounts) (service : Service) (token agent ip : Runes)
    (raw : Option Runes) (later : ℕ) (random : Runes) (claims : Claims)
    → id < c.tables.next_session
    → All (IsOwned user_id id) c.tables.sessions
    → (update_user_status user_id false now c).0 ≡ ok tt
    → Reach (update_user_status user_id false now c).1.tables d.tables
    → parse_refresh_token token ≡ some (id, random)
    → claims.session_id ≡ id
    → (is_ok (refresh_session service token agent ip raw later d).0 ≡ false)
      × ((auth_claims (some claims) d).0 ≡ ok Guard.unauthorized)
      × ((optional_claims (some claims) d).0 ≡ ok (Guard.next none))
disabled_forever user_id id now c d service token agent ip raw later random claims given own out r
      parsed same =
    let ended = Reach-IsEnded r (disabled-IsEnded user_id id now c given own out) in
    let ended' : IsEnded claims.session_id d.tables = rw (same) ended in
    (
      refresh_ended service token agent ip raw later id random d ended parsed,
      auth_ended claims d ended',
      optional_ended claims d ended',
    )
