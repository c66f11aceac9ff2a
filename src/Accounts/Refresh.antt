-- ===== src/Accounts/Refresh.antt =====
-- Logging out of a session, and later requests and refreshes with it.
use music_online_go.Database.Session.Keeps.{Keeps-query}
use music_online_go.Database.Session.{pure}
use music_online_go.Database.Table.{update_rows}
use music_online_go.Prelude.{List, [], ◌∷◌, not, if◌then◌else◌}
use music_online_go.Prelude.{
  ℕ, ◌==◌, ◌≡◌, ◌<◌, ◌&&◌, Bool, Bool-cases, Option-cases, true, false, Option, none, some, inl,
  inr, arith, All, refl, ==_iff,
}
use music_online_go.Database.Errors.{ok, is_ok}
use music_online_go.Database.Session.{Conn, ◌>>=◌}
use music_online_go.Database.Table.{find_row, All-find_row, All-update_rows_if}
use music_online_go.Accounts.Store.{User, Session, Accounts, Runes}
use music_online_go.Accounts.Tokens.{parse_refresh_token}
use music_online_go.Accounts.Sessions.{is_unset, find_session, revoke, revoke_where}
use music_online_go.Accounts.Login.{
  Service, refresh_session, refresh_parsed, refresh_found, logout_session, own_session,
}
use music_online_go.Accounts.Guard.{Claims, auth_claims, optional_claims, session_is_active}
use music_online_go.Accounts.Guard as Guard
use music_online_go.Accounts.Ended.{IsEnded, IsRevoked}
use music_online_go.Accounts.Runs.{Reach, Reach-IsEnded}

found_revoked :
    (id : ℕ) (t : Accounts) (s : Session)
    → IsEnded id t
    → find_row (λ s. s.id == id) t.sessions ≡ some s
    → is_unset s.revoked_at ≡ false
found_revoked id t s h e =
    let (r, same) = All-find_row (IsRevoked id) (λ s. s.id == id) t.sessions h.revoked e in
    r ((==_iff s.id id).0 same)

pub refresh_ended :
    (service : Service) (token agent ip : Runes) (raw : Option Runes) (now id : ℕ) (random : Runes)
    (c : Conn Accounts)
    → IsEnded id c.tables
    → parse_refresh_token token ≡ some (id, random)
    → is_ok (refresh_session service token agent ip raw now c).0 ≡ false
unfolding refresh_session refresh_parsed refresh_found find_session ◌>>=◌
refresh_ended service token agent ip raw now id random c h e = elim (Bool-cases (c.faults 0)) [
  | inl f ↦ rw (e, f) refl
  | inr f ↦ elim (Option-cases (find_row (λ s. s.id == id) c.tables.sessions)) [
    | inl n ↦ rw (e, f, n) refl
    | inr (s, n) ↦ rw (e, f, n, found_revoked id c.tables s h n) refl
  ]
]

session_is_active-ended :
    (id : ℕ) (c : Conn Accounts) → IsEnded id c.tables → (session_is_active id c).0 ≡ ok false
unfolding session_is_active ◌>>=◌
session_is_active-ended id c h = elim (Bool-cases (id == 0)) [
  | inl z ↦ rw (z) refl
  | inr z ↦ elim (Bool-cases (c.faults 0)) [
    | inl f ↦ rw (z, f) refl
    | inr f ↦ elim (Option-cases (find_row (λ s. s.id == id) c.tables.sessions)) [
      | inl n ↦ rw (z, f, n) refl
      | inr (s, n) ↦ rw (z, f, n, found_revoked id c.tables s h n) refl
    ]
  ]
]

pub optional_ended :
    (claims : Claims) (c : Conn Accounts)
    → IsEnded claims.session_id c.tables
    → (optional_claims (some claims) c).0 ≡ ok (Guard.next none)
unfolding optional_claims ◌>>=◌
optional_ended claims c h = rw (session_is_active-ended claims.session_id c h) refl

after_lookup :
    (claims : Claims) (b : Bool) (c : Conn Accounts)
    → IsEnded claims.session_id c.tables
    → ((if not b
          then pure Guard.unauthorized
          else session_is_active claims.session_id >>= λ active.
              if active then pure (Guard.next (some claims)) else pure Guard.unauthorized)
        c).0
      ≡ ok Guard.unauthorized
unfolding ◌>>=◌
after_lookup claims false c h = refl
after_lookup claims true c h = rw (session_is_active-ended claims.session_id c h) refl

pub auth_ended :
    (claims : Claims) (c : Conn Accounts)
    → IsEnded claims.session_id c.tables
    → (auth_claims (some claims) c).0 ≡ ok Guard.unauthorized
unfolding auth_claims ◌>>=◌
auth_ended claims c h =
    let kept =
      Keeps-query {P = IsEnded claims.session_id}
        (λ (t : Accounts). find_row (λ (u : User). u.id == claims.user_id) t.users) in
    after_lookup claims _ _ (kept.at c h)

-- the rows that a revocation leaves
pub revoked-IsEnded :
    (id now : ℕ) (t : Accounts)
    → id < t.next_session
    → IsEnded id (record t {
      sessions =
          update_rows
            (λ s. s.id == id && is_unset s.revoked_at)
            (λ s. record s { revoked_at = some now })
            t.sessions;
    })
revoked-IsEnded id now t given = record {
  given_out = given;
  revoked =
      All-update_rows_if (λ s. Unit {0}) (IsRevoked id) _ _
        (λ s u. row s (s.id == id) refl (is_unset s.revoked_at) refl) t.sessions
        (all_unit t.sessions);
}
  where
    all_unit : (rs : List Session) → All {0, 0} (λ s. Unit {0}) rs
    all_unit [] = tt
    all_unit (r ∷ rs) = (tt, all_unit rs)

    row :
        (s : Session) (b : Bool)
        → (s.id == id) ≡ b
        → (u : Bool) → is_unset s.revoked_at ≡ u
        → IsRevoked id (if b && u then record s { revoked_at = some now } else s)
    row s true e true f same = refl
    row s true e false f same = f
    row s false e u f same = absurd (ground arith)

-- what a logout of one's own session leaves
logout_session-IsEnded :
    (user_id id now : ℕ) (c : Conn Accounts) {s : Session}
    → id < c.tables.next_session
    → find_row (λ s. s.id == id) c.tables.sessions ≡ some s
    → s.user_id ≡ user_id
    → (logout_session user_id id now c).0 ≡ ok tt
    → IsEnded id (logout_session user_id id now c).1.tables
unfolding logout_session own_session find_session revoke revoke_where ◌>>=◌
logout_session-IsEnded user_id id now c {s} given found own = elim (Bool-cases (c.faults 0)) [
  | inl f ↦ rw (f) (λ e. absurd (cc))
  | inr f ↦ elim (Bool-cases (c.faults 1)) [
    | inl g ↦ rw (f, found, (==_iff s.user_id user_id).1 own, g) (λ e. absurd (cc))
    | inr g ↦
        rw (f, found, (==_iff s.user_id user_id).1 own, g)
          (λ e. revoked-IsEnded id now c.tables given)
  ]
]

-- Once a user has logged out of a session, the session stays dead: after any further operations of
-- any processes, whatever the driver refuses, its refresh token is not exchanged any more, a
-- request with an access token of it is unauthorized, and is nobody's where login is optional.
pub logged_out_forever :
    (user_id id now : ℕ) (c d : Conn Accounts) {s : Session} (service : Service)
    (token agent ip : Runes) (raw : Option Runes) (later : ℕ) (random : Runes) (claims : Claims)
    → id < c.tables.next_session
    → find_row (λ r. r.id == id) c.tables.sessions ≡ some s
    → s.user_id ≡ user_id
    → (logout_session user_id id now c).0 ≡ ok tt
    → Reach (logout_session user_id id now c).1.tables d.tables
    → parse_refresh_token token ≡ some (id, random)
    → claims.session_id ≡ id
    → (is_ok (refresh_session service token agent ip raw later d).0 ≡ false)
      × ((auth_claims (some claims) d).0 ≡ ok Guard.unauthorized)
      × ((optional_claims (some claims) d).0 ≡ ok (Guard.next none))
logged_out_forever user_id id now c d service token agent ip raw later random claims given found own
      out r parsed same =
    let ended = Reach-IsEnded r (logout_session-IsEnded user_id id now c given found own out) in
    let ended' : IsEnded claims.session_id d.tables = rw (same) ended in
    (
      refresh_ended service token agent ip raw later id random d ended parsed,
      auth_ended claims d ended',
      optional_ended claims d ended',
    )
