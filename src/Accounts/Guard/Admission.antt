-- ===== src/Accounts/Guard/Admission.antt =====
-- Whom the authentication lets through.
use mathlib.Core.Path.{subst}
use music_online_go.Prelude.{
  String, List, ap, ◌∙◌, ◌⊎◌, ℕ, ◌==◌, ◌≡◌, ◌≢◌, Bool-cases, Option-cases, true, false, some, refl,
  inl, inr, if◌then◌else◌,
}
use music_online_go.Database.Errors.{Result, ok}
use music_online_go.Database.Session.{Conn, ◌>>=◌, next, pure}
use music_online_go.Database.Table.{find_row}
use music_online_go.Accounts.Store.{Session, User, Accounts}
use music_online_go.Accounts.Sessions.{is_unset}
use music_online_go.Accounts.Guard.{
  live, enabled, Claims, ParseToken, Answer, auth, auth_claims, bearer, session_is_active,
}
use music_online_go.Accounts.Guard as Guard

-- An active user and a live session behind the claims of a token.
pub record IsAdmitted (claims : Claims) (t : Accounts) : Type 0 where
  pub user : User
  pub found_user : find_row (λ u. u.id == claims.user_id) t.users ≡ some user
  pub active : user.is_active ≡ true
  pub session : Session
  pub found_session : find_row (λ s. s.id == claims.session_id) t.sessions ≡ some session
  pub live : is_unset session.revoked_at ≡ true
  pub numbered : (claims.session_id == 0) ≡ false

session_is_active_lem :
    (id : ℕ) (c : Conn Accounts)
    → ((session_is_active id c).0 ≡ ok false)
      ⊎ ((session_is_active id c).0 ≡ ok true)
        × ((id == 0) ≡ false)
        × ((s : Session) × (find_row (λ s. s.id == id) c.tables.sessions ≡ some s)
            × (is_unset s.revoked_at ≡ true))
unfolding session_is_active live ◌>>=◌
session_is_active_lem id c = elim (Bool-cases (id == 0)) [
  | inl z ↦ rw (z) (inl refl)
  | inr z ↦ elim (Bool-cases (c.faults 0)) [
    | inl f ↦ rw (z, f) (inl refl)
    | inr f ↦ elim (Option-cases (find_row (λ s. s.id == id) c.tables.sessions)) [
      | inl n ↦ rw (z, f, n) (inl refl)
      | inr (s, n) ↦ elim (Bool-cases (is_unset s.revoked_at)) [
        | inl u ↦ inr (rw (z, f, n, u) refl, z, (s, n, u))
        | inr u ↦ rw (z, f, n, u) (inl refl)
      ]
    ]
  ]
]

after_session :
    (given claims : Claims) (d : Conn Accounts)
    → (session_is_active given.session_id d).0 ≡ ok false
    → ((session_is_active given.session_id >>= λ active.
          if active then pure (Guard.next (some given)) else pure Guard.unauthorized)
        d).0
      ≢ ok (Guard.next (some claims))
unfolding ◌>>=◌
after_session given claims d e = rw (e) (λ q. cc)

abbrev claims_of : Claims → Result Answer → Claims
claims_of old (ok (Guard.next (some claims))) = claims
claims_of old _ = old

passed_session :
    (given claims : Claims) (d : Conn Accounts)
    → (session_is_active given.session_id d).0 ≡ ok true
    → ((session_is_active given.session_id >>= λ active.
          if active then pure (Guard.next (some given)) else pure Guard.unauthorized)
        d).0
      ≡ ok (Guard.next (some claims))
    → given ≡ claims
unfolding ◌>>=◌
passed_session given claims d e = rw (e) (λ q. ap (λ r. claims_of given r) q)

auth_claims-IsAdmitted :
    (given claims : Claims) (c : Conn Accounts)
    → (auth_claims (some given) c).0 ≡ ok (Guard.next (some claims))
    → IsAdmitted given c.tables × (given ≡ claims)
unfolding auth_claims enabled ◌>>=◌
auth_claims-IsAdmitted given claims c = elim (Bool-cases (c.faults 0)) [
  | inl f ↦ rw (f) (λ q. absurd (cc))
  | inr f ↦ elim (Option-cases (find_row (λ u. u.id == given.user_id) c.tables.users)) [
    | inl n ↦ rw (f, n) (λ q. absurd (cc))
    | inr (u, n) ↦ elim (Bool-cases u.is_active) [
      | inr i ↦ rw (f, n, i) (λ q. absurd (cc))
      | inl i ↦ elim (session_is_active_lem given.session_id (next c)) [
        | inl e ↦ rw (f, n, i) (λ q. absurd (after_session given claims (next c) e q))
        | inr (e, z, (s, m, l)) ↦
            rw (f, n, i)
              (λ q. (
                record {
                  user = u;
                  found_user = n;
                  active = i;
                  session = s;
                  found_session = m;
                  live = l;
                  numbered = z;
                },
                passed_session given claims (next c) e q,
              ))
      ]
    ]
  ]
]

-- A request is let through as somebody only if it carries a bearer token that parses to the very
-- claims that are handed on, their user is stored and active, and their session is numbered, stored
-- and not revoked: whatever the driver refuses, no request is let through without them.
pub auth_lem :
    (parse : ParseToken) (parts : List String) (claims : Claims) (c : Conn Accounts)
    → (auth parse parts c).0 ≡ ok (Guard.next (some claims))
    → (token : String) × (bearer parts ≡ some token)
      × (parse token ≡ some claims)
      × IsAdmitted claims c.tables
unfolding auth
auth_lem parse parts claims c = elim (Option-cases (bearer parts)) [
  | inl n ↦ rw (auth, n) (unfold ◌>>=◌ in λ q. absurd (cc))
  | inr (token, b) ↦ elim (Option-cases (parse token)) [
    | inl n ↦ rw (auth, b, n) (unfold auth_claims ◌>>=◌ in λ q. absurd (cc))
    | inr (given, p) ↦
        rw (auth, b, p)
          (λ q.
            let (admitted, same) = auth_claims-IsAdmitted given claims c q in
            (
              token,
              refl,
              p ∙ ap (λ x. some x) same,
              subst (λ x. IsAdmitted x c.tables) same admitted,
            ))
  ]
]
