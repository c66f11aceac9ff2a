-- ===== src/Accounts/Rotation.antt =====
-- Exchanging a refresh token, and presenting it again.
use mathlib.Core.Path.{subst}
use mathlib.Core.Bool.{false≢true}
use music_online_go.Prelude.{
  ◌∙◌, sym, if◌then◌else◌, ℕ, ltb, ap, leb, ◌+◌, ◌==◌, ◌≡◌, ◌≢◌, ◌&&◌, not, Bool, Bool-cases,
  Option-cases, true, false, Option, none, some, String, inl, inr, arith, All, refl, ==_iff, str_eq,
  List, [], ◌∷◌,
}
use music_online_go.Database.Errors.{
  Error, session_revoked, session_expired, user_not_found, session_not_found, Result, ok, err,
}
use music_online_go.Database.Session.{Db, try, lift, raise, Conn, ◌>>=◌, next}
use music_online_go.Database.Table.{find_row, All-find_row, count_rows, update_rows}
use music_online_go.Accounts.Store.{User, Session, Accounts, Runes}
use music_online_go.Accounts.Tokens.{
  parse_refresh_token, refresh_token_for_session, hex_encode, truncate,
}
use music_online_go.Accounts.Sessions.{
  delete_sessions_by_user, find_session, delete_expired_for_user, revoke_all_for_user, is_match,
  has_hash, rotate_if_match, rotated, is_unset,
}
use music_online_go.Accounts.Users.{find_user}
use music_online_go.Accounts.Login.{
  ignore, concurrent_refresh_grace, Service, rotate, or_raise, access_token, lost_rotation, Reply,
  refresh_for, refresh_found, refresh_session, refresh_parsed,
}

-- What a rotation that succeeds found and left: a live row with the hash of the token, which now
-- has the hash of the new one.
pub record IsRotated (service : Service) (token : Runes) (id : ℕ) (reply : Reply) (s t : Accounts)
    : Type 0 where
  pub was_live : (count_rows (is_match id (service.sha256_hex token)) s.sessions == 0) ≡ false
  pub agent : Runes
  pub ip : Runes
  pub now : ℕ
  pub sessions :
      t.sessions
      ≡ update_rows
          (is_match id (service.sha256_hex token))
          (rotated (service.sha256_hex reply.refresh_token) agent ip now)
          s.sessions

lost_rotation_fails :
    (session : Session) (now : ℕ) (r : Result Session) (c : Conn Accounts) {reply : Reply}
    → (lost_rotation session now r c).0 ≢ ok reply
unfolding lost_rotation ignore ◌>>=◌
lost_rotation_fails session now (err session_not_found) c = λ e. cc
lost_rotation_fails session now (err _) c = λ e. cc
lost_rotation_fails session now (ok current) c =
    elim (Bool-cases
      (is_unset current.revoked_at && leb now (current.updated_at + concurrent_refresh_grace))) [
        | inl f ↦ rw (f) (λ e. cc)
        | inr f ↦ rw (f) (λ e. cc)
      ]

lost_lookup :
    (session : Session) (now : ℕ) (c : Conn Accounts) {reply : Reply}
    → ((try (find_session session.id) >>= λ r. lost_rotation session now r) c).0 ≢ ok reply
unfolding ◌>>=◌
lost_lookup session now c =
    lost_rotation_fails session now (find_session session.id c).0 (find_session session.id c).1

abbrev reply_token : Result Reply → Runes
reply_token (ok reply) = reply.refresh_token
reply_token (err e) = []

rotate-IsRotated :
    (service : Service) (user : User) (session : Session) (token agent ip : Runes)
    (raw : Option Runes) (now : ℕ) (c : Conn Accounts) {reply : Reply}
    → (rotate service user session token agent ip raw now c).0 ≡ ok reply
    → IsRotated service token session.id reply c.tables
        (rotate service user session token agent ip raw now c).1.tables
unfolding rotate or_raise access_token lost_rotation rotate_if_match ◌>>=◌
rotate-IsRotated service user session token agent ip none now c = λ e. absurd (cc)
rotate-IsRotated service user session token agent ip (some bytes) now c =
    elim (Bool-cases (c.faults 0)) [
      | inl f ↦ rw (f) (λ e. absurd (cc))
      | inr f ↦
          elim (Bool-cases
            (count_rows (is_match session.id (service.sha256_hex token)) c.tables.sessions == 0)) [
              | inl z ↦
                  rw (f, z, z)
                    (λ e. absurd (
                      lost_lookup session now
                        (record (next c) {
                          tables = record c.tables {
                            sessions =
                                update_rows (is_match session.id (service.sha256_hex token))
                                  (rotated
                                    (service.sha256_hex
                                      (refresh_token_for_session session.id (hex_encode bytes)))
                                    (truncate agent 256) (truncate ip 64) now)
                                  c.tables.sessions;
                          };
                        })
                        e))
              | inr z ↦
                  elim (Bool-cases (
                    has_hash
                      (service.sha256_hex (refresh_token_for_session session.id (hex_encode bytes)))
                      session.id c.tables)) [
                        | inl g ↦ rw (f, z, g) (λ e. absurd (cc))
                        | inr g ↦
                            elim (Option-cases
                              (service.sign user.id user.username user.role session.id)) [
                                | inl n ↦ rw (f, z, g, z, n) (λ e. absurd (cc))
                                | inr (signed, n) ↦
                                    rw (f, z, g, z, n)
                                      (λ e. record {
                                        was_live = z;
                                        agent = truncate agent 256;
                                        ip = truncate ip 64;
                                        now = now;
                                        sessions =
                                            ap
                                              (λ h.
                                                update_rows
                                                  (is_match session.id (service.sha256_hex token))
                                                  (rotated (service.sha256_hex h)
                                                    (truncate agent 256) (truncate ip 64) now)
                                                  c.tables.sessions)
                                              (ap (λ r. reply_token r) e);
                                      })
                              ]
                      ]
            ]
    ]

raise_after :
    {A : Type 0} (r : Result A) (e : Error) (c : Conn Accounts) {reply : Reply}
    → ((lift r >>= λ u. raise e) c).0 ≢ ok reply
unfolding ◌>>=◌
raise_after (ok a) e c = λ h. cc
raise_after (err d) e c = λ h. cc

-- a step and then an error
then_raise :
    {A : Type 0} (m : Db Accounts A) (e : Error) (c : Conn Accounts) {reply : Reply}
    → ((m >>= λ u. raise e) c).0 ≢ ok reply
unfolding ◌>>=◌
then_raise m e c = raise_after (m c).0 e (m c).1

-- a branch that fails leaves the other
or_fails :
    (R : Reply → Accounts → Type 0) (b : Bool) (m n : Db Accounts Reply) (c : Conn Accounts)
    {reply : Reply}
    → (m c).0 ≢ ok reply
    → ((n c).0 ≡ ok reply → R reply (n c).1.tables)
    → ((if b then m else n) c).0 ≡ ok reply
    → R reply ((if b then m else n) c).1.tables
or_fails R true m n c fails keep e = absurd (fails e)
or_fails R false m n c fails keep e = keep e

refresh_for-IsRotated :
    (service : Service) (session : Session) (token agent ip : Runes) (raw : Option Runes) (now : ℕ)
    (r : Result User) (c : Conn Accounts) {reply : Reply}
    → (refresh_for service session token agent ip raw now r c).0 ≡ ok reply
    → IsRotated service token session.id reply c.tables
        (refresh_for service session token agent ip raw now r c).1.tables
unfolding refresh_for
refresh_for-IsRotated service session token agent ip raw now (err user_not_found) c =
    λ e. absurd (then_raise (ignore (delete_sessions_by_user session.user_id)) session_revoked c e)
refresh_for-IsRotated service session token agent ip raw now (err _) c =
    λ e. absurd (unfold ◌>>=◌ in cc)
refresh_for-IsRotated service session token agent ip raw now (ok user) c =
    or_fails (λ reply t. IsRotated service token session.id reply c.tables t) (not user.is_active)
      (revoke_all_for_user user.id now >>= λ u. raise session_revoked)
      (rotate service user session token agent ip raw now) c
      (then_raise (revoke_all_for_user user.id now) session_revoked c)
      (rotate-IsRotated service user session token agent ip raw now c)

-- looking a user up leaves the tables
find_user-tables : (id : ℕ) (c : Conn Accounts) → (find_user id c).1.tables ≡ c.tables
unfolding find_user ◌>>=◌
find_user-tables id c = elim (Bool-cases (c.faults 0)) [
  | inl f ↦ rw (f) refl
  | inr f ↦ elim (Option-cases (find_row (λ u. u.id == id) c.tables.users)) [
    | inl n ↦ rw (f, n) refl
    | inr (s, n) ↦ rw (f, n) refl
  ]
]

refresh_user-IsRotated :
    (service : Service) (session : Session) (token agent ip : Runes) (raw : Option Runes) (now : ℕ)
    (c : Conn Accounts) {reply : Reply}
    → ((try (find_user session.user_id) >>= λ r.
          refresh_for service session token agent ip raw now r)
        c).0
      ≡ ok reply
    → IsRotated service token session.id reply c.tables
        ((try (find_user session.user_id) >>= λ r.
            refresh_for service session token agent ip raw now r)
          c).1.tables
unfolding ◌>>=◌
refresh_user-IsRotated service session token agent ip raw now c {reply} e =
    subst
      (λ s.
        IsRotated service token session.id reply s
          (refresh_for service session token agent ip raw now (find_user session.user_id c).0
            (find_user session.user_id c).1).1.tables)
      (find_user-tables session.user_id c)
      (refresh_for-IsRotated service session token agent ip raw now (find_user session.user_id c).0
        (find_user session.user_id c).1 e)

refresh_found-IsRotated :
    (service : Service) (session : Session) (token agent ip : Runes) (raw : Option Runes) (now : ℕ)
    (c : Conn Accounts) {reply : Reply}
    → (refresh_found service token agent ip raw now (ok session) c).0 ≡ ok reply
    → IsRotated service token session.id reply c.tables
        (refresh_found service token agent ip raw now (ok session) c).1.tables
unfolding refresh_found
refresh_found-IsRotated service session token agent ip raw now c =
    or_fails (λ reply t. IsRotated service token session.id reply c.tables t)
      (not (is_unset session.revoked_at)) (raise session_revoked) _ c (unfold ◌>>=◌ in λ e. cc)
      (or_fails (λ reply t. IsRotated service token session.id reply c.tables t)
        (ltb session.expires_at now)
        (delete_expired_for_user session.user_id now >>= λ u. raise session_expired) _ c
        (then_raise (delete_expired_for_user session.user_id now) session_expired c)
        (refresh_user-IsRotated service session token agent ip raw now c))

refresh_session-IsRotated :
    (service : Service) (token agent ip : Runes) (raw : Option Runes) (now id : ℕ) (random : Runes)
    (c : Conn Accounts) {reply : Reply}
    → parse_refresh_token token ≡ some (id, random)
    → (refresh_session service token agent ip raw now c).0 ≡ ok reply
    → IsRotated service token id reply c.tables
        (refresh_session service token agent ip raw now c).1.tables
unfolding refresh_session refresh_parsed find_session ◌>>=◌
refresh_session-IsRotated service token agent ip raw now id random c parsed =
    elim (Bool-cases (c.faults 0)) [
      | inl f ↦ rw (parsed, f) (unfold refresh_found in λ e. absurd (cc))
      | inr f ↦ elim (Option-cases (find_row (λ s. s.id == id) c.tables.sessions)) [
        | inl n ↦ rw (parsed, f, n) (unfold refresh_found in λ e. absurd (cc))
        | inr (s, n) ↦
            let same : s.id ≡ id =
              (==_iff s.id id).0
                (All-find_row (λ s. Unit {0}) (λ s. s.id == id) c.tables.sessions
                  (all_unit c.tables.sessions) n).1 in
            rw (parsed, f, n, ← same)
              (refresh_found-IsRotated service s token agent ip raw now (next c))
      ]
    ]
  where
    all_unit : (rs : List Session) → All {0, 0} (λ s. Unit {0}) rs
    all_unit [] = tt
    all_unit (r ∷ rs) = (tt, all_unit rs)

-- the rotated rows do not have the hash of the token any more
count_rows-rotated :
    (id : ℕ) (old new : String) (agent ip : Runes) (now : ℕ) (rows : List Session)
    → str_eq new old ≡ false
    → count_rows (is_match id old) (update_rows (is_match id old) (rotated new agent ip now) rows)
      ≡ 0
unfolding count_rows update_rows rotated
count_rows-rotated id old new agent ip now [] f = refl
count_rows-rotated id old new agent ip now (s ∷ rows) f = elim (Bool-cases (is_match id old s)) [
  | inl m ↦ rw (m) (ground (arith, f, count_rows-rotated id old new agent ip now rows f))
  | inr m ↦ rw (m, m) (count_rows-rotated id old new agent ip now rows f)
]

-- A refresh token is exchanged at most once: if it gave a reply, the stored live session had its
-- hash, and presenting it again to the tables that are left never gives a reply, at whatever time
-- and for whatever client, as long as the new token has another hash.
pub single_use :
    (service : Service) (token agent ip agent' ip' : Runes) (raw raw' : Option Runes)
    (now later id : ℕ) (random : Runes) (c d : Conn Accounts) {reply again : Reply}
    → parse_refresh_token token ≡ some (id, random)
    → (refresh_session service token agent ip raw now c).0 ≡ ok reply
    → str_eq (service.sha256_hex reply.refresh_token) (service.sha256_hex token) ≡ false
    → d.tables ≡ (refresh_session service token agent ip raw now c).1.tables
    → ((count_rows (is_match id (service.sha256_hex token)) c.tables.sessions == 0) ≡ false)
      × ((refresh_session service token agent' ip' raw' later d).0 ≢ ok again)
single_use service token agent ip agent' ip' raw raw' now later id random c d {reply} {again} parsed
      first other same =
    let before =
      refresh_session-IsRotated service token agent ip raw now id random c parsed first in
    let none_left : count_rows (is_match id (service.sha256_hex token)) d.tables.sessions ≡ 0 =
      rw (ap (λ t. t.sessions) same, before.sessions)
        (count_rows-rotated id (service.sha256_hex token) (service.sha256_hex reply.refresh_token)
          before.agent before.ip before.now c.tables.sessions other) in
    (
      before.was_live,
      λ second.
          let after =
            refresh_session-IsRotated service token agent' ip' raw' later id random d parsed
              second in
          absurd (false≢true (sym after.was_live ∙ (==_iff _ 0).1 none_left)),
    )
