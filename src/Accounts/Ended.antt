-- ===== src/Accounts/Ended.antt =====
-- A session that has ended: no row with its id is live, and the id is not given out again; and
-- the operations on the tables.
pub mod Services
use music_online_go.Prelude.{
  All-append, ◌∷◌, ◌==◌, ◌++◌, ℕ, Bool-cases, inl, inr, Option, none, some, refl, [], suc, ◌<◌, ◌≡◌,
  Bool, true, false, All, All-append, ◌++◌, ◌∷◌, String, List, arith, if◌then◌else◌,
}
use music_online_go.Database.Session.{statement}
use music_online_go.Database.Session.Keeps.{
  Keeps-lift, Keeps-bind, Keeps, keeps_rules, Keeps-statement, Keeps-bind, Keeps-lift,
}
use music_online_go.Database.Table.{
  update_rows, count_rows, All-update_rows, All-delete_rows, update_rows, count_rows,
}
use music_online_go.Accounts.Store.{Session, Accounts, Runes, User}
use music_online_go.Accounts.Sessions.{
  is_unset, create_session, found_session, find_session, rotated, rotate_if_match, revoke_where,
  delete_where,
}
use music_online_go.Accounts.Users.{
  exists_by_username, exists_by_email, has_conflict, with_user_defaults, insert_user, create_user,
  found_user, find_user, find_user_by_username, find_user_by_email, save_user, update_user,
  update_user_field,
}

abbrev pub IsRevoked : ℕ → Session → Type 0
IsRevoked id s = s.id ≡ id → is_unset s.revoked_at ≡ false

pub record IsEnded (id : ℕ) (t : Accounts) : Type 0 where
  pub given_out : id < t.next_session
  pub revoked : All (IsRevoked id) t.sessions

-- a statement that a unique index may refuse
IsEnded-if :
    {X : Type 0} {id : ℕ} (b : Bool) (x y : X × Accounts)
    → IsEnded id x.1
    → IsEnded id y.1
    → IsEnded id (if b then x else y).1
IsEnded-if true x y h k = h
IsEnded-if false x y h k = k

module _ {id : ℕ} where
  insert_session-IsEnded :
      (session : Session) (t : Accounts)
      → IsEnded id t
      → IsEnded id (record t {
        sessions = t.sessions ++ record session { id = t.next_session } ∷ [];
        next_session = suc t.next_session;
      })
  insert_session-IsEnded session t h = record {
    given_out = omega (arith, h.given_out);
    revoked =
        All-append (IsRevoked id) t.sessions _ h.revoked
          (λ same. absurd (omega (arith, h.given_out, same)));
  }

  pub Keeps-create_session : (session : Session) → Keeps (IsEnded id) (create_session session)
  unfolding create_session
  Keeps-create_session session =
      Keeps-bind _ _
        (Keeps-statement _ (λ t h. IsEnded-if _ _ _ h (insert_session-IsEnded session t h)))
        (λ r. Keeps-lift r)

  update_sessions-IsEnded :
      (p : Session → Bool) (f : Session → Session) (t : Accounts)
      → ((s : Session) → p s ≡ true → IsRevoked id s → IsRevoked id (f s))
      → IsEnded id t
      → IsEnded id (record t { sessions = update_rows p f t.sessions })
  update_sessions-IsEnded p f t keep h = record {
    given_out = h.given_out;
    revoked = All-update_rows (IsRevoked id) p f (λ s r e. keep s e r) t.sessions h.revoked;
  }

  pub Keeps-rotate_if_match :
      (i : ℕ) (old new : String) (agent ip : Runes) (now : ℕ)
      → Keeps (IsEnded id) (rotate_if_match i old new agent ip now)
  unfolding rotate_if_match rotated
  Keeps-rotate_if_match i old new agent ip now =
      Keeps-bind _ _
        (Keeps-statement _
          (λ t h. IsEnded-if _ _ _ h (update_sessions-IsEnded _ _ t (λ s e r. r) h)))
        (λ r. Keeps-lift r)

  pub Keeps-revoke_where : (p : Session → Bool) (now : ℕ) → Keeps (IsEnded id) (revoke_where p now)
  unfolding revoke_where
  Keeps-revoke_where p now =
      Keeps-statement _ (λ t h. update_sessions-IsEnded _ _ t (λ s e r same. refl) h)

  pub Keeps-delete_where : (p : Session → Bool) → Keeps (IsEnded id) (delete_where p)
  unfolding delete_where
  Keeps-delete_where p = Keeps-statement _ (λ t h. record {
    given_out = h.given_out;
    revoked = All-delete_rows (IsRevoked id) p t.sessions h.revoked;
  })

  pub Keeps-found_session : (found : Option Session) → Keeps (IsEnded id) (found_session found)
  Keeps-found_session none = search keeps_rules
  Keeps-found_session (some s) = search keeps_rules

  pub Keeps-find_session : (i : ℕ) → Keeps (IsEnded id) (find_session i)
  unfolding find_session
  Keeps-find_session i = search (keeps_rules, Keeps-found_session)

  -- the operations on users leave the sessions alone
  IsEnded-users :
      (users : List User) (next : ℕ) (t : Accounts)
      → IsEnded id t
      → IsEnded id (record t { users = users; next_user = next })
  IsEnded-users users next t h = record { given_out = h.given_out; revoked = h.revoked }

  pub Keeps-found_user : (found : Option User) → Keeps (IsEnded id) (found_user found)
  Keeps-found_user none = search keeps_rules
  Keeps-found_user (some u) = search keeps_rules

  insert_user-IsEnded :
      (user : User) (t : Accounts) → IsEnded id t → IsEnded id (insert_user user t).1
  unfolding insert_user
  insert_user-IsEnded user t h =
      elim (Bool-cases (has_conflict (with_user_defaults t.next_user user) t)) [
        | inl e ↦ rw (e) h
        | inr e ↦ rw (e) (IsEnded-users _ _ t h)
      ]

  Keeps-insert_user : (user : User) → Keeps (IsEnded id) (statement (insert_user user))
  Keeps-insert_user user = Keeps-statement _ (insert_user-IsEnded user)

  pub Keeps-create_user : (user : User) → Keeps (IsEnded id) (create_user user)
  unfolding create_user exists_by_username exists_by_email
  Keeps-create_user user = search (keeps_rules, Keeps-insert_user) depth 9

  pub Keeps-find_user : (i : ℕ) → Keeps (IsEnded id) (find_user i)
  unfolding find_user
  Keeps-find_user i = search (keeps_rules, Keeps-found_user)

  pub Keeps-find_user_by_username :
      (name : String) → Keeps (IsEnded id) (find_user_by_username name)
  unfolding find_user_by_username
  Keeps-find_user_by_username name = search (keeps_rules, Keeps-found_user)

  pub Keeps-find_user_by_email : (email : String) → Keeps (IsEnded id) (find_user_by_email email)
  unfolding find_user_by_email
  Keeps-find_user_by_email email = search (keeps_rules, Keeps-found_user)

  save_user-IsEnded : (user : User) (t : Accounts) → IsEnded id t → IsEnded id (save_user user t).1
  unfolding save_user
  save_user-IsEnded user t h = elim (Bool-cases (has_conflict user t)) [
    | inl e ↦ rw (e) h
    | inr e ↦ rw (e) (elim (Bool-cases (count_rows (λ u. u.id == user.id) t.users == 0)) [
      | inl f ↦ rw (f) (IsEnded-users _ t.next_user t h)
      | inr f ↦ rw (f) (IsEnded-users _ t.next_user t h)
    ])
  ]

  Keeps-save_user : (user : User) → Keeps (IsEnded id) (statement (save_user user))
  Keeps-save_user user = Keeps-statement _ (save_user-IsEnded user)

  pub Keeps-update_user : (user : User) → Keeps (IsEnded id) (update_user user)
  unfolding update_user
  Keeps-update_user user = search (keeps_rules, Keeps-save_user)

  pub Keeps-update_user_field :
      (i : ℕ) (set : User → User) → Keeps (IsEnded id) (update_user_field i set)
  unfolding update_user_field
  Keeps-update_user_field i set =
      Keeps-bind _ _
        (Keeps-statement _ (λ t h. record { given_out = h.given_out; revoked = h.revoked }))
        (λ n. search keeps_rules)
