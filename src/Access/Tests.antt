-- ===== src/Access/Tests.antt =====
-- Media tokens and administrators at concrete inputs.
use music_online_go.Prelude.{
  ◌^◌, ◌*◌, ltb, ◌==◌, ◌&&◌, ℕ, ◌++◌, false, arith, [], ap, ◌+◌, ◌-◌, true, ◌∷◌, some, ◌≡◌, refl,
}
use music_online_go.Database.Errors.{ok}
use music_online_go.Database.Session.{Conn, ◌>>=◌}
use music_online_go.Database.Table.{find_row}
use music_online_go.Accounts.Store.{User, Accounts, Runes}
use music_online_go.Accounts.Guard.{Claims}
use music_online_go.Access.MediaToken.{runes_eq, issue, validate, Signer}
use music_online_go.Access.MediaToken.Laws.{validate-issue, IsCodec, IsPlain}
use music_online_go.Access.Library.{passes, strict_admin}
use music_online_go.Access.Library.Admins.{strict_admin_lem, IsAdmin}

-- A signature that repeats the secret, in an encoding that moves every byte past the dot.
abbrev lifted : Runes → Runes
lifted [] = []
lifted (b ∷ bs) = (b + 47) ∷ lifted bs

abbrev lowered : Runes → Runes
lowered [] = []
lowered (b ∷ bs) = (b - 47) ∷ lowered bs

abbrev toy_signer : Signer
toy_signer = record {
  hmac = λ secret payload. secret ++ payload;
  encode = lifted;
  decode = λ text. some (lowered text);
}

lowered-lifted : (bytes : Runes) → lowered (lifted bytes) ≡ bytes
lowered-lifted [] = refl
lowered-lifted (b ∷ bs) = rw (lowered-lifted bs, back b) refl
  where
    back : (b : ℕ) → b + 47 - 47 ≡ b
    back b = omega arith

lifted-IsPlain : (bytes : Runes) → IsPlain (lifted bytes)
lifted-IsPlain [] = tt
lifted-IsPlain (b ∷ bs) = (ground arith, lifted-IsPlain bs)

toy_signer-IsCodec : IsCodec toy_signer
toy_signer-IsCodec = record {
  decoded = λ bytes. ap (λ b. some b) (lowered-lifted bytes);
  plain = lifted-IsPlain;
}

-- "stream"
abbrev stream : Runes
stream = 115 ∷ 116 ∷ 114 ∷ 101 ∷ 97 ∷ 109 ∷ []

validate-issue_example :
    validate toy_signer (issue toy_signer (7 ∷ []) 12 stream 100) (7 ∷ []) 13 stream 5
    ≡ (runes_eq stream stream && (12 == 13) && ltb 5 (100 * 10 ^ 9))
validate-issue_example =
    validate-issue toy_signer (7 ∷ []) 12 13 100 5 stream stream toy_signer-IsCodec (ground arith)
      (ground arith) (refl, (refl, (refl, (refl, (refl, (refl, tt))))))

abbrev root : User
root = record {
  id = 3;
  username = "root";
  email = "root@example.org";
  password = "";
  full_name = "";
  nickname = "";
  avatar_url = "";
  phone = "";
  bio = "";
  is_active = true;
  is_verified = true;
  role = "admin";
  totp_secret = "";
  totp_enabled = false;
}

abbrev conn : Conn Accounts
conn = record {
  tables = record { users = root ∷ []; sessions = []; next_user = 4; next_session = 1 };
  faults = λ n. false;
}

abbrev claims : Claims
claims = record { user_id = 3; username = "root"; role = "user"; session_id = 1 }

admitted : (strict_admin (some claims) conn).0 ≡ ok passes
unfolding strict_admin find_row ◌>>=◌
admitted = refl

strict_admin_lem_example : IsAdmin 3 conn.tables
strict_admin_lem_example = strict_admin_lem claims conn admitted
