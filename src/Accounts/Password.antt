-- ===== src/Accounts/Password.antt =====
-- internal/pkg/password/password.go. A password is the list of its code points.
use music_online_go.Prelude.{
  ℕ, ◌+◌, Bool, true, false, Option, none, some, String, [], ◌∷◌, length, ltb, str_eq,
  if◌then◌else◌,
}
use music_online_go.Database.Errors.{
  Result, ok, err, password_too_short, password_too_long, invalid_hash, hash_failed,
}
use music_online_go.Accounts.Store.{Runes}

-- What `bcrypt.CompareHashAndPassword` reports.
pub data Comparison : Type 0 where
  matched mismatched failed : Comparison

-- golang.org/x/crypto/bcrypt
pub record Bcrypt : Type 0 where
  pub generate : Runes → Option String
  pub compare : String → Runes → Comparison

-- the bytes of a code point in UTF-8
abbrev pub rune_bytes : ℕ → ℕ
rune_bytes r = if ltb r 0x80 then 1 else if ltb r 0x800 then 2 else if ltb r 0x10000 then 3 else 4

unfoldable pub utf8_length : Runes → ℕ
utf8_length [] = 0
utf8_length (r ∷ rs) = rune_bytes r + utf8_length rs

unfoldable pub validate_new_password : Runes → Result {0} Unit
unfolding utf8_length
validate_new_password raw =
    if ltb (length raw) 8
    then err password_too_short
    else if ltb 72 (utf8_length raw)
    then err password_too_long
    else ok tt

unfoldable pub hash_password : Bcrypt → Runes → Result String
hash_password bcrypt raw = elim (validate_new_password raw) [
  | err e ↦ err e
  | ok u ↦ elim (bcrypt.generate raw) [ none ↦ err hash_failed | some hash ↦ ok hash ]
]

unfoldable pub verify_password : Bcrypt → Runes → String → Result Bool
unfolding utf8_length
verify_password bcrypt raw hash =
    if str_eq hash ""
    then err invalid_hash
    else if ltb 72 (utf8_length raw)
    then ok false
    else elim (bcrypt.compare hash raw) [
      | matched ↦ ok true
      | mismatched ↦ ok false
      | failed ↦ err hash_failed
    ]
