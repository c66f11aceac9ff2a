-- ===== src/Access/MediaToken.antt =====
-- internal/pkg/mediatoken/token.go, on bytes. HMAC-SHA256 and base64 are parameters. Expiry times are
-- seconds and not before 1970, the clock is in nanoseconds.
pub mod Laws
use music_online_go.Prelude.{
  ◌*◌, ltb, true, ◌==◌, some, ◌^◌, false, none, ◌++◌, [], if◌then◌else◌, ◌&&◌, ◌∷◌, Option, List, ℕ,
  Bool,
}
use music_online_go.Accounts.Store.{Runes}
use music_online_go.Accounts.Tokens.{decimal, parse_digits}

pub record Signer : Type 0 where
  pub hmac : Runes → Runes → Runes
  pub encode : Runes → Runes
  pub decode : Runes → Option Runes

-- "v1"
abbrev pub token_version : Runes
token_version = 0x76 ∷ 0x31 ∷ []

unfoldable pub payload_of : ℕ → Runes → ℕ → Runes
unfolding decimal
payload_of music_id kind expires =
    token_version ++ 0x2e ∷ (decimal music_id ++ 0x2e ∷ (kind ++ 0x2e ∷ decimal expires))

-- `Issue`
unfoldable pub issue : Signer → Runes → ℕ → Runes → ℕ → Runes
unfolding payload_of
issue signer secret music_id kind expires =
    payload_of music_id kind expires
    ++ 0x2e ∷ signer.encode (signer.hmac secret (payload_of music_id kind expires))

-- `strings.Split(token, ".")` and `strings.Join(parts, ".")`
abbrev pub put_front : ℕ → List Runes → List Runes
put_front b [] = (b ∷ []) ∷ []
put_front b (part ∷ parts) = (b ∷ part) ∷ parts

unfoldable pub split_dots : Runes → List Runes
split_dots [] = [] ∷ []
split_dots (b ∷ bs) = let rest = split_dots bs in if b == 0x2e then [] ∷ rest else put_front b rest

unfoldable pub runes_eq : Runes → Runes → Bool
runes_eq [] [] = true
runes_eq (x ∷ xs) (y ∷ ys) = x == y && runes_eq xs ys
runes_eq _ _ = false

-- `strconv.ParseUint(s, 10, 64)`
unfoldable pub parse_below : ℕ → Runes → Option ℕ
unfolding parse_digits
parse_below bound [] = none
parse_below bound (b ∷ bs) = elim (parse_digits 0 (b ∷ bs)) [
  | none ↦ none
  | some n ↦ if ltb n bound then some n else none
]

-- `strconv.ParseInt(s, 10, 64)`; a negative number, which is a time before 1970 and so has passed, is
-- none as well
unfoldable pub parse_expiry : Runes → Option ℕ
unfolding parse_below
parse_expiry [] = none
parse_expiry (b ∷ bs) =
    if b == 0x2b
    then parse_below (2 ^ 63) bs
    else if b == 0x2d
    then none
    else parse_below (2 ^ 63) (b ∷ bs)

abbrev pub is_some_of : Option ℕ → (ℕ → Bool) → Bool
is_some_of none p = false
is_some_of (some n) p = p n

unfoldable pub is_signed : Signer → Runes → Runes → Runes → Bool
unfolding runes_eq
is_signed signer secret payload signature = elim (signer.decode signature) [
  | none ↦ false
  | some provided ↦ runes_eq provided (signer.hmac secret payload)
]

unfoldable pub check_parts : Signer → Runes → ℕ → Runes → ℕ → List Runes → Bool
unfolding runes_eq parse_below parse_expiry is_signed
check_parts signer secret music_id kind now (v ∷ i ∷ k ∷ e ∷ s ∷ []) =
    runes_eq v token_version
    && runes_eq k kind
    && is_some_of (parse_below (2 ^ 64) i) (λ id. id == music_id)
    && is_some_of (parse_expiry e) (λ expires. ltb now (expires * 10 ^ 9))
    && is_signed signer secret (v ++ 0x2e ∷ (i ++ 0x2e ∷ (k ++ 0x2e ∷ e))) s
check_parts signer secret music_id kind now _ = false

-- `Validate`: whether it returns no error
unfoldable pub validate : Signer → Runes → Runes → ℕ → Runes → ℕ → Bool
unfolding split_dots check_parts
validate signer token secret music_id kind now =
    check_parts signer secret music_id kind now (split_dots token)
