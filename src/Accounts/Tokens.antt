-- ===== src/Accounts/Tokens.antt =====
-- The opaque refresh tokens of internal/service/user_service.go, as bytes.
pub mod Parsing
use music_online_go.Prelude.{
  ℕ, zero, suc, ◌+◌, ◌*◌, ◌/◌, ◌%◌, ◌^◌, ◌-◌, Bool, ◌&&◌, ◌||◌, Option, none, some, [], ◌∷◌, ◌++◌,
  length, take, drop, ltb, leb, ◌==◌, if◌then◌else◌,
}
use music_online_go.Accounts.Store.{Runes}

-- `%d`: the decimal digits, on fuel above the number
unfoldable pub digits : ℕ → ℕ → Runes
digits zero n = []
digits (suc fuel) n =
    let rest = digits fuel (n / 10) in
    if ltb n 10 then (48 + n) ∷ [] else rest ++ ((48 + n % 10) ∷ [])

unfoldable pub decimal : ℕ → Runes
unfolding digits
decimal n = digits (suc n) n

-- `strconv.ParseUint(s, 10, 32)`, whose errors are none: at least one digit, digits only, and a
-- value of 32 bits
abbrev pub is_digit : ℕ → Bool
is_digit b = leb 48 b && leb b 57

unfoldable pub parse_digits : ℕ → Runes → Option ℕ
parse_digits n [] = some n
parse_digits n (b ∷ bs) = if is_digit b then parse_digits (n * 10 + (b - 48)) bs else none

unfoldable pub parse_uint32 : Runes → Option ℕ
unfolding parse_digits
parse_uint32 [] = none
parse_uint32 (b ∷ bs) = elim (parse_digits 0 (b ∷ bs)) [
  | none ↦ none
  | some n ↦ if ltb n (2 ^ 32) then some n else none
]

-- `strings.IndexByte`
unfoldable pub index_byte : ℕ → Runes → Option ℕ
index_byte b [] = none
index_byte b (x ∷ xs) =
    let rest = index_byte b xs in
    if x == b then some 0 else elim rest [ none ↦ none | some i ↦ some (suc i) ]

unfoldable pub refresh_token_for_session : ℕ → Runes → Runes
refresh_token_for_session session_id random = 0x73 ∷ (decimal session_id ++ (0x2e ∷ random))

unfoldable pub parse_refresh_token : Runes → Option (ℕ × Runes)
parse_refresh_token [] = none
parse_refresh_token (b ∷ bs) =
    if b == 0x73
    then elim (index_byte 0x2e (b ∷ bs)) [
      | none ↦ none
      | some dot ↦
          if leb dot 1 || dot == length bs then none else elim (parse_uint32 (take (dot - 1) bs)) [
            | none ↦ none
            | some parsed ↦ if parsed == 0 then none else some (parsed, drop dot bs)
          ]
    ]
    else none

abbrev pub hex_digit : ℕ → ℕ
hex_digit d = if ltb d 10 then 48 + d else 87 + d

unfoldable pub hex_encode : Runes → Runes
hex_encode [] = []
hex_encode (b ∷ bs) = hex_digit (b / 16) ∷ (hex_digit (b % 16) ∷ hex_encode bs)

-- `truncate`
unfoldable pub truncate : Runes → ℕ → Runes
truncate value max_runes = if leb (length value) max_runes then value else take max_runes value
