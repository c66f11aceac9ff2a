-- ===== src/Accounts/Tokens/Parsing.antt =====
-- Reading the refresh token of a session back.
use music_online_go.Prelude.{
  ℕ, zero, suc, ◌+◌, ◌*◌, ◌/◌, ◌%◌, ◌^◌, ◌-◌, ◌<◌, ◌≡◌, Bool-cases, true, false, some, [], ◌∷◌,
  ◌++◌, length, take, drop, ltb, leb, ◌==◌, All, All-append, take-append, length-append, refl,
  arith, inl, inr, ◌∙◌, ap, ◌||◌,
}
use music_online_go.Accounts.Store.{Runes}
use music_online_go.Accounts.Tokens.{
  digits, decimal, is_digit, parse_digits, parse_uint32, index_byte, refresh_token_for_session,
  parse_refresh_token,
}

-- one more digit
parse_digits-append :
    (m d : ℕ) (xs : Runes) {k : ℕ}
    → d < 10
    → parse_digits m xs ≡ some k
    → parse_digits m (xs ++ (48 + d) ∷ []) ≡ some (k * 10 + d)
unfolding parse_digits
parse_digits-append m d [] {k} h e =
    let same : m ≡ k = ground arith in rw (in_range d h, ← same, back d) refl
  where
    in_range : (d : ℕ) → d < 10 → is_digit (48 + d) ≡ true
    in_range d h = ground arith

    back : (d : ℕ) → 48 + d - 48 ≡ d
    back d = omega arith
parse_digits-append m d (x ∷ xs) h e = elim (Bool-cases (is_digit x)) [
  | inl t ↦ rw (t) (parse_digits-append (m * 10 + (x - 48)) d xs h (rw (parse_digits, t) at e))
  | inr f ↦ absurd (ground (arith, f))
]

-- The digits of a number read as the number, and none is a dot.
pub digits_lem :
    (fuel n : ℕ)
    → n < fuel
    → (parse_digits 0 (digits fuel n) ≡ some n)
      × (0 < length (digits fuel n))
      × All (λ b. (b == 0x2e) ≡ false) (digits fuel n)
unfolding digits
digits_lem zero n h = absurd (omega (arith, h))
digits_lem (suc fuel) n h = elim (Bool-cases (ltb n 10)) [
  | inl t ↦
      let small : n < 10 = ground arith in
      rw (t) (
        (
          parse_digits-append 0 n [] {k = 0} small (unfold parse_digits in refl)
              ∙ ap (λ k. some k) (omega arith),
          omega arith,
          (not_dot n small, tt),
        ))
  | inr f ↦
      let (e, l, a) = digits_lem fuel (n / 10) (ground arith) in
      rw (f) (
        (
          parse_digits-append 0 (n % 10) (digits fuel (n / 10)) (omega arith) e
              ∙ ap (λ k. some k) (omega arith),
          omega (arith, length-append (digits fuel (n / 10)) ((48 + n % 10) ∷ [])),
          All-append (λ b. (b == 0x2e) ≡ false) (digits fuel (n / 10)) (48 + n % 10) a
              (not_dot (n % 10) (omega arith)),
        ))
]
  where
    not_dot : (d : ℕ) → d < 10 → (48 + d == 0x2e) ≡ false
    not_dot d h = ground arith

index_byte-append :
    (xs rest : Runes)
    → All (λ b. (b == 0x2e) ≡ false) xs
    → index_byte 0x2e (xs ++ 0x2e ∷ rest) ≡ some (length xs)
unfolding index_byte
index_byte-append [] rest h = refl
index_byte-append (x ∷ xs) rest h = rw (h.0, index_byte-append xs rest h.1) refl

parse_uint32_lem :
    (n : ℕ) (xs : Runes)
    → parse_digits 0 xs ≡ some n
    → 0 < length xs
    → n < 2 ^ 32
    → parse_uint32 xs ≡ some n
unfolding parse_uint32
parse_uint32_lem n [] e l h = absurd (omega (arith, l))
parse_uint32_lem n (x ∷ xs) e l h = rw (parse_uint32, e, below) refl
  where
    below : ltb n (2 ^ 32) ≡ true
    below = ground arith

drop_past : (xs : Runes) (b : ℕ) (rest : Runes) → drop (suc (length xs)) (xs ++ b ∷ rest) ≡ rest
drop_past [] b rest = refl
drop_past (x ∷ xs) b rest = drop_past xs b rest

-- what is left to parse once the separator is found
parse_found :
    (session_id : ℕ) (ds random : Runes)
    → All (λ b. (b == 0x2e) ≡ false) ds
    → 0 < length ds
    → parse_uint32 ds ≡ some session_id
    → 0 < session_id
    → 0 < length random
    → parse_refresh_token (0x73 ∷ (ds ++ (0x2e ∷ random))) ≡ some (session_id, random)
unfolding parse_refresh_token
parse_found session_id ds random clean l e pos some_random =
    rw (index_byte-append (0x73 ∷ ds) random (refl, clean), inside, taken, e, nonzero, dropped) refl
  where
    inside :
        (leb (suc (length ds)) 1 || (suc (length ds) == length (ds ++ (0x2e ∷ random)))) ≡ false
    inside = rw (length-append ds (0x2e ∷ random)) (ground arith)

    one_less : (n : ℕ) → suc n - 1 ≡ n
    one_less n = omega arith

    taken : take (suc (length ds) - 1) (ds ++ (0x2e ∷ random)) ≡ ds
    taken = rw (one_less (length ds)) (take-append ds (0x2e ∷ random))

    nonzero : (session_id == 0) ≡ false
    nonzero = ground arith

    dropped : drop (suc (length ds)) (ds ++ (0x2e ∷ random)) ≡ random
    dropped = drop_past ds 0x2e random

-- The token of a session is read back as the session's id and the random part, for every id of 32
-- bits but 0 and every random part that is not empty.
pub parse_refresh_token-refresh_token_for_session :
    (session_id : ℕ) (random : Runes)
    → 0 < session_id
    → session_id < 2 ^ 32
    → 0 < length random
    → parse_refresh_token (refresh_token_for_session session_id random) ≡ some (session_id, random)
unfolding refresh_token_for_session decimal
parse_refresh_token-refresh_token_for_session session_id random pos bound some_random =
    let (e, l, a) = digits_lem (suc session_id) session_id (omega arith) in
    parse_found session_id (digits (suc session_id) session_id) random a l
      (parse_uint32_lem session_id (digits (suc session_id) session_id) e l bound) pos some_random
