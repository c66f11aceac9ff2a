-- ===== src/Access/MediaToken/Laws.antt =====
-- What a media token is good for.
use mathlib.Core.List.{append_assoc}
use music_online_go.Prelude.{
  ap, ◌∙◌, ◌*◌, ltb, suc, arith, ◌&&◌, length, [], ◌∷◌, some, ◌^◌, false, true, ◌==◌, ◌++◌, ◌≡◌,
  ◌<◌, ℕ, All, refl,
}
use music_online_go.Accounts.Store.{Runes}
use music_online_go.Accounts.Tokens.{decimal, parse_digits}
use music_online_go.Accounts.Tokens.Parsing.{digits_lem}
use music_online_go.Access.MediaToken.{
  token_version, check_parts, is_signed, payload_of, parse_expiry, parse_below, issue, split_dots,
  runes_eq, Signer, validate,
}

-- No dot in a part.
abbrev pub IsPlain : Runes → Type 0
IsPlain part = All (λ b. (b == 0x2e) ≡ false) part

-- What the code relies on in its libraries: encoded text is decoded to what it was made from, and it
-- has no dot.
pub record IsCodec (signer : Signer) : Type 0 where
  pub decoded : (bytes : Runes) → signer.decode (signer.encode bytes) ≡ some bytes
  pub plain : (bytes : Runes) → IsPlain (signer.encode bytes)

split_part :
    (part rest : Runes) → IsPlain part → split_dots (part ++ 0x2e ∷ rest) ≡ part ∷ split_dots rest
unfolding split_dots
split_part [] rest h = refl
split_part (b ∷ bs) rest h = rw (h.0, split_part bs rest h.1) refl

split_last : (part : Runes) → IsPlain part → split_dots part ≡ part ∷ []
unfolding split_dots
split_last [] h = refl
split_last (b ∷ bs) h = rw (h.0, split_last bs h.1) refl

runes_eq_refl : (xs : Runes) → runes_eq xs xs ≡ true
unfolding runes_eq
runes_eq_refl [] = refl
runes_eq_refl (x ∷ xs) = ground (arith, runes_eq_refl xs)

parse_below_lem :
    (bound n : ℕ) (xs : Runes)
    → n < bound
    → parse_digits 0 xs ≡ some n
    → 0 < length xs
    → parse_below bound xs ≡ some n
unfolding parse_below
parse_below_lem bound n [] h e l = absurd (omega (arith, l))
parse_below_lem bound n (x ∷ xs) h e l = rw (parse_below, e, below) refl
  where
    below : ltb n bound ≡ true
    below = ground arith

-- A number that begins with a digit has no sign.
parse_expiry_lem :
    (n : ℕ) (xs : Runes)
    → n < 2 ^ 63
    → parse_digits 0 xs ≡ some n
    → 0 < length xs
    → parse_expiry xs ≡ some n
unfolding parse_expiry parse_digits
parse_expiry_lem n [] h e l = absurd (omega (arith, l))
parse_expiry_lem n (x ∷ xs) h e l =
    rw (parse_expiry, unsigned.0, unsigned.1) (parse_below_lem (2 ^ 63) n (x ∷ xs) h e l)
  where
    unsigned : ((x == 0x2b) ≡ false) × ((x == 0x2d) ≡ false)
    unsigned = (ground (arith, e), ground (arith, e))

decimal_lem :
    (n : ℕ) → (parse_digits 0 (decimal n) ≡ some n) × (0 < length (decimal n)) × IsPlain (decimal n)
unfolding decimal
decimal_lem n = digits_lem (suc n) n (omega arith)

split_first :
    (part rest more : Runes)
    → IsPlain part
    → split_dots ((part ++ 0x2e ∷ rest) ++ more) ≡ part ∷ split_dots (rest ++ more)
split_first part rest more h =
    ap split_dots (append_assoc part (0x2e ∷ rest) more) ∙ split_part part (rest ++ more) h

split_five :
    (v i k e s : Runes)
    → IsPlain v
    → IsPlain i
    → IsPlain k
    → IsPlain e
    → IsPlain s
    → split_dots ((v ++ 0x2e ∷ (i ++ 0x2e ∷ (k ++ 0x2e ∷ e))) ++ 0x2e ∷ s) ≡ v ∷ i ∷ k ∷ e ∷ s ∷ []
split_five v i k e s hv hi hk he hs =
    split_first v _ _ hv
    ∙ ap (λ r. v ∷ r)
        (split_first i _ _ hi
          ∙ ap (λ r. i ∷ r)
              (split_first k _ _ hk
                ∙ ap (λ r. k ∷ r) (split_part e s he ∙ ap (λ r. e ∷ r) (split_last s hs))))

-- A token that was issued is accepted for its own music and kind, and before it expires, and for
-- nothing else.
pub validate-issue :
    (signer : Signer) (secret : Runes) (music_id asked_id expires now : ℕ) (kind asked_kind : Runes)
    → IsCodec signer
    → music_id < 2 ^ 64
    → expires < 2 ^ 63
    → IsPlain kind
    → validate signer (issue signer secret music_id kind expires) secret asked_id asked_kind now
      ≡ (runes_eq kind asked_kind && (music_id == asked_id) && ltb now (expires * 10 ^ 9))
unfolding validate issue payload_of
validate-issue signer secret music_id asked_id expires now kind asked_kind codec small soon plain =
    ap (check_parts signer secret asked_id asked_kind now) (
      split_five token_version (decimal music_id) kind (decimal expires) signature
        (refl, (refl, tt)) id.2 plain time.2 (codec.plain (signer.hmac secret payload)))
    ∙ checked
  where
    payload : Runes
    payload = payload_of music_id kind expires

    signature : Runes
    signature = signer.encode (signer.hmac secret payload)

    id :
        (parse_digits 0 (decimal music_id) ≡ some music_id)
        × (0 < length (decimal music_id))
        × IsPlain (decimal music_id)
    id = decimal_lem music_id

    time :
        (parse_digits 0 (decimal expires) ≡ some expires)
        × (0 < length (decimal expires))
        × IsPlain (decimal expires)
    time = decimal_lem expires

    signed : is_signed signer secret payload signature ≡ true
    signed =
        rw (is_signed, codec.decoded (signer.hmac secret payload))
          (runes_eq_refl (signer.hmac secret payload))

    checked :
        check_parts signer secret asked_id asked_kind now
          (token_version ∷ decimal music_id ∷ kind ∷ decimal expires ∷ signature ∷ [])
        ≡ (runes_eq kind asked_kind && (music_id == asked_id) && ltb now (expires * 10 ^ 9))
    checked =
        rw
          (
            parse_below_lem (2 ^ 64) music_id (decimal music_id) small id.0 id.1,
            parse_expiry_lem expires (decimal expires) soon time.0 time.1,
            signed,
            runes_eq_refl token_version,
          )
          (ground arith)
