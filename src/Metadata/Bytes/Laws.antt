-- ===== src/Metadata/Bytes/Laws.antt =====
-- Reading back what was written at an offset.
use music_online_go.Prelude.{
  length-append, drop-append, some, [], arith, ◌∷◌, ◌≡◌, length, ◌/◌, ◌++◌, ◌%◌, ℕ,
}
use music_online_go.Metadata.Bytes.{
  Bytes, little_endian, little_endian_at, big_endian, big_endian_at,
}

-- the four bytes of a number, most or least significant first
unfoldable pub be32 : ℕ → Bytes
be32 n = n / 16777216 ∷ (n / 65536 % 256) ∷ (n / 256 % 256) ∷ (n % 256) ∷ []

unfoldable pub le32 : ℕ → Bytes
le32 n = (n % 256) ∷ (n / 256 % 256) ∷ (n / 65536 % 256) ∷ (n / 16777216) ∷ []

big_endian-be32 : (n : ℕ) (rest : Bytes) → big_endian (be32 n ++ rest) ≡ n
unfolding big_endian be32
big_endian-be32 n rest = omega arith

little_endian-le32 : (n : ℕ) (rest : Bytes) → little_endian (le32 n ++ rest) ≡ n
unfolding little_endian le32
little_endian-le32 n rest = omega arith

-- A length field is read back at its offset.
pub big_endian_at-append :
    (body before : Bytes) (n : ℕ) (rest : Bytes) {offset : ℕ}
    → body ≡ before ++ (be32 n ++ rest)
    → offset ≡ length before
    → big_endian_at body offset ≡ some n
unfolding big_endian_at
big_endian_at-append body before n rest e o =
    rw (e, o, drop-append before (be32 n ++ rest), big_endian-be32 n rest)
      (unfold be32 in ground (arith, length-append before (be32 n ++ rest)))

pub little_endian_at-append :
    (body before : Bytes) (n : ℕ) (rest : Bytes) {offset : ℕ}
    → body ≡ before ++ (le32 n ++ rest)
    → offset ≡ length before
    → little_endian_at body offset ≡ some n
unfolding little_endian_at
little_endian_at-append body before n rest e o =
    rw (e, o, drop-append before (le32 n ++ rest), little_endian-le32 n rest)
      (unfold le32 in ground (arith, length-append before (le32 n ++ rest)))
